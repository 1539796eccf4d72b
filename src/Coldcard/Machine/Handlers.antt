-- ===== src/Coldcard/Machine/Handlers.antt =====
-- bhwi/src/coldcard/mod.rs, `exchange`: what a state does with a response. A handler gets the decrypted
-- data and gives the state after it, with what to send, or nothing, or the error: the state of the
-- code after an error is the one beside it.
use bhwi.Prelude.{
  ℕ, Bool, true, false, List, [], Option, none, some, if◌then◌else◌, bytes_eq, ok, err, panic,
  diverge, ensure, ◌>>=◌, ◌>>◌, ok_or,
}
use bhwi.Coldcard.Bitcoin.{Bitcoin}
use bhwi.Coldcard.Request
use bhwi.Coldcard.Request.{max_upload_chunk_len}
use bhwi.Coldcard.Response.{
  Parsed, serialization, upload_offset, upload_too_large, upload_sha_mismatch, empty_chunk,
  download_length, download_sha_mismatch, bad_psbt, ColdcardResponse, done, busy_response,
  wallet_registration_pending, signed_psbt, no_error_or_result, SignedTransactionStatus, pending,
  complete,
}
use bhwi.Coldcard.Response
use bhwi.Coldcard.Response.Parsers
use bhwi.Coldcard.Machine.{
  ColdcardCommand, ColdcardTransmit, UploadAction, to_sign, to_register, FileDownloadResponse,
  backup_file, signed_file, State, signing_psbt, enrolling_wallet, polling_signed_psbt,
  polling_backup_file, running, uploading_file, verifying_file_upload, downloading_file, finished,
  u32_or, file_upload_request, download_request, Machine, request,
}
use bhwi.Coldcard.Machine

abbrev pub Answer : Bitcoin → Type 0
Answer b = State b × Parsed (Option (List ℕ))

-- `call?` and what follows it: the state stays when the call fails.
abbrev pub after {ℓ} : {b : Bitcoin} {A : Type ℓ} → State b → Parsed A → (A → Answer b) → Answer b
after s (ok a) next = next a
after s (err e) next = (s, err e)
after s panic next = (s, panic)
after s diverge next = (s, diverge)

abbrev pub keep : {b : Bitcoin} → State b → Parsed (State b × Option (List ℕ)) → Answer b
keep s (ok (s', payload)) = (s', ok payload)
keep s (err e) = (s, err e)
keep s panic = (s, panic)
keep s diverge = (s, diverge)

module _ (b : Bitcoin) where
  -- `self.state = State::Finished(parse(&data)?); Ok(None)`.
  abbrev finish : State b → Parsed (ColdcardResponse b) → Answer b
  finish s call = keep s (call >>= λ r. ok (finished r, none))

  -- `if let ColdcardResponse::Ok | ColdcardResponse::Busy = res`.
  abbrev in_progress : ColdcardResponse b → Bool
  in_progress done = true
  in_progress busy_response = true
  in_progress _ = false

  unfoldable pub on_sign_message : State b → List ℕ → Answer b
  on_sign_message s bytes = keep s (do
    res ← Parsers.sign_message b bytes
    if in_progress res then ok (s, some Request.get_signed_message) else ok (finished res, none))

  unfoldable pub on_backup : State b → List ℕ → Answer b
  on_backup s bytes = keep s (do
    res ← Parsers.sign_transaction b bytes
    if in_progress res
        then ok (polling_backup_file, some Request.get_backup_file)
        else ok (s, none))

  -- The states `Running(command)`, of the commands that are answered under encryption.
  unfoldable pub on_running : State b → ColdcardCommand b → List ℕ → Answer b
  on_running s Machine.get_version bytes = finish s (Parsers.version b bytes)
  on_running s Machine.get_master_fingerprint bytes = finish s (Parsers.fingerprint b bytes)
  on_running s (Machine.get_xpub path) bytes = finish s (Parsers.get_xpub b bytes)
  on_running s (Machine.sign_message message path) bytes = on_sign_message s bytes
  on_running s Machine.start_encryption bytes = finish s (Parsers.my_public b bytes)
  on_running s Machine.backup bytes = on_backup s bytes
  on_running s (Machine.show_address path addr_fmt) bytes = finish s (Parsers.show_address b bytes)
  on_running s (Machine.show_p2sh_address a) bytes = finish s (Parsers.show_address b bytes)
  on_running s (Machine.miniscript_address name change index) bytes =
      finish s (Parsers.miniscript_address b bytes)
  on_running s (Machine.sign_psbt psbt) bytes = (s, panic)
  on_running s (Machine.register_wallet payload) bytes = (s, panic)

  -- The `match action` once the hashes agree.
  unfoldable pub confirm : ℕ → List ℕ → UploadAction → State b × Option (List ℕ)
  confirm len sha to_sign = (signing_psbt, some (Request.sign_transaction len sha))
  confirm len sha to_register = (enrolling_wallet, some (Request.multisig_enroll len sha))

  unfoldable pub on_verifying : ℕ → List ℕ → UploadAction → List ℕ → Answer b
  on_verifying len expected_sha action bytes =
      keep (verifying_file_upload len expected_sha action) (do
        actual_sha ← Parsers.sha256 bytes
        ensure (bytes_eq actual_sha expected_sha) (serialization upload_sha_mismatch)
        u32_or len (serialization upload_too_large)
        ok (confirm len expected_sha action))

  unfoldable pub on_signing : List ℕ → Answer b
  on_signing bytes = keep signing_psbt (do
    res ← Parsers.sign_transaction b bytes
    if in_progress res
        then ok (polling_signed_psbt, some Request.get_signed_transaction)
        else ok (signing_psbt, none))

  unfoldable pub on_enrolling : List ℕ → Answer b
  on_enrolling bytes =
      keep enrolling_wallet
        (do Parsers.check_okay bytes; ok (finished wallet_registration_pending, none))

  -- A `u32` fits in a `usize`.
  unfoldable pub polled :
      State b
      → List ℕ
      → FileDownloadResponse
      → ℕ
      → SignedTransactionStatus
      → Parsed (State b × Option (List ℕ))
  polled s again response file_number pending = ok (s, some again)
  polled s again response file_number (complete total_len sha) = do
    payload ← download_request 0 total_len file_number
    ok (downloading_file response file_number sha [] 0 total_len, some payload)

  unfoldable pub on_polling_psbt : List ℕ → Answer b
  on_polling_psbt bytes = keep polling_signed_psbt (do
    status ← Parsers.signed_transaction bytes
    polled polling_signed_psbt Request.get_signed_transaction signed_file 1 status)

  unfoldable pub on_polling_backup : List ℕ → Answer b
  on_polling_backup bytes = keep polling_backup_file (do
    status ← Parsers.signed_transaction bytes
    polled polling_backup_file Request.get_backup_file backup_file 0 status)

  unfoldable pub file_response : FileDownloadResponse → List ℕ → Parsed (ColdcardResponse b)
  file_response backup_file bytes = ok (Response.backup bytes)
  file_response signed_file bytes = do
    signed ← ok_or (b.deserialize bytes) (serialization bad_psbt)
    ok (signed_psbt signed)
