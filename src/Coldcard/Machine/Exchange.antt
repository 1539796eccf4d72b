-- ===== src/Coldcard/Machine/Exchange.antt =====
-- bhwi/src/coldcard/mod.rs, `exchange` and `end`.
use bhwi.Prelude.{
  ℕ, Bool, true, false, List, Option, none, some, if◌then◌else◌, ok, err, panic, diverge,
}
use bhwi.Coldcard.Bitcoin.{Bitcoin}
use bhwi.Coldcard.Response.{Parsed, ColdcardResponse, no_error_or_result}
use bhwi.Coldcard.Encrypt.{Cipher, Engine, decrypt}
use bhwi.Coldcard.Machine.{
  ColdcardCommand, ColdcardTransmit, UploadAction, to_sign, to_register, FileDownloadResponse,
  backup_file, signed_file, State, signing_psbt, enrolling_wallet, polling_signed_psbt,
  polling_backup_file, running, uploading_file, verifying_file_upload, downloading_file, finished,
  u32_or, file_upload_request, download_request, Machine, request,
}
use bhwi.Coldcard.Machine
use bhwi.Coldcard.Machine.Handlers.{
  Answer, on_running, on_verifying, on_signing, on_enrolling, on_polling_psbt, on_polling_backup,
}
use bhwi.Coldcard.Machine.Files.{on_uploading, on_downloading}

module _ (b : Bitcoin) where
  module _ (c : Cipher) where
    unfoldable pub handle : State b → List ℕ → Answer b
    unfolding on_running on_uploading on_verifying on_signing on_enrolling on_polling_psbt
        on_polling_backup on_downloading
    handle Machine.new bytes = (Machine.new, ok none)
    handle (running command) bytes = on_running b (running command) command bytes
    handle (uploading_file file offset action) bytes = on_uploading b c file offset action bytes
    handle (verifying_file_upload len sha action) bytes = on_verifying b len sha action bytes
    handle signing_psbt bytes = on_signing b bytes
    handle enrolling_wallet bytes = on_enrolling b bytes
    handle polling_signed_psbt bytes = on_polling_psbt b bytes
    handle polling_backup_file bytes = on_polling_backup b bytes
    handle (downloading_file response file_number sha file offset total_len) bytes =
        on_downloading b c response file_number sha file offset total_len bytes
    handle (finished r) bytes = (finished r, ok none)

    abbrev pub Exchanged : Type 0
    Exchanged = Machine b c × Parsed (Option ColdcardTransmit)

    -- `Ok(Some(request(payload, self.encryption)?.into()))`.
    abbrev transmit : State b → Engine c → Parsed (Engine c × ColdcardTransmit) → Exchanged
    transmit s engine (ok (engine', t)) = (record { state = s; encryption = engine' }, ok (some t))
    transmit s engine (err e) = (record { state = s; encryption = engine }, err e)
    transmit s engine panic = (record { state = s; encryption = engine }, panic)
    transmit s engine diverge = (record { state = s; encryption = engine }, diverge)

    abbrev pub conclude : Engine c → Answer b → Exchanged
    conclude engine (s, ok none) = (record { state = s; encryption = engine }, ok none)
    conclude engine (s, ok (some payload)) = transmit s engine (request b c engine payload)
    conclude engine (s, err e) = (record { state = s; encryption = engine }, err e)
    conclude engine (s, panic) = (record { state = s; encryption = engine }, panic)
    conclude engine (s, diverge) = (record { state = s; encryption = engine }, diverge)

    abbrev pub with_data : Machine b c → Parsed (Engine c × List ℕ) → Exchanged
    with_data m (ok (engine, bytes)) = conclude engine (handle m.state bytes)
    with_data m (err e) = (m, err e)
    with_data m panic = (m, panic)
    with_data m diverge = (m, diverge)

    -- The states that do not decrypt what the device sends: the answer to START_ENCRYPTION comes in the
    -- clear, and the others do not look at it.
    unfoldable pub is_plain : State b → Bool
    is_plain Machine.new = true
    is_plain (finished r) = true
    is_plain (running Machine.start_encryption) = true
    is_plain (running (Machine.sign_psbt psbt)) = true
    is_plain (running (Machine.register_wallet payload)) = true
    is_plain _ = false

    unfoldable pub exchange : Machine b c → List ℕ → Exchanged
    exchange m bytes =
        if is_plain m.state
        then conclude m.encryption (handle m.state bytes)
        else with_data m (decrypt c m.encryption bytes)

    abbrev result : State b → Parsed (ColdcardResponse b)
    result (finished r) = ok r
    result _ = err no_error_or_result

    unfoldable pub end : Machine b c → Parsed (ColdcardResponse b)
    end m = result m.state
