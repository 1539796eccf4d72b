-- ===== src/Coldcard/Machine/Safety.antt =====
-- bhwi/src/coldcard/mod.rs: what holds whatever the device sends.
use bhwi.Prelude.{
  ◌>>=◌, ◌>>◌, ensure, ◌^◌, bytes_eq, ℕ, ◌+◌, ◌≤◌, ◌<◌, ◌≡◌, refl, sym, ap, ◌∙◌, List, [], ◌∷◌,
  ◌++◌, Option, some, length, ok, err, panic, diverge, arith, bytes_eq→eq, length-append,
}
use bhwi.Coldcard.Bitcoin.{Bitcoin}
use bhwi.Coldcard.Response.Tags.{tagged, parse_response-tagged}
use bhwi.Coldcard.Response.{
  serialization, upload_sha_mismatch, upload_too_large, smrx, Parsed, ColdcardResponse,
}
use bhwi.Coldcard.Response.Parsers
use bhwi.Coldcard.Request
use bhwi.Prelude.Bytes.{u32_le}
use bhwi.Coldcard.Encrypt.{Cipher}
use bhwi.Coldcard.Machine
use bhwi.Coldcard.Machine.{
  State, UploadAction, FileDownloadResponse, uploading_file, downloading_file, finished, running,
  ColdcardCommand, file_upload_request, download_request,
}
use bhwi.Coldcard.Machine.Handlers
use bhwi.Coldcard.Machine.Handlers.{file_response, Answer, after, keep}
use bhwi.Coldcard.Machine.Files.{on_uploading, on_downloading, received, on_downloaded}
use bhwi.Coldcard.Machine.Exchange.{handle}

-- The offset is where the file's next piece begins, and within the file; a command that begins with an
-- upload is not in the state `Running`.
abbrev pub Valid : {b : Bitcoin} → State b → Type 0
Valid (uploading_file bytes offset action) = offset ≤ length bytes
Valid (downloading_file response number sha bytes offset total) =
    (offset ≡ length bytes) × (offset ≤ total)
Valid (running (Machine.sign_psbt psbt)) = ⊥
Valid (running (Machine.register_wallet payload)) = ⊥
Valid _ = Unit {0}

after-eq-ok {ℓ} :
    {b : Bitcoin} {A : Type ℓ} (s : State b) (call : Parsed A) (next : A → Answer b) {s' : State b}
    {sent : Option (List ℕ)}
    → after s call next ≡ (s', ok sent)
    → (a : A) × (call ≡ ok a) × (next a ≡ (s', ok sent))
after-eq-ok s (ok a) next h = (a, refl, h)
after-eq-ok s (err e) next h = cc
after-eq-ok s panic next h = cc
after-eq-ok s diverge next h = cc

module _ (b : Bitcoin) (c : Cipher) where
  on_downloaded_checked :
      (response : FileDownloadResponse) (sha bytes : List ℕ) (offset total : ℕ)
      {r : ColdcardResponse b}
      → on_downloaded b c response sha bytes offset total ≡ ok r
      → (offset ≡ total) × (c.sha256 bytes ≡ sha) × (file_response b response bytes ≡ ok r)
  unfolding on_downloaded
  on_downloaded_checked response sha bytes offset total h =
      let e = bytes_eq→eq (c.sha256 bytes) sha in ground arith

  received_checked :
      (response : FileDownloadResponse) (number : ℕ) (sha bytes : List ℕ) (offset total : ℕ)
      (chunk : List ℕ) {r : ColdcardResponse b} {sent : Option (List ℕ)}
      → received b c response number sha bytes offset total chunk ≡ (finished r, ok sent)
      → (offset + length chunk ≡ total)
        × (c.sha256 (bytes ++ chunk) ≡ sha)
        × (file_response b response (bytes ++ chunk) ≡ ok r)
  unfolding received
  received_checked response number sha bytes offset total [] h = ground arith
  received_checked response number sha bytes offset total (x ∷ xs) {r = r} {sent = sent} h =
      let d =
        on_downloaded_checked response sha (bytes ++ (x ∷ xs)) (offset + length (x ∷ xs)) total
          {r = r} in
      ground arith

  joined :
      (response : FileDownloadResponse) (number : ℕ) (sha bytes : List ℕ) (offset total : ℕ)
      (chunk : List ℕ) (r : ColdcardResponse b) (sent : Option (List ℕ))
      → offset ≡ length bytes
      → received b c response number sha bytes offset total chunk ≡ (finished r, ok sent)
      → (file : List ℕ) × (length file ≡ total)
        × (c.sha256 file ≡ sha)
        × (file_response b response file ≡ ok r)
  joined response number sha bytes offset total chunk r sent v h =
      let (n, s, f) = received_checked response number sha bytes offset total chunk h in
      (bytes ++ chunk, length-append bytes chunk ∙ (ap (λ o. o + length chunk) (sym v) ∙ n), s, f)

  -- Whatever the device sends, a download only finishes with a file that has the announced length and
  -- the announced hash: the result is that file, read as what was asked for.
  pub finished_checked :
      (response : FileDownloadResponse) (number : ℕ) (sha bytes : List ℕ) (offset total : ℕ)
      (data_ : List ℕ) (r : ColdcardResponse b) (sent : Option (List ℕ))
      → offset ≡ length bytes
      → handle b c (downloading_file response number sha bytes offset total) data_
        ≡ (finished r, ok sent)
      → (file : List ℕ) × (length file ≡ total)
        × (c.sha256 file ≡ sha)
        × (file_response b response file ≡ ok r)
  unfolding handle on_downloading
  finished_checked response number sha bytes offset total data_ r sent v h =
      let (chunk, d, e) =
        after-eq-ok (downloading_file response number sha bytes offset total)
          (Parsers.download data_) (received b c response number sha bytes offset total) h in
      joined response number sha bytes offset total chunk r sent v e

  -- A signed message whose data ends before the length of the address makes `exchange` panic.
  pub sign_message_panics :
      (message path data_ : List ℕ)
      → length data_ < 4
      → (handle b c (running (Machine.sign_message message path)) (tagged smrx data_)).1 ≡ panic
  unfolding handle Handlers.on_running Handlers.on_sign_message Parsers.sign_message Parsers.signing
      Parsers.message_signature
  sign_message_panics message path data_ h =
      let p = parse_response-tagged smrx data_ in ground arith

  verifying_ok :
      (len : ℕ) (sha : List ℕ) (action : UploadAction) (call : Parsed (List ℕ)) (s : State b)
      (sent : Option (List ℕ))
      → keep (Machine.verifying_file_upload len sha action) (
          call >>= λ actual.
          ensure (bytes_eq actual sha) (serialization upload_sha_mismatch)
          >> (Machine.u32_or len (serialization upload_too_large)
              >> ok (Handlers.confirm b len sha action)))
        ≡ (s, ok sent)
      → (call ≡ ok sha) × (len < 2 ^ 32) × (Handlers.confirm b len sha action ≡ (s, sent))
  verifying_ok len sha action (ok actual) s sent h = let e = bytes_eq→eq actual sha in ground arith
  verifying_ok len sha action (err e) s sent h = absurd cc
  verifying_ok len sha action panic s sent h = absurd cc
  verifying_ok len sha action diverge s sent h = absurd cc

  -- What an upload was made for: the state that waits for the answer, and the request with the length of
  -- the file and its hash.
  abbrev pub Confirmed : UploadAction → ℕ → List ℕ → State b → Option (List ℕ) → Type 0
  Confirmed Machine.to_sign len sha s sent =
      (s ≡ Machine.signing_psbt)
      × (sent ≡ some (115 ∷ 116 ∷ 120 ∷ 110 ∷ (u32_le len ++ (u32_le 0 ++ sha))))
  Confirmed Machine.to_register len sha s sent =
      (s ≡ Machine.enrolling_wallet) × (sent ≡ some (101 ∷ 110 ∷ 114 ∷ 108 ∷ (u32_le len ++ sha)))

  -- The state after the last piece has the length of the file and its hash.
  uploaded :
      (file : List ℕ) (offset : ℕ) (action : UploadAction) (ack : List ℕ) (len : ℕ) (sha : List ℕ)
      (action' : UploadAction) (sent : Option (List ℕ))
      → on_uploading b c file offset action ack
        ≡ (Machine.verifying_file_upload len sha action', ok sent)
      → (len ≡ length file) × (sha ≡ c.sha256 file) × (action' ≡ action)
  unfolding on_uploading
  uploaded file offset action ack len sha action' sent h = ground arith

  -- Whatever the device sends: when an upload of a file has led to the state that verifies it, the
  -- interpreter only goes on from there when the hash that came is the hash of that file. It then asks
  -- to sign or to register, whichever the upload was made for, with the file's length and hash.
  pub verifying_checked :
      (file : List ℕ) (offset : ℕ) (action : UploadAction) (ack : List ℕ) (len : ℕ) (sha : List ℕ)
      (action' : UploadAction) (asked : Option (List ℕ)) (bytes : List ℕ) (s : State b)
      (sent : Option (List ℕ))
      → handle b c (uploading_file file offset action) ack
        ≡ (Machine.verifying_file_upload len sha action', ok asked)
      → handle b c (Machine.verifying_file_upload len sha action') bytes ≡ (s, ok sent)
      → (Parsers.sha256 bytes ≡ ok (c.sha256 file))
        × (length file < 2 ^ 32)
        × Confirmed action (length file) (c.sha256 file) s sent
  unfolding handle Handlers.on_verifying Handlers.confirm Request.sign_transaction
      Request.multisig_enroll
  verifying_checked file offset Machine.to_sign ack len sha action' asked bytes s sent u h =
      let (l, d, a) = uploaded file offset Machine.to_sign ack len sha action' asked u in
      let (e, n, t) =
        verifying_ok (length file) (c.sha256 file) Machine.to_sign (Parsers.sha256 bytes) s sent
          (rw (l, d, a) at h) in
      (e, n, (cc, cc))
  verifying_checked file offset Machine.to_register ack len sha action' asked bytes s sent u h =
      let (l, d, a) = uploaded file offset Machine.to_register ack len sha action' asked u in
      let (e, n, t) =
        verifying_ok (length file) (c.sha256 file) Machine.to_register (Parsers.sha256 bytes) s sent
          (rw (l, d, a) at h) in
      (e, n, (cc, cc))
