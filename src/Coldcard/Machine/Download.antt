-- ===== src/Coldcard/Machine/Download.antt =====
-- bhwi/src/coldcard/mod.rs: a download from a device that serves the pieces it is asked for.
use bhwi.Prelude.{
  ℕ, zero, suc, ◌+◌, ◌-◌, ◌≤◌, ◌<◌, ◌^◌, ◌≡◌, refl, ap, min, List, [], ◌∷◌, ◌++◌, Option, none,
  some, ltb, inl, inr, Bool-cases, ltb→lt, ltb→ge, length, take, take_all, ok, arith, bytes_eq_refl,
}
use bhwi.Prelude.Slices.{slice, take-add, length-slice}
use bhwi.Prelude.Bytes.{u32_le, u32_of_le, u32_of_be-u32_be}
use bhwi.Coldcard.Bitcoin.{Bitcoin}
use bhwi.Coldcard.Request
use bhwi.Coldcard.Response
use bhwi.Coldcard.Response.{
  complete, biny, strx, tag, same, expect_response, decode_u32, split, ColdcardResponse,
}
use bhwi.Coldcard.Response.Parsers
use bhwi.Coldcard.Response.Tags.{tagged, parse_response-tagged}
use bhwi.Coldcard.Encrypt.{Cipher}
use bhwi.Coldcard.Machine.{
  State, FileDownloadResponse, backup_file, downloading_file, polling_backup_file,
  polling_signed_psbt, signed_file, finished, download_request,
}
use bhwi.Coldcard.Machine.Handlers.{keep, file_response, polled, on_polling_backup, on_polling_psbt}
use bhwi.Coldcard.Machine.Files.{on_downloading, received, on_downloaded}
use bhwi.Coldcard.Machine.Exchange.{handle}

-- A device that serves the piece of the file which a request asks for.
unfoldable pub serve : List ℕ → List ℕ → Option (List ℕ)
serve file (d ∷ w ∷ l ∷ d' ∷ o ∷ o' ∷ o'' ∷ o''' ∷ n ∷ n' ∷ n'' ∷ n''' ∷ number) =
    some (tagged biny (slice (u32_of_le o o' o'' o''') (u32_of_le n n' n'' n''') file))
serve file _ = none

module _ (b : Bitcoin) (c : Cipher) where
  -- The interpreter's state and its request, and the state once it has nothing more to ask.
  pub data Fetches (file : List ℕ) : State b → List ℕ → State b → Type 0 where
    last :
        {s s' : State b} {request response : List ℕ}
        → serve file request ≡ some response
        → handle b c s response ≡ (s', ok none)
        → Fetches file s request s'
    more :
        {s s' s'' : State b} {request request' response : List ℕ}
        → serve file request ≡ some response
        → handle b c s response ≡ (s', ok (some request'))
        → Fetches file s' request' s''
        → Fetches file s request s''

abbrev request_at : ℕ → ℕ → ℕ → List ℕ
request_at number offset total =
    100 ∷ 119 ∷ 108 ∷ 100 ∷ (u32_le offset ++ (u32_le (min 2048 (total - offset)) ++ u32_le number))

serve-request_at :
    (file : List ℕ) (number offset : ℕ)
    → offset ≤ length file
    → length file < 2 ^ 32
    → serve file (request_at number offset (length file))
      ≡ some (tagged biny (slice offset (min 2048 (length file - offset)) file))
unfolding serve
serve-request_at file number offset h k =
    let o = u32_of_be-u32_be offset (omega arith) in
    let n = u32_of_be-u32_be (min 2048 (length file - offset)) (omega arith) in rw (o, n) refl

download_request_lem :
    (offset total number : ℕ)
    → offset ≤ total
    → total < 2 ^ 32
    → download_request offset total number ≡ ok (request_at number offset total)
unfolding download_request Request.download
download_request_lem offset total number h k = ground arith

download-biny : (bytes : List ℕ) → Parsers.download (tagged biny bytes) ≡ ok bytes
unfolding Parsers.download expect_response same tag
download-biny bytes = rw (parse_response-tagged biny bytes) refl

module _ (b : Bitcoin) (c : Cipher) (response : FileDownloadResponse) (number : ℕ)
    (sha : List ℕ) where
  -- A piece that is not the last one.
  received_more :
      (bytes chunk : List ℕ) (offset total : ℕ)
      → 1 ≤ length chunk
      → offset + length chunk < total
      → total < 2 ^ 32
      → handle b c (downloading_file response number sha bytes offset total) (tagged biny chunk) ≡ (
        downloading_file response number sha (bytes ++ chunk) (offset + length chunk) total,
        ok (some (request_at number (offset + length chunk) total)),
      )
  unfolding handle on_downloading received
  received_more bytes [] offset total h k l = absurd (omega arith)
  received_more bytes (x ∷ xs) offset total h k l =
      let d = download-biny (x ∷ xs) in
      let r = download_request_lem (offset + length (x ∷ xs)) total number (omega arith) l in
      ground arith

  -- The last piece, of a file with the hash that was announced.
  received_last :
      (bytes chunk : List ℕ) (offset total : ℕ) (r : ColdcardResponse b)
      → 1 ≤ length chunk
      → offset + length chunk ≡ total
      → c.sha256 (bytes ++ chunk) ≡ sha
      → file_response b response (bytes ++ chunk) ≡ ok r
      → handle b c (downloading_file response number sha bytes offset total) (tagged biny chunk)
        ≡ (finished r, ok none)
  unfolding handle on_downloading received on_downloaded
  received_last bytes [] offset total r h k e f = absurd (omega arith)
  received_last bytes (x ∷ xs) offset total r h k e f =
      let d = download-biny (x ∷ xs) in let t = bytes_eq_refl sha in ground arith

abbrev piece : List ℕ → ℕ → List ℕ
piece file offset = slice offset (min 2048 (length file - offset)) file

length-piece :
    (file : List ℕ) (offset : ℕ)
    → offset ≤ length file
    → length (piece file offset) ≡ min 2048 (length file - offset)
length-piece file offset h =
    length-slice offset (min 2048 (length file - offset)) file (omega arith)

take-piece :
    (file : List ℕ) (offset : ℕ)
    → offset ≤ length file
    → take offset file ++ piece file offset ≡ take (offset + length (piece file offset)) file
take-piece file offset h =
    rw (length-piece file offset h, take-add offset (min 2048 (length file - offset)) file) refl

module _ (b : Bitcoin) (c : Cipher) (response : FileDownloadResponse) (number : ℕ) (file : List ℕ)
    (r : ColdcardResponse b) (k : length file < 2 ^ 32)
    (f : file_response b response file ≡ ok r) where
  abbrev state_at : ℕ → State b
  state_at offset =
      downloading_file response number (c.sha256 file) (take offset file) offset (length file)

  fetch_last :
      (offset : ℕ)
      → offset < length file
      → length file ≤ offset + 2048
      → Fetches b c file (state_at offset) (request_at number offset (length file)) (finished r)
  fetch_last offset h l =
      let n = length-piece file offset (omega arith) in
      let e : take offset file ++ piece file offset ≡ file =
        rw (take-piece file offset (omega arith)) (take_all _ file (omega arith)) in
      last (serve-request_at file number offset (omega arith) k) (
        received_last b c response number (c.sha256 file) (take offset file) (piece file offset)
          offset (length file) r (omega arith) (omega arith) (ap c.sha256 e) (rw e f))

  fetch_from :
      (fuel offset : ℕ)
      → length file ≤ offset + fuel
      → offset < length file
      → Fetches b c file (state_at offset) (request_at number offset (length file)) (finished r)
  fetch_from zero offset l h = absurd (omega arith)
  fetch_from (suc fuel) offset l h = elim (Bool-cases (ltb (offset + 2048) (length file))) [
    | inl e ↦
        let m = ltb→lt _ _ e in
        let n = length-piece file offset (omega arith) in
        more (serve-request_at file number offset (omega arith) k)
          (rw (take-piece file offset (omega arith)) at (
            received_more b c response number (c.sha256 file) (take offset file) (piece file offset)
              offset (length file) (omega arith) (omega arith) k))
          (fetch_from fuel (offset + length (piece file offset)) (omega arith) (omega arith))
    | inr e ↦ fetch_last offset h (ltb→ge _ _ e)
  ]

signed_transaction-strx :
    (n : ℕ) (sha : List ℕ)
    → n < 2 ^ 32
    → length sha ≡ 32
    → Parsers.signed_transaction (tagged strx (u32_le n ++ sha)) ≡ ok (complete n sha)
unfolding Parsers.signed_transaction Parsers.transaction_status split decode_u32 tag
signed_transaction-strx n sha h k =
    rw (parse_response-tagged strx (u32_le n ++ sha)) (let v = u32_of_be-u32_be n h in ground arith)

-- What the device announces: the length and the hash.
abbrev pub announced : Cipher → List ℕ → List ℕ
announced c file = tagged strx (u32_le (length file) ++ c.sha256 file)

module _ (b : Bitcoin) (c : Cipher) (file : List ℕ) (h : 0 < length file) (k : length file < 2 ^ 32)
    (l : length (c.sha256 file) ≡ 32) where
  polls :
      (s : State b) (again : List ℕ) (response : FileDownloadResponse) (number : ℕ)
      → polled b s again response number (complete (length file) (c.sha256 file))
        ≡ ok (
          downloading_file response number (c.sha256 file) [] 0 (length file),
          some (request_at number 0 (length file)),
        )
  unfolding polled
  polls s again response number =
      rw (download_request_lem 0 (length file) number (omega arith) k) refl

  -- When the device announces a backup of at least one and fewer than 2^32 bytes with its hash, the
  -- interpreter asks for it, and with a device that serves what is asked for it finishes with exactly
  -- those bytes.
  pub backup-Fetches :
      (s : State b) × (request : List ℕ) × (handle b c polling_backup_file (announced c file)
        ≡ (s, ok (some request)))
      × Fetches b c file s request (finished (Response.backup file))
  unfolding handle on_polling_backup file_response
  backup-Fetches = (
    downloading_file backup_file 0 (c.sha256 file) [] 0 (length file),
    request_at 0 0 (length file),
    rw (signed_transaction-strx (length file) (c.sha256 file) k l) (
        ap (keep polling_backup_file)
          (polls polling_backup_file Request.get_backup_file backup_file 0)),
    fetch_from b c backup_file 0 file (Response.backup file) k refl (length file) 0 (omega arith) h,
  )

  -- When the device announces a signed PSBT of at least one and fewer than 2^32 bytes with its hash,
  -- the interpreter asks for it, and with a device that serves what is asked for it finishes with the
  -- PSBT that those bytes are.
  pub psbt-Fetches :
      (psbt : b.Psbt)
      → b.deserialize file ≡ some psbt
      → (s : State b) × (request : List ℕ) × (handle b c polling_signed_psbt (announced c file)
          ≡ (s, ok (some request)))
        × Fetches b c file s request (finished (Response.signed_psbt psbt))
  unfolding handle on_polling_psbt file_response
  psbt-Fetches psbt e = (
    downloading_file signed_file 1 (c.sha256 file) [] 0 (length file),
    request_at 1 0 (length file),
    rw (signed_transaction-strx (length file) (c.sha256 file) k l) (
        ap (keep polling_signed_psbt)
          (polls polling_signed_psbt Request.get_signed_transaction signed_file 1)),
    fetch_from b c signed_file 1 file (Response.signed_psbt psbt) k (rw e refl) (length file) 0
        (omega arith) h,
  )
