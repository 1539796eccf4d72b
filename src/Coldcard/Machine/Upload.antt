-- ===== src/Coldcard/Machine/Upload.antt =====
-- bhwi/src/coldcard/mod.rs: an upload to a device that keeps the pieces in order.
use bhwi.Prelude.{
  ℕ, zero, suc, ◌+◌, ◌-◌, ◌≤◌, ◌<◌, ◌^◌, ◌≡◌, ap, min, List, [], ◌∷◌, ◌++◌, Option, none, some, ltb,
  ◌==◌, inl, inr, Bool-cases, ltb→lt, ltb→ge, if◌then◌else◌, length, take, length-take, take_all,
  ok, arith,
}
use bhwi.Prelude.Slices.{slice, take-add, length-slice}
use bhwi.Prelude.Bytes.{u32_le, u32_of_le, u32_of_be-u32_be}
use bhwi.Coldcard.Bitcoin.{Bitcoin}
use bhwi.Coldcard.Request
use bhwi.Coldcard.Request.{max_upload_chunk_len}
use bhwi.Coldcard.Response.{int1, tag, same, expect_response, decode_u32}
use bhwi.Coldcard.Response.Parsers
use bhwi.Coldcard.Response.Tags.{tagged, parse_response-tagged}
use bhwi.Coldcard.Encrypt.{Cipher}
use bhwi.Coldcard.Machine.{
  State, UploadAction, uploading_file, verifying_file_upload, file_upload_request,
}
use bhwi.Coldcard.Machine.Files.{on_uploading}
use bhwi.Coldcard.Machine.Exchange.{handle}

-- A device that appends the piece of an upload which comes next, and acknowledges its offset: what it
-- has stored, and its response.
unfoldable pub device : List ℕ → List ℕ → Option (List ℕ × List ℕ)
device stored (u ∷ p ∷ l ∷ d ∷ o ∷ o' ∷ o'' ∷ o''' ∷ t ∷ t' ∷ t'' ∷ t''' ∷ piece) =
    if u32_of_le o o' o'' o''' == length stored
    then some (stored ++ piece, tagged int1 (o ∷ o' ∷ o'' ∷ o''' ∷ []))
    else none
device stored _ = none

module _ (b : Bitcoin) (c : Cipher) where
  -- The interpreter's state, its request and what the device has stored before the request, and the
  -- same after some exchanges.
  pub data Delivers : State b → List ℕ → List ℕ → State b → List ℕ → List ℕ → Type 0 where
    here : {s : State b} {request stored : List ℕ} → Delivers s request stored s request stored
    exchanged :
        {s s' s'' : State b} {request request' request'' stored stored' stored'' response : List ℕ}
        → device stored request ≡ some (stored', response)
        → handle b c s response ≡ (s', ok (some request'))
        → Delivers s' request' stored' s'' request'' stored''
        → Delivers s request stored s'' request'' stored''

pub upload-int1 : (n : ℕ) → n < 2 ^ 32 → Parsers.upload (tagged int1 (u32_le n)) ≡ ok n
unfolding Parsers.upload expect_response decode_u32 same tag
upload-int1 n h = rw (parse_response-tagged int1 (u32_le n)) (ap ok (u32_of_be-u32_be n h))

abbrev piece_at : List ℕ → ℕ → List ℕ
piece_at bytes offset = slice offset (min (offset + 2048) (length bytes) - offset) bytes

pub file_upload_request_lem :
    (bytes : List ℕ) (offset : ℕ)
    → offset ≤ length bytes
    → length bytes < 2 ^ 32
    → file_upload_request bytes offset
      ≡ ok (
          117
          ∷ 112
          ∷ 108
          ∷ 100
          ∷ (u32_le offset ++ (u32_le (length bytes) ++ piece_at bytes offset)))
unfolding file_upload_request Request.upload
file_upload_request_lem bytes offset h k =
    let e = length-slice offset (min (offset + 2048) (length bytes) - offset) bytes (omega arith) in
    ground arith

abbrev upload_bytes : List ℕ → ℕ → List ℕ
upload_bytes bytes offset =
    117 ∷ 112 ∷ 108 ∷ 100 ∷ (u32_le offset ++ (u32_le (length bytes) ++ piece_at bytes offset))

device-upload_bytes :
    (bytes stored : List ℕ) (offset : ℕ)
    → length stored ≡ offset
    → offset < 2 ^ 32
    → device stored (upload_bytes bytes offset)
      ≡ some (stored ++ piece_at bytes offset, tagged int1 (u32_le offset))
unfolding device
device-upload_bytes bytes stored offset e h = let v = u32_of_be-u32_be offset h in ground arith

take-piece_at :
    (bytes : List ℕ) (offset : ℕ)
    → offset ≤ length bytes
    → take offset bytes ++ piece_at bytes offset ≡ take (min (offset + 2048) (length bytes)) bytes
take-piece_at bytes offset h =
    let m = min (offset + 2048) (length bytes) in
    let e : offset + (m - offset) ≡ m = omega arith in
    rw (← take-add offset (m - offset) bytes) (ap (λ k. take k bytes) e)

module _ (b : Bitcoin) (c : Cipher) (bytes : List ℕ) (action : UploadAction) where
  next_piece :
      (offset : ℕ)
      → offset + 2048 < length bytes
      → length bytes < 2 ^ 32
      → handle b c (uploading_file bytes offset action) (tagged int1 (u32_le offset)) ≡ (
        uploading_file bytes (offset + 2048) action,
        ok (some (upload_bytes bytes (offset + 2048))),
      )
  unfolding handle on_uploading
  next_piece offset h k =
      let r = upload-int1 offset (omega arith) in
      let p = file_upload_request_lem bytes (offset + 2048) (omega arith) k in
      let e : min (offset + 2048) (length bytes) ≡ offset + 2048 = omega arith in ground arith

  last_piece :
      (offset : ℕ)
      → length bytes ≤ offset + 2048
      → offset < 2 ^ 32
      → handle b c (uploading_file bytes offset action) (tagged int1 (u32_le offset))
        ≡ (verifying_file_upload (length bytes) (c.sha256 bytes) action, ok (some Request.sha256))
  unfolding handle on_uploading
  last_piece offset h k =
      let r = upload-int1 offset k in
      let e : min (offset + 2048) (length bytes) ≡ length bytes = omega arith in ground arith

  -- What the device has stored once it has the piece.
  stored-piece :
      (offset next : ℕ)
      → next ≡ min (offset + 2048) (length bytes)
      → offset ≤ length bytes
      → length bytes < 2 ^ 32
      → device (take offset bytes) (upload_bytes bytes offset)
        ≡ some (take next bytes, tagged int1 (u32_le offset))
  stored-piece offset next e h k =
      let l : length (take offset bytes) ≡ offset = omega (arith, length-take offset bytes) in
      rw (e, ← take-piece_at bytes offset h)
        (device-upload_bytes bytes (take offset bytes) offset l (omega arith))

  upload_last :
      (offset : ℕ)
      → length bytes ≤ offset + 2048
      → offset ≤ length bytes
      → length bytes < 2 ^ 32
      → Delivers b c
          (uploading_file bytes offset action)
          (upload_bytes bytes offset)
          (take offset bytes)
          (verifying_file_upload (length bytes) (c.sha256 bytes) action)
          Request.sha256
          bytes
  upload_last offset l h k =
      let d = stored-piece offset (length bytes) (omega arith) h k in
      exchanged (rw (take_all (length bytes) bytes (omega arith)) at d)
        (last_piece offset l (omega arith)) here

  upload_from :
      (fuel offset : ℕ)
      → length bytes ≤ offset + fuel
      → offset ≤ length bytes
      → length bytes < 2 ^ 32
      → Delivers b c
          (uploading_file bytes offset action)
          (upload_bytes bytes offset)
          (take offset bytes)
          (verifying_file_upload (length bytes) (c.sha256 bytes) action)
          Request.sha256
          bytes
  upload_from zero offset f h k = upload_last offset (omega arith) h k
  upload_from (suc fuel) offset f h k = elim (Bool-cases (ltb (offset + 2048) (length bytes))) [
    | inl e ↦
        let l = ltb→lt _ _ e in
        exchanged (stored-piece offset (offset + 2048) (omega arith) h k) (next_piece offset l k)
          (upload_from fuel (offset + 2048) (omega arith) (omega arith) k)
    | inr e ↦ upload_last offset (ltb→ge _ _ e) h k
  ]

  -- An upload of fewer than 2^32 bytes begins with a request; with a device that appends the piece that
  -- comes next and acknowledges it, the exchanges after it lead to the request for the hash, the device
  -- then has stored exactly the file, and the interpreter waits for the file's own hash.
  pub upload-Delivers :
      length bytes < 2 ^ 32
      → (request : List ℕ) × (file_upload_request bytes 0 ≡ ok request)
        × Delivers b c
            (uploading_file bytes 0 action)
            request
            []
            (verifying_file_upload (length bytes) (c.sha256 bytes) action)
            Request.sha256
            bytes
  upload-Delivers k = (
    upload_bytes bytes 0,
    file_upload_request_lem bytes 0 (omega arith) k,
    upload_from (length bytes) 0 (omega arith) (omega arith) k,
  )
