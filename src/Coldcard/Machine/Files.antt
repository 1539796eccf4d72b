-- ===== src/Coldcard/Machine/Files.antt =====
-- bhwi/src/coldcard/mod.rs, `exchange`: the states that send and fetch a file.
use bhwi.Prelude.{
  ℕ, ◌+◌, min, List, [], ◌∷◌, ◌++◌, none, some, ltb, ◌==◌, if◌then◌else◌, bytes_eq, length, ok, err,
  ensure, ◌>>=◌, ◌>>◌,
}
use bhwi.Coldcard.Bitcoin.{Bitcoin}
use bhwi.Coldcard.Request
use bhwi.Coldcard.Request.{max_upload_chunk_len}
use bhwi.Coldcard.Response.{
  Parsed, serialization, upload_offset, empty_chunk, download_length, download_sha_mismatch,
  ColdcardResponse,
}
use bhwi.Coldcard.Response.Parsers
use bhwi.Coldcard.Encrypt.{Cipher}
use bhwi.Coldcard.Machine.{
  UploadAction, FileDownloadResponse, uploading_file, verifying_file_upload, downloading_file,
  finished, file_upload_request, download_request,
}
use bhwi.Coldcard.Machine.Handlers.{Answer, keep, after, file_response}

module _ (b : Bitcoin) where
  module _ (c : Cipher) where
    unfoldable pub on_uploading : List ℕ → ℕ → UploadAction → List ℕ → Answer b
    on_uploading bytes offset action response = keep (uploading_file bytes offset action) (do
      acknowledged ← Parsers.upload response
      ensure (acknowledged == offset) (serialization (upload_offset acknowledged offset))
      let next_offset = min (offset + max_upload_chunk_len) (length bytes)
      if ltb next_offset (length bytes)
          then (do
            payload ← file_upload_request bytes next_offset
            ok (uploading_file bytes next_offset action, some payload))
          else ok
              (verifying_file_upload (length bytes) (c.sha256 bytes) action, some Request.sha256))

    -- The file is complete: `bytes` of the source is taken by a backup, and read as a PSBT.
    unfoldable pub on_downloaded :
        FileDownloadResponse → List ℕ → List ℕ → ℕ → ℕ → Parsed (ColdcardResponse b)
    on_downloaded response expected_sha bytes offset total_len = do
      ensure (offset == total_len) (serialization (download_length offset total_len))
      ensure (bytes_eq (c.sha256 bytes) expected_sha) (serialization download_sha_mismatch)
      file_response b response bytes

    unfoldable pub received : FileDownloadResponse → ℕ → List ℕ → List ℕ → ℕ → ℕ → List ℕ → Answer b
    received response file_number sha bytes offset total_len [] = (
      downloading_file response file_number sha bytes offset total_len,
      err (serialization empty_chunk),
    )
    received response file_number sha bytes offset total_len (x ∷ xs) =
        let bytes' = bytes ++ (x ∷ xs) in
        let offset' = offset + length (x ∷ xs) in
        let s = downloading_file response file_number sha bytes' offset' total_len in
        keep s (
          if ltb offset' total_len
          then (download_request offset' total_len file_number >>= λ payload. ok (s, some payload))
          else (on_downloaded response sha bytes' offset' total_len >>= λ r. ok (finished r, none)))

    unfoldable pub on_downloading :
        FileDownloadResponse → ℕ → List ℕ → List ℕ → ℕ → ℕ → List ℕ → Answer b
    on_downloading response file_number sha bytes offset total_len data_ =
        after (downloading_file response file_number sha bytes offset total_len)
          (Parsers.download data_) (received response file_number sha bytes offset total_len)
