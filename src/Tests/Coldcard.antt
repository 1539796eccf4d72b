-- ===== src/Tests/Coldcard.antt =====
-- The theorems on bhwi/src/coldcard at concrete inputs.
use bhwi.Prelude.{
  ℕ, ◌-◌, ◌<◌, ◌^◌, ◌≡◌, refl, arith, List, [], ◌∷◌, map, some, none, length, replicate,
  length-replicate, ok, panic,
}
use bhwi.Prelude.Bytes.{u32_le}
use bhwi.Coldcard.Bitcoin.{Bitcoin}
use bhwi.Coldcard.Encrypt.{Cipher, ready_with}
use bhwi.Coldcard.Request
use bhwi.Coldcard.Response
use bhwi.Coldcard.Response.{
  decode_u32, expect_response, split, message_in, same, tag, parse_response, ResponseMessage, int1,
  smrx, biny, ColdcardResponse,
}
use bhwi.Coldcard.Response.Tags.{tagged}
use bhwi.Coldcard.Machine
use bhwi.Coldcard.Machine.{
  start, State, Machine, running, to_sign, uploading_file, verifying_file_upload, downloading_file,
  backup_file, finished, polling_backup_file, polling_signed_psbt, file_upload_request,
}
use bhwi.Coldcard.Machine.Handlers.{file_response, on_verifying, confirm}
use bhwi.Coldcard.Machine.Exchange.{handle}
use bhwi.Coldcard.Machine.Files.{on_uploading, on_downloading, received, on_downloaded}
use bhwi.Coldcard.Response.Parsers
use bhwi.Coldcard.Machine.Upload.{Delivers, upload-Delivers}
use bhwi.Coldcard.Machine.Download.{Fetches, announced, backup-Fetches}
use bhwi.Coldcard.Machine.Starts.{GoodStart, start-Good}
use bhwi.Coldcard.Machine.Safety.{
  Confirmed, finished_checked, verifying_checked, sign_message_panics,
}
use bhwi.Tests.Primitives.{toy_sha256, length-toy_sha256}

-- Keys, signatures and PSBTs that are their own bytes.
abbrev bitcoin : Bitcoin
bitcoin = record {
  Xpub = List ℕ;
  Psbt = List ℕ;
  Signature = List ℕ;
  xpub_of_str = λ s. some s;
  fingerprint = λ s. s;
  from_compact = λ s. some s;
  serialize = λ s. s;
  deserialize = λ s. some s;
  path_to_string = λ s. s;
  push_int = λ n. n ∷ [];
  push_key = λ s. s;
}

-- A key stream of one value for ever.
abbrev cipher : Cipher
cipher = record {
  Secret = ℕ;
  PublicKey = List ℕ;
  Stream = ℕ;
  encoded_point = λ s. 4 ∷ replicate 64 s;
  from_sec1_bytes = λ k. some k;
  shared_point = λ s k. some k;
  sha256 = toy_sha256;
  new_stream = λ key. 255;
  apply_keystream = λ s bytes. (s, map (λ x. s - x) bytes);
}

abbrev file : List ℕ
file = replicate 2100 7

length-file : length file < 2 ^ 32
length-file = omega (arith, length-replicate {A = ℕ} 2100 7)

upload-Delivers_example :
    (request : List ℕ) × (file_upload_request file 0 ≡ ok request)
    × Delivers bitcoin cipher
        (uploading_file file 0 to_sign)
        request
        []
        (verifying_file_upload (length file) (toy_sha256 file) to_sign)
        Request.sha256
        file
upload-Delivers_example = upload-Delivers bitcoin cipher file to_sign length-file

file_nonempty : 0 < length file
file_nonempty = omega (arith, length-replicate {A = ℕ} 2100 7)

backup-Fetches_example :
    (s : State bitcoin) × (request : List ℕ) × (handle bitcoin cipher polling_backup_file
        (announced cipher file)
      ≡ (s, ok (some request)))
    × Fetches bitcoin cipher file s request (finished (Response.backup file))
backup-Fetches_example =
    backup-Fetches bitcoin cipher file file_nonempty length-file (length-toy_sha256 file)

sign_message_panics_example :
    (handle bitcoin cipher (running (Machine.sign_message [] [])) (tagged smrx (1 ∷ []))).1 ≡ panic
sign_message_panics_example = sign_message_panics bitcoin cipher [] [] (1 ∷ []) (omega arith)

abbrev served : List ℕ
served = tagged biny (9 ∷ [])

last_step :
    handle bitcoin cipher (downloading_file backup_file 0 (toy_sha256 (9 ∷ [])) [] 0 1) served
    ≡ (finished (Response.backup (9 ∷ [])), ok none)
unfolding handle on_downloading Parsers.download expect_response parse_response split message_in
    same tag received on_downloaded file_response toy_sha256
last_step = refl

finished_checked_example :
    (bytes : List ℕ) × (length bytes ≡ 1)
    × (toy_sha256 bytes ≡ toy_sha256 (9 ∷ []))
    × (file_response bitcoin backup_file bytes ≡ ok (Response.backup (9 ∷ [])))
finished_checked_example =
    finished_checked bitcoin cipher backup_file 0 (toy_sha256 (9 ∷ [])) [] 0 1 served
      (Response.backup (9 ∷ [])) none refl last_step

abbrev sha : List ℕ
sha = toy_sha256 (9 ∷ [])

-- The device has the file of one byte that was sent.
confirmed :
    handle bitcoin cipher (verifying_file_upload 1 sha to_sign) (tagged biny sha)
    ≡ (Machine.signing_psbt, ok (some (Request.sign_transaction 1 sha)))
unfolding handle on_verifying confirm Parsers.sha256 expect_response parse_response split message_in
    same tag toy_sha256
confirmed = refl

uploaded :
    handle bitcoin cipher (uploading_file (9 ∷ []) 0 to_sign) (tagged int1 (u32_le 0))
    ≡ (verifying_file_upload 1 sha to_sign, ok (some Request.sha256))
unfolding handle on_uploading Parsers.upload decode_u32 expect_response parse_response split
    message_in same tag toy_sha256
uploaded = refl

verifying_checked_example :
    (Parsers.sha256 (tagged biny sha) ≡ ok sha)
    × (1 < 2 ^ 32)
    × Confirmed bitcoin cipher to_sign 1 sha Machine.signing_psbt
        (some (Request.sign_transaction 1 sha))
verifying_checked_example =
    verifying_checked bitcoin cipher (9 ∷ []) 0 to_sign (tagged int1 (u32_le 0)) 1 sha to_sign
      (some Request.sha256) (tagged biny sha) Machine.signing_psbt
      (some (Request.sign_transaction 1 sha)) uploaded confirmed

start-Good_example : GoodStart bitcoin cipher (
    start bitcoin cipher
      (record { state = Machine.new; encryption = ready_with 255 255 })
      (Machine.sign_psbt (1 ∷ 2 ∷ [])))
start-Good_example =
    start-Good bitcoin cipher (record { state = Machine.new; encryption = ready_with 255 255 })
      (Machine.sign_psbt (1 ∷ 2 ∷ []))
