-- ===== src/Coldcard/Machine.antt =====
-- bhwi/src/coldcard/mod.rs: the commands, the states of the interpreter, and how a command starts.
pub mod Handlers
pub mod Files
pub mod Exchange
pub mod Upload
pub mod Download
pub mod Safety
pub mod Invariant
pub mod Starts
use bhwi.Prelude.{
  ℕ, ◌+◌, ◌-◌, ◌≤◌, ◌<◌, ◌^◌, ◌≡◌, min, Bool, true, false, List, [], ◌∷◌, ◌++◌, Option, none, some,
  ltb, leb, if◌then◌else◌, length, take, drop, Outcome, ok, err, check, ensure, ◌>>=◌, ◌>>◌,
}
use bhwi.Prelude.Slices.{slice}
use bhwi.Coldcard.Bitcoin.{Bitcoin}
use bhwi.Coldcard.Request
use bhwi.Coldcard.Request.{max_upload_chunk_len}
use bhwi.Coldcard.Response.{
  Parsed, ColdcardError, serialization, upload_too_large, upload_offset_too_large,
  download_offset_too_large, download_length_too_large, ColdcardResponse,
}
use bhwi.Coldcard.Encrypt.{Cipher, Engine, pub_key, encrypt}

pub data MultisigAddressType : Type 0 where
  legacy sh_wit wit : MultisigAddressType

pub record ColdcardMultisigDisplayKey : Type 0 where
  pub fingerprint : List ℕ
  pub path : List ℕ
  pub public_key : List ℕ

pub record ColdcardMultisigDisplayAddress : Type 0 where
  pub threshold : ℕ
  pub address_type : MultisigAddressType
  pub keys : List ColdcardMultisigDisplayKey

pub data ColdcardCommand (b : Bitcoin) : Type 0 where
  start_encryption backup get_version get_master_fingerprint : ColdcardCommand b
  get_xpub : List ℕ → ColdcardCommand b
  -- the message, and the path
  sign_message : List ℕ → List ℕ → ColdcardCommand b
  -- the path, and the address format
  show_address : List ℕ → ℕ → ColdcardCommand b
  show_p2sh_address : ColdcardMultisigDisplayAddress → ColdcardCommand b
  -- the name, whether it is change, and the index
  miniscript_address : List ℕ → Bool → ℕ → ColdcardCommand b
  sign_psbt : b.Psbt → ColdcardCommand b
  register_wallet : List ℕ → ColdcardCommand b

pub record ColdcardTransmit : Type 0 where
  pub payload : List ℕ
  pub encrypted : Bool

pub data UploadAction : Type 0 where
  to_sign to_register : UploadAction

pub data FileDownloadResponse : Type 0 where
  backup_file signed_file : FileDownloadResponse

pub data State (b : Bitcoin) : Type 0 where
  new signing_psbt enrolling_wallet polling_signed_psbt polling_backup_file : State b
  running : ColdcardCommand b → State b
  -- the bytes, and the offset
  uploading_file : List ℕ → ℕ → UploadAction → State b
  -- the length, and the expected hash
  verifying_file_upload : ℕ → List ℕ → UploadAction → State b
  -- the file's number, the expected hash, the bytes, the offset and the total length
  downloading_file : FileDownloadResponse → ℕ → List ℕ → List ℕ → ℕ → ℕ → State b
  finished : ColdcardResponse b → State b

-- `u32::try_from`.
abbrev pub u32_or : ℕ → ColdcardError → Parsed (Unit {0})
u32_or n e = ensure (ltb n (2 ^ 32)) e

unfoldable pub file_upload_request : List ℕ → ℕ → Parsed (List ℕ)
file_upload_request bytes offset = do
  let end_ = min (offset + max_upload_chunk_len) (length bytes)
  u32_or offset (serialization upload_offset_too_large)
  u32_or (length bytes) (serialization upload_too_large)
  check (leb offset end_)
  Request.upload offset (length bytes) (slice offset (end_ - offset) bytes)

-- `total_len - offset` underflows when the offset is past the end.
unfoldable pub download_request : ℕ → ℕ → ℕ → Parsed (List ℕ)
download_request offset total_len file_number = do
  check (leb offset total_len)
  let len = min max_upload_chunk_len (total_len - offset)
  u32_or offset (serialization download_offset_too_large)
  u32_or len (serialization download_length_too_large)
  ok (Request.download offset len file_number)

unfoldable pub multisig_addr_fmt : MultisigAddressType → ℕ
multisig_addr_fmt legacy = Request.afc_script
multisig_addr_fmt sh_wit = Request.afc_script + Request.afc_segwit + Request.afc_wrapped
multisig_addr_fmt wit = Request.afc_script + Request.afc_segwit + Request.afc_bech32

abbrev key_paths : List ColdcardMultisigDisplayKey → List (List ℕ × List ℕ)
key_paths [] = []
key_paths (key ∷ keys) = (key.fingerprint, key.path) ∷ key_paths keys

-- A step of the machine: what is sent, and the machine after it.
pub record Machine (b : Bitcoin) (c : Cipher) : Type 0 where
  pub state : State b
  pub encryption : Engine c

module _ (b : Bitcoin) where
  abbrev push_keys : List ColdcardMultisigDisplayKey → List ℕ
  push_keys [] = []
  push_keys (key ∷ keys) = b.push_key key.public_key ++ push_keys keys

  -- The last byte is OP_CHECKMULTISIG.
  unfoldable pub multisig_redeem_script : ColdcardMultisigDisplayAddress → List ℕ
  multisig_redeem_script a =
      b.push_int a.threshold ++ (push_keys a.keys ++ (b.push_int (length a.keys) ++ (174 ∷ [])))

  module _ (c : Cipher) where
    unfoldable pub request : Engine c → List ℕ → Parsed (Engine c × ColdcardTransmit)
    request engine payload = do
      (engine', sent) ← encrypt c engine payload
      ok (engine', record { payload = sent; encrypted = true })

    abbrev run : Machine b c → ColdcardCommand b → List ℕ → Parsed (Machine b c × ColdcardTransmit)
    run m command payload = do
      (engine, sent) ← request m.encryption payload
      ok (record { state = running command; encryption = engine }, sent)

    abbrev start_upload :
        Machine b c → List ℕ → UploadAction → Parsed (Machine b c × ColdcardTransmit)
    start_upload m bytes action = do
      payload ← file_upload_request bytes 0
      (engine, sent) ← request m.encryption payload
      ok (record { state = uploading_file bytes 0 action; encryption = engine }, sent)

    unfoldable pub start : Machine b c → ColdcardCommand b → Parsed (Machine b c × ColdcardTransmit)
    start m start_encryption = do
      key ← pub_key c m.encryption
      ok (
        record m { state = running start_encryption },
        record { payload = Request.start_encryption none key; encrypted = false },
      )
    start m backup = run m backup Request.start_backup
    start m get_version = run m get_version Request.get_version
    start m get_master_fingerprint =
        run m get_master_fingerprint (Request.get_xpub b.path_to_string [])
    start m (get_xpub path) = run m (get_xpub path) (Request.get_xpub b.path_to_string path)
    start m (sign_message message path) =
        run m (sign_message message path) (Request.sign_message b.path_to_string message path)
    start m (show_address path addr_fmt) =
        run m (show_address path addr_fmt) (Request.show_address b.path_to_string path addr_fmt)
    start m (show_p2sh_address a) = run m (show_p2sh_address a) (
        Request.show_p2sh_address a.threshold (key_paths a.keys) (multisig_redeem_script a)
          (multisig_addr_fmt a.address_type))
    start m (miniscript_address name change index) =
        run m (miniscript_address name change index) (Request.miniscript_address name change index)
    start m (sign_psbt psbt) = start_upload m (b.serialize psbt) to_sign
    start m (register_wallet payload) = start_upload m payload to_register
