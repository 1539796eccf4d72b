-- ===== src/Coldcard/Response.antt =====
-- bhwi/src/coldcard/api.rs, module `response`, and the errors and responses of
-- bhwi/src/coldcard/mod.rs. An error keeps the bytes of a text that the device sent; the texts of the
-- source are members of `Trouble`.
pub mod Parsers
pub mod Tags
pub mod Returns
use bhwi.Prelude.{
  ℕ, suc, ◌+◌, Bool, true, false, not, List, [], ◌∷◌, map, Option, none, some, ltb, leb, ◌==◌,
  if◌then◌else◌, length, take, drop, get_elem?, Outcome, ok, err, check, ok_or, unwrap, map_err,
  ensure, ◌>>=◌, ◌>>◌,
}
use bhwi.Prelude.Bytes.{u32_of_le}
use bhwi.Prelude.Text.{from_utf8, lines}
use bhwi.Coldcard.Bitcoin.{Bitcoin}

pub data ResponseMessage : Type 0 where
  okay fram error refu busy biny int1 int2 int3 mypb asci smrx strx : ResponseMessage

pub data Trouble : Type 0 where
  slice_length u32_length not_utf8 bad_xpub sha256_length strx_sha_length xfp_length bad_signature :
      Trouble
  bad_psbt upload_too_large upload_offset_too_large download_offset_too_large : Trouble
  download_length_too_large upload_sha_mismatch empty_chunk download_sha_mismatch : Trouble
  unknown_message : List ℕ → List ℕ → Trouble
  -- what came and what was wanted
  upload_offset download_length : ℕ → ℕ → Trouble

pub data ColdcardError : Type 0 where
  encryption_not_ready encryption_not_new bad_public_key bad_session_key : ColdcardError
  missing_command_info device invalid_input : List ℕ → ColdcardError
  no_error_or_result : ColdcardError
  serialization : Trouble → ColdcardError
  unexpected_response_message : ResponseMessage → List ResponseMessage → ColdcardError

pub data ColdcardResponse (b : Bitcoin) : Type 0 where
  done busy_response wallet_registration_pending : ColdcardResponse b
  version : List ℕ → List ℕ → ColdcardResponse b
  master_fingerprint : List ℕ → ColdcardResponse b
  xpub_response : b.Xpub → ColdcardResponse b
  my_pub : List ℕ → List ℕ → Option b.Xpub → ColdcardResponse b
  signature : ℕ → b.Signature → ColdcardResponse b
  address : List ℕ → ColdcardResponse b
  backup : List ℕ → ColdcardResponse b
  signed_psbt : b.Psbt → ColdcardResponse b

pub data SignedTransactionStatus : Type 0 where
  pending : SignedTransactionStatus
  complete : ℕ → List ℕ → SignedTransactionStatus

abbrev pub Parsed {ℓ} : Type ℓ → Type ℓ
Parsed A = Outcome ColdcardError A

unfoldable pub split : List ℕ → ℕ → Parsed (List ℕ × List ℕ)
split bytes mid =
    if ltb (length bytes) mid
    then err (serialization slice_length)
    else ok (take mid bytes, drop mid bytes)

unfoldable pub decode_u32 : Option (List ℕ) → Parsed ℕ
decode_u32 none = err (serialization u32_length)
decode_u32 (some (a ∷ b ∷ c ∷ d ∷ [])) = ok (u32_of_le a b c d)
decode_u32 (some _) = err (serialization u32_length)

-- `data.get(start..start + n)`.
abbrev pub get_range : ℕ → ℕ → List ℕ → Option (List ℕ)
get_range start n bytes =
    if leb (start + n) (length bytes) then some (take n (drop start bytes)) else none

-- The four letters of a message.
unfoldable pub tag : ResponseMessage → ℕ × ℕ × ℕ × ℕ
tag okay = (111, 107, 97, 121)
tag fram = (102, 114, 97, 109)
tag error = (101, 114, 114, 95)
tag refu = (114, 101, 102, 117)
tag busy = (98, 117, 115, 121)
tag biny = (98, 105, 110, 121)
tag int1 = (105, 110, 116, 49)
tag int2 = (105, 110, 116, 50)
tag int3 = (105, 110, 116, 51)
tag mypb = (109, 121, 112, 98)
tag asci = (97, 115, 99, 105)
tag smrx = (115, 109, 114, 120)
tag strx = (115, 116, 114, 120)

abbrev pub same_tag : ℕ × ℕ × ℕ × ℕ → List ℕ → Bool
same_tag (a, b, c, d) (w ∷ x ∷ y ∷ z ∷ []) =
    if a == w then (if b == x then (if c == y then d == z else false) else false) else false
same_tag _ _ = false

unfoldable pub message_in : List ResponseMessage → List ℕ → Option ResponseMessage
unfolding tag
message_in [] msg = none
message_in (m ∷ ms) msg =
    let later = message_in ms msg in if same_tag (tag m) msg then some m else later

abbrev pub messages : List ResponseMessage
messages =
    okay ∷ fram ∷ error ∷ refu ∷ busy ∷ biny ∷ int1 ∷ int2 ∷ int3 ∷ mypb ∷ asci ∷ smrx ∷ strx ∷ []

-- `ResponseHandler::try_from` and `parse_response`.
unfoldable pub parse_response : List ℕ → Parsed (ResponseMessage × List ℕ)
parse_response res = do
  (msg, data_) ← split res 4
  message ← ok_or (message_in messages msg) (serialization (unknown_message msg data_))
  ok (message, data_)

unfoldable pub same : ResponseMessage → ResponseMessage → Bool
unfolding tag
same m n = let (a, b, c, d) = tag n in same_tag (tag m) (a ∷ b ∷ c ∷ d ∷ [])

unfoldable pub expect_response : List ℕ → ResponseMessage → Parsed (List ℕ)
expect_response res expected = do
  (msg, data_) ← parse_response res
  ensure (same expected msg) (unexpected_response_message msg (expected ∷ []))
  ok data_
