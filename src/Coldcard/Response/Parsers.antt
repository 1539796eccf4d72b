-- ===== src/Coldcard/Response/Parsers.antt =====
-- bhwi/src/coldcard/api.rs, module `response`: the reader of each response.
use bhwi.Prelude.{
  ℕ, List, [], ◌∷◌, Option, none, some, ltb, leb, ◌==◌, if◌then◌else◌, length, take, drop,
  get_elem?, ok, err, check, ok_or, unwrap, ◌>>=◌, ◌>>◌,
}
use bhwi.Prelude.Text.{from_utf8, lines}
use bhwi.Coldcard.Bitcoin.{Bitcoin}
use bhwi.Coldcard.Response
use bhwi.Coldcard.Response.{
  Parsed, ResponseMessage, okay, busy, biny, int1, asci, refu, error, mypb, smrx, strx, device,
  serialization, unexpected_response_message, SignedTransactionStatus, pending, complete, not_utf8,
  bad_xpub, sha256_length, strx_sha_length, xfp_length, bad_signature, ColdcardResponse, done,
  busy_response, master_fingerprint, xpub_response, my_pub, signature, address, split, decode_u32,
  get_range, parse_response, expect_response,
}

unfoldable pub upload : List ℕ → Parsed ℕ
upload res = do data_ ← expect_response res int1; decode_u32 (some data_)

unfoldable pub sha256 : List ℕ → Parsed (List ℕ)
sha256 res = do
  data_ ← expect_response res biny
  if length data_ == 32 then ok data_ else err (serialization sha256_length)

unfoldable pub acknowledged : (b : Bitcoin) → ResponseMessage × List ℕ → Parsed (ColdcardResponse b)
acknowledged b (okay, data_) = ok done
acknowledged b (busy, data_) = ok busy_response
acknowledged b (msg, data_) = err (unexpected_response_message msg (okay ∷ busy ∷ []))

unfoldable pub sign_transaction : (b : Bitcoin) → List ℕ → Parsed (ColdcardResponse b)
sign_transaction b res = do parsed ← parse_response res; acknowledged b parsed

unfoldable pub check_okay : List ℕ → Parsed (Unit {0})
check_okay res = do data_ ← expect_response res okay; ok tt

unfoldable pub transaction_status : ResponseMessage × List ℕ → Parsed SignedTransactionStatus
transaction_status (okay, data_) = ok pending
transaction_status (busy, data_) = ok pending
transaction_status (strx, data_) = do
  (len, sha) ← split data_ 4
  n ← decode_u32 (some len)
  if length sha == 32 then ok (complete n sha) else err (serialization strx_sha_length)
transaction_status (msg, data_) = err (unexpected_response_message msg (okay ∷ busy ∷ strx ∷ []))

unfoldable pub signed_transaction : List ℕ → Parsed SignedTransactionStatus
signed_transaction res = do parsed ← parse_response res; transaction_status parsed

unfoldable pub download : List ℕ → Parsed (List ℕ)
download res = expect_response res biny

abbrev last_or : List ℕ → List (List ℕ) → List ℕ
last_or last [] = last
last_or last (line ∷ rest) = last_or line rest

abbrev some_or : Option (List ℕ) → List ℕ → List ℕ
some_or none text = text
some_or (some line) text = line

module _ (b : Bitcoin) where
  unfoldable pub xpub : List ℕ → Parsed b.Xpub
  xpub res = do
    data_ ← expect_response res asci
    s ← ok_or (from_utf8 data_) (serialization not_utf8)
    ok_or (b.xpub_of_str s) (serialization bad_xpub)

  unfoldable pub shown : ResponseMessage × List ℕ → Parsed (ColdcardResponse b)
  shown (asci, data_) = do
    text ← ok_or (from_utf8 data_) (serialization not_utf8)
    ok (address text)
  shown (refu, data_) = ok done
  shown (error, data_) = err (device data_)
  shown (msg, data_) = err (unexpected_response_message msg (asci ∷ refu ∷ []))

  unfoldable pub show_address : List ℕ → Parsed (ColdcardResponse b)
  show_address res = do parsed ← parse_response res; shown parsed

  unfoldable pub miniscript_address : List ℕ → Parsed (ColdcardResponse b)
  miniscript_address res = do parsed ← parse_response res; shown parsed

  unfoldable pub fingerprint : List ℕ → Parsed (ColdcardResponse b)
  fingerprint res = do key ← xpub res; ok (master_fingerprint (b.fingerprint key))

  unfoldable pub get_xpub : List ℕ → Parsed (ColdcardResponse b)
  get_xpub res = do key ← xpub res; ok (xpub_response key)

  unfoldable pub version : List ℕ → Parsed (ColdcardResponse b)
  version res = do
    data_ ← expect_response res asci
    version_string ← ok_or (from_utf8 data_) (serialization not_utf8)
    let rows = lines version_string
    ok (Response.version (some_or (get_elem? rows 1) version_string) (last_or [] rows))

  unfoldable pub optional_xpub : Option (List ℕ) → Parsed (Option b.Xpub)
  optional_xpub none = ok none
  optional_xpub (some d) = do
    s ← ok_or (from_utf8 d) (serialization not_utf8)
    key ← ok_or (b.xpub_of_str s) (serialization bad_xpub)
    ok (some key)

  unfoldable pub my_public : List ℕ → Parsed (ColdcardResponse b)
  my_public res = do
    data_ ← expect_response res mypb
    (encryption_key, rest) ← split data_ 64
    xpub_fingerprint ← ok_or (get_range 0 4 rest) (serialization xfp_length)
    xpub_len ← decode_u32 (get_range 4 4 rest)
    key ← optional_xpub (if ltb 0 xpub_len then get_range 8 xpub_len rest else none)
    ok (my_pub encryption_key xpub_fingerprint key)

  -- `&data[..4]`, `&data[4..]`, `&sig_bytes[1..]` and `sig_bytes[0]` are checked by the language.
  unfoldable pub message_signature : List ℕ → Parsed (ColdcardResponse b)
  message_signature data_ = do
    check (leb 4 (length data_))
    addr_len ← decode_u32 (some (take 4 data_))
    (addr, sig_bytes) ← split (drop 4 data_) addr_len
    check (leb 1 (length sig_bytes))
    sig ← ok_or (b.from_compact (drop 1 sig_bytes)) (serialization bad_signature)
    first ← unwrap (get_elem? sig_bytes 0)
    ok (signature first sig)

  unfoldable pub signing : ResponseMessage × List ℕ → Parsed (ColdcardResponse b)
  signing (okay, data_) = ok done
  signing (smrx, data_) = message_signature data_
  signing (busy, data_) = ok busy_response
  signing (msg, data_) = err (unexpected_response_message msg (okay ∷ busy ∷ smrx ∷ []))

  unfoldable pub sign_message : List ℕ → Parsed (ColdcardResponse b)
  sign_message res = do parsed ← parse_response res; signing parsed
