-- ===== src/Coldcard/Response/Returns.antt =====
-- bhwi/src/coldcard/api.rs, module `response`: the readers that cannot panic.
use bhwi.Prelude.{ℕ, List, Option, none, some, take, arith, Returns}
use bhwi.Coldcard.Bitcoin.{Bitcoin}
use bhwi.Coldcard.Response.{
  int1, biny, okay, asci, busy, strx, mypb, parse_response, split, expect_response, decode_u32,
  ResponseMessage,
}
use bhwi.Coldcard.Response.Parsers

pub acknowledged-Returns :
    (b : Bitcoin) (p : ResponseMessage × List ℕ) → Returns (Parsers.acknowledged b p)
unfolding Parsers.acknowledged
acknowledged-Returns b (okay, bytes) = tt
acknowledged-Returns b (busy, bytes) = tt
acknowledged-Returns b (_, bytes) = tt

pub split-Returns : (bytes : List ℕ) (mid : ℕ) → Returns (split bytes mid)
unfolding split
split-Returns bytes mid = ground arith

pub parse_response-Returns : (res : List ℕ) → Returns (parse_response res)
unfolding parse_response
parse_response-Returns res = let p = split-Returns res 4 in ground arith

pub expect_response-Returns : (res : List ℕ) (m : ResponseMessage) → Returns (expect_response res m)
unfolding expect_response
expect_response-Returns res m = let p = parse_response-Returns res in ground arith

pub decode_u32-Returns : (o : Option (List ℕ)) → Returns (decode_u32 o)
unfolding decode_u32
decode_u32-Returns o = ground arith

pub transaction_status-Returns :
    (p : ResponseMessage × List ℕ) → Returns (Parsers.transaction_status p)
unfolding Parsers.transaction_status
transaction_status-Returns (strx, bytes) =
    let p = split-Returns bytes 4 in
    let d = decode_u32-Returns (some (take 4 bytes)) in grind (arith, decode_u32-Returns)
transaction_status-Returns (_, bytes) = tt

module _ (res : List ℕ) where
  pub upload-Returns : Returns (Parsers.upload res)
  unfolding Parsers.upload
  upload-Returns = let p = expect_response-Returns res int1 in grind (arith, decode_u32-Returns)

  pub sha256-Returns : Returns (Parsers.sha256 res)
  unfolding Parsers.sha256
  sha256-Returns = let p = expect_response-Returns res biny in ground arith

  pub download-Returns : Returns (Parsers.download res)
  unfolding Parsers.download
  download-Returns = expect_response-Returns res biny

  pub check_okay-Returns : Returns (Parsers.check_okay res)
  unfolding Parsers.check_okay
  check_okay-Returns = let p = expect_response-Returns res okay in ground arith

  pub signed_transaction-Returns : Returns (Parsers.signed_transaction res)
  unfolding Parsers.signed_transaction
  signed_transaction-Returns =
      let p = parse_response-Returns res in grind (arith, transaction_status-Returns)

module _ (b : Bitcoin) (res : List ℕ) where
  pub xpub-Returns : Returns (Parsers.xpub b res)
  unfolding Parsers.xpub
  xpub-Returns = let p = expect_response-Returns res asci in ground arith

  pub fingerprint-Returns : Returns (Parsers.fingerprint b res)
  unfolding Parsers.fingerprint
  fingerprint-Returns = let p = xpub-Returns in ground arith

  pub get_xpub-Returns : Returns (Parsers.get_xpub b res)
  unfolding Parsers.get_xpub
  get_xpub-Returns = let p = xpub-Returns in ground arith

  pub shown-Returns : (p : ResponseMessage × List ℕ) → Returns (Parsers.shown b p)
  unfolding Parsers.shown
  shown-Returns (asci, bytes) = ground arith
  shown-Returns (_, bytes) = tt

  pub show_address-Returns : Returns (Parsers.show_address b res)
  unfolding Parsers.show_address
  show_address-Returns = let p = parse_response-Returns res in grind (arith, shown-Returns)

  pub miniscript_address-Returns : Returns (Parsers.miniscript_address b res)
  unfolding Parsers.miniscript_address
  miniscript_address-Returns = let p = parse_response-Returns res in grind (arith, shown-Returns)

  pub version-Returns : Returns (Parsers.version b res)
  unfolding Parsers.version
  version-Returns = let p = expect_response-Returns res asci in ground arith

  pub optional_xpub-Returns : (o : Option (List ℕ)) → Returns (Parsers.optional_xpub b o)
  unfolding Parsers.optional_xpub
  optional_xpub-Returns none = tt
  optional_xpub-Returns (some d) = ground arith

  pub my_public-Returns : Returns (Parsers.my_public b res)
  unfolding Parsers.my_public
  my_public-Returns =
      let p = expect_response-Returns res mypb in
      grind (arith, split-Returns, decode_u32-Returns, optional_xpub-Returns)

  pub sign_transaction-Returns : Returns (Parsers.sign_transaction b res)
  unfolding Parsers.sign_transaction
  sign_transaction-Returns =
      let p = parse_response-Returns res in grind (arith, acknowledged-Returns)
