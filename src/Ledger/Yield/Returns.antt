-- ===== src/Ledger/Yield/Returns.antt =====
-- bhwi/src/ledger/mod.rs and bhwi/src/ledger/psbt.rs: the reading of a yield stays within its bytes.
use bhwi.Prelude.{
  ℕ, ◌≤◌, ◌≡◌, refl, List, [], ◌∷◌, length, drop, Outcome, ok, err, panic, diverge, Returns, arith,
}
use bhwi.Ledger.Yield.{
  YieldError, Keys, deserialize_unchecked_varint, script_path, key_path, ecdsa, from_slice,
  parse_sign_psbt_yielded,
}

varint-Returns : (bytes : List ℕ) → Returns (deserialize_unchecked_varint bytes)
unfolding deserialize_unchecked_varint
varint-Returns bytes = ground arith

varint_bound :
    (bytes : List ℕ) (value read : ℕ)
    → deserialize_unchecked_varint bytes ≡ ok (value, read)
    → read ≤ length bytes
unfolding deserialize_unchecked_varint
varint_bound bytes value read h = ground arith

script_path-Returns :
    (keys : Keys) (rest : List ℕ) → 64 ≤ length rest → Returns (script_path keys rest)
unfolding script_path
script_path-Returns keys rest h = ground arith

key_path-Returns : (keys : Keys) (rest : List ℕ) → 32 ≤ length rest → Returns (key_path keys rest)
unfolding key_path
key_path-Returns keys rest h = ground arith

ecdsa-Returns :
    (keys : Keys) (len : ℕ) (rest : List ℕ) → len ≤ length rest → Returns (ecdsa keys len rest)
unfolding ecdsa
ecdsa-Returns keys len rest h = ground arith

from_slice-Returns : (keys : Keys) (bytes : List ℕ) → Returns (from_slice keys bytes)
unfolding from_slice
from_slice-Returns keys [] = tt
from_slice-Returns keys (len ∷ rest) =
    ground (
      arith,
      script_path-Returns keys rest,
      key_path-Returns keys rest,
      ecdsa-Returns keys len rest,
    )

pub parse_sign_psbt_yielded-Returns :
    (keys : Keys) (bytes : List ℕ) → Returns (parse_sign_psbt_yielded keys bytes)
unfolding parse_sign_psbt_yielded
parse_sign_psbt_yielded-Returns keys bytes =
    parsed (deserialize_unchecked_varint bytes) refl (varint-Returns bytes)
  where
    parsed :
        (call : Outcome YieldError (ℕ × ℕ))
        → deserialize_unchecked_varint bytes ≡ call
        → Returns call
        → Returns (parse_sign_psbt_yielded keys bytes)
    parsed (ok (tag, read)) e r =
        let room = varint_bound bytes tag read e in
        let index = varint-Returns (drop read bytes) in
        let slice = from_slice-Returns keys (drop read bytes) in rw e (ground arith)
    parsed (err why) e r = rw e tt
    parsed panic e r = absurd r
    parsed diverge e r = absurd r
