-- ===== src/Ledger/Yield.antt =====
-- bhwi/src/ledger/mod.rs and bhwi/src/ledger/psbt.rs: what a device yields while it signs a PSBT.
pub mod Varint
pub mod Returns
use bhwi.Prelude.{
  ℕ, ◌+◌, ◌*◌, ◌^◌, List, [], ◌∷◌, Option, some, none, ltb, leb, ◌==◌, if◌then◌else◌, length, take,
  drop, Outcome, ok, err, ok_or, check, ◌>>◌, ◌>>=◌, map_err,
}

pub data YieldError : Type 0 where
  missing_tag truncated_varint non_minimal_varint invalid_partial_signature : YieldError

abbrev pub Read : Type 0
Read = Outcome YieldError (ℕ × ℕ)

-- The value and the number of bytes, unless fewer bytes are enough for it.
abbrev pub minimal : ℕ → ℕ → ℕ → Read
minimal least value size = if ltb value least then err non_minimal_varint else ok (value, size)

abbrev pub read_u16 : List ℕ → Read
read_u16 (a ∷ b ∷ rest) = minimal 0xFD (a + 256 * b) 3
read_u16 _ = err truncated_varint

abbrev pub word : ℕ → ℕ → ℕ → ℕ → ℕ
word a b c d = a + 256 * b + 65536 * c + 16777216 * d

abbrev pub read_u32 : List ℕ → Read
read_u32 (a ∷ b ∷ c ∷ d ∷ rest) = minimal 0x10000 (word a b c d) 5
read_u32 _ = err truncated_varint

abbrev pub read_u64 : List ℕ → Read
read_u64 (a ∷ b ∷ c ∷ d ∷ e ∷ f ∷ g ∷ h ∷ rest) =
    minimal 0x100000000 (word a b c d + 4294967296 * word e f g h) 9
read_u64 _ = err truncated_varint

unfoldable pub deserialize_unchecked_varint : List ℕ → Read
deserialize_unchecked_varint [] = err missing_tag
deserialize_unchecked_varint (first ∷ bytes) =
    if ltb first 0xFD
    then ok (first, 1)
    else if first == 0xFD
    then read_u16 bytes
    else if first == 0xFE
    then read_u32 bytes
    else read_u64 bytes

-- What the reader of a partial signature uses of the crate `bitcoin`.
pub record Keys : Type 1 where
  pub PublicKey : Type 0
  pub XonlyPublicKey : Type 0
  pub TapLeafHash : Type 0
  pub EcdsaSignature : Type 0
  pub TaprootSignature : Type 0
  pub public_key : List ℕ → Option PublicKey
  pub xonly_public_key : List ℕ → Option XonlyPublicKey
  pub tap_leaf_hash : List ℕ → Option TapLeafHash
  pub ecdsa_signature : List ℕ → Option EcdsaSignature
  pub taproot_signature : List ℕ → Option TaprootSignature

pub data PartialSignatureError : Type 0 where
  bad_key_augment_length xonly_pub_key pub_key ecdsa_sig taproot_sig tap_leaf :
      PartialSignatureError

pub data PartialSignature (k : Keys) : Type 0 where
  sig : k.PublicKey → k.EcdsaSignature → PartialSignature k
  tap_script_sig : k.XonlyPublicKey → Option k.TapLeafHash → k.TaprootSignature → PartialSignature k

pub data SignPsbtYieldedObject (k : Keys) : Type 0 where
  partial : PartialSignature k → SignPsbtYieldedObject k
  ignored : SignPsbtYieldedObject k

module _ (k : Keys) where
  -- The three forms of a signature after its length byte, from the rest of the slice; the ranges of the
  -- slice are within it.
  unfoldable pub script_path : List ℕ → Outcome PartialSignatureError (PartialSignature k)
  script_path rest = do
    check (leb 64 (length rest))
    key ← ok_or (k.xonly_public_key (take 32 rest)) xonly_pub_key
    tap_leaf_hash ← ok_or (k.tap_leaf_hash (take 32 (drop 32 rest))) tap_leaf
    s ← ok_or (k.taproot_signature (drop 64 rest)) taproot_sig
    ok (tap_script_sig key (some tap_leaf_hash) s)

  unfoldable pub key_path : List ℕ → Outcome PartialSignatureError (PartialSignature k)
  key_path rest = do
    check (leb 32 (length rest))
    key ← ok_or (k.xonly_public_key (take 32 rest)) xonly_pub_key
    s ← ok_or (k.taproot_signature (drop 32 rest)) taproot_sig
    ok (tap_script_sig key none s)

  unfoldable pub ecdsa : ℕ → List ℕ → Outcome PartialSignatureError (PartialSignature k)
  ecdsa len rest = do
    check (leb len (length rest))
    key ← ok_or (k.public_key (take len rest)) pub_key
    s ← ok_or (k.ecdsa_signature (drop len rest)) ecdsa_sig
    ok (sig key s)

  unfoldable pub from_slice : List ℕ → Outcome PartialSignatureError (PartialSignature k)
  from_slice [] = err bad_key_augment_length
  from_slice (key_augment_len ∷ rest) =
      if leb (length rest + 1) key_augment_len
      then err bad_key_augment_length
      else if key_augment_len == 64
      then script_path rest
      else if key_augment_len == 32
      then key_path rest
      else ecdsa key_augment_len rest

  -- An input index, a `u64`, fits in a `usize` of 64 bits.
  unfoldable pub parse_sign_psbt_yielded : List ℕ → Outcome YieldError (ℕ × SignPsbtYieldedObject k)
  parse_sign_psbt_yielded bytes = deserialize_unchecked_varint bytes >>= λ first.
      (let (tag, read) = first in
        if leb 0x80000000 tag
        then (check (leb read (length bytes))
            >> (deserialize_unchecked_varint (drop read bytes) >>= λ index.
                (let (input_index, read') = index in ok (input_index, ignored))))
        else (check (leb read (length bytes))
            >> (map_err (λ e. invalid_partial_signature) (from_slice (drop read bytes)) >>= λ s.
                ok (tag, partial s))))
