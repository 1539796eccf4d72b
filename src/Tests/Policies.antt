-- ===== src/Tests/Policies.antt =====
-- Wallet policies that are lists of keys, and what the Ledger's interpreter uses of other crates.
use bhwi.Prelude.{
  ℕ, ◌≤◌, ◌≡◌, refl, ◌⊎◌, inl, inr, arith, List, [], ◌∷◌, ◌++◌, Option, none, some, ltb, ◌==◌,
  if◌then◌else◌, length, drop, Outcome, ok, err,
}
use bhwi.Policy.{Miniscript, DescriptorPublicKey, single}
use bhwi.Ledger.Yield.{Keys}
use bhwi.Ledger.Wallet.{WalletCrates}
use bhwi.Ledger.Psbt.{PsbtCrate}
use bhwi.Ledger.Interpreter.{LedgerCrates}
use bhwi.Tests.Primitives.{toy_sha256}
use bhwi.Tests.Varint.{varints, serialize}

abbrev pub PolicyKey : Type 0
PolicyKey = DescriptorPublicKey (List ℕ) (List ℕ)

abbrev single_keys : List (List ℕ) → List PolicyKey
single_keys [] = []
single_keys (key ∷ keys) = single key ∷ single_keys keys

unfoldable pub keys_in : List (List ℕ) → Outcome (Unit {0}) (List PolicyKey)
keys_in [] = err tt
keys_in (key ∷ keys) = ok (single key ∷ single_keys keys)

pub keys_in_some :
    (policy : List (List ℕ))
    → ((e : Unit {0}) × (keys_in policy ≡ err e))
      ⊎ ((keys : List PolicyKey) × (keys_in policy ≡ ok keys) × (1 ≤ length keys))
unfolding keys_in
keys_in_some [] = inl (tt, refl)
keys_in_some (key ∷ keys) = inr (single key ∷ single_keys keys, refl, omega arith)

abbrev pub miniscript : Miniscript
miniscript = record {
  WalletPolicy = List (List ℕ);
  WalletPolicyError = Unit {0};
  SinglePub = List ℕ;
  Xpub = List ℕ;
  single_to_string = λ key. key;
  xpub_to_string = λ key. key;
  fingerprint_to_string = λ fp. fp;
  path_to_string = λ path. path;
  template = λ policy. length policy ∷ [];
  descriptor_keys = keys_in;
  policy_of_str = λ text. ok (text ∷ []);
  key_of_str = λ text. some (single text);
  set_key_info = λ policy keys. ok policy;
  descriptor_keys_some = keys_in_some;
  policy_of_str-Returns = λ text. tt;
  set_key_info-Returns = λ policy keys. tt;
}

abbrev pub wallet : WalletCrates
wallet = record { consensus = varints; sha256 = toy_sha256; miniscript = miniscript }

abbrev pub signing_keys : Keys
signing_keys = record {
  PublicKey = List ℕ;
  XonlyPublicKey = List ℕ;
  TapLeafHash = List ℕ;
  EcdsaSignature = List ℕ;
  TaprootSignature = List ℕ;
  public_key = λ b. some b;
  xonly_public_key = λ b. some b;
  tap_leaf_hash = λ b. some b;
  ecdsa_signature = λ b. some b;
  taproot_signature = λ b. some b;
}

-- The bytes of a length after its first.
more_bytes : ℕ → ℕ
more_bytes x = if ltb x 0xFD then 0 else if x == 0xFD then 2 else if x == 0xFE then 4 else 8

unfoldable pub vec_of : List ℕ → Option (List ℕ)
unfolding more_bytes
vec_of [] = none
vec_of (x ∷ rest) = some (drop (more_bytes x) rest)

pub vec_of_prefixed : (n : ℕ) (bytes : List ℕ) → vec_of (serialize n ++ bytes) ≡ some bytes
unfolding vec_of serialize
vec_of_prefixed n bytes = ground arith

abbrev pub psbt_crate : PsbtCrate varints
psbt_crate = record {
  keys = signing_keys;
  public_key_bytes = λ b. b;
  ecdsa_bytes = λ b. b;
  xonly_bytes = λ b. b;
  leaf_hash_bytes = λ b. b;
  taproot_bytes = λ b. b;
  public_key_lt = λ a b. ltb (length a) (length b);
  script_key_lt = λ a b. ltb (length a.0) (length b.0);
  vec_of = vec_of;
  vec_of_serialized = λ bytes. vec_of_prefixed (length bytes) bytes;
}

-- A text is a length and as many bytes, of which nothing is read here.
abbrev pub ledger : LedgerCrates
ledger = record {
  wallet = wallet;
  psbt = psbt_crate;
  Signature = List ℕ;
  from_compact = λ b. some b;
  xpub_of_lossy = λ b. some b;
  string_partial = λ bytes. some ([], 0);
  bytes_partial = λ bytes. some ([], 0);
  ManagementContext = Unit {0};
  string_partial_bound = λ bytes text read h. ground arith;
}
