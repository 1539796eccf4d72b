-- ===== src/Coldcard/Bitcoin.antt =====
-- What the Coldcard code uses of the crate `bitcoin`, which is not in the repository: an extended
-- key, a signature and a PSBT are abstract, and so are the functions that read and write them. A
-- derivation path is the list of its child numbers, a fingerprint the list of its four bytes.
use bhwi.Prelude.{ℕ, List, Option}

pub record Bitcoin : Type 1 where
  pub Xpub : Type 0
  pub Psbt : Type 0
  pub Signature : Type 0
  -- `Xpub::from_str`
  pub xpub_of_str : List ℕ → Option Xpub
  -- `Xpub::fingerprint`
  pub fingerprint : Xpub → List ℕ
  -- `Signature::from_compact`
  pub from_compact : List ℕ → Option Signature
  -- `Psbt::serialize` and `Psbt::deserialize`
  pub serialize : Psbt → List ℕ
  pub deserialize : List ℕ → Option Psbt
  -- `DerivationPath::to_string`
  pub path_to_string : List ℕ → List ℕ
  -- the bytes that `Builder::push_int` and `Builder::push_key` append to a script
  pub push_int : ℕ → List ℕ
  pub push_key : List ℕ → List ℕ
