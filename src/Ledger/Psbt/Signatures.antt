-- ===== src/Ledger/Psbt/Signatures.antt =====
-- bhwi/src/ledger/mod.rs, `apply_psbt_signature`: a yielded signature in a PSBT.
use bhwi.Prelude.{
  ℕ, zero, suc, Bool, List, [], ◌∷◌, none, some, get_elem?, if◌then◌else◌, Outcome, ok, ok_or,
  map_err, ◌>>=◌,
}
use bhwi.Ledger.Consensus.{Consensus}
use bhwi.Ledger.Yield.{
  YieldError, PartialSignature, sig, tap_script_sig, SignPsbtYieldedObject, partial, ignored,
  parse_sign_psbt_yielded,
}
use bhwi.Ledger.Psbt.{PsbtCrate, Input, Psbt}

-- `BTreeMap::insert` on the entries in the order of their keys.
unfoldable pub insert {ℓ κ} :
    {K : Type ℓ} {V : Type κ} → (K → K → Bool) → K → V → List (K × V) → List (K × V)
insert lt key value [] = (key, value) ∷ []
insert lt key value (entry ∷ rest) =
    let later = entry ∷ insert lt key value rest in
    let here = if lt key entry.0 then (key, value) ∷ entry ∷ rest else (key, value) ∷ rest in
    if lt entry.0 key then later else here

-- A slice with the element at an index that is in range replaced.
unfoldable pub set_at {ℓ} : {A : Type ℓ} → List A → ℕ → A → List A
set_at [] i y = []
set_at (x ∷ xs) zero y = y ∷ xs
set_at (x ∷ xs) (suc i) y = x ∷ set_at xs i y

-- Why a yield is refused; the messages are left out.
pub data YieldRefused : Type 0 where
  bad_yield : YieldError → YieldRefused
  invalid_input_index : ℕ → YieldRefused

module _ {c : Consensus} (k : PsbtCrate c) where
  unfoldable pub store_signature : Input k → PartialSignature k.keys → Input k
  store_signature input (sig pubkey s) = record input {
    partial_sigs = insert k.public_key_lt pubkey s input.partial_sigs;
  }
  store_signature input (tap_script_sig key (some leaf_hash) s) = record input {
    tap_script_sigs = insert k.script_key_lt (key, leaf_hash) s input.tap_script_sigs;
  }
  store_signature input (tap_script_sig key none s) = record input { tap_key_sig = some s }

  unfoldable pub store_yielded : Psbt k → ℕ → Input k → SignPsbtYieldedObject k.keys → Psbt k
  store_yielded psbt input_index input ignored = psbt
  store_yielded psbt input_index input (partial s) = record psbt {
    inputs = set_at psbt.inputs input_index (store_signature input s);
  }

  unfoldable pub apply_psbt_signature : Psbt k → List ℕ → Outcome YieldRefused (Psbt k)
  apply_psbt_signature psbt yielded = do
    (input_index, yielded_object) ← map_err bad_yield (parse_sign_psbt_yielded k.keys yielded)
    input ← ok_or (get_elem? psbt.inputs input_index) (invalid_input_index input_index)
    ok (store_yielded psbt input_index input yielded_object)

  -- The loop over what the device yielded.
  unfoldable pub apply_yielded : Psbt k → List (List ℕ) → Outcome YieldRefused (Psbt k)
  apply_yielded psbt [] = ok psbt
  apply_yielded psbt (yielded ∷ rest) = do
    psbt' ← apply_psbt_signature psbt yielded
    apply_yielded psbt' rest
