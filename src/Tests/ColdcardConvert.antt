-- ===== src/Tests/ColdcardConvert.antt =====
-- The theorem on what Coldcard registers at a concrete input.
use bhwi.Prelude.{ℕ, ◌≡◌, refl, List, [], ◌∷◌, ◌++◌, none, some, replicate, ok}
use bhwi.Policy.{Key, xpub, multi_xpub, unhardened}
use bhwi.Coldcard.Convert.{
  ColdcardCrates, sorted_multi, wsh, coldcard_registration_payload, coldcard_sortedmulti_size,
  sortedmulti_size, validate_keys, validate_coldcard_registration_key, valid_key, valid_single_path,
  valid_multi_paths, all_printable,
}
use bhwi.Coldcard.Convert.Registered.{Registers, coldcard_registration_payload_iff}
use bhwi.Tests.Policies.{miniscript}

abbrev cosigners : List (Key miniscript)
cosigners =
    xpub (some (1 ∷ [], 44 ∷ [])) (7 ∷ []) (0 ∷ []) unhardened
    ∷ multi_xpub (some (2 ∷ [], [])) (8 ∷ []) ((1 ∷ []) ∷ (0 ∷ []) ∷ []) unhardened
    ∷ []

abbrev crates : ColdcardCrates miniscript
crates = record {
  Descriptor = Unit {0};
  into_descriptor = λ policy. ok tt;
  shape = λ d. wsh (sorted_multi 2 2);
  iter_pk = λ d. cosigners;
  registration_json = λ name d. ok (name ++ replicate 120 34);
  single_origin = λ key. none;
  full_key = λ key. none;
  derive_pub = λ key path. ok key;
  inner_serialize = λ key. key;
}

abbrev name : List ℕ
name = 109 ∷ 121 ∷ 32 ∷ 50 ∷ []

registers_two :
    coldcard_registration_payload miniscript crates name [] ≡ ok (name ++ replicate 120 34)
unfolding coldcard_registration_payload coldcard_sortedmulti_size sortedmulti_size validate_keys
    validate_coldcard_registration_key valid_key valid_single_path valid_multi_paths all_printable
registers_two = refl

coldcard_registration_payload_iff_example :
    (coldcard_registration_payload miniscript crates name [] ≡ ok (name ++ replicate 120 34)
      → Registers miniscript crates name [] (name ++ replicate 120 34))
    × (Registers miniscript crates name [] (name ++ replicate 120 34)
        → coldcard_registration_payload miniscript crates name [] ≡ ok (name ++ replicate 120 34))
coldcard_registration_payload_iff_example =
    coldcard_registration_payload_iff miniscript crates name [] (name ++ replicate 120 34)
