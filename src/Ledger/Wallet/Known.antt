-- ===== src/Ledger/Wallet/Known.antt =====
-- bhwi/src/ledger/wallet.rs: what the store of a wallet policy can answer.
use bhwi.Prelude.{
  ℕ, ◌%◌, ◌≤◌, ◌≡◌, refl, arith, List, [], ◌∷◌, ◌++◌, map, length, ok, err, ◌⊎◌, inl, inr, ap, suc,
}
use bhwi.Policy.{Miniscript, Key, format_key_info, extract_parts, collapsed}
use bhwi.Policy.Parts.{length-collapsed}
use bhwi.Ledger.Store.{DelegatedStore, empty, add_known_preimage, add_known_list}
use bhwi.Ledger.Store.Invariant.{IsSound}
use bhwi.Ledger.Store.Growth.{
  Grows, HasPreimage, CanAnswer, Grows-CanAnswer, Grows-preimage, add_known_list-Grows,
  add_known_preimage-Grows, empty-IsSound,
}
use bhwi.Ledger.Maps.Known.{element_hashes_eq, root_of_list, same_root}
use bhwi.Ledger.Wallet.{
  WalletCrates, WalletError, wallet_policy, LedgerWalletPolicy, version_byte, template_field,
  from_policy, serialize, id, to_store,
}

length-map : {A B : Type 0} (f : A → B) (xs : List A) → length (map f xs) ≡ length xs
length-map f [] = refl
length-map f (x ∷ xs) = ap suc (length-map f xs)

-- A descriptor cannot be made of the policy; or its parts are the template and the texts of the
-- descriptor's keys, each taken once where it follows itself.
from_policy_cases :
    (m : Miniscript) (policy : m.WalletPolicy)
    → ((e : m.WalletPolicyError) × (m.descriptor_keys policy ≡ err e)
        × (from_policy m policy ≡ err (wallet_policy e)))
      ⊎ ((described : List (Key m)) × (m.descriptor_keys policy ≡ ok described)
          × (from_policy m policy
              ≡ ok (m.template policy, map (format_key_info m) (collapsed m described)))
          × (1 ≤ length (map (format_key_info m) (collapsed m described))))
unfolding from_policy extract_parts
from_policy_cases m policy = elim (m.descriptor_keys_some policy) [
  | inl (e, failed) ↦ inl (e, failed, rw failed refl)
  | inr (keys, listed, h) ↦ inr (
    keys,
    listed,
    rw listed refl,
    omega (arith, length-map (format_key_info m) (collapsed m keys), length-collapsed m keys h),
  )
]

-- What is sent of a policy, from its template, its keys and the root of the keys' tree.
abbrev pub policy_bytes :
    (w : WalletCrates) → LedgerWalletPolicy w.miniscript → List ℕ → List (List ℕ) → List ℕ → List ℕ
policy_bytes w p template keys root =
    version_byte p.version
    ∷ (length p.name % 256)
    ∷ (p.name
        ++ (w.consensus.serialize (length template)
            ++ (template_field w p.version template
                ++ (w.consensus.serialize (length keys) ++ root))))

-- The keys are the texts of those of the policy's descriptor, each taken once where it follows itself.
-- A store of a policy is sound, and it can answer for the policy's bytes (by the identifier of the
-- policy), for the keys (by the root that is in the bytes) and for the template.
pub record PolicyStore (w : WalletCrates) (p : LedgerWalletPolicy w.miniscript) (s : DelegatedStore)
    (bytes : List ℕ) : Type 0 where
  pub described : List (Key w.miniscript)
  pub template : List ℕ
  pub keys : List (List ℕ)
  pub root : List ℕ
  pub described_eq : w.miniscript.descriptor_keys p.policy ≡ ok described
  pub template_eq : template ≡ w.miniscript.template p.policy
  pub keys_eq : keys ≡ map (format_key_info w.miniscript) (collapsed w.miniscript described)
  pub bytes_eq : bytes ≡ policy_bytes w p template keys root
  pub sound : IsSound w.sha256 s
  pub has_bytes : HasPreimage s.known_preimages (w.sha256 bytes)
  pub has_keys : CanAnswer w.sha256 s keys root
  pub has_template : HasPreimage s.known_preimages (w.sha256 template)

serialize_lem :
    (w : WalletCrates) (p : LedgerWalletPolicy w.miniscript) (template : List ℕ)
    (keys : List (List ℕ)) (s s' : DelegatedStore) (root : List ℕ)
    → from_policy w.miniscript p.policy ≡ ok (template, keys)
    → 1 ≤ length keys
    → add_known_list w.sha256 s keys ≡ ok (s', root)
    → serialize w p ≡ ok (policy_bytes w p template keys root)
unfolding serialize
serialize_lem w p template keys s s' root parts h added =
    let (m, made, r) = root_of_list w.sha256 s keys s' root h added in
    rw (parts, element_hashes_eq w.sha256 keys, made, r) refl

serialize_failed :
    (w : WalletCrates) (p : LedgerWalletPolicy w.miniscript) (e : WalletError w.miniscript)
    → from_policy w.miniscript p.policy ≡ err e
    → serialize w p ≡ err e
unfolding serialize
serialize_failed w p e failed = rw failed refl

pub to_store_lem :
    (w : WalletCrates) (p : LedgerWalletPolicy w.miniscript)
    → ((e : w.miniscript.WalletPolicyError) × (w.miniscript.descriptor_keys p.policy ≡ err e)
        × (serialize w p ≡ err (wallet_policy e))
        × (id w p ≡ err (wallet_policy e))
        × (to_store w p ≡ err (wallet_policy e)))
      ⊎ ((bytes : List ℕ) × (s : DelegatedStore) × (serialize w p ≡ ok bytes)
          × (id w p ≡ ok (w.sha256 bytes))
          × (to_store w p ≡ ok s)
          × PolicyStore w p s bytes)
unfolding id to_store
to_store_lem w p = elim (from_policy_cases w.miniscript p.policy) [
  | inl (e, undescribed, failed) ↦
      let failed' = serialize_failed w p (wallet_policy e) failed in
      inl (e, undescribed, failed', rw failed' refl, rw failed refl)
  | inr (described, listed, parts, h) ↦
      let sha = w.sha256 in
      let template = w.miniscript.template p.policy in
      let keys = map (format_key_info w.miniscript) (collapsed w.miniscript described) in
      let (_, root, added, _, _, _) = add_known_list-Grows sha empty keys (empty-IsSound sha) h in
      let bytes = policy_bytes w p template keys root in
      let serialized = serialize_lem w p template keys empty _ root parts h added in
      let (sound₁, _, has₁) = add_known_preimage-Grows sha empty bytes (empty-IsSound sha) in
      let s₁ = add_known_preimage sha empty bytes in
      let (s₂, root₂, added₂, sound₂, grows₂, answer) = add_known_list-Grows sha s₁ keys sound₁ h in
      let root₂≡root : root₂ ≡ root = same_root sha empty s₁ keys added added₂ h in
      let (sound₃, grows₃, has₃) = add_known_preimage-Grows sha s₂ template sound₂ in
      inr (
        bytes,
        add_known_preimage sha s₂ template,
        serialized,
        rw serialized refl,
        rw (parts, serialized, added₂) refl,
        record {
          described = described;
          template = template;
          keys = keys;
          root = root;
          described_eq = listed;
          template_eq = refl;
          keys_eq = refl;
          bytes_eq = refl;
          sound = sound₃;
          has_bytes = Grows-preimage (sha bytes) grows₃ (Grows-preimage (sha bytes) grows₂ has₁);
          has_keys = rw root₂≡root at (Grows-CanAnswer sha keys root₂ grows₃ answer);
          has_template = has₃;
        },
      )
]

pub Grows-PolicyStore :
    (w : WalletCrates) (p : LedgerWalletPolicy w.miniscript) (s s' : DelegatedStore)
    (bytes : List ℕ)
    → Grows s s'
    → IsSound w.sha256 s'
    → PolicyStore w p s bytes
    → PolicyStore w p s' bytes
Grows-PolicyStore w p s s' bytes g sound h = record {
  described = h.described;
  template = h.template;
  keys = h.keys;
  root = h.root;
  described_eq = h.described_eq;
  template_eq = h.template_eq;
  keys_eq = h.keys_eq;
  bytes_eq = h.bytes_eq;
  sound = sound;
  has_bytes = Grows-preimage (w.sha256 bytes) g h.has_bytes;
  has_keys = Grows-CanAnswer w.sha256 h.keys h.root g h.has_keys;
  has_template = Grows-preimage (w.sha256 h.template) g h.has_template;
}
