-- ===== src/Policy.antt =====
-- bhwi/src/policy.rs: what is read out of a wallet policy. The crate `miniscript` is not in the
-- repository, so its policies and keys are an interface here.
pub mod Parts
use bhwi.Prelude.{
  ℕ, ◌≤◌, ◌≡◌, List, [], ◌∷◌, ◌++◌, map, Option, none, some, if◌then◌else◌, bytes_eq, length,
  Outcome, ok, err, ◌>>=◌, ◌⊎◌, Returns,
}

-- `Wildcard`.
pub data Wildcard : Type 0 where
  no_wildcard unhardened hardened_wildcard : Wildcard

-- `DescriptorPublicKey`, with its origin: the fingerprint and the path.
pub data DescriptorPublicKey (S X : Type 0) : Type 0 where
  single : S → DescriptorPublicKey S X
  xpub :
      (origin : Option (List ℕ × List ℕ)) (xkey : X) (derivation_path : List ℕ)
      (wildcard : Wildcard)
      → DescriptorPublicKey S X
  multi_xpub :
      (origin : Option (List ℕ × List ℕ)) (xkey : X) (derivation_paths : List (List ℕ))
      (wildcard : Wildcard)
      → DescriptorPublicKey S X

pub record Miniscript : Type 1 where
  pub WalletPolicy : Type 0
  pub WalletPolicyError : Type 0
  pub SinglePub : Type 0
  pub Xpub : Type 0
  pub single_to_string : SinglePub → List ℕ
  pub xpub_to_string : Xpub → List ℕ
  pub fingerprint_to_string : List ℕ → List ℕ
  pub path_to_string : List ℕ → List ℕ
  -- `format!("{policy:#}")`
  pub template : WalletPolicy → List ℕ
  -- `policy.into_descriptor()?.iter_pk()`
  pub descriptor_keys :
      WalletPolicy → Outcome WalletPolicyError (List (DescriptorPublicKey SinglePub Xpub))
  -- `WalletPolicy::from_str`, `DescriptorPublicKey::from_str` and `set_key_info`
  pub policy_of_str : List ℕ → Outcome WalletPolicyError WalletPolicy
  pub key_of_str : List ℕ → Option (DescriptorPublicKey SinglePub Xpub)
  pub set_key_info :
      WalletPolicy
      → List (DescriptorPublicKey SinglePub Xpub)
      → Outcome WalletPolicyError WalletPolicy
  -- These calls return, and a descriptor has a key.
  pub descriptor_keys_some :
      (policy : WalletPolicy)
      → ((e : WalletPolicyError) × (descriptor_keys policy ≡ err e))
        ⊎ ((keys : List (DescriptorPublicKey SinglePub Xpub)) × (descriptor_keys policy ≡ ok keys)
            × (1 ≤ length keys))
  pub policy_of_str-Returns : (text : List ℕ) → Returns (policy_of_str text)
  pub set_key_info-Returns :
      (policy : WalletPolicy) (keys : List (DescriptorPublicKey SinglePub Xpub))
      → Returns (set_key_info policy keys)

module _ (m : Miniscript) where
  abbrev pub Key : Type 0
  Key = DescriptorPublicKey m.SinglePub m.Xpub

  -- The brackets and the slash in ASCII.
  unfoldable pub format_origin_xkey : Option (List ℕ × List ℕ) → List ℕ → List ℕ
  format_origin_xkey none xkey = xkey
  format_origin_xkey (some (fp, [])) xkey = 91 ∷ (m.fingerprint_to_string fp ++ (93 ∷ xkey))
  format_origin_xkey (some (fp, child ∷ path)) xkey =
      91 ∷ (m.fingerprint_to_string fp ++ (47 ∷ (m.path_to_string (child ∷ path) ++ (93 ∷ xkey))))

  unfoldable pub format_key_info : Key → List ℕ
  unfolding format_origin_xkey
  format_key_info (single key) = m.single_to_string key
  format_key_info (xpub origin xkey path _) = format_origin_xkey origin (m.xpub_to_string xkey)
  format_key_info (multi_xpub origin xkey paths _) =
      format_origin_xkey origin (m.xpub_to_string xkey)

  -- The loop of `extract_parts` after a first key: `last` is the key that was pushed last.
  unfoldable pub collapse : Key → List Key → List Key
  collapse last [] = []
  collapse last (key ∷ keys) =
      let dropped = collapse last keys in
      let pushed = key ∷ collapse key keys in
      if bytes_eq (format_key_info last) (format_key_info key) then dropped else pushed

  abbrev pub collapsed : List Key → List Key
  collapsed [] = []
  collapsed (key ∷ keys) = key ∷ collapse key keys

  unfoldable pub extract_parts : m.WalletPolicy → Outcome m.WalletPolicyError (List ℕ × List Key)
  unfolding collapse
  extract_parts policy = do keys ← m.descriptor_keys policy; ok (m.template policy, collapsed keys)

  unfoldable pub xpub_origin : Key → Option (Option (List ℕ) × Option (List ℕ) × m.Xpub)
  xpub_origin (single key) = none
  xpub_origin (xpub none xkey path _) = some (none, none, xkey)
  xpub_origin (xpub (some (fp, path)) xkey derivation _) = some (some fp, some path, xkey)
  xpub_origin (multi_xpub none xkey paths _) = some (none, none, xkey)
  xpub_origin (multi_xpub (some (fp, path)) xkey paths _) = some (some fp, some path, xkey)
