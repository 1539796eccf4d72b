-- ===== src/Policy/Parts.antt =====
-- bhwi/src/policy.rs: the keys of `extract_parts` are one for each placeholder of the template.
use bhwi.Prelude.{
  ◌≤◌, ◌≡◌, refl, sym, ap, ◌∙◌, arith, List, [], ◌∷◌, ◌++◌, length, ok, false, bytes_eq,
  bytes_eq_refl, All,
}
use bhwi.Policy.{Miniscript, Key, format_key_info, collapse, collapsed, extract_parts}

module _ (m : Miniscript) where
  -- What the descriptor lists for one placeholder: a key, and others that are written as it is.
  pub record Group : Type 0 where
    pub first : Key m
    pub others : List (Key m)
    pub same : All (λ key. format_key_info m first ≡ format_key_info m key) others

  abbrev pub listed : List Group → List (Key m)
  listed [] = []
  listed (g ∷ gs) = g.first ∷ (g.others ++ listed gs)

  abbrev pub firsts : List Group → List (Key m)
  firsts [] = []
  firsts (g ∷ gs) = g.first ∷ firsts gs

  -- Two placeholders in a row have keys that are written differently.
  abbrev pub Apart : List Group → Type 0
  Apart [] = Unit {0}
  Apart (g ∷ []) = Unit {0}
  Apart (g ∷ h ∷ gs) =
      (bytes_eq (format_key_info m g.first) (format_key_info m h.first) ≡ false) × Apart (h ∷ gs)

  collapse_same :
      (last : Key m) (others rest : List (Key m))
      → All (λ key. format_key_info m last ≡ format_key_info m key) others
      → collapse m last (others ++ rest) ≡ collapse m last rest
  unfolding collapse
  collapse_same last [] rest h = refl
  collapse_same last (key ∷ others) rest (e, h) =
      rw (sym e, bytes_eq_refl (format_key_info m last)) (collapse_same last others rest h)

  collapse-firsts :
      (g : Group) (gs : List Group)
      → Apart (g ∷ gs)
      → collapse m g.first (g.others ++ listed gs) ≡ firsts gs
  unfolding collapse
  collapse-firsts g [] h = collapse_same g.first g.others [] g.same
  collapse-firsts g (h ∷ gs) (apart, rest) =
      collapse_same g.first g.others (listed (h ∷ gs)) g.same
      ∙ rw apart (ap (λ keys. h.first ∷ keys) (collapse-firsts h gs rest))

  pub collapsed-firsts : (gs : List Group) → Apart gs → collapsed m (listed gs) ≡ firsts gs
  collapsed-firsts [] h = refl
  collapsed-firsts (g ∷ gs) h = ap (λ keys. g.first ∷ keys) (collapse-firsts g gs h)

  pub length-collapsed : (keys : List (Key m)) → 1 ≤ length keys → 1 ≤ length (collapsed m keys)
  length-collapsed [] h = h
  length-collapsed (key ∷ keys) h = omega arith

-- When the descriptor lists its keys placeholder by placeholder, each one or more times in a row, and
-- placeholders in a row have keys that are written differently, the parts of the policy are the template
-- and one key for each placeholder, in their order.
pub extract_parts_lem :
    (m : Miniscript) (policy : m.WalletPolicy) (placeholders : List (Group m))
    → m.descriptor_keys policy ≡ ok (listed m placeholders)
    → Apart m placeholders
    → extract_parts m policy ≡ ok (m.template policy, firsts m placeholders)
unfolding extract_parts
extract_parts_lem m policy placeholders h apart = rw (h, collapsed-firsts m placeholders apart)
