-- ===== src/Coldcard/Convert/Registered.antt =====
-- bhwi/src/coldcard/mod.rs: what `coldcard_registration_payload` accepts.
use mathlib.Core.Path.{subst}
use bhwi.Prelude.{
  ℕ, ◌≤◌, ◌≡◌, ◌≢◌, refl, arith, Bool, true, false, ◌&&◌, ◌||◌, not, List, [], ◌∷◌, Option, none,
  some, ltb, leb, ◌==◌, bytes_eq→eq, length, Outcome, ok, err, panic, diverge, ok_or, map_err,
  ensure, ◌⊎◌, inl, inr, All, >>=-eq-ok,
}
use bhwi.Policy.{
  Miniscript, Key, single, xpub, multi_xpub, no_wildcard, unhardened, hardened_wildcard,
}
use bhwi.Coldcard.Convert.{
  DescriptorShape, sorted_multi, other_terminal, sh_ms, sh_wsh, wsh, sh_wpkh, other_descriptor,
  sortedmulti_size, invalid_input, serialization, ColdcardCrates, coldcard_sortedmulti_size,
  valid_single_path, valid_multi_paths, valid_key, validate_coldcard_registration_key,
  validate_keys, all_printable, coldcard_registration_payload,
}

ensure-eq-ok :
    {E : Type 0} (test : Bool) (e : E) {u : Unit {0}} → ensure test e ≡ ok u → test ≡ true
ensure-eq-ok true e h = refl
ensure-eq-ok false e h = cc

map_err-eq-ok :
    {D E A : Type 0} (f : D → E) (call : Outcome D A) {a : A} → map_err f call ≡ ok a → call ≡ ok a
map_err-eq-ok f (ok x) h = cc
map_err-eq-ok f (err e) h = cc
map_err-eq-ok f panic h = cc
map_err-eq-ok f diverge h = cc

ok_or-eq-ok : {E A : Type 0} (o : Option A) (e : E) {a : A} → ok_or o e ≡ ok a → o ≡ some a
ok_or-eq-ok (some x) e h = cc
ok_or-eq-ok none e h = cc

-- A key with an origin that ends in /0/* or /<0;1>/*.
abbrev pub IsRegistrable : (m : Miniscript) → Key m → Type 0
IsRegistrable m (single key) = ⊥
IsRegistrable m (xpub origin xkey path wildcard) =
    (origin ≢ none) × (wildcard ≡ unhardened) × (path ≡ 0 ∷ [])
IsRegistrable m (multi_xpub origin xkey paths wildcard) =
    (origin ≢ none)
    × (wildcard ≡ unhardened)
    × ((paths ≡ (0 ∷ []) ∷ (1 ∷ []) ∷ []) ⊎ (paths ≡ (1 ∷ []) ∷ (0 ∷ []) ∷ []))

-- A byte of printable ASCII.
abbrev pub IsPrintable : ℕ → Type 0
IsPrintable byte = (32 ≤ byte) × (byte ≤ 126)

printable_iff :
    (name : List ℕ)
    → (all_printable name ≡ true → All IsPrintable name)
      × (All IsPrintable name → all_printable name ≡ true)
unfolding all_printable
printable_iff [] = (λ h. tt, λ h. refl)
printable_iff (byte ∷ name) =
    let (there, back) = printable_iff name in
    (λ h. ((ground arith, ground arith), there (ground arith)), λ (h, hs). ground (arith, back hs))

multi_paths_iff :
    (paths : List (List ℕ))
    → (valid_multi_paths paths ≡ true
        → (paths ≡ (0 ∷ []) ∷ (1 ∷ []) ∷ []) ⊎ (paths ≡ (1 ∷ []) ∷ (0 ∷ []) ∷ []))
      × ((paths ≡ (0 ∷ []) ∷ (1 ∷ []) ∷ []) ⊎ (paths ≡ (1 ∷ []) ∷ (0 ∷ []) ∷ [])
          → valid_multi_paths paths ≡ true)
unfolding valid_multi_paths
multi_paths_iff paths = (there paths, λ h. elim h [ inl e ↦ rw e refl | inr e ↦ rw e refl ])
  where
    there :
        (paths : List (List ℕ))
        → valid_multi_paths paths ≡ true
        → (paths ≡ (0 ∷ []) ∷ (1 ∷ []) ∷ []) ⊎ (paths ≡ (1 ∷ []) ∷ (0 ∷ []) ∷ [])
    there ((a ∷ []) ∷ (b ∷ []) ∷ []) h =
        let c : ((a ≡ 0) × (b ≡ 1)) ⊎ ((a ≡ 1) × (b ≡ 0)) = ground arith in
        elim c [ inl (e, e') ↦ inl (rw (e, e') refl) | inr (e, e') ↦ inr (rw (e, e') refl) ]
    there ((a ∷ []) ∷ (b ∷ []) ∷ c ∷ cs) h = cc
    there paths h = absurd cc

single_path_iff :
    (path : List ℕ)
    → (valid_single_path path ≡ true → path ≡ 0 ∷ [])
      × (path ≡ 0 ∷ [] → valid_single_path path ≡ true)
unfolding valid_single_path
single_path_iff path = (λ h. bytes_eq→eq path (0 ∷ []) h, λ e. rw e refl)

key_iff :
    (m : Miniscript) (key : Key m)
    → (valid_key m key ≡ true → IsRegistrable m key)
      × (IsRegistrable m key → valid_key m key ≡ true)
unfolding valid_key
key_iff m (single key) = (λ h. absurd cc, λ h. absurd h)
key_iff m (xpub none xkey path _) = (λ h. absurd cc, λ (h, e, e'). absurd (h refl))
key_iff m (xpub (some origin) xkey path no_wildcard) = (λ h. absurd cc, λ (h, e, e'). absurd cc)
key_iff m (xpub (some origin) xkey path hardened_wildcard) =
    (λ h. absurd cc, λ (h, e, e'). absurd cc)
key_iff m (xpub (some origin) xkey path unhardened) =
    let (there, back) = single_path_iff path in
    (λ h. (λ e. absurd cc, refl, there h), λ (h, e, e'). back e')
key_iff m (multi_xpub none xkey paths _) = (λ h. absurd cc, λ (h, e, e'). absurd (h refl))
key_iff m (multi_xpub (some origin) xkey paths no_wildcard) =
    (λ h. absurd cc, λ (h, e, e'). absurd cc)
key_iff m (multi_xpub (some origin) xkey paths hardened_wildcard) =
    (λ h. absurd cc, λ (h, e, e'). absurd cc)
key_iff m (multi_xpub (some origin) xkey paths unhardened) =
    let (there, back) = multi_paths_iff paths in
    (λ h. (λ e. absurd cc, refl, there h), λ (h, e, e'). back e')

keys_iff :
    (m : Miniscript) (keys : List (Key m))
    → (validate_keys m keys ≡ ok tt → All (IsRegistrable m) keys)
      × (All (IsRegistrable m) keys → validate_keys m keys ≡ ok tt)
unfolding validate_keys validate_coldcard_registration_key
keys_iff m [] = (λ h. tt, λ h. refl)
keys_iff m (key ∷ keys) =
    let (there, back) = keys_iff m keys in
    (
      λ h.
          let (u, e, rest) = >>=-eq-ok (ensure (valid_key m key) invalid_input) _ h in
          ((key_iff m key).0 (ensure-eq-ok (valid_key m key) invalid_input e), there rest),
      λ (h, hs). rw ((key_iff m key).1 h) (back hs),
    )

-- A script hash or a witness script hash of a sorted multisig, or the one of the other.
abbrev pub IsSortedMulti : DescriptorShape → ℕ → ℕ → Type 0
IsSortedMulti shape k n =
    (shape ≡ sh_ms (sorted_multi k n))
    ⊎ ((shape ≡ wsh (sorted_multi k n)) ⊎ (shape ≡ sh_wsh (sorted_multi k n)))

size-IsSortedMulti :
    (shape : DescriptorShape) (k n : ℕ)
    → coldcard_sortedmulti_size shape ≡ some (k, n)
    → IsSortedMulti shape k n
unfolding coldcard_sortedmulti_size sortedmulti_size
size-IsSortedMulti (sh_ms (sorted_multi k' n')) k n h =
    let e : k' ≡ k = cc in let e' : n' ≡ n = cc in rw (e, e') (inl refl)
size-IsSortedMulti (wsh (sorted_multi k' n')) k n h =
    let e : k' ≡ k = cc in let e' : n' ≡ n = cc in rw (e, e') (inr (inl refl))
size-IsSortedMulti (sh_wsh (sorted_multi k' n')) k n h =
    let e : k' ≡ k = cc in let e' : n' ≡ n = cc in rw (e, e') (inr (inr refl))
size-IsSortedMulti (sh_ms other_terminal) k n h = absurd cc
size-IsSortedMulti (wsh other_terminal) k n h = absurd cc
size-IsSortedMulti (sh_wsh other_terminal) k n h = absurd cc
size-IsSortedMulti sh_wpkh k n h = absurd cc
size-IsSortedMulti other_descriptor k n h = absurd cc

IsSortedMulti-size :
    (shape : DescriptorShape) (k n : ℕ)
    → IsSortedMulti shape k n
    → coldcard_sortedmulti_size shape ≡ some (k, n)
unfolding coldcard_sortedmulti_size sortedmulti_size
IsSortedMulti-size shape k n (inl e) = rw e refl
IsSortedMulti-size shape k n (inr (inl e)) = rw e refl
IsSortedMulti-size shape k n (inr (inr e)) = rw e refl

-- What is registered, and under which conditions.
pub record Registers (m : Miniscript) (k : ColdcardCrates m) (name : List ℕ)
    (policy : m.WalletPolicy) (payload : List ℕ) : Type 0 where
  pub descriptor : k.Descriptor
  pub threshold : ℕ
  pub signer_count : ℕ
  pub named : (2 ≤ length name) × (length name ≤ 20) × All IsPrintable name
  pub described : k.into_descriptor policy ≡ ok descriptor
  pub sized : IsSortedMulti (k.shape descriptor) threshold signer_count
  pub bounded : (1 ≤ threshold) × (threshold ≤ signer_count) × (signer_count ≤ 15)
  pub keyed : All (IsRegistrable m) (k.iter_pk descriptor)
  pub written : k.registration_json name descriptor ≡ ok payload
  pub fitting : (101 ≤ length payload) × (length payload ≤ 4000)

module _ (m : Miniscript) (k : ColdcardCrates m) where
  checked :
      (name : List ℕ) (policy : m.WalletPolicy) (payload : List ℕ)
      → coldcard_registration_payload m k name policy ≡ ok payload
      → Registers m k name policy payload
  unfolding coldcard_registration_payload
  checked name policy payload h =
      let good = (leb 2 (length name) && leb (length name) 20) && all_printable name in
      let (_, e1, h1) = >>=-eq-ok (ensure good invalid_input) _ h in
      let (d, e2, h2) = >>=-eq-ok (map_err (λ e. invalid_input) (k.into_descriptor policy)) _ h1 in
      let ((t, n), e3, h3) =
        >>=-eq-ok (ok_or (coldcard_sortedmulti_size (k.shape d)) invalid_input) _ h2 in
      let bound = not ((t == 0) || (ltb n t || ltb 15 n)) in
      let (_, e4, h4) = >>=-eq-ok (ensure bound invalid_input) _ h3 in
      let (_, e5, h5) = >>=-eq-ok (validate_keys m (k.iter_pk d)) _ h4 in
      let (json, e6, h6) =
        >>=-eq-ok (map_err (λ e. serialization) (k.registration_json name d)) _ h5 in
      let fits = leb 101 (length json) && leb (length json) 4000 in
      let (_, e7, h7) = >>=-eq-ok (ensure fits invalid_input) _ h6 in
      let g = ensure-eq-ok good invalid_input e1 in
      let b = ensure-eq-ok bound invalid_input e4 in
      let f = ensure-eq-ok fits invalid_input e7 in
      let same : json ≡ payload = cc in
      record {
        descriptor = d;
        threshold = t;
        signer_count = n;
        named = (ground arith, ground arith, (printable_iff name).0 (ground arith));
        described = map_err-eq-ok (λ e. invalid_input) (k.into_descriptor policy) e2;
        sized =
            size-IsSortedMulti (k.shape d) t n
              (ok_or-eq-ok (coldcard_sortedmulti_size (k.shape d)) invalid_input e3);
        bounded = (ground arith, ground arith, ground arith);
        keyed = (keys_iff m (k.iter_pk d)).0 e5;
        written =
            subst (λ p. k.registration_json name d ≡ ok p) same
              (map_err-eq-ok (λ e. serialization) (k.registration_json name d) e6);
        fitting = rw (← same) (ground arith, ground arith);
      }

  accepted :
      (name : List ℕ) (policy : m.WalletPolicy) (payload : List ℕ)
      → Registers m k name policy payload
      → coldcard_registration_payload m k name policy ≡ ok payload
  unfolding coldcard_registration_payload
  accepted name policy payload r =
      let (lo, hi, printable) = r.named in
      let (one, le, most) = r.bounded in
      let (small, large) = r.fitting in
      let good : ((leb 2 (length name) && leb (length name) 20) && all_printable name) ≡ true =
        ground (arith, (printable_iff name).1 printable) in
      let bound : not
            ((r.threshold == 0) || (ltb r.signer_count r.threshold || ltb 15 r.signer_count))
          ≡ true =
        ground arith in
      let fits : (leb 101 (length payload) && leb (length payload) 4000) ≡ true = ground arith in
      rw
        (
          good,
          r.described,
          IsSortedMulti-size (k.shape r.descriptor) r.threshold r.signer_count r.sized,
          bound,
          (keys_iff m (k.iter_pk r.descriptor)).1 r.keyed,
          r.written,
          fits,
        )
        refl

-- A wallet is given a payload to register exactly where its name has 2 to 20 bytes of printable ASCII,
-- its policy has a descriptor that is sh, wsh or sh of wsh of a sorted multisig,
-- of at most 15 signers and a threshold from 1 to their number, every key has an origin and ends in
-- /0/* or /<0;1>/*, and the JSON text of the name and the descriptor can be written and has 101 to 4000
-- bytes; the payload is that text.
pub coldcard_registration_payload_iff :
    (m : Miniscript) (k : ColdcardCrates m) (name : List ℕ) (policy : m.WalletPolicy)
    (payload : List ℕ)
    → (coldcard_registration_payload m k name policy ≡ ok payload
        → Registers m k name policy payload)
      × (Registers m k name policy payload
          → coldcard_registration_payload m k name policy ≡ ok payload)
coldcard_registration_payload_iff m k name policy payload =
    (checked m k name policy payload, accepted m k name policy payload)
