-- ===== src/Jade/Convert/Names.antt =====
-- bhwi/src/jade/mod.rs: the name of a multisig does not depend on the order of its keys.
use bhwi.Prelude.{
  ℕ, ◌≡◌, refl, sym, ◌∙◌, arith, true, false, List, [], ◌∷◌, bytes_eq_refl, bytes_eq→eq,
}
use mathlib.Core.List.{Permᴰ}
use bhwi.Ledger.Maps.{bytes_lt}
use bhwi.Jade.Convert.{Origin, origin_lt, insert_origin, sort_origins, summary, multisig_name_of}

bytes_lt_trans :
    (xs ys zs : List ℕ) → bytes_lt xs ys ≡ true → bytes_lt ys zs ≡ true → bytes_lt xs zs ≡ true
unfolding bytes_lt
bytes_lt_trans xs [] zs h h' = absurd cc
bytes_lt_trans xs (y ∷ ys) [] h h' = absurd cc
bytes_lt_trans [] (y ∷ ys) (z ∷ zs) h h' = refl
bytes_lt_trans (x ∷ xs) (y ∷ ys) (z ∷ zs) h h' = let rest = bytes_lt_trans xs ys zs in ground arith

bytes_lt_asym : (xs ys : List ℕ) → bytes_lt xs ys ≡ true → bytes_lt ys xs ≡ false
unfolding bytes_lt
bytes_lt_asym xs [] h = absurd cc
bytes_lt_asym [] (y ∷ ys) h = refl
bytes_lt_asym (x ∷ xs) (y ∷ ys) h = let rest = bytes_lt_asym xs ys in ground arith

bytes_lt_total : (xs ys : List ℕ) → bytes_lt xs ys ≡ false → bytes_lt ys xs ≡ false → xs ≡ ys
unfolding bytes_lt
bytes_lt_total [] [] h h' = refl
bytes_lt_total [] (y ∷ ys) h h' = absurd cc
bytes_lt_total (x ∷ xs) [] h h' = absurd cc
bytes_lt_total (x ∷ xs) (y ∷ ys) h h' = let rest = bytes_lt_total xs ys in ground arith

origin_lt_trans :
    (p q r : Origin) → origin_lt p q ≡ true → origin_lt q r ≡ true → origin_lt p r ≡ true
unfolding origin_lt
origin_lt_trans (a, b) (c, d) (e, f) h h' = ground (
  arith,
  bytes_lt_trans a c e,
  bytes_lt_trans b d f,
  bytes_eq→eq a c,
  bytes_eq→eq c e,
  bytes_eq_refl a,
)

origin_lt_total : (p q : Origin) → origin_lt p q ≡ false → origin_lt q p ≡ false → p ≡ q
unfolding origin_lt
origin_lt_total (a, b) (c, d) h h' =
    ground (arith, bytes_lt_total a c, bytes_lt_total b d, bytes_eq_refl a)

origin_lt_asym : (p q : Origin) → origin_lt p q ≡ true → origin_lt q p ≡ false
unfolding origin_lt
origin_lt_asym (a, b) (c, d) h = ground (
  arith,
  bytes_lt_asym a c,
  bytes_lt_asym c a,
  bytes_lt_asym b d,
  bytes_lt_asym d b,
  bytes_eq→eq a c,
  bytes_eq→eq c a,
)

-- Two insertions can be exchanged.
insert_origin_comm :
    (p q : Origin) (xs : List Origin)
    → insert_origin p (insert_origin q xs) ≡ insert_origin q (insert_origin p xs)
unfolding insert_origin
insert_origin_comm p q [] = ground (arith, origin_lt_total p q, origin_lt_asym p q)
insert_origin_comm p q (x ∷ xs) = ground (
  arith,
  insert_origin_comm p q xs,
  origin_lt_total p q,
  origin_lt_asym p q,
  origin_lt_asym q p,
  origin_lt_trans x p q,
  origin_lt_trans x q p,
  origin_lt_trans p x q,
  origin_lt_trans q x p,
  origin_lt_asym x p,
  origin_lt_asym x q,
)

sort_origins-Perm : (ps qs : List Origin) → Permᴰ ps qs → sort_origins ps ≡ sort_origins qs
unfolding sort_origins
sort_origins-Perm _ _ Permᴰ.nil = refl
sort_origins-Perm _ _ (Permᴰ.cons {a = a} {l₁ = ps} {l₂ = qs} e d) =
    rw (sort_origins-Perm ps qs d, e) refl
sort_origins-Perm _ _ (Permᴰ.swap {a = a} {b = b} {l = ps} e e') =
    rw (sym e, sym e') (insert_origin_comm a b (sort_origins ps))
sort_origins-Perm _ _ (Permᴰ.trans {l₁ = ps} {l₂ = qs} {l₃ = rs} d d') =
    sort_origins-Perm ps qs d ∙ sort_origins-Perm qs rs d'

-- The name of a multisig is the same for the same origins of its keys in another order.
pub multisig_name_of-Perm :
    (sha256 : List ℕ → List ℕ) (variant : List ℕ) (threshold : ℕ) (ps qs : List Origin)
    → Permᴰ ps qs
    → multisig_name_of sha256 variant threshold ps ≡ multisig_name_of sha256 variant threshold qs
unfolding multisig_name_of summary
multisig_name_of-Perm sha256 variant threshold ps qs d = rw (sort_origins-Perm ps qs d) refl
