-- ===== src/Ledger/Maps/Sorted.antt =====
-- bhwi/src/ledger/store.rs: `sort_by` puts the pairs of a mapping in the order of their keys.
use bhwi.Prelude.{
  ℕ, ◌<◌, ◌≡◌, refl, arith, true, false, List, [], ◌∷◌, Bool-cases, inl, inr, ltb, ltb→lt,
}
use mathlib.Core.List.{Permᴰ}
use mathlib.Core.List.Permᴰ
use bhwi.Ledger.Maps.{Pairs, bytes_lt, insert_pair, sort_pairs}

-- The order of byte strings: a first byte that is lower decides, and a string is before its
-- continuations.
pub data Before : List ℕ → List ℕ → Type 0 where
  ended : (ys : List ℕ) → Before [] ys
  lower : (x y : ℕ) (xs ys : List ℕ) → x < y → Before (x ∷ xs) (y ∷ ys)
  same : (x y : ℕ) (xs ys : List ℕ) → x ≡ y → Before xs ys → Before (x ∷ xs) (y ∷ ys)

-- Each key is before the next one.
abbrev pub InOrder : Pairs → Type 0
InOrder [] = Unit {0}
InOrder (p ∷ []) = Unit {0}
InOrder (p ∷ q ∷ rest) = Before p.0 q.0 × InOrder (q ∷ rest)

not_lt-Before : (xs ys : List ℕ) → bytes_lt ys xs ≡ false → Before xs ys
unfolding bytes_lt
not_lt-Before [] ys h = ended ys
not_lt-Before (x ∷ xs) [] h = absurd cc
not_lt-Before (x ∷ xs) (y ∷ ys) h = elim (Bool-cases (ltb x y)) [
  | inl less ↦ lower x y xs ys (ltb→lt x y less)
  | inr more ↦ let e : x ≡ y = ground arith in same x y xs ys e (not_lt-Before xs ys (ground arith))
]

lt-Before : (xs ys : List ℕ) → bytes_lt xs ys ≡ true → Before xs ys
unfolding bytes_lt
lt-Before xs [] h = absurd cc
lt-Before [] (y ∷ ys) h = ended (y ∷ ys)
lt-Before (x ∷ xs) (y ∷ ys) h = elim (Bool-cases (ltb x y)) [
  | inl less ↦ lower x y xs ys (ltb→lt x y less)
  | inr more ↦ let e : x ≡ y = ground arith in same x y xs ys e (lt-Before xs ys (ground arith))
]

insert_pair-InOrder : (p : List ℕ × List ℕ) (qs : Pairs) → InOrder qs → InOrder (insert_pair p qs)
unfolding insert_pair
insert_pair-InOrder p [] h = tt
insert_pair-InOrder p (q ∷ []) h = elim (Bool-cases (bytes_lt q.0 p.0)) [
  | inl less ↦ rw less (lt-Before q.0 p.0 less, tt)
  | inr more ↦ rw more (not_lt-Before p.0 q.0 more, tt)
]
insert_pair-InOrder p (q ∷ r ∷ rest) (h, hs) = elim (Bool-cases (bytes_lt q.0 p.0)) [
  | inr more ↦ rw more (not_lt-Before p.0 q.0 more, (h, hs))
  | inl less ↦
      let later = insert_pair-InOrder p (r ∷ rest) hs in
      elim (Bool-cases (bytes_lt r.0 p.0)) [
        | inl less' ↦ rw (less, less') (h, rw less' at later)
        | inr more' ↦ rw (less, more') (lt-Before q.0 p.0 less, rw more' at later)
      ]
]

pub sort_pairs-InOrder : (ps : Pairs) → InOrder (sort_pairs ps)
unfolding sort_pairs
sort_pairs-InOrder [] = tt
sort_pairs-InOrder (p ∷ ps) = insert_pair-InOrder p (sort_pairs ps) (sort_pairs-InOrder ps)

insert_pair-Perm : (p : List ℕ × List ℕ) (qs : Pairs) → Permᴰ (insert_pair p qs) (p ∷ qs)
unfolding insert_pair
insert_pair-Perm p [] = Permᴰ.cons refl Permᴰ.nil
insert_pair-Perm p (q ∷ qs) = elim (Bool-cases (bytes_lt q.0 p.0)) [
  | inl less ↦
      rw less (Permᴰ.trans (Permᴰ.cons refl (insert_pair-Perm p qs)) (Permᴰ.swap refl refl))
  | inr more ↦ rw more (Permᴰ.refl (p ∷ q ∷ qs))
]

pub sort_pairs-Perm : (ps : Pairs) → Permᴰ (sort_pairs ps) ps
unfolding sort_pairs
sort_pairs-Perm [] = Permᴰ.nil
sort_pairs-Perm (p ∷ ps) =
    Permᴰ.trans (insert_pair-Perm p (sort_pairs ps)) (Permᴰ.cons refl (sort_pairs-Perm ps))
