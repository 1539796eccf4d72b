-- ===== src/Prelude/Slices.antt =====
-- Slices of the standard library that cut a buffer into pieces.
use Prim.Native.Nat.{ℕ, zero, suc, ◌+◌, ◌≤◌, ◌<◌}
use mathlib.Core.Path.{◌≡◌, refl, sym, ap, ◌∙◌}
use mathlib.Core.List.{List, [], ◌∷◌, ◌++◌}
use native.Mathlib.Omega.{arith}
use mathlib.Core.Option.{some}
use native.Mathlib.Nat.{zero-add, suc-add}
use bhwi.Prelude.Lists.{length, take, drop, get_elem?, length-take, length-drop, take-append-drop}

module _ {ℓ} {A : Type ℓ} where
  -- `slice.chunks(k + 1)`, with the length of the slice as fuel.
  unfoldable pub chunks_loop : ℕ → ℕ → List A → List (List A)
  chunks_loop fuel k [] = []
  chunks_loop zero k (x ∷ xs) = []
  chunks_loop (suc fuel) k (x ∷ xs) = (x ∷ take k xs) ∷ chunks_loop fuel k (drop k xs)

  abbrev pub concat : List (List A) → List A
  concat [] = []
  concat (xs ∷ xss) = xs ++ concat xss

module _ {ℓ} {A : Type ℓ} where
  unfoldable pub chunks : ℕ → List A → List (List A)
  unfolding chunks_loop
  chunks k xs = chunks_loop (length xs) k xs

  concat-chunks_loop :
      (fuel k : ℕ) (xs : List A) → length xs ≤ fuel → concat (chunks_loop fuel k xs) ≡ xs
  unfolding chunks_loop
  concat-chunks_loop fuel k [] h = refl
  concat-chunks_loop zero k (x ∷ xs) h = absurd (omega arith)
  concat-chunks_loop (suc fuel) k (x ∷ xs) h =
      ap (λ t. x ∷ (take k xs ++ t))
        (concat-chunks_loop fuel k (drop k xs) (omega (arith, length-drop {ℓ} k xs)))
      ∙ ap (λ t. x ∷ t) (take-append-drop k xs)

  pub concat-chunks : (k : ℕ) (xs : List A) → concat (chunks k xs) ≡ xs
  unfolding chunks
  concat-chunks k xs = concat-chunks_loop (length xs) k xs (omega arith)

pub chunks_nil {ℓ} : {A : Type ℓ} (k : ℕ) → chunks {A = A} k [] ≡ []
unfolding chunks chunks_loop
chunks_nil k = refl

pub chunks_some {ℓ} : {A : Type ℓ} (k : ℕ) (xs : List A) → 1 ≤ length xs → 1 ≤ length (chunks k xs)
unfolding chunks chunks_loop
chunks_some k [] h = absurd (omega arith)
chunks_some k (x ∷ xs) h = omega arith

take-nil {ℓ} : {A : Type ℓ} (n : ℕ) → take {A = A} n [] ≡ []
take-nil zero = refl
take-nil (suc n) = refl

drop-nil {ℓ} : {A : Type ℓ} (n : ℕ) → drop {A = A} n [] ≡ []
drop-nil zero = refl
drop-nil (suc n) = refl

module _ {ℓ} {A : Type ℓ} where
  pub take-add : (k r : ℕ) (xs : List A) → take (k + r) xs ≡ take k xs ++ take r (drop k xs)
  take-add zero r xs = rw zero-add
  take-add (suc k) r [] = rw suc-add (sym (take-nil r))
  take-add (suc k) r (x ∷ xs) = rw suc-add (ap (λ t. x ∷ t) (take-add k r xs))

  pub drop-drop : (k r : ℕ) (xs : List A) → drop r (drop k xs) ≡ drop (k + r) xs
  drop-drop zero r xs = rw zero-add
  drop-drop (suc k) r [] = rw suc-add (drop-nil r)
  drop-drop (suc k) r (x ∷ xs) = rw suc-add (drop-drop k r xs)

  -- `&xs[start..start + n]`, in range.
  abbrev pub slice : ℕ → ℕ → List A → List A
  slice start n xs = take n (drop start xs)

module _ {ℓ} {A : Type ℓ} where
  pub slice-add :
      (start k r : ℕ) (xs : List A)
      → slice start (k + r) xs ≡ slice start k xs ++ slice (start + k) r xs
  slice-add start k r xs = rw (← drop-drop start k xs) (take-add k r (drop start xs))

  pub length-slice :
      (start n : ℕ) (xs : List A) → start + n ≤ length xs → length (slice start n xs) ≡ n
  length-slice start n xs h = omega (arith, length-take n (drop start xs), length-drop start xs)

  pub get_elem?_total :
      (xs : List A) (i : ℕ)
      → i < length xs
      → (x : A) × (get_elem? xs i ≡ some x) × (slice i 1 xs ≡ x ∷ [])
  get_elem?_total [] i h = absurd (omega arith)
  get_elem?_total (x ∷ xs) zero h = (x, refl, refl)
  get_elem?_total (x ∷ xs) (suc i) h = get_elem?_total xs i (omega arith)
