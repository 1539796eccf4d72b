-- ===== src/Ledger/Store/Queue.antt =====
-- GET_MORE_ELEMENTS and the queue that it empties (bhwi/src/ledger/store.rs).
use bhwi.Prelude.{
  ℕ, zero, suc, ◌+◌, ◌*◌, ◌%◌, ◌≤◌, ◌<◌, ◌≡◌, refl, arith, false, List, [], ◌∷◌, ◌++◌, leb, ==_refl,
  length, take, drop, All, ok, length-append, Bool-cases, inl, inr,
}
use native.Mathlib.Nat.{add-zero}
use mathlib.Core.List.{append-nil, append_assoc}
use bhwi.Prelude.Slices.{concat}
use bhwi.Ledger.Store.{DelegatedStore, any_other_length, collect, more_elements, get_more_elements}

-- Every element of the queue has `n` bytes.
abbrev pub IsUniform : ℕ → List (List ℕ) → Type 0
IsUniform n = All (λ e. length e ≡ n)

any_other_length-IsUniform :
    (n : ℕ) (es : List (List ℕ)) → IsUniform n es → any_other_length n es ≡ false
unfolding any_other_length
any_other_length-IsUniform n [] h = refl
any_other_length-IsUniform n (e ∷ es) (he, hes) =
    rw (he, ==_refl, any_other_length-IsUniform n es hes)

-- Once an element does not fit, no later one does.
collect_full :
    (n : ℕ) (es : List (List ℕ)) (response : List ℕ) (added : ℕ)
    → 253 < length response + n
    → collect n es response added ≡ (response, added)
unfolding collect
collect_full n [] response added h = refl
collect_full n (e ∷ es) response added h =
    let full : leb (length response + n) 253 ≡ false = ground arith in
    rw full (collect_full n es response added h)

-- The loop takes a prefix of the queue: `k` elements, as many as fit.
collect_lem :
    (n : ℕ) (es : List (List ℕ)) (response : List ℕ) (added : ℕ)
    → IsUniform n es
    → length response ≤ 253
    → (k : ℕ) × (collect n es response added ≡ (response ++ concat (take k es), added + k))
      × (k ≤ length es)
      × (k < length es → 253 < length response + (k + 1) * n)
      × (length response + k * n ≤ 253)
unfolding collect
collect_lem n [] response added h hr =
    (0, rw (append-nil, add-zero), omega arith, λ p. absurd (omega arith), omega arith)
collect_lem n (e ∷ es) response added (he, hes) hr =
    elim (Bool-cases (leb (length response + n) 253)) [
      | inl fits ↦
          let l : length (response ++ e) ≡ length response + n =
            omega (arith, length-append response e, he) in
          let (k, q, le, stop, small) =
            collect_lem n es (response ++ e) (added + 1) hes (ground arith) in
          (
            suc k,
            rw fits (rw q (one_more e es response added k)),
            omega arith,
            λ p. omega (arith, stop (omega arith), l),
            omega (arith, small, l),
          )
      | inr full ↦ (
        0,
        rw full (rw (append-nil, add-zero) (collect_full n es response added (ground arith))),
        omega arith,
        λ p. ground arith,
        omega arith,
      )
    ]
  where
    one_more :
        (e : List ℕ) (es : List (List ℕ)) (response : List ℕ) (added k : ℕ)
        → ◌≡◌ {A = List ℕ × ℕ}
            ((response ++ e) ++ concat (take k es), added + 1 + k)
            (response ++ (e ++ concat (take k es)), added + suc k)
    one_more e es response added k =
        let count : added + 1 + k ≡ added + suc k = omega arith in rw (append_assoc, count)

at_least_one : (k m n : ℕ) → k ≤ suc m → (k < suc m → 253 < 0 + (k + 1) * n) → n ≤ 253 → 1 ≤ k
at_least_one zero m n le stop hn = absurd (omega (arith, stop (omega arith)))
at_least_one (suc k) m n le stop hn = omega arith

small_count : (k n : ℕ) → 1 ≤ n → 0 + k * n ≤ 253 → (0 + k) % 256 ≡ k
small_count k n h1 small = let le : k ≤ k * n = grind arith in omega (arith, le)

more_elements_step :
    (s : DelegatedStore) (n k : ℕ) (e : List ℕ) (es : List (List ℕ))
    → IsUniform n (e ∷ es)
    → collect n (e ∷ es) [] 0 ≡ (concat (take k (e ∷ es)), 0 + k)
    → (0 + k) % 256 ≡ k
    → n < 256
    → more_elements s (e ∷ es)
      ≡ ok (record s { queue = drop k (e ∷ es) }, k ∷ n ∷ concat (take k (e ∷ es)))
unfolding more_elements
more_elements_step s n k e es (he, hes) c count hn =
    let size : n % 256 ≡ n = omega arith in
    let plain : 0 + k ≡ k = omega arith in
    rw (he, any_other_length-IsUniform n (e ∷ es) (he, hes), c, count, size, plain)

-- With a queue that is not empty and whose elements have the same length `n` of 1 to 253 bytes, the
-- response carries the number of elements, their length and the elements themselves, a prefix of the
-- queue that is as long as 253 bytes allow and holds one element at least; the queue keeps the others.
pub get_more_elements_lem :
    (s : DelegatedStore) (n : ℕ)
    → IsUniform n s.queue
    → 1 ≤ length s.queue
    → 1 ≤ n
    → n ≤ 253
    → (k : ℕ) × (get_more_elements s
        ≡ ok (record s { queue = drop k s.queue }, k ∷ n ∷ concat (take k s.queue)))
      × (1 ≤ k)
      × (k ≤ length s.queue)
      × (k * n ≤ 253)
      × (k < length s.queue → 253 < (k + 1) * n)
unfolding get_more_elements
get_more_elements_lem s n h hq h1 hn = more s.queue h hq
  where
    more :
        (q : List (List ℕ))
        → IsUniform n q
        → 1 ≤ length q
        → (k : ℕ) × (more_elements s q
            ≡ ok (record s { queue = drop k q }, k ∷ n ∷ concat (take k q)))
          × (1 ≤ k)
          × (k ≤ length q)
          × (k * n ≤ 253)
          × (k < length q → 253 < (k + 1) * n)
    more [] h hq = absurd (omega arith)
    more (e ∷ es) (he, hes) hq =
        let (k, c, le, stop, small) = collect_lem n (e ∷ es) [] 0 (he, hes) (omega arith) in
        let pos : 1 ≤ k = at_least_one k (length es) n le stop hn in
        (
          k,
          more_elements_step s n k e es (he, hes) c (small_count k n h1 small) (omega arith),
          pos,
          le,
          omega (arith, small),
          λ p. omega (arith, stop p),
        )
