-- ===== src/Ledger/Store/Answers.antt =====
-- What a device receives when it asks for a preimage, part by part (bhwi/src/ledger/store.rs).
use bhwi.Prelude.{
  ℕ, zero, suc, ◌+◌, ◌-◌, ◌≤◌, ◌≡◌, refl, sym, ap, ◌∙◌, arith, List, [], ◌∷◌, ◌++◌, ltb, ◌==◌,
  if◌then◌else◌, length, take, drop, Outcome, ok, diverge, ◌>>=◌, length-drop, length-take,
  length-append, take-append-drop, drop_all, Bool-cases, inl, inr, some, ==→eq,
}
use mathlib.Core.List.{append_assoc}
use bhwi.Prelude.Slices.{concat}
use bhwi.Ledger.Consensus.{Consensus}
use bhwi.Ledger.Store.{
  DelegatedStore, StoreError, get_more_elements, singles, find_preimage, get_preimage,
}
use bhwi.Ledger.Store.Queue.{IsUniform, get_more_elements_lem}

-- What a device does to empty the queue: it asks for more until there is no more, and puts the elements
-- of the responses behind one another.
unfoldable pub drain : ℕ → DelegatedStore → Outcome StoreError (List ℕ)
drain zero s = if length s.queue == 0 then ok [] else diverge
drain (suc fuel) s =
    let rest = do
      (s', response) ← get_more_elements s
      later ← drain fuel s'
      ok (drop 2 response ++ later)
    in if length s.queue == 0 then ok [] else rest

concat-append : (xs ys : List (List ℕ)) → concat (xs ++ ys) ≡ concat xs ++ concat ys
concat-append [] ys = refl
concat-append (x ∷ xs) ys = rw (concat-append xs ys, append_assoc)

concat-take-drop :
    (k : ℕ) (xs : List (List ℕ)) → concat (take k xs) ++ concat (drop k xs) ≡ concat xs
concat-take-drop k xs =
    sym (concat-append (take k xs) (drop k xs)) ∙ ap concat (take-append-drop k xs)

drop-IsUniform : (n k : ℕ) (xs : List (List ℕ)) → IsUniform n xs → IsUniform n (drop k xs)
drop-IsUniform n zero xs h = h
drop-IsUniform n (suc k) [] h = tt
drop-IsUniform n (suc k) (x ∷ xs) (hx, hxs) = drop-IsUniform n k xs hxs

nothing : (q : List (List ℕ)) → length q ≡ 0 → [] ≡ concat q
nothing [] h = refl
nothing (e ∷ es) h = absurd (omega arith)

-- As many requests as the queue has elements return the contents of the queue.
pub drain-concat :
    (fuel : ℕ) (s : DelegatedStore) (n : ℕ)
    → IsUniform n s.queue
    → 1 ≤ n
    → n ≤ 253
    → length s.queue ≤ fuel
    → drain fuel s ≡ ok (concat s.queue)
unfolding drain
drain-concat zero s n h h1 hn hf = elim (Bool-cases (length s.queue == 0)) [
  | inl done ↦ rw done (ap ok (nothing s.queue (==→eq _ _ done)))
  | inr more ↦ absurd (ground arith)
]
drain-concat (suc fuel) s n h h1 hn hf = elim (Bool-cases (length s.queue == 0)) [
  | inl done ↦ rw done (ap ok (nothing s.queue (==→eq _ _ done)))
  | inr more ↦
      let (k, e, pos, le, small, stop) = get_more_elements_lem s n h (ground arith) h1 hn in
      let s' : DelegatedStore = record s { queue = drop k s.queue } in
      let ih =
        drain-concat fuel s' n (drop-IsUniform n k s.queue h) h1 hn
          (omega (arith, length-drop k s.queue, pos)) in
      rw (more, e, ih) (ap ok (concat-take-drop k s.queue))
]

drain_empty : (fuel : ℕ) (s : DelegatedStore) → s.queue ≡ [] → drain fuel s ≡ ok []
unfolding drain
drain_empty zero s h = ground arith
drain_empty (suc fuel) s h = ground arith

concat-singles : (xs : List ℕ) → concat (singles xs) ≡ xs
concat-singles [] = refl
concat-singles (x ∷ xs) = ap (λ t. x ∷ t) (concat-singles xs)

singles-IsUniform : (xs : List ℕ) → IsUniform 1 (singles xs)
singles-IsUniform [] = tt
singles-IsUniform (x ∷ xs) = (refl, singles-IsUniform xs)

length-singles : (xs : List ℕ) → length (singles xs) ≡ length xs
length-singles [] = refl
length-singles (x ∷ xs) = ap suc (length-singles xs)

-- With an empty queue and a known preimage `p`, a GET_PREIMAGE request for its hash is answered by the
-- length of `p`, a count `k` that is at most that length, and the first `k` bytes of `p`, in 255 bytes at
-- most. As many GET_MORE_ELEMENTS requests as `p` has bytes then return the bytes behind the first `k`.
pub get_preimage_streams :
    (c : Consensus) (s : DelegatedStore) (hash p : List ℕ)
    → length hash ≡ 32
    → s.queue ≡ []
    → find_preimage s.known_preimages hash ≡ some p
    → (s' : DelegatedStore) × (k : ℕ) × (get_preimage c s (0 ∷ hash)
        ≡ ok (s', c.serialize (length p) ++ (k ∷ take k p)))
      × (k ≤ length p)
      × (length (c.serialize (length p) ++ (k ∷ take k p)) ≤ 255)
      × (drain (length p) s' ≡ ok (drop k p))
unfolding get_preimage
get_preimage_streams c s hash p hh hq found =
    let small = c.serialize_short (length p) in
    elim (Bool-cases (ltb (255 - length (c.serialize (length p)) - 1) (length p))) [
      | inl long ↦
          let m = 255 - length (c.serialize (length p)) - 1 in
          let short : m ≤ 253 = omega (arith, c.serialize_nonempty (length p)) in
          (
            record s { queue = singles (drop m p) },
            m,
            ground arith,
            ground arith,
            omega (
              arith,
              length-append (c.serialize (length p)) (m ∷ take m p),
              length-take m p,
              c.serialize_short (length p),
            ),
            drain-concat (length p) (record s { queue = singles (drop m p) }) 1
                  (singles-IsUniform _) (omega arith) (omega arith)
                  (omega (arith, length-singles (drop m p), length-drop m p))
                ∙ ap ok (concat-singles (drop m p)),
          )
      | inr whole ↦
          let fits : length p + length (c.serialize (length p)) ≤ 254 =
            ground (arith, c.serialize_short (length p)) in
          let le : length p ≤ 253 = ground (arith, c.serialize_nonempty (length p)) in
          (
            s,
            length p,
            ground arith,
            omega arith,
            omega (
              arith,
              fits,
              length-append (c.serialize (length p)) (length p ∷ take (length p) p),
              length-take (length p) p,
            ),
            drain_empty (length p) s hq ∙ ap ok (sym (drop_all (length p) p (omega arith))),
          )
    ]
