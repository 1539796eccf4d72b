-- ===== src/Ledger/Apdu/Frames.antt =====
-- Responses as bytes and back (bhwi/src/ledger/apdu.rs).
use bhwi.Prelude.{
  ℕ, suc, ◌-◌, ◌/◌, ◌%◌, ◌≤◌, ◌≡◌, refl, ap, arith, List, [], ◌∷◌, ◌++◌, ok, length, length-append,
  take-append, get_or, some, All, ok_or, ◌>>=◌, Option-cases, Bool-cases, inl, inr, ◌↔◌, ltb, leb,
  true, false, Outcome,
}
use bhwi.Prelude.Bytes.{IsByte, u16_be, u16_of_be, u16_of_be-u16_be}
use bhwi.Ledger.Apdu.{
  ApduResponse, ApduError, status_code, status_of, response_bytes, response_of, status_word_unknown,
}
use bhwi.Ledger.Apdu.Codes.{status_of_iff, status_code_bound}

get_or-append :
    (xs : List ℕ) (a b : ℕ)
    → (get_or (xs ++ (a ∷ b ∷ [])) (length xs) 0 ≡ a)
      × (get_or (xs ++ (a ∷ b ∷ [])) (suc (length xs)) 0 ≡ b)
get_or-append [] a b = (refl, refl)
get_or-append (x ∷ xs) a b = get_or-append xs a b

-- Bytes that end in two given bytes, read as a response.
pub response_of_parts :
    (payload : List ℕ) (a b : ℕ)
    → response_of (payload ++ (a ∷ b ∷ [])) ≡ (
        ok_or (status_of (u16_of_be a b)) status_word_unknown >>= λ w.
        ok (record { payload = payload; status_word = w }))
unfolding response_of
response_of_parts payload a b =
    let whole = payload ++ (a ∷ b ∷ []) in
    let l : length whole ≡ suc (suc (length payload)) =
      omega (arith, length-append payload (a ∷ b ∷ [])) in
    let long : ltb (length whole) 2 ≡ false = ground (arith, l) in
    let room : leb 2 (length whole) ≡ true = ground (arith, l) in
    let l2 : length whole - 2 ≡ length payload = omega (arith, l) in
    let l1 : length whole - 1 ≡ suc (length payload) = omega (arith, l) in
    let (first, second) = get_or-append payload a b in
    rw (long, room, l2, l1, first, second, take-append (length payload) payload (a ∷ b ∷ []) refl)

last_two :
    (xs : List ℕ)
    → 2 ≤ length xs
    → (ys : List ℕ) × (a : ℕ) × (b : ℕ) × (xs ≡ ys ++ (a ∷ b ∷ []))
      × (All IsByte xs → IsByte a × IsByte b)
last_two [] h = absurd (omega arith)
last_two (x ∷ []) h = absurd (omega arith)
last_two (x ∷ y ∷ []) h = ([], x, y, refl, λ k. (k.0, k.1.0))
last_two (x ∷ y ∷ z ∷ xs) h =
    let (ys, a, b, e, k) = last_two (y ∷ z ∷ xs) (omega arith) in
    (x ∷ ys, a, b, ap (λ t. x ∷ t) e, λ p. k p.1)

-- Of the bytes that a device may send, exactly the serialisation of a response is read as that
-- response.
pub response_of_iff :
    (res : List ℕ) (r : ApduResponse)
    → All IsByte res
    → (response_of res ≡ ok r) ↔ (res ≡ response_bytes r)
unfolding response_bytes
response_of_iff res r bytes = (read, write)
  where
    write : res ≡ r.payload ++ u16_be (status_code r.status_word) → response_of res ≡ ok r
    write e =
        let code = status_code r.status_word in
        let word : status_of (u16_of_be (code / 256 % 256) (code % 256)) ≡ some r.status_word =
          rw (u16_of_be-u16_be code (status_code_bound r.status_word))
            ((status_of_iff code r.status_word).1 refl) in
        rw (e, response_of_parts r.payload (code / 256 % 256) (code % 256), word)

    read_parts :
        (ys : List ℕ) (a b : ℕ)
        → IsByte a
        → IsByte b
        → response_of (ys ++ (a ∷ b ∷ [])) ≡ ok r
        → (ys ++ (a ∷ b ∷ [])) ≡ r.payload ++ u16_be (status_code r.status_word)
    read_parts ys a b ha hb h = elim (Option-cases (status_of (u16_of_be a b))) [
      | inl unknown ↦ absurd (cc (rw (response_of_parts ys a b, unknown) at h))
      | inr (w, known) ↦
          let same : ◌≡◌ {A = Outcome ApduError ApduResponse}
              (ok (record { payload = ys; status_word = w })) (ok r) =
            rw (response_of_parts ys a b, known) at h in
          let code : u16_of_be a b ≡ status_code w = (status_of_iff _ w).0 known in
          let hi : status_code w / 256 % 256 ≡ a = omega (arith, code) in
          let lo : status_code w % 256 ≡ b = omega (arith, code) in
          let payload : r.payload ≡ ys = ground (arith, same) in
          let word : r.status_word ≡ w = ground (arith, same) in rw (payload, word, hi, lo)
    ]

    read : response_of res ≡ ok r → res ≡ r.payload ++ u16_be (status_code r.status_word)
    read h = elim (Bool-cases (ltb (length res) 2)) [
      | inl short ↦ absurd (unfold response_of in cc (rw short at h))
      | inr long ↦
          let (ys, a, b, e, k) = last_two res (ground arith) in
          let (ha, hb) = k bytes in rw e (read_parts ys a b ha hb (rw e at h))
    ]
