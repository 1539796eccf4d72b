-- ===== src/Ledger/Merkle/Powers.antt =====
-- The powers of two of bhwi/src/ledger/merkle.rs.
use Prim.Native.Nat.{bit_and}
use native.Mathlib.Decide.{dec_lt}
use bhwi.Prelude.{
  ℕ, zero, suc, ◌+◌, ◌-◌, ◌*◌, ◌/◌, ◌%◌, ◌≤◌, ◌<◌, ◌≡◌, refl, arith, ok, true, false, Bool-cases,
  leb, ◌==◌, ==→eq, inl, inr, min,
}
use bhwi.Prelude.Bits.{bit_and_halves, bit_and_self}
use bhwi.Ledger.Merkle.{pow2, floor_lg_loop, floor_lg, is_power_of_2, largest_power_of_2_less_than}

pub pow2_pos : (e : ℕ) → 1 ≤ pow2 e
unfolding pow2
pow2_pos zero = omega arith
pow2_pos (suc e) = omega (arith, pow2_pos e)

-- The exponent of the largest power below a power.
pub pow2_between : (a b : ℕ) → pow2 a < pow2 b → pow2 b ≤ 2 * pow2 a → b ≡ a + 1
unfolding pow2
pow2_between zero zero h k = absurd (omega arith)
pow2_between zero (suc zero) h k = omega arith
pow2_between zero (suc (suc b)) h k = absurd (omega (arith, pow2_pos b))
pow2_between (suc a) zero h k = absurd (omega (arith, pow2_pos a))
pow2_between (suc a) (suc b) h k = omega (arith, pow2_between a b (omega arith) (omega arith))

pub pow2_half : (e h : ℕ) → pow2 e < pow2 (suc h) → pow2 e ≤ pow2 h
unfolding pow2
pow2_half zero h k = pow2_pos h
pow2_half (suc e) zero k = absurd (omega (arith, pow2_pos e))
pow2_half (suc e) (suc h) k = omega (arith, pow2_half e h (omega arith))

halves : (x y a b : ℕ) → x / 2 ≡ a → y / 2 ≡ b → bit_and x y ≡ 2 * bit_and a b + min (x % 2) (y % 2)
halves x y a b p q = rw (p, q) at (bit_and_halves x y)

pow2_masks : (e : ℕ) → bit_and (pow2 e) (pow2 e - 1) ≡ 0
unfolding pow2
pow2_masks zero = refl
pow2_masks (suc e) =
    let half_mask : (pow2 e * 2 - 1) / 2 ≡ pow2 e - 1 = omega (arith, pow2_pos e) in
    omega (
      arith,
      halves (pow2 e * 2) (pow2 e * 2 - 1) (pow2 e) (pow2 e - 1) (omega arith) half_mask,
      pow2_masks e,
    )

masks_pow2 : (n k : ℕ) → k ≤ n → 1 ≤ k → bit_and k (k - 1) ≡ 0 → (e : ℕ) × (k ≡ pow2 e)
unfolding pow2
masks_pow2 zero k h pos m = absurd (omega arith)
masks_pow2 (suc n) k h pos m = elim (Bool-cases (k % 2 == 0)) [
  | inl even ↦
      let (e, p) =
        masks_pow2 n (k / 2) (omega (arith, ==→eq _ _ even)) (omega (arith, ==→eq _ _ even)) (
          omega (
            arith,
            ==→eq _ _ even,
            halves k (k - 1) (k / 2) (k / 2 - 1) refl (omega (arith, ==→eq _ _ even)),
          )) in
      (suc e, omega (arith, p, ==→eq _ _ even))
  | inr odd ↦
      let rest : k % 2 ≡ 1 = ground arith in
      (
        0,
        omega (
          arith,
          rest,
          halves k (k - 1) (k / 2) (k / 2) refl (omega (arith, rest)),
          bit_and_self (k / 2),
        ),
      )
]

-- The loop of `floor_lg` returns the exponent of the largest power of two that is at most `n`.
floor_lg_loop_lem :
    (fuel n t r : ℕ)
    → n < fuel + t
    → t ≤ n
    → t ≡ pow2 r
    → (e : ℕ) × (floor_lg_loop fuel n t r ≡ ok e) × (pow2 e ≤ n) × (n < 2 * pow2 e)
unfolding floor_lg_loop
floor_lg_loop_lem zero n t r hf ht hr = absurd (omega arith)
floor_lg_loop_lem (suc fuel) n t r hf ht hr = elim (Bool-cases (leb (2 * t) n)) [
  | inl more ↦
      let (e, q, lo, hi) =
        floor_lg_loop_lem fuel n (t * 2) (r + 1) (omega (arith, pow2_pos r)) (ground arith)
          (let s : r + 1 ≡ suc r = omega arith in rw (s, hr) (unfold pow2 in refl)) in
      (e, ground (arith, q), lo, hi)
  | inr done ↦ (r, ground arith, omega arith, ground arith)
]

-- For a number of at least two, `largest_power_of_2_less_than` returns a power of two that is less
-- than the number, and whose double is not.
pub largest_power_of_2_less_than_lem :
    (n : ℕ)
    → 2 ≤ n
    → (e : ℕ) × (largest_power_of_2_less_than n ≡ ok (pow2 e)) × (pow2 e < n) × (n ≤ 2 * pow2 e)
unfolding largest_power_of_2_less_than is_power_of_2 floor_lg
largest_power_of_2_less_than_lem n h = elim (Bool-cases (bit_and n (n - 1) == 0)) [
  | inl power ↦
      let (e, p) = masks_pow2 n n (omega arith) (omega arith) (==→eq _ _ power) in halved e p power
  | inr other ↦
      let (e, q, lo, hi) =
        floor_lg_loop_lem (suc n) n 1 0 (omega arith) (omega arith) (unfold pow2 in refl) in
      (e, ground (arith, q), strict e lo other, omega arith)
]
  where
    strict : (e : ℕ) → pow2 e ≤ n → (bit_and n (n - 1) == 0) ≡ false → pow2 e < n
    strict e lo other = elim (dec_lt (pow2 e) n) [
      | yes p ↦ p
      | no q ↦
          let same : n ≡ pow2 e = omega arith in
          let mask : bit_and n (n - 1) ≡ 0 = rw same (pow2_masks e) in absurd (ground arith)
    ]

    halved :
        (e : ℕ)
        → n ≡ pow2 e
        → (bit_and n (n - 1) == 0) ≡ true
        → (e : ℕ) × (largest_power_of_2_less_than n ≡ ok (pow2 e)) × (pow2 e < n) × (n ≤ 2 * pow2 e)
    halved zero p power = absurd (unfold pow2 in omega arith)
    halved (suc e) p power =
        let d : n ≡ pow2 e * 2 = unfold pow2 in p in
        (e, ground (arith, d), omega (arith, d, pow2_pos e), omega (arith, d))
