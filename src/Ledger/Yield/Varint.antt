-- ===== src/Ledger/Yield/Varint.antt =====
-- bhwi/src/ledger/mod.rs, `deserialize_unchecked_varint`: the numbers of Bitcoin's encoding.
use bhwi.Prelude.{
  ℕ, ◌/◌, ◌%◌, ◌^◌, ◌<◌, ◌≡◌, ◌↔◌, arith, List, [], ◌∷◌, ◌++◌, ltb, ◌==◌, if◌then◌else◌, length,
  drop, ok, All, Bool-cases, ltb→lt, inl, inr, ==→eq, sym, ◌∙◌, ap,
}
use mathlib.Core.Path.{subst}
use bhwi.Prelude.Bytes.{IsByte, u32_le}
use bhwi.Ledger.Yield.{deserialize_unchecked_varint, read_u16, read_u32, read_u64, Read}

-- The shortest encoding of a number.
unfoldable pub compact_size : ℕ → List ℕ
compact_size n =
    if ltb n 0xFD
    then n ∷ []
    else if ltb n 0x10000
    then 0xFD ∷ (n % 256) ∷ (n / 256 % 256) ∷ []
    else if ltb n 0x100000000
    then 0xFE ∷ u32_le n
    else 0xFF ∷ (u32_le n ++ u32_le (n / 4294967296))

deserialize-compact_size :
    (n : ℕ) (rest : List ℕ)
    → n < 2 ^ 64
    → deserialize_unchecked_varint (compact_size n ++ rest) ≡ ok (n, length (compact_size n))
unfolding compact_size deserialize_unchecked_varint
deserialize-compact_size n rest h = ground arith

-- The bytes begin with the shortest encoding of the number, which has the given length.
abbrev pub IsCompact : List ℕ → ℕ → ℕ → Type 0
IsCompact bytes n k =
    (n < 2 ^ 64) × (k ≡ length (compact_size n)) × (bytes ≡ compact_size n ++ drop k bytes)

read_u16-IsCompact :
    (bytes : List ℕ) (n k : ℕ)
    → All IsByte bytes
    → read_u16 bytes ≡ ok (n, k)
    → IsCompact (0xFD ∷ bytes) n k
unfolding compact_size
read_u16-IsCompact [] n k b h = absurd cc
read_u16-IsCompact (a ∷ []) n k b h = absurd cc
read_u16-IsCompact (x ∷ y ∷ rest) n k (bx, (by', b)) h = ground arith

read_u32-IsCompact :
    (bytes : List ℕ) (n k : ℕ)
    → All IsByte bytes
    → read_u32 bytes ≡ ok (n, k)
    → IsCompact (0xFE ∷ bytes) n k
unfolding compact_size
read_u32-IsCompact [] n k b h = absurd cc
read_u32-IsCompact (x ∷ []) n k b h = absurd cc
read_u32-IsCompact (x ∷ y ∷ []) n k b h = absurd cc
read_u32-IsCompact (x ∷ y ∷ z ∷ []) n k b h = absurd cc
read_u32-IsCompact (x ∷ y ∷ z ∷ w ∷ rest) n k (bx, (by', (bz, (bw, b)))) h = ground arith

read_u64-IsCompact :
    (bytes : List ℕ) (n k : ℕ)
    → All IsByte bytes
    → read_u64 bytes ≡ ok (n, k)
    → IsCompact (0xFF ∷ bytes) n k
unfolding compact_size
read_u64-IsCompact [] n k b h = absurd cc
read_u64-IsCompact (x ∷ []) n k b h = absurd cc
read_u64-IsCompact (x ∷ y ∷ []) n k b h = absurd cc
read_u64-IsCompact (x ∷ y ∷ z ∷ []) n k b h = absurd cc
read_u64-IsCompact (x ∷ y ∷ z ∷ w ∷ []) n k b h = absurd cc
read_u64-IsCompact (x ∷ y ∷ z ∷ w ∷ x' ∷ []) n k b h = absurd cc
read_u64-IsCompact (x ∷ y ∷ z ∷ w ∷ x' ∷ y' ∷ []) n k b h = absurd cc
read_u64-IsCompact (x ∷ y ∷ z ∷ w ∷ x' ∷ y' ∷ z' ∷ []) n k b h = absurd cc
read_u64-IsCompact (x ∷ y ∷ z ∷ w ∷ x' ∷ y' ∷ z' ∷ w' ∷ rest) n k
      (bx, (by', (bz, (bw, (bx', (by'', (bz', (bw', b)))))))) h =
    ground arith

-- The four cases of the first byte.
first_cases :
    (P : ℕ → Type 0) (first : ℕ) (two four eight : Read) (r : Read)
    → first < 256
    → (first < 0xFD → ok (first, 1) ≡ r → P first)
    → (two ≡ r → P 0xFD)
    → (four ≡ r → P 0xFE)
    → (eight ≡ r → P 0xFF)
    → (if ltb first 0xFD
        then ok (first, 1)
        else if first == 0xFD
        then two
        else if first == 0xFE
        then four
        else eight)
      ≡ r
    → P first
first_cases P first two four eight r b k1 k2 k3 k4 h = elim (Bool-cases (ltb first 0xFD)) [
  | inl t ↦ k1 (ltb→lt _ _ t) (rw t at h)
  | inr f ↦ elim (Bool-cases (first == 0xFD)) [
    | inl t ↦ subst P (sym (==→eq first 0xFD t)) (k2 (rw (f, t) at h))
    | inr f' ↦ elim (Bool-cases (first == 0xFE)) [
      | inl t ↦ subst P (sym (==→eq first 0xFE t)) (k3 (rw (f, f', t) at h))
      | inr f'' ↦ let e : first ≡ 0xFF = ground arith in subst P (sym e) (k4 (rw (f, f', f'') at h))
    ]
  ]
]

one-IsCompact :
    (first n k : ℕ) (bytes : List ℕ)
    → first < 0xFD
    → ◌≡◌ {A = Read} (ok (first, 1)) (ok (n, k))
    → IsCompact (first ∷ bytes) n k
unfolding compact_size
one-IsCompact first n k bytes l h = ground arith

varint-IsCompact :
    (bytes : List ℕ) (n k : ℕ)
    → All IsByte bytes
    → deserialize_unchecked_varint bytes ≡ ok (n, k)
    → IsCompact bytes n k
unfolding deserialize_unchecked_varint
varint-IsCompact [] n k b h = absurd cc
varint-IsCompact (first ∷ bytes) n k (b, bs) h =
    first_cases (λ x. IsCompact (x ∷ bytes) n k) first (read_u16 bytes) (read_u32 bytes)
      (read_u64 bytes) (ok (n, k)) b (one-IsCompact first n k bytes)
      (read_u16-IsCompact bytes n k bs) (read_u32-IsCompact bytes n k bs)
      (read_u64-IsCompact bytes n k bs) h

-- From a sequence of bytes a number and a length are read exactly when the number is less than 2^64,
-- and the sequence begins with its shortest encoding, which has that length.
pub deserialize_unchecked_varint_iff :
    (bytes : List ℕ) (n k : ℕ)
    → All IsByte bytes
    → (deserialize_unchecked_varint bytes ≡ ok (n, k)) ↔ IsCompact bytes n k
deserialize_unchecked_varint_iff bytes n k b = (
  varint-IsCompact bytes n k b,
  λ (h : IsCompact bytes n k).
      ap deserialize_unchecked_varint h.2
      ∙ (deserialize-compact_size n (drop k bytes) h.0 ∙ ap (λ m. ok (n, m)) (sym h.1)),
)
