-- ===== src/Transport/LedgerHid/RoundTrip.antt =====
-- bhwi-async/src/transport/ledger/hid.rs: packets that are written as the code writes them are read back.
use bhwi.Prelude.{
  ℕ, zero, suc, ◌+◌, ◌-◌, ◌/◌, ◌%◌, ◌≤◌, ◌<◌, ◌≡◌, refl, sym, ap, ◌∙◌, min, arith, true, false, ◌⊎◌,
  inl, inr, List, [], ◌∷◌, ◌++◌, leb, if◌then◌else◌, length, take, drop, replicate, ok,
  length-append, length-take, length-drop, take-append, take-append-drop, take_all,
}
use mathlib.Core.List.{append_assoc}
use bhwi.Prelude.Slices.{chunks, chunks_loop}
use bhwi.Prelude.Bytes.{u16_of_be-u16_be}
use bhwi.Transport.LedgerHid.{write_loop, packets, read_loop, header, expected_len}

gt→leb : (a b : ℕ) → b < a → leb a b ≡ false
gt→leb a b h = ground arith

le→leb : (a b : ℕ) → a ≤ b → leb a b ≡ true
le→leb a b h = ground arith

-- A channel that delivers whole packets.
abbrev pub delivered : List (List ℕ) → List (ℕ × List ℕ)
delivered [] = []
delivered (packet ∷ rest) = (64, packet) ∷ delivered rest

header-packet :
    (seq : ℕ) (body : List ℕ)
    → seq < 65536
    → header seq 64 (1 ∷ 1 ∷ 5 ∷ (seq / 256 % 256) ∷ (seq % 256) ∷ body) ≡ ok body
unfolding header
header-packet seq body h = let e = u16_of_be-u16_be seq h in ground arith

-- The bytes that a continuation packet adds.
read_more :
    (seq expected : ℕ) (answer body chunk : List ℕ) (more : List (ℕ × List ℕ))
    → 1 ≤ seq
    → seq < 65536
    → take (min (length body) (expected - length answer)) body ≡ chunk
    → length (answer ++ chunk) < expected
    → read_loop seq expected answer
        ((64, 1 ∷ 1 ∷ 5 ∷ (seq / 256 % 256) ∷ (seq % 256) ∷ body) ∷ more)
      ≡ read_loop (seq + 1) expected (answer ++ chunk) more
unfolding read_loop expected_len
read_more zero expected answer body chunk more o h e l = absurd (omega arith)
read_more (suc seq) expected answer body chunk more o h e l =
    rw (header-packet (suc seq) body h, e, gt→leb _ _ l) refl

-- The last continuation packet.
read_last :
    (seq expected : ℕ) (answer body chunk : List ℕ) (more : List (ℕ × List ℕ))
    → 1 ≤ seq
    → seq < 65536
    → take (min (length body) (expected - length answer)) body ≡ chunk
    → expected ≤ length (answer ++ chunk)
    → read_loop seq expected answer
        ((64, 1 ∷ 1 ∷ 5 ∷ (seq / 256 % 256) ∷ (seq % 256) ∷ body) ∷ more)
      ≡ ok (answer ++ chunk)
unfolding read_loop expected_len
read_last zero expected answer body chunk more o h e l = absurd (omega arith)
read_last (suc seq) expected answer body chunk more o h e l =
    rw (header-packet (suc seq) body h, e, le→leb _ _ l) refl

-- A chunk over the old contents of the buffer.
abbrev over : List ℕ → List ℕ → List ℕ
over chunk old = chunk ++ drop (length chunk) old

length-over :
    (chunk old : List ℕ) (n : ℕ) → length old ≡ n → length chunk ≤ n → length (over chunk old) ≡ n
length-over chunk old n h k =
    omega (arith, length-append chunk (drop (length chunk) old), length-drop (length chunk) old)

take-over : (n : ℕ) (chunk old : List ℕ) → n ≡ length chunk → take n (over chunk old) ≡ chunk
take-over n chunk old e = take-append n chunk (drop (length chunk) old) (sym e)

List-cases : (xs : List ℕ) → (xs ≡ []) ⊎ ((y : ℕ) × (ys : List ℕ) × (xs ≡ y ∷ ys))
List-cases [] = inl refl
List-cases (y ∷ ys) = inr (y, ys, refl)

continuation :
    (fuel seq x : ℕ) (xs old answer : List ℕ) (expected : ℕ)
    → length xs < fuel
    → 1 ≤ seq
    → seq + length xs < 65536
    → length old ≡ 59
    → expected ≡ length answer + length (x ∷ xs)
    → read_loop seq expected answer (delivered (write_loop seq old (chunks_loop fuel 58 (x ∷ xs))))
      ≡ ok (answer ++ (x ∷ xs))
unfolding write_loop chunks_loop
continuation zero seq x xs old answer expected f o s h e = absurd (omega arith)
continuation (suc fuel) seq x xs old answer expected f o s h e =
    let chunk = x ∷ take 58 xs in
    let l = length-take 58 xs in
    let b = length-over chunk old 59 h (omega arith) in
    let t =
      take-over (min (length (over chunk old)) (expected - length answer)) chunk old
        (omega arith) in
    let a = length-append answer chunk in
    let w = take-append-drop 58 xs in
    let g = length-drop 58 xs in
    elim (List-cases (drop 58 xs)) [
      | inl d ↦
          let z : length (drop 58 xs) ≡ 0 = rw d refl in
          read_last seq expected answer (over chunk old) chunk _ o (omega arith) t (omega arith)
          ∙ ap (λ v. ok (answer ++ (x ∷ v))) (take_all 58 xs (omega arith))
      | inr (y, ys, d) ↦
          let z : length (drop 58 xs) ≡ suc (length ys) = rw d refl in
          read_more seq expected answer (over chunk old) chunk _ o (omega arith) t (omega arith)
          ∙ (rw d (
                continuation fuel (seq + 1) y ys (over chunk old) (answer ++ chunk) expected
                  (omega arith) (omega arith) (omega arith) b (omega arith))
              ∙ ap ok
                  (append_assoc answer chunk (y ∷ ys) ∙ ap (λ v. answer ++ (x ∷ v)) (rw d at w)))
    ]

-- The first packet.
read_first :
    (n : ℕ) (body chunk : List ℕ) (more : List (ℕ × List ℕ))
    → n < 65536
    → take (min (length body) (n - 0)) body ≡ chunk
    → read_loop 0 0 [] ((64, 1 ∷ 1 ∷ 5 ∷ 0 ∷ 0 ∷ (n / 256 % 256) ∷ (n % 256) ∷ body) ∷ more)
      ≡ (if leb n (length chunk) then ok chunk else read_loop 1 n chunk more)
unfolding read_loop expected_len
read_first n body chunk more h e = rw (u16_of_be-u16_be n h, e) refl

read_from_first :
    (cmd old : List ℕ) (fuel : ℕ) (rest : List (List ℕ))
    → length cmd < 65536
    → length old ≡ 57
    → length cmd ≤ fuel
    → rest
      ≡ write_loop 1
          ((length cmd / 256 % 256) ∷ (length cmd % 256) ∷ over (take 57 cmd) old)
          (chunks_loop fuel 58 (drop 57 cmd))
    → read_loop 0 0 [] (
        (
          64,
          1
              ∷ 1
              ∷ 5
              ∷ 0
              ∷ 0
              ∷ (length cmd / 256 % 256)
              ∷ (length cmd % 256)
              ∷ over (take 57 cmd) old,
        )
        ∷ delivered rest)
      ≡ ok cmd
read_from_first cmd old fuel rest h o f r =
    let chunk = take 57 cmd in
    let l = length-take 57 cmd in
    let g = length-drop 57 cmd in
    let b = length-over chunk old 57 o (omega arith) in
    let t = take-over (min (length (over chunk old)) (length cmd - 0)) chunk old (omega arith) in
    let w = take-append-drop 57 cmd in
    let first = read_first (length cmd) (over chunk old) chunk (delivered rest) h t in
    elim (List-cases (drop 57 cmd)) [
      | inl d ↦
          let z : length (drop 57 cmd) ≡ 0 = rw d refl in
          first
          ∙ rw (le→leb (length cmd) (length chunk) (omega arith))
              (ap ok (take_all 57 cmd (omega arith)))
      | inr (y, ys, d) ↦
          let z : length (drop 57 cmd) ≡ suc (length ys) = rw d refl in
          first
          ∙ rw (gt→leb (length cmd) (length chunk) (omega arith), r, d)
              (continuation fuel 1 y ys
                  ((length cmd / 256 % 256) ∷ (length cmd % 256) ∷ over chunk old) chunk
                  (length cmd) (omega arith) (omega arith) (omega arith) (omega arith) (omega arith)
                ∙ ap ok (rw d at w))
    ]

-- A command of fewer than 65536 bytes, in the packets in which it is written, is what is read when those
-- packets come in.
pub read_loop-packets :
    (apdu_command : List ℕ)
    → length apdu_command < 65536
    → read_loop 0 0 [] (delivered (packets apdu_command)) ≡ ok apdu_command
unfolding packets write_loop chunks chunks_loop
read_loop-packets cmd h =
    read_from_first cmd (replicate 57 0) (suc (length cmd)) _ h refl (omega arith) refl
