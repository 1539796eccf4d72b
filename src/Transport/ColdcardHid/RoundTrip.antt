-- ===== src/Transport/ColdcardHid/RoundTrip.antt =====
-- bhwi-async/src/transport/coldcard/hid.rs: packets that are written as the code writes them are read
-- back.
use mathlib.Core.List.{append_assoc}
use bhwi.Prelude.{
  ℕ, zero, suc, ◌/◌, ◌%◌, ◌≤◌, ◌<◌, ◌≡◌, refl, ap, ◌∙◌, arith, Bool, true, false, ◌&&◌, ◌⊎◌, inl,
  inr, List, [], ◌∷◌, ◌++◌, ◌==◌, if◌then◌else◌, bytes_eq, length, take, drop, replicate, ok,
  length-append, length-take, length-drop, take-append, take-append-drop, take_all,
}
use bhwi.Prelude.Slices.{chunks, chunks_loop}
use bhwi.Transport.ColdcardHid.{
  packet_flag, write_packets, request_packets, read_packets, fram, is_empty,
}
use bhwi.Transport.LedgerHid.RoundTrip.{delivered}

flag_length :
    (len : ℕ) (encrypted last : Bool) → len < 64 → packet_flag len encrypted last % 64 ≡ len
unfolding packet_flag
flag_length len true true h = omega arith
flag_length len false true h = omega arith
flag_length len encrypted false h = omega arith

flag_last :
    (len : ℕ) (encrypted last : Bool)
    → len < 64
    → (packet_flag len encrypted last / 128 % 2 == 1) ≡ last
unfolding packet_flag
flag_last len true true h = ground arith
flag_last len false true h = ground arith
flag_last len encrypted false h = ground arith

-- One packet: it is the last one, or the reading goes on.
read_packet :
    (encrypted last is_first : Bool) (so_far chunk old : List ℕ) (more : List (ℕ × List ℕ))
    → length chunk < 64
    → (bytes_eq (take 4 (chunk ++ old)) fram && is_first) ≡ false
    → read_packets is_first so_far
        ((64, packet_flag (length chunk) encrypted last ∷ (chunk ++ old)) ∷ more)
      ≡ (if last then ok (so_far ++ chunk) else read_packets false (so_far ++ chunk) more)
unfolding read_packets
read_packet encrypted true is_first so_far chunk old more h f =
    rw
      (
        flag_length (length chunk) encrypted true h,
        flag_last (length chunk) encrypted true h,
        take-append (length chunk) chunk old refl,
      )
      refl
read_packet encrypted false is_first so_far chunk old more h f =
    rw
      (
        flag_length (length chunk) encrypted false h,
        flag_last (length chunk) encrypted false h,
        f,
        take-append (length chunk) chunk old refl,
      )
      refl

and_false : (test : Bool) → (test && false) ≡ false
and_false true = refl
and_false false = refl

List-cases : (xs : List ℕ) → (xs ≡ []) ⊎ ((y : ℕ) × (ys : List ℕ) × (xs ≡ y ∷ ys))
List-cases [] = inl refl
List-cases (y ∷ ys) = inr (y, ys, refl)

length-body :
    (chunk old : List ℕ) (n : ℕ)
    → length old ≡ n
    → length chunk ≤ n
    → length (chunk ++ drop (length chunk) old) ≡ n
length-body chunk old n h k =
    omega (arith, length-append chunk (drop (length chunk) old), length-drop (length chunk) old)

some_chunks :
    (fuel y : ℕ) (ys : List ℕ) → length ys < fuel → is_empty (chunks_loop fuel 62 (y ∷ ys)) ≡ false
unfolding chunks_loop
some_chunks zero y ys h = absurd (omega arith)
some_chunks (suc fuel) y ys h = refl

packets_from :
    (encrypted is_first : Bool) (fuel x : ℕ) (xs old so_far : List ℕ)
    → length xs < fuel
    → length old ≡ 63
    → (bytes_eq (take 4 ((x ∷ take 62 xs) ++ drop (length (x ∷ take 62 xs)) old)) fram && is_first)
      ≡ false
    → read_packets is_first so_far
        (delivered (write_packets encrypted old (chunks_loop fuel 62 (x ∷ xs))))
      ≡ ok (so_far ++ (x ∷ xs))
unfolding write_packets chunks_loop
packets_from encrypted is_first zero x xs old so_far f h n = absurd (omega arith)
packets_from encrypted is_first (suc fuel) x xs old so_far f h n =
    let chunk = x ∷ take 62 xs in
    let rest = drop (length chunk) old in
    let l = length-take 62 xs in
    let g = length-drop 62 xs in
    let b = length-body chunk old 63 h (omega arith) in
    let w = take-append-drop 62 xs in
    elim (List-cases (drop 62 xs)) [
      | inl d ↦
          let z : length (drop 62 xs) ≡ 0 = rw d refl in
          rw d (
            read_packet encrypted true is_first so_far chunk rest [] (omega arith) n
            ∙ ap (λ v. ok (so_far ++ (x ∷ v))) (take_all 62 xs (omega arith)))
      | inr (y, ys, d) ↦
          let z : length (drop 62 xs) ≡ suc (length ys) = rw d refl in
          rw (d, some_chunks fuel y ys (omega arith))
            (read_packet encrypted false is_first so_far chunk rest _ (omega arith) n
              ∙ (packets_from encrypted false fuel y ys (chunk ++ rest) (so_far ++ chunk)
                    (omega arith) b (and_false _)
                  ∙ ap ok (
                      append_assoc so_far chunk (y ∷ ys)
                      ∙ ap (λ v. so_far ++ (x ∷ v)) (rw d at w))))
    ]

-- The beginning of a request is the beginning of its first packet.
first_four :
    (x : ℕ) (xs : List ℕ)
    → bytes_eq (take 4 (x ∷ xs)) fram ≡ false
    → (bytes_eq (take 4 ((x ∷ take 62 xs) ++ drop (length (x ∷ take 62 xs)) (replicate 63 0))) fram
        && true)
      ≡ false
first_four x [] n = ground arith
first_four x (y ∷ []) n = ground arith
first_four x (y ∷ z ∷ []) n = ground arith
first_four x (y ∷ z ∷ w ∷ xs) n = ground arith

-- A request that is not empty and does not begin with the letters of the response "fram", in the packets
-- in which it is written, encrypted or not, is what is read when those packets come in.
pub read_packets-request_packets :
    (encrypted : Bool) (request : List ℕ)
    → 1 ≤ length request
    → bytes_eq (take 4 request) fram ≡ false
    → read_packets true [] (delivered (request_packets encrypted request)) ≡ ok request
unfolding request_packets chunks
read_packets-request_packets encrypted [] h n = absurd (omega arith)
read_packets-request_packets encrypted (x ∷ xs) h n =
    packets_from encrypted true (suc (length xs)) x xs (replicate 63 0) [] (omega arith) refl
      (first_four x xs n)
