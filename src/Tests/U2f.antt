-- ===== src/Tests/U2f.antt =====
-- The U2F codec on concrete messages (the tests of bhwi/src/bitbox/u2f.rs among them).
use bhwi.Prelude.{
  ℕ, ◌≤◌, ◌<◌, ◌≡◌, refl, arith, List, [], ◌∷◌, some, none, ok, err, panic, length, replicate,
}
use bhwi.BitBox.U2f.{
  U2fHid, Header, too_many_frames, parse_header, get_encoded_len, encode_loop, encode, decode_loop,
  decode,
}
use bhwi.BitBox.U2f.RoundTrip.{decode-encode}
use bhwi.BitBox.U2f.Safety.{decode_cases, decode_wraps, encode_too_long}

abbrev codec : U2fHid
codec = record { cid = 0xEEEEEEEE; cmd = 0x55 }

encode_single :
    encode codec (1 ∷ 2 ∷ 3 ∷ 4 ∷ []) (replicate 64 0)
    ≡ ok (64, 0xEE ∷ 0xEE ∷ 0xEE ∷ 0xEE ∷ 0x55 ∷ 0 ∷ 4 ∷ 1 ∷ 2 ∷ 3 ∷ 4 ∷ replicate 53 0)
unfolding encode get_encoded_len encode_loop
encode_single = refl

decode_single :
    decode codec (0xEE ∷ 0xEE ∷ 0xEE ∷ 0xEE ∷ 0x55 ∷ 0 ∷ 4 ∷ 1 ∷ 2 ∷ 3 ∷ 4 ∷ replicate 53 0)
    ≡ ok (some (1 ∷ 2 ∷ 3 ∷ 4 ∷ []))
unfolding decode get_encoded_len decode_loop
decode_single = refl

abbrev long_message : List ℕ
long_message = replicate 65 9

abbrev blank : List ℕ
blank = replicate 128 0

decode-encode_example :
    (out : List ℕ) × (encode codec long_message blank
      ≡ ok (get_encoded_len (length long_message), out))
    × (length out ≡ length blank)
    × (decode codec out ≡ ok (some long_message))
decode-encode_example =
    decode-encode codec long_message blank (omega arith) (omega arith)
      (unfold get_encoded_len in omega arith)

-- A header for our channel that claims the given length.
abbrev claiming : ℕ → ℕ → List ℕ → List ℕ
claiming hi lo rest = 0xEE ∷ 0xEE ∷ 0xEE ∷ 0xEE ∷ 0x55 ∷ hi ∷ lo ∷ rest

abbrev header_of : ℕ → Header
header_of len = record { cid = 0xEEEEEEEE; cmd = 0x55; len = len }

decode_cases_example :
    (length (claiming 0 2 (replicate 57 3)) < get_encoded_len 2
      → decode codec (claiming 0 2 (replicate 57 3)) ≡ ok none)
    × (get_encoded_len 2 ≤ length (claiming 0 2 (replicate 57 3))
        → (out : List ℕ) × (decode codec (claiming 0 2 (replicate 57 3)) ≡ ok (some out))
          × (length out ≡ 2))
decode_cases_example =
    decode_cases codec (claiming 0 2 (replicate 57 3)) (header_of 2) (unfold parse_header in refl)
      refl refl (omega arith)

decode_wraps_example : decode codec (claiming 255 255 (replicate 57 3)) ≡ panic
decode_wraps_example =
    decode_wraps codec (claiming 255 255 (replicate 57 3)) (header_of 65535)
      (unfold parse_header in refl) refl refl refl (omega arith) (omega arith)

encode_too_long_example : encode codec (replicate 7551 1) (replicate 8256 0) ≡ err too_many_frames
encode_too_long_example =
    encode_too_long codec (replicate 7551 1) (replicate 8256 0) (omega arith) (omega arith)
      (unfold get_encoded_len in omega arith)
