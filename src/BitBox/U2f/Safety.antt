-- ===== src/BitBox/U2f/Safety.antt =====
-- What the U2F codec does outside the round trip: buffers that no writer made, and messages that are too
-- long (bhwi/src/bitbox/u2f.rs).
use bhwi.Prelude.{
  ℕ, zero, suc, ◌+◌, ◌-◌, ◌*◌, ◌/◌, ◌%◌, ◌≤◌, ◌<◌, min, ◌≡◌, refl, List, [], ◌∷◌, ◌++◌, none, some,
  arith, length, take, drop, ok, err, panic, length-take, length-drop, length-append,
}
use native.Mathlib.Decide.{dec_lt}
use bhwi.BitBox.U2f.{
  U2fHid, Header, too_many_frames, parse_header, get_encoded_len, encode_loop, decode_loop, encode,
  decode,
}
use bhwi.BitBox.U2f.RoundTrip.{cont_frames}

-- With bytes enough for what is left, the reader's loop returns exactly what is left.
decode_loop_total :
    (fuel : ℕ) (buf : List ℕ) (left : ℕ)
    → left ≤ fuel
    → left + 5 * cont_frames left ≤ length buf
    → (out : List ℕ) × (decode_loop fuel buf left ≡ ok out) × (length out ≡ left)
unfolding decode_loop cont_frames
decode_loop_total fuel buf zero hf hb = ([], refl, refl)
decode_loop_total zero buf (suc left) hf hb = absurd (omega arith)
decode_loop_total (suc fuel) buf (suc left) hf hb =
    let count = min 59 (suc left) in
    let (out, e, l) =
      decode_loop_total fuel (drop count (drop 5 buf)) (suc left - count) (omega arith)
        (omega (arith, length-drop {0})) in
    let lp : length (take count (drop 5 buf)) ≡ count =
      omega (arith, length-take {0}, length-drop {0}) in
    (
      take count (drop 5 buf) ++ out,
      ground (arith, e),
      omega (arith, length-append (take count (drop 5 buf)) out, lp, l),
    )

-- With fewer bytes than are left, its slices run out of range.
decode_loop_short :
    (fuel : ℕ) (buf : List ℕ) (left : ℕ)
    → left ≤ fuel
    → length buf < left
    → decode_loop fuel buf left ≡ panic
unfolding decode_loop
decode_loop_short fuel buf zero hf hb = absurd (omega arith)
decode_loop_short zero buf (suc left) hf hb = absurd (omega arith)
decode_loop_short (suc fuel) buf (suc left) hf hb =
    let count = min 59 (suc left) in
    ground (
      arith,
      decode_loop_short fuel (drop count (drop 5 buf)) (suc left - count),
      length-drop count (drop 5 buf),
      length-drop 5 buf,
    )

-- Where the header's channel and command are the codec's and its length is below 65535, `decode`
-- neither panics nor fails: it wants more bytes if the buffer is shorter than the encoded length, and
-- else returns a payload of exactly the header's length.
pub decode_cases :
    (self : U2fHid) (buf : List ℕ) (h : Header)
    → parse_header buf ≡ ok h
    → h.cid ≡ self.cid
    → h.cmd ≡ self.cmd
    → h.len < 65535
    → (length buf < get_encoded_len h.len → decode self buf ≡ ok none)
      × (get_encoded_len h.len ≤ length buf
          → (out : List ℕ) × (decode self buf ≡ ok (some out)) × (length out ≡ h.len))
unfolding decode
decode_cases self buf h hp hc hm hl = (λ short. ground arith, λ whole. read whole)
  where
    read :
        get_encoded_len h.len ≤ length buf
        → (out : List ℕ) × (decode self buf ≡ ok (some out)) × (length out ≡ h.len)
    read whole =
        let count = min 57 h.len in
        let room : (64 ≤ length buf) × (h.len + 7 + 5 * cont_frames (h.len - 57) ≤ length buf) =
          unfold get_encoded_len cont_frames in ground arith in
        let (out, e, l) =
          decode_loop_total h.len (drop count (drop 7 buf)) (h.len - count) (omega arith)
            (unfold cont_frames in omega (arith, length-drop {0})) in
        let lp : length (take count (drop 7 buf)) ≡ count =
          omega (arith, length-take {0}, length-drop {0}) in
        (
          take count (drop 7 buf) ++ out,
          ground (arith, e),
          omega (arith, length-append (take count (drop 7 buf)) out, lp, l),
        )

decode_short :
    (self : U2fHid) (buf : List ℕ) (h : Header)
    → parse_header buf ≡ ok h
    → h.cid ≡ self.cid
    → h.cmd ≡ self.cmd
    → 57 ≤ h.len
    → 64 ≤ length buf
    → get_encoded_len h.len ≤ length buf
    → length buf < 7 + h.len
    → decode self buf ≡ panic
unfolding decode
decode_short self buf h hp hc hm hl lo he hi =
    let count = min 57 h.len in
    let short : decode_loop h.len (drop count (drop 7 buf)) (h.len - count) ≡ panic =
      decode_loop_short h.len _ _ (omega arith) (omega (arith, length-drop {0})) in
    ground (arith, short)

-- A header that claims 65535 bytes: the encoded length wraps round to 64 in `u16`, so that any buffer
-- of 64 to 65541 bytes passes the length test, and a slice then panics.
pub decode_wraps :
    (self : U2fHid) (buf : List ℕ) (h : Header)
    → parse_header buf ≡ ok h
    → h.cid ≡ self.cid
    → h.cmd ≡ self.cmd
    → h.len ≡ 65535
    → 64 ≤ length buf
    → length buf < 7 + 65535
    → decode self buf ≡ panic
decode_wraps self buf h hp hc hm hl lo hi =
    let wrapped : get_encoded_len h.len ≡ 64 = rw hl (unfold get_encoded_len in refl) in
    decode_short self buf h hp hc hm (omega arith) lo (omega arith) (omega arith)

-- One round of the writer that does not end the loop, and the round that passes the last number.
encode_round :
    (fuel cid seq m : ℕ) (ms buf : List ℕ)
    → seq < 127
    → min 59 (suc (length ms)) + 5 ≤ length buf
    → let len = min 59 (suc (length ms)) in
      encode_loop fuel cid (seq + 1) (drop len (m ∷ ms)) (drop len (drop 5 buf))
        ≡ err too_many_frames
      → encode_loop (suc fuel) cid seq (m ∷ ms) buf ≡ err too_many_frames
unfolding encode_loop
encode_round fuel cid seq m ms buf hs hb ih = ground (arith, length-drop 5 buf)

encode_last_round :
    (fuel cid seq m : ℕ) (ms buf : List ℕ)
    → seq ≡ 127
    → min 59 (suc (length ms)) + 5 ≤ length buf
    → encode_loop (suc fuel) cid seq (m ∷ ms) buf ≡ err too_many_frames
unfolding encode_loop
encode_last_round fuel cid seq m ms buf hs hb = ground (arith, length-drop 5 buf)

encode_loop_too_long :
    (fuel cid seq : ℕ) (message buf : List ℕ)
    → length message ≤ fuel
    → seq ≤ 127
    → 128 ≤ seq + cont_frames (length message)
    → length message + 5 * cont_frames (length message) ≤ length buf
    → encode_loop fuel cid seq message buf ≡ err too_many_frames
unfolding encode_loop cont_frames
encode_loop_too_long fuel cid seq [] buf hf hs hc hb = absurd (omega arith)
encode_loop_too_long zero cid seq (m ∷ ms) buf hf hs hc hb = absurd (omega arith)
encode_loop_too_long (suc fuel) cid seq (m ∷ ms) buf hf hs hc hb =
    let len = min 59 (suc (length ms)) in
    elim (dec_lt seq 127) [
      | yes more ↦ encode_round fuel cid seq m ms buf more (omega arith) (
          encode_loop_too_long fuel cid (seq + 1) (drop len (m ∷ ms)) (drop len (drop 5 buf))
            (omega (arith, length-drop {0})) (omega arith) (omega (arith, length-drop {0}))
            (omega (arith, length-drop {0})))
      | no last ↦ encode_last_round fuel cid seq m ms buf (omega arith) (omega arith)
    ]

-- A message of 7551 to 65534 bytes that fits the buffer is refused with `too_many_frames`: the test
-- on the sequence number follows the increment, so it already refuses a message whose last frame has
-- the number 127.
pub encode_too_long :
    (self : U2fHid) (message buf : List ℕ)
    → 57 + 127 * 59 < length message
    → length message < 65535
    → get_encoded_len (length message) ≤ length buf
    → encode self message buf ≡ err too_many_frames
unfolding encode
encode_too_long self message buf lo hi hb =
    let room : (64 ≤ length buf)
        × (length message + 7 + 5 * ((length message - 57 + 58) / 59) ≤ length buf) =
      unfold get_encoded_len in ground arith in
    let count = min 57 (length message) in
    let late : encode_loop (length message) self.cid 0 (drop count message)
          (drop count (drop 7 buf))
        ≡ err too_many_frames =
      unfold cont_frames in
      encode_loop_too_long (length message) self.cid 0 (drop count message)
        (drop count (drop 7 buf)) (omega (arith, length-drop {0})) (omega arith)
        (omega (arith, length-drop {0})) (omega (arith, length-drop {0})) in
    let same : length message % 65536 ≡ length message = omega arith in
    ground (arith, late, same, length-drop 7 buf)
