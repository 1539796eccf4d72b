-- ===== src/BitBox/U2f/RoundTrip.antt =====
-- `decode` reads back what `encode` wrote (bhwi/src/bitbox/u2f.rs).
use bhwi.Prelude.{
  ℕ, zero, suc, ◌+◌, ◌-◌, ◌*◌, ◌/◌, ◌%◌, ◌^◌, ◌≤◌, ◌<◌, min, ◌≡◌, refl, ap, ◌∙◌, List, [], ◌∷◌,
  ◌++◌, some, arith, length, take, drop, ok, length-take, length-drop, length-append, take-append,
  drop-append, take-append-drop,
}
use bhwi.Prelude.Bytes.{u16_be, u32_be, u16_of_be, u32_of_be, u16_of_be-u16_be, u32_of_be-u32_be}
use bhwi.BitBox.U2f.{U2fHid, get_encoded_len, encode_loop, decode_loop, encode, decode}

unfoldable pub cont_frames : ℕ → ℕ
cont_frames n = (n + 58) / 59

-- One frame of the reader on a frame of the writer.
decode_frame :
    (fuel left count left' : ℕ) (a b c d seq : ℕ) (piece rest : List ℕ) {tail : List ℕ}
    → count ≡ min 59 (suc left)
    → length piece ≡ count
    → left' ≡ suc left - count
    → decode_loop fuel rest left' ≡ ok tail
    → decode_loop (suc fuel) (a ∷ b ∷ c ∷ d ∷ seq ∷ (piece ++ rest)) (suc left) ≡ ok (piece ++ tail)
unfolding decode_loop
decode_frame fuel left count left' a b c d seq piece rest hc hp hl ih = ground (
  arith,
  length-append piece rest,
  take-append count piece rest hp,
  drop-append count piece rest hp,
)

-- The loop ends without an error where the sequence numbers and the buffer suffice, it keeps the
-- buffer's length, and the reader's loop returns the message.
encode_loop_decodes :
    (fuel cid seq : ℕ) (message buf : List ℕ)
    → length message ≤ fuel
    → seq + cont_frames (length message) ≤ 127
    → length message + 5 * cont_frames (length message) ≤ length buf
    → (out : List ℕ) × (encode_loop fuel cid seq message buf ≡ ok out)
      × (decode_loop fuel out (length message) ≡ ok message)
      × (length out ≡ length buf)
unfolding encode_loop cont_frames
encode_loop_decodes fuel cid seq [] buf hf hs hb = (buf, refl, unfold decode_loop in refl, refl)
encode_loop_decodes zero cid seq (m ∷ ms) buf hf hs hb = absurd (omega arith)
encode_loop_decodes (suc fuel) cid seq (m ∷ ms) buf hf hs hb =
    let len = min 59 (suc (length ms)) in
    let piece = take len (m ∷ ms) in
    let lp : length piece ≡ len = omega (arith, length-take {0}) in
    let (out, e, d, l) =
      encode_loop_decodes fuel cid (seq + 1) (drop len (m ∷ ms)) (drop len (drop 5 buf))
        (omega (arith, length-drop {0})) (omega (arith, length-drop {0}))
        (omega (arith, length-drop {0})) in
    (
      u32_be cid ++ ((seq % 256) ∷ (piece ++ out)),
      ground (arith, e, length-drop 5 buf),
      decode_frame fuel (length ms) len _ _ _ _ _ _ piece out refl lp (length-drop len (m ∷ ms)) d
          ∙ ap ok (take-append-drop len (m ∷ ms)),
      omega (arith, length-append piece out, lp, l, length-drop {0}),
    )

-- The reader on a first frame and what the loop reads behind it.
decode_first :
    (self : U2fHid) (len left' a b c d f g : ℕ) (piece rest : List ℕ) {tail : List ℕ}
    → u32_of_be a b c d ≡ self.cid
    → u16_of_be f g ≡ len
    → length piece ≡ min 57 len
    → get_encoded_len len ≤ 7 + length (piece ++ rest)
    → left' ≡ len - min 57 len
    → decode_loop len rest left' ≡ ok tail
    → decode self (a ∷ b ∷ c ∷ d ∷ self.cmd ∷ f ∷ g ∷ (piece ++ rest)) ≡ ok (some (piece ++ tail))
unfolding decode
decode_first self len left' a b c d f g piece rest hc hl hp hb hk ih = ground (
  arith,
  length-append piece rest,
  take-append (min 57 len) piece rest hp,
  drop-append (min 57 len) piece rest hp,
)

-- For a message of up to 57 + 127 * 59 bytes and a buffer of the encoded length or more, `encode`
-- succeeds, returns the encoded length, keeps the buffer's length, and `decode` of the buffer
-- returns the message.
pub decode-encode :
    (self : U2fHid) (message buf : List ℕ)
    → self.cid < 2 ^ 32
    → length message ≤ 57 + 127 * 59
    → get_encoded_len (length message) ≤ length buf
    → (out : List ℕ) × (encode self message buf ≡ ok (get_encoded_len (length message), out))
      × (length out ≡ length buf)
      × (decode self out ≡ ok (some message))
unfolding encode
decode-encode self message buf hc hm hb =
    let len = min 57 (length message) in
    let piece = take len message in
    let lp : length piece ≡ len = omega (arith, length-take {0}) in
    let room : (64 ≤ length buf)
        × (length message + 7 + 5 * ((length message - 57 + 58) / 59) ≤ length buf) =
      unfold get_encoded_len in ground arith in
    let (out, e, d, l) =
      encode_loop_decodes (length message) self.cid 0 (drop len message) (drop len (drop 7 buf))
        (omega (arith, length-drop {0})) (unfold cont_frames in omega (arith, length-drop {0}))
        (unfold cont_frames in omega (arith, length-drop {0})) in
    (
      u32_be self.cid ++ (self.cmd ∷ u16_be (length message % 65536) ++ (piece ++ out)),
      ground (arith, e, length-drop 7 buf),
      omega (arith, length-append piece out, lp, l, length-drop {0}),
      decode_first self (length message) _ _ _ _ _ _ _ piece out (u32_of_be-u32_be self.cid hc)
            (let m : length message % 65536 ≡ length message = omega arith in
              rw m (u16_of_be-u16_be (length message) (omega arith)))
            lp (omega (arith, length-append piece out, lp, l, length-drop {0}))
            (length-drop len message) d
          ∙ ap (λ t. ok (some t)) (take-append-drop len message),
    )
