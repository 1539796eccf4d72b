-- ===== src/Transport/BitBoxHid/Frames.antt =====
-- bhwi-async/src/transport/bitbox/hid.rs: a frame that the device sends is what is read.
use bhwi.Prelude.{
  ℕ, zero, suc, ◌+◌, ◌-◌, ◌*◌, ◌/◌, ◌%◌, ◌≤◌, ◌<◌, min, ◌≡◌, refl, sym, ap, ◌∙◌, arith, List, [],
  ◌∷◌, ◌++◌, none, some, length, take, drop, replicate, Outcome, ok, leb, ensure, >>=-eq-ok,
  length-append, length-take, length-drop, take-append-drop, length-replicate,
}
use mathlib.Core.Path.{subst}
use mathlib.Core.List.{append_assoc, append-nil}
use bhwi.Prelude.Slices.{chunks, chunks_loop}
use bhwi.Prelude.Bytes.{u16_be, u32_be, u16_of_be-u16_be, u32_of_be-u32_be}
use bhwi.BitBox.U2f.{
  Header, IoError, wont_fit, parse_header, encode_header_init, copy_piece, encode_loop,
  get_encoded_len, encode, decode,
}
use bhwi.BitBox.U2f.RoundTrip.{decode-encode}
use bhwi.BitBox.U2f.Safety.{decode_cases}
use bhwi.Transport.BitBoxHid.{firmware, read_loop, read_packets, read_frame}

-- Packets as they arrive one by one.
abbrev pub delivered : List (List ℕ) → List (ℕ × List ℕ)
delivered [] = []
delivered (packet ∷ rest) = (length packet, packet) ∷ delivered rest

abbrev pub packets_of : Outcome IoError (ℕ × List ℕ) → List (ℕ × List ℕ)
packets_of (ok (size, out)) = delivered (chunks 63 out)
packets_of _ = []

-- The packets of a frame of the device.
abbrev pub reply : List ℕ → List (ℕ × List ℕ)
reply message =
    packets_of (encode firmware message (replicate (get_encoded_len (length message)) 0))

parse_header-append : (p q : List ℕ) → 7 ≤ length p → parse_header (p ++ q) ≡ parse_header p
unfolding parse_header
parse_header-append [] q h = absurd (omega arith)
parse_header-append (a ∷ []) q h = absurd (omega arith)
parse_header-append (a ∷ b ∷ []) q h = absurd (omega arith)
parse_header-append (a ∷ b ∷ c ∷ []) q h = absurd (omega arith)
parse_header-append (a ∷ b ∷ c ∷ d ∷ []) q h = absurd (omega arith)
parse_header-append (a ∷ b ∷ c ∷ d ∷ e ∷ []) q h = absurd (omega arith)
parse_header-append (a ∷ b ∷ c ∷ d ∷ e ∷ f ∷ []) q h = absurd (omega arith)
parse_header-append (a ∷ b ∷ c ∷ d ∷ e ∷ f ∷ g ∷ p) q h = refl

abbrev header_of : List ℕ → Header
header_of message = record { cid = firmware.cid; cmd = firmware.cmd; len = length message }

-- The header that the reader finds where the writer succeeded.
init_header :
    (message buf header tail : List ℕ)
    → length message < 65536
    → encode_header_init firmware.cid firmware.cmd (length message % 65536) buf ≡ ok header
    → parse_header (header ++ tail) ≡ ok (header_of message)
unfolding encode_header_init parse_header
init_header message buf header tail hm e =
    let c = u32_of_be-u32_be firmware.cid (omega arith) in
    let m = u16_of_be-u16_be (length message) hm in
    let shape : header ≡ u32_be firmware.cid ++ (firmware.cmd ∷ u16_be (length message % 65536)) =
      ground arith in
    let small : length message % 65536 ≡ length message = omega arith in rw (shape, small, m) refl

parse_header-encode :
    (message buf : List ℕ) (n : ℕ) (out : List ℕ)
    → length message < 65536
    → encode firmware message buf ≡ ok (n, out)
    → parse_header out ≡ ok (header_of message)
unfolding encode
parse_header-encode message buf n out hm e =
    let (_, _, e1) =
      >>=-eq-ok (ensure (leb (get_encoded_len (length message % 65536)) (length buf)) wont_fit) _
        e in
    let (header, h, e2) =
      >>=-eq-ok (encode_header_init firmware.cid firmware.cmd (length message % 65536) buf) _ e1 in
    let (piece, _, e3) =
      >>=-eq-ok (copy_piece (min 57 (length message)) message (drop 7 buf)) _ e2 in
    let (rest, _, e4) =
      >>=-eq-ok
        (encode_loop (length message) firmware.cid 0 (drop (min 57 (length message)) message)
          piece.1)
        _ e3 in
    let same : header ++ (piece.0 ++ rest) ≡ out = cc in
    rw (← same) (init_header message buf header (piece.0 ++ rest) hm h)

abbrev Framed : List ℕ → List ℕ → Type 0
Framed message out =
    (parse_header out ≡ ok (header_of message))
    × (decode firmware out ≡ ok (some message))
    × (length out ≡ get_encoded_len (length message))

get_encoded_len_lem :
    (n : ℕ) → n ≤ 57 + 127 * 59 → get_encoded_len n ≡ 64 + 64 * ((n - 57 + 58) / 59)
unfolding get_encoded_len
get_encoded_len_lem n h = ground arith

reply-Framed :
    (message : List ℕ)
    → length message ≤ 57 + 127 * 59
    → (out : List ℕ) × (reply message ≡ delivered (chunks 63 out)) × Framed message out
reply-Framed message h =
    let (out, e, l, d) =
      decode-encode firmware message (replicate (get_encoded_len (length message)) 0) (omega arith)
        h (omega (arith, length-replicate {A = ℕ} (get_encoded_len (length message)) 0)) in
    (
      out,
      ap packets_of e,
      (
        parse_header-encode message _ _ out (omega arith) e,
        d,
        l ∙ length-replicate {A = ℕ} (get_encoded_len (length message)) 0,
      ),
    )

-- A part of a frame is not decoded.
decode_part :
    (message p q : List ℕ)
    → Framed message (p ++ q)
    → length message ≤ 57 + 127 * 59
    → 64 ≤ length p
    → 1 ≤ length q
    → decode firmware p ≡ ok none
decode_part message p q (ph, d, l) hm hp hq =
    let cases =
      decode_cases firmware p (header_of message) (sym (parse_header-append p q (omega arith)) ∙ ph)
        refl refl (omega arith) in
    cases.0 (omega (arith, length-append p q, l))

-- Packets that complete a frame.
read_loop_whole :
    (message buf sizes : List ℕ) (sent : List (List ℕ)) (more : List (ℕ × List ℕ))
    → decode firmware buf ≡ ok (some message)
    → read_loop buf sizes sent more
      ≡ (record { sizes = sizes; received = more; sent = sent }, ok message)
unfolding read_loop
read_loop_whole message buf sizes sent [] h = rw h refl
read_loop_whole message buf sizes sent ((n, packet) ∷ more) h = rw h refl

read_loop-chunks :
    (fuel k : ℕ) (message buf rest sizes : List ℕ) (sent : List (List ℕ)) (more : List (ℕ × List ℕ))
    → Framed message (buf ++ rest)
    → length message ≤ 57 + 127 * 59
    → 64 ≤ length buf
    → length rest ≡ 64 * k
    → length rest ≤ fuel
    → read_loop buf sizes sent (delivered (chunks_loop fuel 63 rest) ++ more)
      ≡ (record { sizes = sizes; received = more; sent = sent }, ok message)
unfolding read_loop chunks_loop
read_loop-chunks fuel k message buf [] sizes sent more (ph, d, l) hm hb hk hf =
    read_loop_whole message buf sizes sent more (rw (append-nil buf) at d)
read_loop-chunks zero k message buf (x ∷ xs) sizes sent more f hm hb hk hf = absurd (omega arith)
read_loop-chunks (suc fuel) zero message buf (x ∷ xs) sizes sent more f hm hb hk hf =
    absurd (omega arith)
read_loop-chunks (suc fuel) (suc k) message buf (x ∷ xs) sizes sent more f hm hb hk hf =
    let packet = x ∷ take 63 xs in
    let whole : buf ++ (x ∷ xs) ≡ (buf ++ packet) ++ drop 63 xs =
      ap (λ t. buf ++ (x ∷ t)) (sym (take-append-drop 63 xs))
      ∙ sym (append_assoc buf packet (drop 63 xs)) in
    let full : length packet ≡ 64 = omega (arith, length-take 63 xs) in
    rw (decode_part message buf (x ∷ xs) f hm hb (omega arith), full)
      (read_loop-chunks fuel k message (buf ++ packet) (drop 63 xs) sizes sent more (rw whole at f)
        hm (omega (arith, length-append buf packet)) (omega (arith, length-drop 63 xs))
        (omega (arith, length-drop 63 xs)))

read_packets-chunks :
    (k : ℕ) (message out sizes : List ℕ) (sent : List (List ℕ)) (more : List (ℕ × List ℕ))
    → Framed message out
    → length message ≤ 57 + 127 * 59
    → length out ≡ 64 + 64 * k
    → read_packets sizes sent (delivered (chunks 63 out) ++ more)
      ≡ (record { sizes = sizes; received = more; sent = sent }, ok message)
unfolding read_packets chunks chunks_loop
read_packets-chunks k message [] sizes sent more f hm hk = absurd (omega arith)
read_packets-chunks k message (x ∷ xs) sizes sent more f hm hk =
    let packet = x ∷ take 63 xs in
    let whole : x ∷ xs ≡ packet ++ drop 63 xs = ap (λ t. x ∷ t) (sym (take-append-drop 63 xs)) in
    let full : length packet ≡ 64 = omega (arith, length-take 63 xs) in
    rw full (
      read_loop-chunks (length xs) k message packet (drop 63 xs) sizes sent more
        (subst (Framed message) whole f) hm (omega arith) (omega (arith, length-drop 63 xs))
        (omega (arith, length-drop 63 xs)))

-- What `read_frame` makes of the packets of a frame of up to 57 + 127 * 59 bytes: the message, with the
-- packets after it left in the channel.
pub read_frame-reply :
    (message sizes : List ℕ) (sent : List (List ℕ)) (more : List (ℕ × List ℕ))
    → length message ≤ 57 + 127 * 59
    → read_frame (record { sizes = sizes; received = reply message ++ more; sent = sent })
      ≡ (record { sizes = sizes; received = more; sent = sent }, ok message)
unfolding read_frame
read_frame-reply message sizes sent more h =
    let (out, e, f) = reply-Framed message h in
    let l = get_encoded_len_lem (length message) h in
    rw e (
      read_packets-chunks ((length message - 57 + 58) / 59) message out sizes sent more f h
        (f.2 ∙ l))

-- A frame has a packet at least.
pub reply_some : (message : List ℕ) → length message ≤ 57 + 127 * 59 → 1 ≤ length (reply message)
unfolding chunks chunks_loop
reply_some message h =
    let (out, e, f) = reply-Framed message h in
    let l = get_encoded_len_lem (length message) h in rw e (delivered_some out (omega arith))
  where
    delivered_some : (out : List ℕ) → 1 ≤ length out → 1 ≤ length (delivered (chunks 63 out))
    delivered_some [] h = absurd (omega arith)
    delivered_some (x ∷ xs) h = omega arith
