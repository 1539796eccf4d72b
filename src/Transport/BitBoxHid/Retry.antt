-- ===== src/Transport/BitBoxHid/Retry.antt =====
-- bhwi-async/src/transport/bitbox/hid.rs: the loop that asks again until the device is ready.
use bhwi.Prelude.{
  ℕ, zero, suc, ◌+◌, ◌*◌, ◌≤◌, ◌<◌, ◌≡◌, ◌≢◌, refl, ◌∙◌, arith, List, [], ◌∷◌, ◌++◌, length, take,
  drop, replicate, ok, err, diverge, ◌==◌, if◌then◌else◌, All, ltb, false, length-append,
  length-take, length-drop, length-replicate,
}
use mathlib.Core.List.{append_assoc, append-nil}
use bhwi.Prelude.Slices.{chunks, chunks_loop, drop-drop}
use bhwi.BitBox.U2f.{get_encoded_len, encode, encode_header_init, copy_piece, encode_loop, max_len}
use bhwi.BitBox.U2f.RoundTrip.{decode-encode}
use bhwi.Transport.BitBoxHid.{
  Channel, ◌>=>◌, firmware, send_sized, send_chunks, frames, write_frame, query_raw, verdict,
  retry_loop, exchange, comm, busy, nack,
}
use bhwi.Transport.BitBoxHid.Frames.{reply, read_frame-reply, reply_some}

-- The packet of a request to ask again.
abbrev pub retry_packet : List ℕ
retry_packet = 0xff ∷ 0 ∷ 0xff ∷ 0 ∷ 0xc1 ∷ 0 ∷ 1 ∷ 1 ∷ replicate 56 0

frames-retry : frames (1 ∷ []) ≡ ok (retry_packet ∷ [])
unfolding frames encode encode_header_init copy_piece encode_loop get_encoded_len chunks chunks_loop
frames-retry = refl

-- Chunks of 64 bytes.
chunks_fit :
    (fuel m : ℕ) (xs : List ℕ)
    → length xs ≤ 64 * m
    → All (λ p. length p ≤ 64) (chunks_loop fuel 63 xs) × (length (chunks_loop fuel 63 xs) ≤ m)
unfolding chunks_loop
chunks_fit fuel m [] h = (tt, omega arith)
chunks_fit zero m (x ∷ xs) h = (tt, omega arith)
chunks_fit (suc fuel) zero (x ∷ xs) h = absurd (omega arith)
chunks_fit (suc fuel) (suc m) (x ∷ xs) h =
    let (fit, count) = chunks_fit fuel m (drop 63 xs) (omega (arith, length-drop 63 xs)) in
    ((omega (arith, length-take 63 xs), fit), omega arith)

-- A request of up to 57 + 127 * 59 bytes is written in 129 chunks at most.
frames_fit :
    (msg : List ℕ)
    → length msg ≤ 57 + 127 * 59
    → (packets : List (List ℕ)) × (frames msg ≡ ok packets)
      × All (λ p. length p ≤ 64) packets
      × (length packets ≤ 129)
unfolding frames chunks
frames_fit msg h =
    let buf : List ℕ = replicate max_len 0 in
    let size = get_encoded_len (length msg) in
    let s : size ≤ 64 * 129 = unfold get_encoded_len in ground arith in
    let (out, e, _, _) =
      decode-encode firmware msg buf (omega arith) h
        (omega (arith, length-replicate {A = ℕ} max_len 0)) in
    let (fit, count) =
      chunks_fit (length (take size out)) 129 (take size out)
        (omega (arith, length-take size out)) in
    (chunks 63 (take size out), rw e refl, fit, count)

-- A channel that takes whole chunks.
send_chunks_lem :
    (packets : List (List ℕ)) (sizes : List ℕ) (received : List (ℕ × List ℕ)) (sent : List (List ℕ))
    → All (λ p. length p ≤ 64) packets
    → All (λ n. 64 ≤ n) sizes
    → length packets ≤ length sizes
    → send_chunks packets (record { sizes = sizes; received = received; sent = sent }) ≡ (
      record { sizes = drop (length packets) sizes; received = received; sent = sent ++ packets },
      ok tt,
    )
unfolding send_chunks send_sized
send_chunks_lem [] sizes received sent f g h = rw (append-nil sent) refl
send_chunks_lem (p ∷ packets) [] received sent f g h = absurd (omega arith)
send_chunks_lem (p ∷ packets) (n ∷ sizes) received sent (f, fs) (g, gs) h =
    let whole : ltb n (length p) ≡ false = ground arith in
    rw
      (
        whole,
        send_chunks_lem packets sizes received (sent ++ (p ∷ [])) fs gs (omega arith),
        append_assoc sent (p ∷ []) packets,
      )
      refl

-- The sizes and the packets that a request leaves.
query_lem :
    (msg message sizes : List ℕ) (packets sent : List (List ℕ)) (more : List (ℕ × List ℕ))
    → frames msg ≡ ok packets
    → All (λ p. length p ≤ 64) packets
    → All (λ n. 64 ≤ n) sizes
    → length packets ≤ length sizes
    → length message ≤ 57 + 127 * 59
    → query_raw msg (record { sizes = sizes; received = reply message ++ more; sent = sent }) ≡ (
      record { sizes = drop (length packets) sizes; received = more; sent = sent ++ packets },
      ok message,
    )
unfolding query_raw write_frame
query_lem msg message sizes packets sent more e f g h hm =
    rw (e, send_chunks_lem packets sizes (reply message ++ more) sent f g h)
      (read_frame-reply message (drop (length packets) sizes) (sent ++ packets) more hm)

-- The packets of a device that is not ready for a while and then sends the packets `rest`. What follows
-- the status in a response of NOTREADY is not looked at.
abbrev pub waits : List (List ℕ) → List (ℕ × List ℕ) → List (ℕ × List ℕ)
waits [] rest = rest
waits (body ∷ bodies) rest = reply (1 ∷ body) ++ waits bodies rest

All-drop : (n : ℕ) (sizes : List ℕ) → All (λ n. 64 ≤ n) sizes → All (λ n. 64 ≤ n) (drop n sizes)
All-drop zero sizes h = h
All-drop (suc n) [] h = h
All-drop (suc n) (x ∷ sizes) (h, hs) = All-drop n sizes hs

-- A status other than NOTREADY ends the loop.
verdict_ready :
    (fuel status : ℕ) (payload : List ℕ) (channel : Channel)
    → status ≢ 1
    → retry_loop fuel channel (status ∷ payload) ≡ verdict status payload channel (channel, diverge)
unfolding retry_loop verdict
verdict_ready zero status payload channel h = refl
verdict_ready (suc fuel) status payload channel h = ground arith

abbrev pub left_over : List ℕ → List (ℕ × List ℕ) → List (List ℕ) → Channel
left_over sizes received sent = record { sizes = sizes; received = received; sent = sent }

ask_again :
    (fuel : ℕ) (body : List ℕ) (channel : Channel)
    → retry_loop (suc fuel) channel (1 ∷ body) ≡ (query_raw (1 ∷ []) channel >=> retry_loop fuel)
unfolding retry_loop verdict
ask_again fuel body channel = refl

query-retry_loop :
    (fuel status : ℕ) (msg payload sizes : List ℕ) (bodies packets sent : List (List ℕ))
    (more : List (ℕ × List ℕ))
    → length bodies ≤ fuel
    → frames msg ≡ ok packets
    → All (λ p. length p ≤ 64) packets
    → All (λ n. 64 ≤ n) sizes
    → length packets + length bodies ≤ length sizes
    → All (λ b. length b < 57 + 127 * 59) bodies
    → length payload < 57 + 127 * 59
    → status ≢ 1
    → (query_raw msg (left_over sizes (waits bodies (reply (status ∷ payload) ++ more)) sent)
        >=> retry_loop fuel)
      ≡ (let channel =
            left_over
              (drop (length packets + length bodies) sizes)
              more
              ((sent ++ packets) ++ replicate (length bodies) retry_packet) in
          verdict status payload channel (channel, diverge))
query-retry_loop fuel status msg payload sizes [] packets sent more hf e f g hs hb hp hr =
    let z : length packets + 0 ≡ length packets = omega arith in
    rw
      (
        z,
        query_lem msg (status ∷ payload) sizes packets sent more e f g (omega arith) (omega arith),
        append-nil (sent ++ packets),
      )
      (verdict_ready fuel status payload _ hr)
query-retry_loop zero status msg payload sizes (b ∷ bodies) packets sent more hf e f g hs hb hp hr =
    absurd (omega arith)
query-retry_loop (suc fuel) status msg payload sizes (b ∷ bodies) packets sent more hf e f g hs
      (hb, hbs) hp hr =
    let rest = waits bodies (reply (status ∷ payload) ++ more) in
    let n = length packets in
    let again =
      query-retry_loop fuel status (1 ∷ []) payload (drop n sizes) bodies (retry_packet ∷ [])
        (sent ++ packets) more (omega arith) frames-retry (omega arith, tt) (All-drop n sizes g)
        (omega (arith, length-drop n sizes)) hbs hp hr in
    let count : n + (1 + length bodies) ≡ n + suc (length bodies) = omega arith in
    rw
      (
        query_lem msg (1 ∷ b) sizes packets sent rest e f g (omega arith) (omega arith),
        ask_again fuel b (left_over (drop n sizes) rest (sent ++ packets)),
        ← count,
        ← drop-drop n (1 + length bodies) sizes,
        ← append_assoc (sent ++ packets) (retry_packet ∷ [])
            (replicate (length bodies) retry_packet),
      )
      again

length-waits :
    (bodies : List (List ℕ)) (rest : List (ℕ × List ℕ))
    → All (λ b. length b < 57 + 127 * 59) bodies
    → length bodies ≤ length (waits bodies rest)
length-waits [] rest h = omega arith
length-waits (b ∷ bodies) rest (h, hs) = omega (
  arith,
  reply_some (1 ∷ b) (omega arith),
  length-append (reply (1 ∷ b)) (waits bodies rest),
  length-waits bodies rest hs,
)

-- For a request, responses and a final payload of fewer than 57 + 127 * 59 bytes, over a channel that
-- takes whole chunks and has room for them: where the device answers NOTREADY `length bodies` times and
-- then another status with the payload, `exchange` sends the chunks of the request behind a byte 0, asks
-- again in one packet after each NOTREADY, and leaves the packets behind the last response. It returns
-- the payload where the status is ACK, and fails as BUSY, NACK or unexpected on another.
pub exchange_waits :
    (status : ℕ) (request payload sizes : List ℕ) (bodies sent : List (List ℕ))
    (more : List (ℕ × List ℕ))
    → length request < 57 + 127 * 59
    → length payload < 57 + 127 * 59
    → All (λ b. length b < 57 + 127 * 59) bodies
    → All (λ n. 64 ≤ n) sizes
    → 129 + length bodies ≤ length sizes
    → status ≢ 1
    → (packets : List (List ℕ)) × (frames (0 ∷ request) ≡ ok packets)
      × (exchange request (left_over sizes (waits bodies (reply (status ∷ payload) ++ more)) sent)
          ≡ (
            left_over
                (drop (length packets + length bodies) sizes)
                more
                ((sent ++ packets) ++ replicate (length bodies) retry_packet),
            if status == 0
                then ok payload
                else if status == 2
                then err busy
                else if status == 3
                then err nack
                else err comm,
          ))
unfolding exchange
exchange_waits status request payload sizes bodies sent more hr hp hb g hs ready =
    let rest = reply (status ∷ payload) ++ more in
    let (packets, e, f, count) = frames_fit (0 ∷ request) (omega arith) in
    (
      packets,
      e,
      query-retry_loop (length (waits bodies rest)) status (0 ∷ request) payload sizes bodies
            packets sent more (length-waits bodies rest hb) e f g (omega arith) hb hp ready
          ∙ settled status payload _ ready,
    )
  where
    settled :
        (status : ℕ) (payload : List ℕ) (channel : Channel)
        → status ≢ 1
        → verdict status payload channel (channel, diverge) ≡ (
          channel,
          if status == 0
              then ok payload
              else if status == 2
              then err busy
              else if status == 3
              then err nack
              else err comm,
        )
    settled status payload channel h = unfold verdict in ground arith
