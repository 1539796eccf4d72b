-- ===== src/Transport/BitBoxHid.antt =====
-- bhwi-async/src/transport/bitbox/hid.rs: requests in U2F frames over packets of 64 bytes, and the loop
-- that asks again while the device is not ready. The channel is outside: it is the sizes that `send`
-- returns, one for each call, and the sizes that `receive` returns with the packet after each; where a
-- list ends, the call fails. What was sent is kept.
pub mod Frames
pub mod Retry
use bhwi.Prelude.{
  ℕ, zero, suc, ◌+◌, Bool, true, false, List, [], ◌∷◌, ◌++◌, Option, none, some, ltb, ◌==◌,
  if◌then◌else◌, length, take, replicate, Outcome, ok, err, panic, diverge, ◌>>=◌, map_err,
}
use bhwi.Prelude.Slices.{chunks}
use bhwi.BitBox.U2f.{U2fHid, IoError, max_len, encode, decode}
use bhwi.BitBox.U2f as U2f

pub data BitBoxHidError : Type 0 where
  comm nack busy u2f write read : BitBoxHidError

pub record Channel : Type 0 where
  pub sizes : List ℕ
  pub received : List (ℕ × List ℕ)
  pub sent : List (List ℕ)

abbrev pub Call : Type 0 → Type 0
Call A = Channel × Outcome BitBoxHidError A

-- `call?` and what follows it, on the channel that the call leaves.
infixl 5 ◌>=>◌
abbrev pub ◌>=>◌ : {A B : Type 0} → Call A → (Channel → A → Call B) → Call B
(channel, ok value) >=> next = next channel value
(channel, err e) >=> next = (channel, err e)
(channel, panic) >=> next = (channel, panic)
(channel, diverge) >=> next = (channel, diverge)

-- `BitBoxTransportHID::new`: FIRMWARE_CMD is 0xC1.
abbrev pub firmware : U2fHid
firmware = U2f.new (0x80 + 0x40 + 0x01)

unfoldable pub send_sized : List ℕ → List (ℕ × List ℕ) → List (List ℕ) → List ℕ → Call (Unit {0})
send_sized [] received sent chunk =
    (record { sizes = []; received = received; sent = sent }, err write)
send_sized (size ∷ sizes) received sent chunk = (
  record { sizes = sizes; received = received; sent = sent ++ (chunk ∷ []) },
  if ltb size (length chunk) then err comm else ok tt,
)

-- The `for` loop of `write_frame`.
unfoldable pub send_chunks : List (List ℕ) → Channel → Call (Unit {0})
unfolding send_sized
send_chunks [] channel = (channel, ok tt)
send_chunks (chunk ∷ rest) channel =
    send_sized channel.sizes channel.received channel.sent chunk >=> λ next done.
    send_chunks rest next

-- The chunks that `write_frame` sends.
unfoldable pub frames : List ℕ → Outcome BitBoxHidError (List (List ℕ))
frames msg = do
  (size, buf) ← map_err (λ e. u2f) (encode firmware msg (replicate max_len 0))
  ok (chunks 63 (take size buf))

unfoldable pub write_frame : List ℕ → Channel → Call (Unit {0})
unfolding frames send_chunks
write_frame msg channel = (channel, frames msg) >=> λ next packets. send_chunks packets next

-- What the reading loop does on what was decoded: it returns, or it goes on.
abbrev pub decoded : Outcome IoError (Option (List ℕ)) → Channel → Call (List ℕ) → Call (List ℕ)
decoded (ok (some payload)) channel more = (channel, ok payload)
decoded (ok none) channel more = more
decoded (err e) channel more = (channel, err u2f)
decoded panic channel more = (channel, panic)
decoded diverge channel more = (channel, diverge)

-- The loop of `read_frame`, which ends with the packets at the latest.
unfoldable pub read_loop : List ℕ → List ℕ → List (List ℕ) → List (ℕ × List ℕ) → Call (List ℕ)
read_loop buf sizes sent [] =
    let channel : Channel = record { sizes = sizes; received = []; sent = sent } in
    decoded (decode firmware buf) channel (channel, err read)
read_loop buf sizes sent ((n, packet) ∷ received) =
    let later = read_loop (buf ++ packet) sizes sent received in
    decoded (decode firmware buf)
      (record { sizes = sizes; received = (n, packet) ∷ received; sent = sent })
      (if n == 64
        then later
        else (record { sizes = sizes; received = received; sent = sent }, err read))

unfoldable pub read_packets : List ℕ → List (List ℕ) → List (ℕ × List ℕ) → Call (List ℕ)
unfolding read_loop
read_packets sizes sent [] = (record { sizes = sizes; received = []; sent = sent }, err read)
read_packets sizes sent ((n, packet) ∷ received) =
    if n == 64
    then read_loop packet sizes sent received
    else (record { sizes = sizes; received = received; sent = sent }, err read)

unfoldable pub read_frame : Channel → Call (List ℕ)
unfolding read_packets
read_frame channel = read_packets channel.sizes channel.sent channel.received

unfoldable pub query_raw : List ℕ → Channel → Call (List ℕ)
unfolding write_frame read_frame
query_raw msg channel = write_frame msg channel >=> λ next done. read_frame next

-- What the first byte of a response says: ACK, BUSY, NACK or NOTREADY.
unfoldable pub verdict : ℕ → List ℕ → Channel → Call (List ℕ) → Call (List ℕ)
verdict status response channel later =
    if status == 0
    then (channel, ok response)
    else if status == 2
    then (channel, err busy)
    else if status == 3
    then (channel, err nack)
    else if status == 1
    then later
    else (channel, err comm)

-- The loop of `exchange`, with fuel.
unfoldable pub retry_loop : ℕ → Channel → List ℕ → Call (List ℕ)
unfolding query_raw verdict
retry_loop fuel channel [] = (channel, err comm)
retry_loop zero channel (status ∷ response) = verdict status response channel (channel, diverge)
retry_loop (suc fuel) channel (status ∷ response) =
    let later = query_raw (1 ∷ []) channel >=> retry_loop fuel in
    verdict status response channel later

-- Each round of the loop reads a packet at least, so the packets are enough fuel.
unfoldable pub exchange : List ℕ → Channel → Call (List ℕ)
unfolding query_raw retry_loop
exchange request channel = query_raw (0 ∷ request) channel >=> retry_loop (length channel.received)

unfoldable pub is_post_write_disconnect : BitBoxHidError → Bool
is_post_write_disconnect read = true
is_post_write_disconnect _ = false
