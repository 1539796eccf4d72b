-- ===== src/Transport/ColdcardHid.antt =====
-- bhwi-async/src/transport/coldcard/hid.rs: a request in HID packets of 64 bytes. The channel is outside:
-- what comes is a list of the sizes that `receive` returns with the buffer after each; an empty list is
-- an error of the channel.
pub mod RoundTrip
use bhwi.Prelude.{
  ℕ, ◌+◌, ◌/◌, ◌%◌, Bool, true, false, ◌&&◌, ◌||◌, List, [], ◌∷◌, ◌++◌, ◌==◌, ltb, if◌then◌else◌,
  bytes_eq, length, take, drop, replicate, Outcome, ok, err, ensure, ◌>>=◌, ◌>>◌,
}
use bhwi.Prelude.Slices.{chunks}

pub data ColdcardHidError : Type 0 where
  short_write short_read hid : ColdcardHidError

-- The first byte of a packet: the length of at most 63 and the flags 0x80 and 0x40 are different bits.
unfoldable pub packet_flag : ℕ → Bool → Bool → ℕ
packet_flag len encrypted last = len + (if last then 128 + (if encrypted then 64 else 0) else 0)

abbrev pub is_empty : List (List ℕ) → Bool
is_empty [] = true
is_empty (chunk ∷ rest) = false

-- The buffer keeps what the chunk before it left after the end of a chunk.
unfoldable pub write_packets : Bool → List ℕ → List (List ℕ) → List (List ℕ)
write_packets encrypted old [] = []
write_packets encrypted old (chunk ∷ rest) =
    let body = chunk ++ drop (length chunk) old in
    (packet_flag (length chunk) encrypted (is_empty rest) ∷ body)
    ∷ write_packets encrypted body rest

unfoldable pub request_packets : Bool → List ℕ → List (List ℕ)
unfolding write_packets
request_packets encrypted request = write_packets encrypted (replicate 63 0) (chunks 62 request)

-- The sizes that `send` returns: each has to be the packet's length.
unfoldable pub send_packets : List (List ℕ) → List ℕ → Outcome ColdcardHidError (Unit {0})
send_packets [] sizes = ok tt
send_packets (packet ∷ rest) [] = err hid
send_packets (packet ∷ rest) (size ∷ sizes) =
    let later = send_packets rest sizes in
    if ltb size (length packet) then err short_write else later

-- `b"fram"`.
abbrev pub fram : List ℕ
fram = 102 ∷ 114 ∷ 97 ∷ 109 ∷ []

unfoldable pub read_packets : Bool → List ℕ → List (ℕ × List ℕ) → Outcome ColdcardHidError (List ℕ)
read_packets is_first so_far [] = err hid
read_packets is_first so_far ((read, []) ∷ more) = err short_read
read_packets is_first so_far ((read, flag ∷ body) ∷ more) =
    let is_fram = bytes_eq (take 4 body) fram && is_first in
    let is_last = (flag / 128 % 2 == 1) || is_fram in
    let so_far' = so_far ++ take (flag % 64) body in
    let rest = read_packets false so_far' more in
    ensure (read == 64) short_read >> (if is_last then ok so_far' else rest)

unfoldable pub exchange :
    Bool → List ℕ → List ℕ → List (ℕ × List ℕ) → Outcome ColdcardHidError (List ℕ)
unfolding request_packets send_packets read_packets
exchange encrypted request sizes received = do
  send_packets (request_packets encrypted request) sizes
  read_packets true [] received
