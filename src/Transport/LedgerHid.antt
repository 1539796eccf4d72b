-- ===== src/Transport/LedgerHid.antt =====
-- bhwi-async/src/transport/ledger/hid.rs: an APDU in HID packets of 64 bytes. The channel is outside:
-- what is sent is a list of packets, and what comes is a list of the sizes that `receive` returns with
-- the buffer after each; an empty list is an error of the channel.
pub mod RoundTrip
use bhwi.Prelude.{
  ℕ, zero, suc, ◌+◌, ◌-◌, ◌*◌, ◌/◌, ◌%◌, min, Bool, not, ◌&&◌, ◌||◌, List, [], ◌∷◌, ◌++◌, map, ltb,
  leb, ◌==◌, if◌then◌else◌, length, take, drop, replicate, Outcome, ok, err, ensure, ◌>>=◌, ◌>>◌,
}
use bhwi.Prelude.Slices.{chunks}
use bhwi.Prelude.Bytes.{u16_be, u16_of_be}

pub data LedgerHidError : Type 0 where
  short_write incomplete_header invalid_channel invalid_tag invalid_sequence_idx hid :
      LedgerHidError

-- LEDGER_CHANNEL is 0x0101; the buffer keeps what the chunk before it left after the end of a chunk.
unfoldable pub write_loop : ℕ → List ℕ → List (List ℕ) → List (List ℕ)
write_loop seq old [] = []
write_loop seq old (chunk ∷ rest) =
    let body = chunk ++ drop (length chunk) old in
    (1 ∷ 1 ∷ 5 ∷ (seq / 256 % 256) ∷ (seq % 256) ∷ body) ∷ write_loop (seq + 1) body rest

unfoldable pub packets : List ℕ → List (List ℕ)
unfolding write_loop
packets apdu_command =
    write_loop 0 (replicate 59 0)
      (chunks 58 ((length apdu_command / 256 % 256) ∷ (length apdu_command % 256) ∷ apdu_command))

-- The sizes that `send` returns: each has to be the packet's length.
unfoldable pub send_all : List (List ℕ) → List ℕ → Outcome LedgerHidError (Unit {0})
send_all [] sizes = ok tt
send_all (packet ∷ rest) [] = err hid
send_all (packet ∷ rest) (size ∷ sizes) =
    let later = send_all rest sizes in if ltb size (length packet) then err short_write else later

-- The header of a packet that came: what follows the sequence number.
unfoldable pub header : ℕ → ℕ → List ℕ → Outcome LedgerHidError (List ℕ)
header seq res (c ∷ c' ∷ tag ∷ s ∷ s' ∷ body) = do
  ensure (not (((seq == 0) && ltb res 7) || ltb res 5)) incomplete_header
  ensure (u16_of_be c c' == 0x0101) invalid_channel
  ensure (tag == 5) invalid_tag
  ensure (u16_of_be s s' == seq) invalid_sequence_idx
  ok body
header seq res _ = err hid

-- The first packet has the length of the answer before its bytes.
unfoldable pub expected_len : ℕ → ℕ → List ℕ → Outcome LedgerHidError (ℕ × List ℕ)
expected_len (suc seq) expected body = ok (expected, body)
expected_len zero expected (l ∷ l' ∷ body) = ok (u16_of_be l l', body)
expected_len zero expected _ = err hid

-- `expected_apdu_len - apdu_answer.len()` does not underflow: the loop ends when the answer is complete.
unfoldable pub read_loop : ℕ → ℕ → List ℕ → List (ℕ × List ℕ) → Outcome LedgerHidError (List ℕ)
unfolding header expected_len
read_loop seq expected answer [] = err hid
read_loop seq expected answer ((res, buffer) ∷ more) = header seq res buffer >>= λ body.
    (expected_len seq expected body >>= λ found.
    (let (expected', bytes) = found in
      let answer' = answer ++ take (min (length bytes) (expected' - length answer)) bytes in
      let rest = read_loop (seq + 1) expected' answer' more in
      if leb expected' (length answer') then ok answer' else rest))

unfoldable pub exchange : List ℕ → List ℕ → List (ℕ × List ℕ) → Outcome LedgerHidError (List ℕ)
unfolding packets send_all read_loop
exchange apdu_command sizes received = do
  send_all (packets apdu_command) sizes
  read_loop 0 0 [] received
