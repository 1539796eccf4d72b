-- ===== src/BitBox/U2f.antt =====
-- bhwi/src/bitbox/u2f.rs: the U2F HID framing. A report is 64 bytes; the first carries a header of
-- seven bytes (channel, command, length), each further one a header of five (channel, sequence).
-- A buffer is a list of bytes. Arithmetic on `u16` wraps, as in a release build.
pub mod RoundTrip
pub mod Safety
use bhwi.Prelude.{
  ℕ, zero, suc, ◌+◌, ◌-◌, ◌*◌, ◌/◌, ◌%◌, min, List, [], ◌∷◌, ◌++◌, Option, none, some, ltb, leb,
  ◌==◌, if◌then◌else◌, length, take, drop, Outcome, ok, err, panic, diverge, ◌>>=◌, ◌>>◌, ensure,
  check,
}
use bhwi.Prelude.Bytes.{u16_be, u32_be, u16_of_be, u32_of_be}

pub data IoError : Type 0 where
  header_too_short wont_fit too_many_frames wrong_cid wrong_cmd : IoError

abbrev pub header_init_len : ℕ
header_init_len = 7

abbrev pub header_cont_len : ℕ
header_cont_len = 5

abbrev pub max_len : ℕ
max_len = 129 * 64

pub record Header : Type 0 where
  pub cid : ℕ
  pub cmd : ℕ
  pub len : ℕ

-- The cursor reads a `u32`, a byte and a `u16`, all there once the length has been tested.
unfoldable pub parse_header : List ℕ → Outcome IoError Header
parse_header (a ∷ b ∷ c ∷ d ∷ e ∷ f ∷ g ∷ rest) =
    ok (record { cid = u32_of_be a b c d; cmd = e; len = u16_of_be f g })
parse_header _ = err header_too_short

-- The bytes that overwrite the front of the buffer. The number of them is the value returned.
unfoldable pub encode_header_init : ℕ → ℕ → ℕ → List ℕ → Outcome IoError (List ℕ)
encode_header_init cid cmd len buf =
    if ltb (length buf) header_init_len
    then err header_too_short
    else ok (u32_be cid ++ (cmd ∷ u16_be len))

unfoldable pub encode_header_cont : ℕ → ℕ → List ℕ → Outcome IoError (List ℕ)
encode_header_cont cid seq buf =
    if ltb (length buf) header_cont_len then err header_too_short else ok (u32_be cid ++ (seq ∷ []))

pub record U2fHid : Type 0 where
  pub cid : ℕ
  pub cmd : ℕ

abbrev pub generate_cid : ℕ
generate_cid = 0xff00ff00

abbrev pub new : ℕ → U2fHid
new cmd = record { cid = generate_cid; cmd = cmd }

-- `len` is a `u16`: `59 + len - 1` wraps.
unfoldable pub get_encoded_len : ℕ → ℕ
get_encoded_len len =
    if ltb len 57 then 64 else 64 + 64 * (((59 + (len - 57)) % 65536 + 65535) % 65536 / 59)

-- `buf[..len].copy_from_slice(&message[..len])` and what follows it in the buffer: the piece that is
-- written and the rest of the buffer, with the slice's bounds check.
unfoldable pub copy_piece : ℕ → List ℕ → List ℕ → Outcome IoError (List ℕ × List ℕ)
copy_piece len message buf =
    if ltb (length buf) len then panic else ok (take len message, drop len buf)

-- The `while` loop of `encode`, with fuel: the new contents of `buf`.
unfoldable pub encode_loop : ℕ → ℕ → ℕ → List ℕ → List ℕ → Outcome IoError (List ℕ)
unfolding encode_header_cont copy_piece
encode_loop fuel cid seq [] buf = ok buf
encode_loop zero cid seq (m ∷ ms) buf = diverge
encode_loop (suc fuel) cid seq (m ∷ ms) buf = do
  header ← encode_header_cont cid (seq % 256) buf
  let len = min (64 - 5) (length (m ∷ ms))
  (piece, buf') ← copy_piece len (m ∷ ms) (drop 5 buf)
  ensure (ltb (seq + 1) 128) too_many_frames
  rest ← encode_loop fuel cid (seq + 1) (drop len (m ∷ ms)) buf'
  ok (header ++ (piece ++ rest))

-- `message.len() as u16` keeps the low sixteen bits. Each round of the loop takes a byte at least, so
-- the message's length is enough fuel. The result is the length returned and the buffer.
unfoldable pub encode : U2fHid → List ℕ → List ℕ → Outcome IoError (ℕ × List ℕ)
unfolding encode_header_init copy_piece
encode self message buf = do
  let enc_len = get_encoded_len (length message % 65536)
  ensure (leb enc_len (length buf)) wont_fit
  header ← encode_header_init self.cid self.cmd (length message % 65536) buf
  let len = min (64 - 7) (length message)
  (piece, buf') ← copy_piece len message (drop 7 buf)
  rest ← encode_loop (length message) self.cid 0 (drop len message) buf'
  ok (enc_len, header ++ (piece ++ rest))

-- The `while left > 0` loop of `decode`, with fuel.
unfoldable pub decode_loop : ℕ → List ℕ → ℕ → Outcome IoError (List ℕ)
decode_loop fuel buf zero = ok []
decode_loop zero buf (suc left) = diverge
decode_loop (suc fuel) buf (suc left) = do
  let count = min 59 (suc left)
  check (leb (header_cont_len + count) (length buf))
  rest ← decode_loop fuel (drop count (drop header_cont_len buf)) (suc left - count)
  ok (take count (drop header_cont_len buf) ++ rest)

unfoldable pub decode : U2fHid → List ℕ → Outcome IoError (Option (List ℕ))
unfolding parse_header
decode self buf = do
  header ← parse_header buf
  ensure (header.cid == self.cid) wrong_cid
  ensure (header.cmd == self.cmd) wrong_cmd
  let count = min 57 header.len
  let whole = do
    check (leb (header_init_len + count) (length buf))
    rest ← decode_loop header.len (drop count (drop header_init_len buf)) (header.len - count)
    ok (some (take count (drop header_init_len buf) ++ rest))
  if ltb (length buf) (get_encoded_len header.len) then ok none else whole
