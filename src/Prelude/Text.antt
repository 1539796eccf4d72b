-- ===== src/Prelude/Text.antt =====
-- Strings of the standard library, as lists of their bytes.
use Prim.Native.Nat.{ℕ, zero, suc}
use mathlib.Core.Bool.{Bool, true, false, ◌&&◌}
use mathlib.Core.Option.{Option, none, some}
use mathlib.Core.List.{List, [], ◌∷◌, ◌++◌}
use bhwi.Prelude.Tests.{leb, ◌==◌, if◌then◌else◌}

-- The first byte of a character: how many bytes follow it, and the range of the next one.
unfoldable pub lead : ℕ → Option (ℕ × ℕ × ℕ)
lead b =
    if leb b 127
    then some (0, 0, 0)
    else if leb b 193
    then none
    else if leb b 223
    then some (1, 128, 191)
    else if leb b 224
    then some (2, 160, 191)
    else if leb b 236
    then some (2, 128, 191)
    else if leb b 237
    then some (2, 128, 159)
    else if leb b 239
    then some (2, 128, 191)
    else if leb b 240
    then some (3, 144, 191)
    else if leb b 243
    then some (3, 128, 191)
    else if leb b 244
    then some (3, 128, 143)
    else none

abbrev or_broken : Option (ℕ × ℕ × ℕ) → Bool × ℕ × ℕ × ℕ
or_broken none = (false, 0, 0, 0)
or_broken (some (n, low, high)) = (true, n, low, high)

-- Whether the byte may stand here, and what the next one has to be.
unfoldable pub utf8_step : ℕ → ℕ → ℕ → ℕ → Bool × ℕ × ℕ × ℕ
unfolding lead
utf8_step zero low high b = or_broken (lead b)
utf8_step (suc n) low high b = (leb low b && leb b high, n, 128, 191)

unfoldable pub utf8_from : ℕ → ℕ → ℕ → List ℕ → Bool
unfolding utf8_step
utf8_from zero low high [] = true
utf8_from (suc n) low high [] = false
utf8_from n low high (b ∷ bs) =
    let (fits, n', low', high') = utf8_step n low high b in fits && utf8_from n' low' high' bs

-- `std::str::from_utf8`: the same bytes, when they are well-formed.
unfoldable pub from_utf8 : List ℕ → Option (List ℕ)
unfolding utf8_from
from_utf8 bytes = if utf8_from 0 0 0 bytes then some bytes else none

-- A line without the carriage return it ended with.
unfoldable pub strip_cr : List ℕ → List ℕ
strip_cr [] = []
strip_cr (b ∷ []) = if b == 13 then [] else b ∷ []
strip_cr (b ∷ c ∷ bs) = b ∷ strip_cr (c ∷ bs)

unfoldable pub lines_loop : List ℕ → List ℕ → List (List ℕ)
unfolding strip_cr
lines_loop [] [] = []
lines_loop (a ∷ line) [] = (a ∷ line) ∷ []
lines_loop line (b ∷ bs) =
    let newline = b == 10 in
    let rest = lines_loop (if newline then [] else line ++ (b ∷ [])) bs in
    if newline then strip_cr line ∷ rest else rest

-- `str::lines`.
unfoldable pub lines : List ℕ → List (List ℕ)
unfolding lines_loop
lines text = lines_loop [] text
