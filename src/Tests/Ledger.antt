-- ===== src/Tests/Ledger.antt =====
-- The theorems on the commands and yields of a Ledger at concrete inputs.
use bhwi.Prelude.{ℕ, ◌≡◌, ◌↔◌, refl, arith, List, [], ◌∷◌, ok, none, replicate}
use bhwi.Ledger.Command.{sign_psbt}
use bhwi.Ledger.Command.Fits.{Fits, sign_psbt-Fits}
use bhwi.Ledger.Yield.{deserialize_unchecked_varint}
use bhwi.Ledger.Yield.Varint.{IsCompact, deserialize_unchecked_varint_iff}
use bhwi.Tests.Varint.{varints}

abbrev hash : List ℕ
hash = replicate 32 7

sign_psbt-Fits_example : Fits (sign_psbt varints (1 ∷ hash) 2 hash 300 hash hash none)
sign_psbt-Fits_example =
    sign_psbt-Fits varints (1 ∷ hash) 2 hash 300 hash hash none (omega arith) refl refl refl refl

deserialize_unchecked_varint_iff_example :
    (deserialize_unchecked_varint (0xFD ∷ 0 ∷ 1 ∷ 9 ∷ []) ≡ ok (256, 3))
    ↔ IsCompact (0xFD ∷ 0 ∷ 1 ∷ 9 ∷ []) 256 3
deserialize_unchecked_varint_iff_example =
    deserialize_unchecked_varint_iff (0xFD ∷ 0 ∷ 1 ∷ 9 ∷ []) 256 3
      (omega arith, (omega arith, (omega arith, (omega arith, tt))))
