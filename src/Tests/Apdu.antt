-- ===== src/Tests/Apdu.antt =====
-- Ledger responses and codes at concrete bytes.
use bhwi.Prelude.{◌≡◌, ◌↔◌, arith, [], ◌∷◌, ok}
use bhwi.Ledger.Apdu.{ApduResponse, success, response_of, response_bytes}
use bhwi.Ledger.Apdu.Frames.{response_of_iff}

abbrev fingerprint : ApduResponse
fingerprint = record { payload = 1 ∷ 2 ∷ 3 ∷ 4 ∷ []; status_word = success }

response_of_iff_example :
    (response_of (1 ∷ 2 ∷ 3 ∷ 4 ∷ 0x90 ∷ 0x00 ∷ []) ≡ ok fingerprint)
    ↔ (1 ∷ 2 ∷ 3 ∷ 4 ∷ 0x90 ∷ 0x00 ∷ [] ≡ response_bytes fingerprint)
response_of_iff_example =
    response_of_iff (1 ∷ 2 ∷ 3 ∷ 4 ∷ 0x90 ∷ 0x00 ∷ []) fingerprint (omega arith)
