-- ===== src/Ledger/Apdu/Codes.antt =====
-- The code tables of bhwi/src/ledger/apdu.rs and their inverses.
use bhwi.Prelude.{ℕ, ◌≡◌, ◌↔◌, arith, some, ◌<◌, ◌^◌}
use bhwi.Ledger.Apdu.{
  ClientCommandCode, yield, client_code, client_code_of, StatusWord, status_code, status_of, deny,
}

-- A value is read as a client command exactly when it is the code of that command.
pub client_code_of_iff :
    (value : ℕ) (c : ClientCommandCode) → (client_code_of value ≡ some c) ↔ (value ≡ client_code c)
unfolding client_code client_code_of
client_code_of_iff value yield = (λ h. ground arith, λ h. ground arith)
client_code_of_iff value _ = (λ h. ground arith, λ h. ground arith)

-- A value is read as a status word exactly when it is the code of that status word.
pub status_of_iff :
    (value : ℕ) (w : StatusWord) → (status_of value ≡ some w) ↔ (value ≡ status_code w)
unfolding status_code status_of
status_of_iff value deny = (λ h. ground arith, λ h. ground arith)
status_of_iff value _ = (λ h. ground arith, λ h. ground arith)

pub status_code_bound : (w : StatusWord) → status_code w < 2 ^ 16
unfolding status_code
status_code_bound deny = omega arith
status_code_bound _ = omega arith
