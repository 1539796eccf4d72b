-- ===== src/Coldcard/Machine/Invariant.antt =====
-- bhwi/src/coldcard/mod.rs: `exchange` keeps the states valid and returns, but for the state that waits for
-- a signed message.
use bhwi.Prelude.{ℕ, ◌+◌, ◌-◌, ◌≤◌, min, List, length, ok, err, panic, diverge, arith, Returns}
use bhwi.Prelude.Slices.{length-slice}
use bhwi.Coldcard.Bitcoin.{Bitcoin}
use bhwi.Coldcard.Request
use bhwi.Coldcard.Response.Parsers
use bhwi.Coldcard.Encrypt
use bhwi.Coldcard.Encrypt.{pub_key, Cipher}
use bhwi.Coldcard.Machine
use bhwi.Coldcard.Machine.{start, Machine, State, running, file_upload_request}
use bhwi.Coldcard.Machine.Handlers
use bhwi.Coldcard.Machine.Handlers.{Answer}
use bhwi.Coldcard.Machine.Exchange.{Exchanged}
use bhwi.Coldcard.Machine.Safety.{Valid}

-- The handler does not panic, and its answer leaves a valid state.
abbrev pub Good : {b : Bitcoin} → Answer b → Type 0
Good (s, ok sent) = Valid s
Good (s, err e) = Unit {0}
Good (s, panic) = ⊥
Good (s, diverge) = ⊥

abbrev pub IsSigning : {b : Bitcoin} → State b → Type 0
IsSigning (running (Machine.sign_message message path)) = Unit {0}
IsSigning _ = ⊥

pub file_upload_request-Returns :
    (bytes : List ℕ) (offset : ℕ)
    → offset ≤ length bytes
    → Returns (file_upload_request bytes offset)
unfolding file_upload_request Request.upload
file_upload_request-Returns bytes offset h =
    let e = length-slice offset (min (offset + 2048) (length bytes) - offset) bytes (omega arith) in
    ground arith

module _ (b : Bitcoin) (c : Cipher) where
  abbrev pub GoodExchange : Exchanged b c → Type 0
  GoodExchange (m, ok sent) = Valid m.state
  GoodExchange (m, err e) = Unit {0}
  GoodExchange (m, panic) = ⊥
  GoodExchange (m, diverge) = ⊥
