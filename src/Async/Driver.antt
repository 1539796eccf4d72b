-- ===== src/Async/Driver.antt =====
-- bhwi-async/src/lib.rs, `run_command_inner`: an interpreter that is driven over a transport and an HTTP
-- client. The interpreter, the transport and the client are interfaces; the outside world that the two
-- talk to is a state that their calls pass on.
pub mod Runs
pub mod Plain
use bhwi.Prelude.{
  ℕ, zero, suc, Bool, true, false, ◌&&◌, List, Option, none, some, if◌then◌else◌, Outcome, ok, err,
  panic, diverge, map_err,
}

-- `common::Recipient` and `common::Transmit`.
pub data Recipient : Type 0 where
  to_device : Recipient
  to_pin_server : (url : List ℕ) → Recipient

pub record Transmit : Type 0 where
  pub recipient : Recipient
  pub payload : List ℕ
  pub encrypted : Bool

-- The trait `Interpreter`, with the state passed on.
pub record Interpreter (Response Error : Type 0) : Type 1 where
  pub Command : Type 0
  pub State : Type 0
  pub start : State → Command → State × Outcome Error Transmit
  pub exchange : State → List ℕ → State × Outcome Error (Option Transmit)
  pub end : State → Outcome Error Response

-- The traits `Transport` and `HttpClient`.
pub record Channels : Type 1 where
  pub World : Type 0
  pub TransportError : Type 0
  pub HttpError : Type 0
  pub transport_exchange : World → List ℕ → Bool → World × Outcome TransportError (List ℕ)
  pub http_request : World → List ℕ → List ℕ → World × Outcome HttpError (List ℕ)
  pub is_post_write_disconnect : TransportError → Bool

pub data DriverError (Error : Type 0) (c : Channels) : Type 0 where
  interpreter_error : Error → DriverError Error c
  transport_error : c.TransportError → DriverError Error c
  http_error : c.HttpError → DriverError Error c

module _ {Response Error : Type 0} (i : Interpreter Response Error) (c : Channels) where
  abbrev pub Driven : Type 0
  Driven = Outcome (DriverError Error c) Response

  -- What the interpreter makes of bytes that came in, or why none came.
  abbrev pub Received : Type 0
  Received = c.World × i.State × Outcome (DriverError Error c) (Option Transmit)

  abbrev pub given : c.World → i.State × Outcome Error (Option Transmit) → Received
  given w (s, next) = (w, s, map_err interpreter_error next)

  abbrev pub from_server : i.State → c.World × Outcome c.HttpError (List ℕ) → Received
  from_server s (w, ok bytes) = given w (i.exchange s bytes)
  from_server s (w, err e) = (w, s, err (http_error e))
  from_server s (w, panic) = (w, s, panic)
  from_server s (w, diverge) = (w, s, diverge)

  abbrev pub from_device : i.State → c.World × Outcome c.TransportError (List ℕ) → Received
  from_device s (w, ok bytes) = given w (i.exchange s bytes)
  from_device s (w, err e) = (w, s, err (transport_error e))
  from_device s (w, panic) = (w, s, panic)
  from_device s (w, diverge) = (w, s, diverge)

  -- One pass of the loop, for what is to be sent.
  unfoldable pub pass : c.World → i.State → Recipient → List ℕ → Bool → Received
  pass w s (to_pin_server url) payload encrypted = from_server s (c.http_request w url payload)
  pass w s to_device payload encrypted = from_device s (c.transport_exchange w payload encrypted)

  -- The disconnection of the device after a write, which the caller may take for a success.
  abbrev pub is_final : Bool → Recipient → DriverError Error c → Bool
  is_final allow to_device (transport_error e) = allow && c.is_post_write_disconnect e
  is_final allow _ _ = false

module _ {Response Error : Type 0} (i : Interpreter Response Error) (c : Channels)
    (device_action : Response) where
  -- What follows a pass: the next one, the success that a disconnection stands for, or the error.
  abbrev pub after_pass :
      (allow : Bool) (recipient : Recipient)
      → (c.World → i.State → Option Transmit → c.World × Driven i c)
      → Received i c
      → c.World × Driven i c
  after_pass allow recipient go_on (w, s, ok next) = go_on w s next
  after_pass allow recipient go_on (w, s, err e) =
      if is_final i c allow recipient e then (w, ok device_action) else (w, err e)
  after_pass allow recipient go_on (w, s, panic) = (w, panic)
  after_pass allow recipient go_on (w, s, diverge) = (w, diverge)

  -- The `while` loop and what follows it, with fuel. `device_action` is `Response::DeviceAction(true)`.
  unfoldable pub drive : ℕ → Bool → c.World → i.State → Option Transmit → c.World × Driven i c
  drive fuel allow w s none = (w, map_err interpreter_error (i.end s))
  drive zero allow w s (some t) = (w, diverge)
  drive (suc fuel) allow w s (some t) =
      after_pass allow t.recipient (drive fuel allow)
        (pass i c w s t.recipient t.payload t.encrypted)

  -- The first exchange is always with the device, and no disconnection ends it well.
  abbrev pub first_exchange :
      ℕ → Bool → c.World → i.State × Outcome Error Transmit → c.World × Driven i c
  first_exchange fuel allow w (s, ok t) =
      after_pass false to_device (drive fuel allow) (pass i c w s to_device t.payload t.encrypted)
  first_exchange fuel allow w (s, err e) = (w, err (interpreter_error e))
  first_exchange fuel allow w (s, panic) = (w, panic)
  first_exchange fuel allow w (s, diverge) = (w, diverge)

  unfoldable pub run_command_inner : ℕ → c.World → i.State → i.Command → Bool → c.World × Driven i c
  run_command_inner fuel w s command allow = first_exchange fuel allow w (i.start s command)
