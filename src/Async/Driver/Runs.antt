-- ===== src/Async/Driver/Runs.antt =====
-- bhwi-async/src/lib.rs: the loop of `run_command_inner` as a relation, and that the loop computes it.
use bhwi.Prelude.{
  ℕ, zero, suc, ◌≤◌, ◌≡◌, refl, ◌↔◌, inl, inr, ◌⊎◌, arith, ◌&&◌, Bool, true, false, List, Outcome,
  Option, none, some, ok, err, panic, diverge, map_err, Bool-cases,
}
use bhwi.Async.Driver.{
  Recipient, to_device, to_pin_server, Transmit, Interpreter, Channels, interpreter_error,
  transport_error, http_error, Driven, pass, is_final, given, from_device, from_server, after_pass,
  drive,
}

and_false : (b : Bool) → (b && false) ≡ false
and_false true = refl
and_false false = refl

module _ {Response Error : Type 0} (i : Interpreter Response Error) (c : Channels)
    (device_action : Response) (allow : Bool) where
  -- The device or the PIN server, whichever the message is for, answers with these bytes.
  abbrev pub Answers : c.World → Transmit → c.World → List ℕ → Type 0
  Answers w t w' bytes =
      ((t.recipient ≡ to_device) × (c.transport_exchange w t.payload t.encrypted ≡ (w', ok bytes)))
      ⊎ ((url : List ℕ) × (t.recipient ≡ to_pin_server url)
          × (c.http_request w url t.payload ≡ (w', ok bytes)))

  -- The loop ends after a number of exchanges with the outside, in a world and with a result.
  pub data Runs : ℕ → c.World → i.State → Option Transmit → c.World → Driven i c → Type 0 where
    ended : (w : c.World) (s : i.State) → Runs 0 w s none w (map_err interpreter_error (i.end s))
    answered :
        (n : ℕ) (w w' w'' : c.World) (s s' : i.State) (t : Transmit) (bytes : List ℕ)
        (next : Option Transmit) (result : Driven i c)
        → Answers w t w' bytes
        → i.exchange s bytes ≡ (s', ok next)
        → Runs n w' s' next w'' result
        → Runs (suc n) w s (some t) w'' result
    refused :
        (w w' : c.World) (s s' : i.State) (t : Transmit) (bytes : List ℕ) (e : Error)
        → Answers w t w' bytes
        → i.exchange s bytes ≡ (s', err e)
        → Runs 1 w s (some t) w' (err (interpreter_error e))
    disconnected :
        (w w' : c.World) (s : i.State) (t : Transmit) (e : c.TransportError)
        → t.recipient ≡ to_device
        → c.transport_exchange w t.payload t.encrypted ≡ (w', err e)
        → allow ≡ true
        → c.is_post_write_disconnect e ≡ true
        → Runs 1 w s (some t) w' (ok device_action)
    device_failed :
        (w w' : c.World) (s : i.State) (t : Transmit) (e : c.TransportError)
        → t.recipient ≡ to_device
        → c.transport_exchange w t.payload t.encrypted ≡ (w', err e)
        → (allow ≡ false) ⊎ (c.is_post_write_disconnect e ≡ false)
        → Runs 1 w s (some t) w' (err (transport_error e))
    server_failed :
        (w w' : c.World) (s : i.State) (t : Transmit) (url : List ℕ) (e : c.HttpError)
        → t.recipient ≡ to_pin_server url
        → c.http_request w url t.payload ≡ (w', err e)
        → Runs 1 w s (some t) w' (err (http_error e))

  -- An error of the interpreter is no disconnection.
  not_final : (r : Recipient) (e : Error) → is_final i c allow r (interpreter_error e) ≡ false
  not_final to_device e = refl
  not_final (to_pin_server url) e = refl

  pass-Answers :
      (w w' : c.World) (s : i.State) (t : Transmit) (bytes : List ℕ)
      → Answers w t w' bytes
      → pass i c w s t.recipient t.payload t.encrypted ≡ given i c w' (i.exchange s bytes)
  unfolding pass
  pass-Answers w w' s t bytes (inl (r, e)) = rw (r, e) refl
  pass-Answers w w' s t bytes (inr (url, r, e)) = rw (r, e) refl

  pass-device :
      (w w' : c.World) (s : i.State) (t : Transmit) (e : c.TransportError)
      → t.recipient ≡ to_device
      → c.transport_exchange w t.payload t.encrypted ≡ (w', err e)
      → pass i c w s t.recipient t.payload t.encrypted ≡ (w', s, err (transport_error e))
  unfolding pass
  pass-device w w' s t e r h = rw (r, h) refl

  pass-server :
      (w w' : c.World) (s : i.State) (t : Transmit) (url : List ℕ) (e : c.HttpError)
      → t.recipient ≡ to_pin_server url
      → c.http_request w url t.payload ≡ (w', err e)
      → pass i c w s t.recipient t.payload t.encrypted ≡ (w', s, err (http_error e))
  unfolding pass
  pass-server w w' s t url e r h = rw (r, h) refl

  -- With as much fuel as there are exchanges, the loop computes what the relation says.
  pub drive-Runs :
      (n : ℕ) (w : c.World) (s : i.State) (next : Option Transmit) (w' : c.World)
      (result : Driven i c) (fuel : ℕ)
      → Runs n w s next w' result
      → n ≤ fuel
      → drive i c device_action fuel allow w s next ≡ (w', result)
  unfolding drive
  drive-Runs _ _ _ _ _ _ fuel (ended w s) h = refl
  drive-Runs _ _ _ _ _ _ zero (answered n w w' w'' s s' t bytes next result a e r) h =
      absurd (omega arith)
  drive-Runs _ _ _ _ _ _ (suc fuel) (answered n w w' w'' s s' t bytes next result a e r) h =
      rw (pass-Answers w w' s t bytes a, e)
        (drive-Runs n w' s' next w'' result fuel r (omega arith))
  drive-Runs _ _ _ _ _ _ zero (refused w w' s s' t bytes e a h) l = absurd (omega arith)
  drive-Runs _ _ _ _ _ _ (suc fuel) (refused w w' s s' t bytes e a h) l =
      rw (pass-Answers w w' s t bytes a, h, not_final t.recipient e) refl
  drive-Runs _ _ _ _ _ _ zero (disconnected w w' s t e r h a d) l = absurd (omega arith)
  drive-Runs _ _ _ _ _ _ (suc fuel) (disconnected w w' s t e r h a d) l =
      rw (pass-device w w' s t e r h, r, a, d) refl
  drive-Runs _ _ _ _ _ _ zero (device_failed w w' s t e r h a) l = absurd (omega arith)
  drive-Runs _ _ _ _ _ _ (suc fuel) (device_failed w w' s t e r h (inl a)) l =
      rw (pass-device w w' s t e r h, r, a) refl
  drive-Runs _ _ _ _ _ _ (suc fuel) (device_failed w w' s t e r h (inr d)) l =
      rw (pass-device w w' s t e r h, r, d, and_false allow) refl
  drive-Runs _ _ _ _ _ _ zero (server_failed w w' s t url e r h) l = absurd (omega arith)
  drive-Runs _ _ _ _ _ _ (suc fuel) (server_failed w w' s t url e r h) l =
      rw (pass-server w w' s t url e r h, r) refl

  -- A response or an error.
  abbrev pub Settled : Driven i c → Type 0
  Settled (ok response) = Unit {0}
  Settled (err e) = Unit {0}
  Settled panic = ⊥
  Settled diverge = ⊥

  -- The exchanges of a run, of which there are at most as many as the fuel.
  abbrev pub RunsWithin : ℕ → c.World → i.State → Option Transmit → c.World × Driven i c → Type 0
  RunsWithin fuel w s next (w', result) = (n : ℕ) × (n ≤ fuel) × Runs n w s next w' result

  abbrev LoopRuns : ℕ → Type 0
  LoopRuns fuel =
      (w : c.World) (s : i.State) (next : Option Transmit)
      → Settled (drive i c device_action fuel allow w s next).1
      → RunsWithin fuel w s next (drive i c device_action fuel allow w s next)

  -- What the loop makes of an answer.
  answer-Runs :
      (fuel : ℕ) (w w' : c.World) (s : i.State) (t : Transmit) (bytes : List ℕ) (r : Recipient)
      (out : i.State × Outcome Error (Option Transmit))
      → Answers w t w' bytes
      → i.exchange s bytes ≡ out
      → LoopRuns fuel
      → Settled
          (after_pass i c device_action allow r
            (drive i c device_action fuel allow)
            (given i c w' out)).1
      → RunsWithin (suc fuel) w s (some t) (
          after_pass i c device_action allow r
            (drive i c device_action fuel allow)
            (given i c w' out))
  answer-Runs fuel w w' s t bytes r (s', ok next) a e go settled =
      let (n, h, run) = go w' s' next settled in
      (suc n, omega arith, answered n w w' _ s s' t bytes next _ a e run)
  answer-Runs fuel w w' s t bytes to_device (s', err why) a e go settled =
      (1, omega arith, refused w w' s s' t bytes why a e)
  answer-Runs fuel w w' s t bytes (to_pin_server url) (s', err why) a e go settled =
      (1, omega arith, refused w w' s s' t bytes why a e)
  answer-Runs fuel w w' s t bytes r (s', panic) a e go settled = absurd settled
  answer-Runs fuel w w' s t bytes r (s', diverge) a e go settled = absurd settled

  device-Runs :
      (fuel : ℕ) (w : c.World) (s : i.State) (t : Transmit)
      (call : c.World × Outcome c.TransportError (List ℕ))
      → t.recipient ≡ to_device
      → c.transport_exchange w t.payload t.encrypted ≡ call
      → LoopRuns fuel
      → Settled
          (after_pass i c device_action allow to_device
            (drive i c device_action fuel allow)
            (from_device i c s call)).1
      → RunsWithin (suc fuel) w s (some t) (
          after_pass i c device_action allow to_device
            (drive i c device_action fuel allow)
            (from_device i c s call))
  device-Runs fuel w s t (w', ok bytes) r e go settled =
      answer-Runs fuel w w' s t bytes to_device (i.exchange s bytes) (inl (r, e)) refl go settled
  device-Runs fuel w s t (w', err why) r e go settled = elim (Bool-cases allow) [
    | inr kept ↦ rw kept (1, omega arith, device_failed w w' s t why r e (inl refl))
    | inl allowed ↦ elim (Bool-cases (c.is_post_write_disconnect why)) [
      | inl final ↦ rw (allowed, final) (1, omega arith, disconnected w w' s t why r e refl final)
      | inr other ↦ rw (allowed, other) (1, omega arith, device_failed w w' s t why r e (inr other))
    ]
  ]
  device-Runs fuel w s t (w', panic) r e go settled = absurd settled
  device-Runs fuel w s t (w', diverge) r e go settled = absurd settled

  server-Runs :
      (fuel : ℕ) (w : c.World) (s : i.State) (t : Transmit) (url : List ℕ)
      (call : c.World × Outcome c.HttpError (List ℕ))
      → t.recipient ≡ to_pin_server url
      → c.http_request w url t.payload ≡ call
      → LoopRuns fuel
      → Settled
          (after_pass i c device_action allow
            (to_pin_server url)
            (drive i c device_action fuel allow)
            (from_server i c s call)).1
      → RunsWithin (suc fuel) w s (some t) (
          after_pass i c device_action allow
            (to_pin_server url)
            (drive i c device_action fuel allow)
            (from_server i c s call))
  server-Runs fuel w s t url (w', ok bytes) r e go settled =
      answer-Runs fuel w w' s t bytes (to_pin_server url) (i.exchange s bytes) (inr (url, r, e))
        refl go settled
  server-Runs fuel w s t url (w', err why) r e go settled =
      (1, omega arith, server_failed w w' s t url why r e)
  server-Runs fuel w s t url (w', panic) r e go settled = absurd settled
  server-Runs fuel w s t url (w', diverge) r e go settled = absurd settled

  recipient-Runs :
      (fuel : ℕ) (w : c.World) (s : i.State) (t : Transmit) (r : Recipient)
      → t.recipient ≡ r
      → LoopRuns fuel
      → Settled
          (after_pass i c device_action allow r
            (drive i c device_action fuel allow)
            (pass i c w s r t.payload t.encrypted)).1
      → RunsWithin (suc fuel) w s (some t) (
          after_pass i c device_action allow r
            (drive i c device_action fuel allow)
            (pass i c w s r t.payload t.encrypted))
  unfolding pass
  recipient-Runs fuel w s t to_device e go settled =
      device-Runs fuel w s t (c.transport_exchange w t.payload t.encrypted) e refl go settled
  recipient-Runs fuel w s t (to_pin_server url) e go settled =
      server-Runs fuel w s t url (c.http_request w url t.payload) e refl go settled

  drive-RunsWithin : (fuel : ℕ) → LoopRuns fuel
  unfolding drive
  drive-RunsWithin fuel w s none settled = (0, omega arith, ended w s)
  drive-RunsWithin zero w s (some t) settled = absurd settled
  drive-RunsWithin (suc fuel) w s (some t) settled =
      recipient-Runs fuel w s t t.recipient refl (drive-RunsWithin fuel) settled

-- The loop returns a response or an error exactly when a run leads to it: what is due is sent to the device
-- over the transport, or to the PIN server over HTTP, and the interpreter gets the answer. The run ends
-- with the interpreter's result when nothing is due, or with the failure of the interpreter, the
-- transport or HTTP; only where the caller allows it, a disconnection of the device after a write is a
-- success. As much fuel as there are exchanges is enough.
pub drive_iff :
    {Response Error : Type 0} (i : Interpreter Response Error) (c : Channels)
    (device_action : Response) (allow : Bool) (fuel : ℕ) (w : c.World) (s : i.State)
    (next : Option Transmit) (w' : c.World) (result : Driven i c)
    → Settled i c device_action allow result
    → (drive i c device_action fuel allow w s next ≡ (w', result))
      ↔ ((n : ℕ) × (n ≤ fuel) × Runs i c device_action allow n w s next w' result)
drive_iff i c device_action allow fuel w s next w' result settled = (
  λ e. rw e at (drive-RunsWithin i c device_action allow fuel w s next (rw e settled)),
  λ run. drive-Runs i c device_action allow run.0 w s next w' result fuel run.2 run.1,
)
