-- ===== src/Async/Driver/Plain.antt =====
-- bhwi-async/src/lib.rs with bhwi/src/ledger/mod.rs: a Ledger's commands without a store, driven to their end.
use bhwi.Prelude.{
  ℕ, ◌≡◌, refl, ◌⊎◌, inl, inr, Bool, false, List, Option, none, some, Outcome, ok, err, panic,
  diverge, Returns, arith, Bool-cases, map_err-Returns,
}
use bhwi.Ledger.Apdu.{ApduCommand, ApduResponse, ApduError, response_of, encode}
use bhwi.Ledger.Interpreter.{LedgerCrates, LedgerError, LedgerCommand, LedgerResponse, running}
use bhwi.Ledger.Interpreter as Ledger
use bhwi.Ledger.Interpreter.Exchange
use bhwi.Ledger.Interpreter.Exchange.{Exchanged, end, with_response, settle, on_response}
use bhwi.Ledger.Interpreter.Safety.{response_of-Returns}
use bhwi.Ledger.Interpreter.Invariant.{LongEnough, exchange-Sound}
use bhwi.Ledger.Interpreter.Interrupts.{
  Plain, Ended, Retries, start-Plain, after_retry, on_response-Plain,
}
use bhwi.Async.Driver.{
  Transmit, to_device, Interpreter, Channels, transport_error, Received, pass, from_device, given,
  after_pass, drive, run_command_inner, is_final,
}

-- `Transmit::from` an APDU: its bytes go to the device as they are.
abbrev pub transmit_of : ApduCommand → Transmit
transmit_of command = record { recipient = to_device; payload = encode command; encrypted = false }

module _ (k : LedgerCrates) where
  abbrev pub started :
      Ledger.State k
      → Outcome (LedgerError k) (Ledger.State k × ApduCommand)
      → Ledger.State k × Outcome (LedgerError k) Transmit
  started s (ok (s', command)) = (s', ok (transmit_of command))
  started s (err e) = (s, err e)
  started s panic = (s, panic)
  started s diverge = (s, diverge)

  abbrev pub exchanged : Exchanged k → Ledger.State k × Outcome (LedgerError k) (Option Transmit)
  exchanged (s, ok none) = (s, ok none)
  exchanged (s, ok (some command)) = (s, ok (some (transmit_of command)))
  exchanged (s, err e) = (s, err e)
  exchanged (s, panic) = (s, panic)
  exchanged (s, diverge) = (s, diverge)

  abbrev pub ledger_interpreter : Interpreter (LedgerResponse k) (LedgerError k)
  ledger_interpreter = record {
    Command = LedgerCommand k;
    State = Ledger.State k;
    start = λ s command. started s (Ledger.start k command);
    exchange = λ s bytes. exchanged (Exchange.exchange k s bytes);
    end = end k;
  }

  end-Returns : (s : Ledger.State k) → Returns (end k s)
  unfolding end
  end-Returns s = ground arith

  -- The exchange leaves nothing to send, or failed.
  abbrev Stops : Exchanged k → Type 0
  Stops (s, ok none) = Unit {0}
  Stops (s, ok (some command)) = ⊥
  Stops (s, err e) = Unit {0}
  Stops (s, panic) = ⊥
  Stops (s, diverge) = ⊥

  Ended-Stops : (out : Exchanged k) → Ended k out → Stops out
  Ended-Stops out h = ground arith

  LongEnough-Plain :
      (command : LedgerCommand k) (bytes : List ℕ)
      → Plain k command
      → LongEnough k (running command none) bytes
  LongEnough-Plain Ledger.get_app_info bytes h = tt
  LongEnough-Plain Ledger.get_master_fingerprint bytes h = tt
  LongEnough-Plain (Ledger.get_xpub path display) bytes h = tt
  LongEnough-Plain (Ledger.open_app network) bytes h = tt
  LongEnough-Plain (Ledger.get_wallet_address shown context) bytes h = absurd h
  LongEnough-Plain (Ledger.sign_message message path) bytes h = absurd h
  LongEnough-Plain (Ledger.register_wallet policy) bytes h = absurd h
  LongEnough-Plain (Ledger.sign_psbt psbt policy hmac) bytes h = absurd h

  exchange-Stops :
      (command : LedgerCommand k) (s : Ledger.State k) (bytes : List ℕ)
      → Retries k command s
      → (call : Outcome ApduError ApduResponse) → response_of bytes ≡ call
      → Returns call
      → Stops (Exchange.exchange k s bytes)
  unfolding Exchange.exchange
  exchange-Stops command s bytes h (ok res) e r =
      Ended-Stops (with_response k s (response_of bytes)) (after_retry k command s bytes res h e)
  exchange-Stops command s bytes h (err why) e r = rw e tt
  exchange-Stops command s bytes h panic e r = absurd r
  exchange-Stops command s bytes h diverge e r = absurd r

  exchange-Retries :
      (command : LedgerCommand k) (bytes : List ℕ)
      → Plain k command
      → (call : Outcome ApduError ApduResponse) → response_of bytes ≡ call
      → Returns call
      → Stops (Exchange.exchange k (running command none) bytes)
        ⊎ Retries k command (Exchange.exchange k (running command none) bytes).0
  unfolding Exchange.exchange
  exchange-Retries command bytes h (ok res) e r = elim (on_response-Plain k command res h) [
    | inl ended ↦
        inl (rw e (Ended-Stops (settle k (on_response k (running command none) res)) ended))
    | inr retries ↦ inr (rw e retries)
  ]
  exchange-Retries command bytes h (err why) e r = inl (rw e tt)
  exchange-Retries command bytes h panic e r = absurd r
  exchange-Retries command bytes h diverge e r = absurd r

  module _ (c : Channels) (device_action : LedgerResponse k)
      (returns : (w : c.World) (payload : List ℕ) (encrypted : Bool)
        → Returns (c.transport_exchange w payload encrypted).1) where
    abbrev After : Bool → ℕ → Bool → Received ledger_interpreter c → Type 0
    After a fuel allow received =
        Returns
          (after_pass ledger_interpreter c device_action a to_device
            (drive ledger_interpreter c device_action fuel allow) received).1

    given-After :
        (a : Bool) (fuel : ℕ) (allow : Bool) (w : c.World) (out : Exchanged k)
        → Stops out
        → After a fuel allow (given ledger_interpreter c w (exchanged out))
    unfolding drive
    given-After a fuel allow w (s, ok none) h = map_err-Returns _ (end k s) (end-Returns s)
    given-After a fuel allow w (s, ok (some command)) h = absurd h
    given-After a fuel allow w (s, err e) h = tt
    given-After a fuel allow w (s, panic) h = absurd h
    given-After a fuel allow w (s, diverge) h = absurd h

    from_device-After :
        (a : Bool) (fuel : ℕ) (allow : Bool) (s : Ledger.State k)
        (answer : c.World × Outcome c.TransportError (List ℕ))
        → Returns answer.1
        → ((w : c.World) (bytes : List ℕ)
            → After a fuel allow
                (given ledger_interpreter c w (exchanged (Exchange.exchange k s bytes))))
        → After a fuel allow (from_device ledger_interpreter c s answer)
    from_device-After a fuel allow s (w, ok bytes) r f = f w bytes
    from_device-After a fuel allow s (w, err e) r f =
        elim (Bool-cases (is_final ledger_interpreter c a to_device (transport_error e))) [
          | inl final ↦ rw final tt
          | inr other ↦ rw other tt
        ]
    from_device-After a fuel allow s (w, panic) r f = absurd r
    from_device-After a fuel allow s (w, diverge) r f = absurd r

    -- What is sent goes to the device.
    abbrev ToDevice : Option Transmit → Type 0
    ToDevice none = Unit {0}
    ToDevice (some t) = t.recipient ≡ to_device

    -- After the one retry there is one pass more.
    drive-Retries :
        (command : LedgerCommand k) (allow : Bool) (w : c.World) (s : Ledger.State k)
        (next : Option Transmit)
        → Retries k command s
        → ToDevice next
        → Returns (drive ledger_interpreter c device_action 1 allow w s next).1
    unfolding drive pass
    drive-Retries command allow w s none h d = map_err-Returns _ (end k s) (end-Returns s)
    drive-Retries command allow w s (some t) h d = rw d (
        from_device-After allow 0 allow s (c.transport_exchange w t.payload t.encrypted)
          (returns w t.payload t.encrypted)
          (λ w' bytes. given-After allow 0 allow w' (Exchange.exchange k s bytes) (
            exchange-Stops command s bytes h (response_of bytes) refl (response_of-Returns bytes))))

    given-Retries :
        (command : LedgerCommand k) (allow : Bool) (w : c.World) (out : Exchanged k)
        → Retries k command out.0
        → Returns out.1
        → After false 1 allow (given ledger_interpreter c w (exchanged out))
    given-Retries command allow w (s, ok none) h r = drive-Retries command allow w s none h tt
    given-Retries command allow w (s, ok (some sent)) h r =
        drive-Retries command allow w s (some (transmit_of sent)) h refl
    given-Retries command allow w (s, err e) h r = tt
    given-Retries command allow w (s, panic) h r = absurd r
    given-Retries command allow w (s, diverge) h r = absurd r

    first_exchange-After :
        (command : LedgerCommand k) (allow : Bool) (w : c.World) (bytes : List ℕ)
        → Plain k command
        → After false 1 allow (
            given ledger_interpreter c w
              (exchanged (Exchange.exchange k (running command none) bytes)))
    first_exchange-After command allow w bytes h =
        let out = Exchange.exchange k (running command none) bytes in
        let (_, r) =
          exchange-Sound k (running command none) bytes tt (LongEnough-Plain command bytes h) in
        elim (exchange-Retries command bytes h (response_of bytes) refl
          (response_of-Returns bytes)) [
            | inl stops ↦ given-After false 1 allow w out stops
            | inr retries ↦ given-Retries command allow w out retries r
          ]

-- OPEN APP and the requests for the version, the fingerprint and an extended key always come to an end:
-- over a transport whose exchanges return, a run of such a command returns a response or an error, with
-- fuel for one pass of the loop, whatever the device answers and whether or not a disconnection at the
-- end is allowed.
pub run_command-Returns :
    (k : LedgerCrates) (c : Channels) (device_action : LedgerResponse k) (command : LedgerCommand k)
    (s : Ledger.State k) (w : c.World) (allow : Bool)
    → ((w' : c.World) (payload : List ℕ) (encrypted : Bool)
        → Returns (c.transport_exchange w' payload encrypted).1)
    → Plain k command
    → Returns (run_command_inner (ledger_interpreter k) c device_action 1 w s command allow).1
unfolding run_command_inner pass
run_command-Returns k c device_action command s w allow returns h =
    let (sent, e) = start-Plain k command h in
    rw e (
      from_device-After k c device_action returns false 1 allow (running command none)
        (c.transport_exchange w (encode sent) false) (returns w (encode sent) false)
        (λ w' bytes. first_exchange-After k c device_action returns command allow w' bytes h))
