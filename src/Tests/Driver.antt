-- ===== src/Tests/Driver.antt =====
-- The theorems on the driver of an interpreter at concrete inputs.
use bhwi.Prelude.{ℕ, ◌+◌, ◌≤◌, ◌≡◌, ◌↔◌, true, false, [], ◌∷◌, none, some, ok, Returns}
use bhwi.Ledger.Command.{get_extended_pubkey}
use bhwi.Ledger.Interpreter as Ledger
use bhwi.Ledger.Interpreter.{LedgerResponse, running}
use bhwi.Async.Driver.{Channels, drive, run_command_inner}
use bhwi.Async.Driver.Runs.{Runs, drive_iff}
use bhwi.Async.Driver.Plain.{ledger_interpreter, transmit_of, run_command-Returns}
use bhwi.Tests.Policies.{ledger}

-- A device that answers with the letter x and success, and counts its answers.
abbrev channels : Channels
channels = record {
  World = ℕ;
  TransportError = Unit {0};
  HttpError = Unit {0};
  transport_exchange = λ w payload encrypted. (w + 1, ok (120 ∷ 0x90 ∷ 0x00 ∷ []));
  http_request = λ w url payload. (w + 1, ok []);
  is_post_write_disconnect = λ e. true;
}

abbrev asking : Ledger.State ledger
asking = running (Ledger.get_xpub (44 ∷ []) true) none

drive_iff_example :
    (drive
        (ledger_interpreter ledger)
        channels
        Ledger.task_done
        3
        true
        0
        asking
        (some (transmit_of (get_extended_pubkey (44 ∷ []) true)))
      ≡ (1, ok (Ledger.xpub (120 ∷ []))))
    ↔ ((n : ℕ) × (n ≤ 3)
        × Runs
            (ledger_interpreter ledger)
            channels
            Ledger.task_done
            true
            n
            0
            asking
            (some (transmit_of (get_extended_pubkey (44 ∷ []) true)))
            1
            (ok (Ledger.xpub (120 ∷ []))))
drive_iff_example =
    drive_iff (ledger_interpreter ledger) channels Ledger.task_done true 3 0 asking
      (some (transmit_of (get_extended_pubkey (44 ∷ []) true))) 1 (ok (Ledger.xpub (120 ∷ []))) tt

run_command-Returns_example :
    Returns
      (run_command_inner
        (ledger_interpreter ledger)
        channels
        Ledger.task_done
        1
        0
        Ledger.new
        (Ledger.get_xpub (44 ∷ []) false)
        false).1
run_command-Returns_example =
    run_command-Returns ledger channels Ledger.task_done (Ledger.get_xpub (44 ∷ []) false)
      Ledger.new 0 false (λ w' payload encrypted. tt) tt
