-- ===== src/Ledger/Interpreter/Convert.antt =====
-- bhwi/src/ledger/mod.rs: the Ledger's command for a command of any device, and what its errors become.
use bhwi.Prelude.{[], none, some, ok, err, bytes_eq, if◌then◌else◌, ◌∷◌}
use bhwi.Common.{Command, DisplayAddress, by_path, by_descriptor, by_multisig, DeviceContext}
use bhwi.Common
use bhwi.Ledger.Command.{Network, bitcoin, testnet}
use bhwi.Ledger.Wallet.{v2}
use bhwi.Ledger.Psbt.{Psbt}
use bhwi.Ledger.Interpreter.{
  LedgerCrates, GetAppInfoResponse, LedgerError, missing_command_info, unsupported_display_address,
  Context, LedgerCommand, open_app, get_app_info, get_master_fingerprint, get_wallet_address,
  Result,
}
use bhwi.Ledger.Interpreter

-- The application `Bitcoin` is that of the main network.
unfoldable pub network : GetAppInfoResponse → Network
network info =
    if bytes_eq info.app_name (66 ∷ 105 ∷ 116 ∷ 99 ∷ 111 ∷ 105 ∷ 110 ∷ []) then bitcoin else testnet

module _ (k : LedgerCrates) where
  abbrev pub AnyCommand : Type 0
  AnyCommand = Command k.wallet.miniscript k.ManagementContext (Psbt k.psbt)

  unfoldable pub convert_address :
      DisplayAddress k.wallet.miniscript → Context k → Result k (LedgerCommand k)
  convert_address (by_multisig multisig) context = err unsupported_display_address
  convert_address shown context = ok (get_wallet_address shown context)

  unfoldable pub convert_sign_tx : Psbt k.psbt → Context k → Result k (LedgerCommand k)
  convert_sign_tx psbt (some (Common.ledger policy hmac)) =
      ok (Interpreter.sign_psbt psbt policy hmac)
  convert_sign_tx psbt _ = err missing_command_info

  unfoldable pub convert : AnyCommand → Result k (LedgerCommand k)
  convert (Common.setup options context) = err missing_command_info
  convert Common.wipe = err missing_command_info
  convert (Common.restore options context) = err missing_command_info
  convert Common.toggle_passphrase = err missing_command_info
  convert Common.backup = err missing_command_info
  convert (Common.unlock (some network)) = ok (open_app network)
  convert (Common.unlock none) = err missing_command_info
  convert Common.get_master_fingerprint = ok get_master_fingerprint
  convert (Common.get_xpub path display) = ok (Interpreter.get_xpub path display)
  convert (Common.display_address shown context) = convert_address shown context
  convert (Common.sign_message message path) = ok (Interpreter.sign_message message path)
  convert Common.get_version = ok get_app_info
  convert (Common.register_wallet name policy) =
      ok (Interpreter.register_wallet (record { name = name; version = v2; policy = policy }))
  convert (Common.sign_tx psbt context) = convert_sign_tx psbt context
