-- ===== src/Common.antt =====
-- bhwi/src/common.rs: the commands and contexts that all the devices share.
use bhwi.Prelude.{ℕ, Bool, List, Option}
use bhwi.Policy.{Miniscript, Key}
use bhwi.Coldcard.Machine.{MultisigAddressType}
use bhwi.Ledger.Command.{Network}
use bhwi.Ledger.Wallet.{LedgerWalletPolicy}

-- `bitcoin::AddressType`.
pub data AddressType : Type 0 where
  p2pkh p2sh p2wpkh p2wsh p2tr p2a : AddressType

pub record MultisigDisplayAddress (m : Miniscript) : Type 0 where
  pub threshold : ℕ
  pub address_type : MultisigAddressType
  pub sorted : Bool
  pub keys : List (Key m)

pub data DisplayAddress (m : Miniscript) : Type 0 where
  by_path :
      (path : List ℕ) (display : Bool) (address_format : Option AddressType) → DisplayAddress m
  by_descriptor : (index : ℕ) (change display : Bool) (descriptor_name : List ℕ) → DisplayAddress m
  by_multisig : MultisigDisplayAddress m → DisplayAddress m

-- The context of a BitBox's setup is of a type that is given.
pub data DeviceContext (m : Miniscript) (ManagementContext : Type 0) : Type 0 where
  ledger :
      (wallet_policy : LedgerWalletPolicy m) (wallet_hmac : Option (List ℕ))
      → DeviceContext m ManagementContext
  bit_box : m.WalletPolicy → DeviceContext m ManagementContext
  bit_box_management : ManagementContext → DeviceContext m ManagementContext

pub record SetupOptions : Type 0 where
  pub label : List ℕ
  pub backup_passphrase : List ℕ

-- The word count is an `i32`; only its default is used here.
pub record RestoreOptions : Type 0 where
  pub label : List ℕ
  pub word_count : ℕ

pub data Command (m : Miniscript) (ManagementContext Psbt : Type 0) : Type 0 where
  backup wipe toggle_passphrase get_master_fingerprint get_version :
      Command m ManagementContext Psbt
  setup :
      SetupOptions → Option (DeviceContext m ManagementContext) → Command m ManagementContext Psbt
  restore :
      RestoreOptions → Option (DeviceContext m ManagementContext) → Command m ManagementContext Psbt
  get_xpub : (path : List ℕ) (display : Bool) → Command m ManagementContext Psbt
  display_address :
      DisplayAddress m
      → Option (DeviceContext m ManagementContext)
      → Command m ManagementContext Psbt
  register_wallet : (name : List ℕ) (policy : m.WalletPolicy) → Command m ManagementContext Psbt
  sign_tx : Psbt → Option (DeviceContext m ManagementContext) → Command m ManagementContext Psbt
  sign_message : (message path : List ℕ) → Command m ManagementContext Psbt
  -- The options are a network or none.
  unlock : Option Network → Command m ManagementContext Psbt
