-- ===== src/Ledger/Command.antt =====
-- bhwi/src/ledger/command.rs: the APDU of each command. A derivation path is the list of its child
-- numbers. A wallet policy appears as what the commands use of it: its serialisation and its identifier.
pub mod Fits
use bhwi.Prelude.{
  ℕ, ◌%◌, Bool, List, [], ◌∷◌, ◌++◌, Option, some, none, if◌then◌else◌, length, replicate,
}
use bhwi.Prelude.Bytes.{u32_be}
use bhwi.Ledger.Apdu
use bhwi.Ledger.Apdu.{
  ApduCommand, default_command, cla_bitcoin, cla_framework, bitcoin_code, continue_interrupted_code,
}
use bhwi.Ledger.Consensus.{Consensus}

-- `bitcoin::Network`.
pub data Network : Type 0 where
  bitcoin testnet testnet4 signet regtest : Network

-- The name of the application, in ASCII.
unfoldable pub app_name : Network → List ℕ
app_name bitcoin = 66 ∷ 105 ∷ 116 ∷ 99 ∷ 111 ∷ 105 ∷ 110 ∷ []
app_name _ = 66 ∷ 105 ∷ 116 ∷ 99 ∷ 111 ∷ 105 ∷ 110 ∷ 32 ∷ 84 ∷ 101 ∷ 115 ∷ 116 ∷ []

unfoldable pub open_app : Network → ApduCommand
unfolding app_name
open_app network = record {
  cla = 0xE0;
  ins = 0xD8;
  p1 = 0x00;
  p2 = 0x00;
  payload = app_name network;
}

unfoldable pub get_version : ApduCommand
unfolding bitcoin_code
get_version = record default_command { ins = bitcoin_code Apdu.get_version; p2 = 0x00 }

-- `ApduCommand { cla: Bitcoin, ins, data, ..Default::default() }`.
abbrev bitcoin_command : Apdu.BitcoinCommandCode → List ℕ → ApduCommand
bitcoin_command code payload = record default_command {
  cla = cla_bitcoin;
  ins = bitcoin_code code;
  payload = payload;
}

unfoldable pub get_master_fingerprint : ApduCommand
get_master_fingerprint = bitcoin_command Apdu.get_master_fingerprint []

abbrev pub flag : Bool → ℕ
flag b = if b then 1 else 0

-- Each child number in big-endian order.
abbrev pub path_bytes : List ℕ → List ℕ
path_bytes [] = []
path_bytes (child ∷ path) = u32_be child ++ path_bytes path

unfoldable pub get_extended_pubkey : List ℕ → Bool → ApduCommand
get_extended_pubkey path display =
    bitcoin_command Apdu.get_extended_pubkey (flag display ∷ (length path % 256) ∷ path_bytes path)

-- `hmac.unwrap_or(&[b'\0'; 32])`.
abbrev pub hmac_or_zeros : Option (List ℕ) → List ℕ
hmac_or_zeros none = replicate 32 0
hmac_or_zeros (some hmac) = hmac

unfoldable pub get_wallet_address : List ℕ → Option (List ℕ) → Bool → ℕ → Bool → ApduCommand
get_wallet_address id hmac change address_index display =
    bitcoin_command Apdu.get_wallet_address
      (flag display ∷ (id ++ (hmac_or_zeros hmac ++ (flag change ∷ u32_be address_index))))

module _ (c : Consensus) where
  unfoldable pub register_wallet : List ℕ → ApduCommand
  register_wallet policy_bytes =
      bitcoin_command Apdu.register_wallet (c.serialize (length policy_bytes) ++ policy_bytes)

  unfoldable pub sign_psbt :
      List ℕ → ℕ → List ℕ → ℕ → List ℕ → List ℕ → Option (List ℕ) → ApduCommand
  sign_psbt global inputs_number inputs_root outputs_number outputs_root id hmac =
      bitcoin_command Apdu.sign_psbt (
        global
        ++ (c.serialize inputs_number
            ++ (inputs_root
                ++ (c.serialize outputs_number ++ (outputs_root ++ (id ++ hmac_or_zeros hmac))))))

  unfoldable pub sign_message : ℕ → List ℕ → List ℕ → ApduCommand
  sign_message message_length root path =
      bitcoin_command Apdu.sign_message
        ((length path % 256) ∷ (path_bytes path ++ (c.serialize message_length ++ root)))

unfoldable pub continue_interrupted : List ℕ → ApduCommand
continue_interrupted payload = record default_command {
  cla = cla_framework;
  ins = continue_interrupted_code;
  payload = payload;
}
