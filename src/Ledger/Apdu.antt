-- ===== src/Ledger/Apdu.antt =====
-- bhwi/src/ledger/apdu.rs: the commands that go to a Ledger and the responses that come back.
pub mod Codes
pub mod Frames
use bhwi.Prelude.{
  ℕ, zero, suc, ◌+◌, ◌-◌, ◌%◌, List, [], ◌∷◌, ◌++◌, Option, none, some, ltb, ◌==◌, if◌then◌else◌,
  length, take, get_or, leb, Outcome, ok, err, ◌>>=◌, ◌>>◌, check, ensure, ok_or,
}
use bhwi.Prelude.Bytes.{u16_be, u16_of_be}

abbrev pub current_protocol_version : ℕ
current_protocol_version = 1

-- `Cla`, `BitcoinCommandCode` and `FrameworkCommandCode`, as the bytes that they are cast to.
abbrev pub cla_default : ℕ
cla_default = 0xB0

abbrev pub cla_bitcoin : ℕ
cla_bitcoin = 0xE1

abbrev pub cla_framework : ℕ
cla_framework = 0xF8

pub data BitcoinCommandCode : Type 0 where
  get_extended_pubkey get_version register_wallet get_wallet_address sign_psbt
        get_master_fingerprint sign_message :
      BitcoinCommandCode

unfoldable pub bitcoin_code : BitcoinCommandCode → ℕ
bitcoin_code get_extended_pubkey = 0x00
bitcoin_code get_version = 0x01
bitcoin_code register_wallet = 0x02
bitcoin_code get_wallet_address = 0x03
bitcoin_code sign_psbt = 0x04
bitcoin_code get_master_fingerprint = 0x05
bitcoin_code sign_message = 0x10

abbrev pub continue_interrupted_code : ℕ
continue_interrupted_code = 0x01

pub data ClientCommandCode : Type 0 where
  yield get_preimage get_merkle_leaf_proof get_merkle_leaf_index get_more_elements :
      ClientCommandCode

unfoldable pub client_code : ClientCommandCode → ℕ
client_code yield = 0x10
client_code get_preimage = 0x40
client_code get_merkle_leaf_proof = 0x41
client_code get_merkle_leaf_index = 0x42
client_code get_more_elements = 0xA0

unfoldable pub client_code_of : ℕ → Option ClientCommandCode
client_code_of value =
    if value == 0x10
    then some yield
    else if value == 0x40
    then some get_preimage
    else if value == 0x41
    then some get_merkle_leaf_proof
    else if value == 0x42
    then some get_merkle_leaf_index
    else if value == 0xA0
    then some get_more_elements
    else none

pub data StatusWord : Type 0 where
  deny incorrect_data not_supported wrong_p1p2 wrong_data_length ins_not_supported cla_not_supported
        bad_state signature_fail command_not_allowed success interrupted_execution :
      StatusWord

unfoldable pub status_code : StatusWord → ℕ
status_code deny = 0x6985
status_code incorrect_data = 0x6A80
status_code not_supported = 0x6A82
status_code wrong_p1p2 = 0x6A86
status_code wrong_data_length = 0x6A87
status_code ins_not_supported = 0x6D00
status_code cla_not_supported = 0x6E00
status_code bad_state = 0xB007
status_code signature_fail = 0xB008
status_code command_not_allowed = 0x6901
status_code success = 0x9000
status_code interrupted_execution = 0xE000

unfoldable pub status_of : ℕ → Option StatusWord
status_of value =
    if value == 0x6985
    then some deny
    else if value == 0x6901
    then some command_not_allowed
    else if value == 0x6A80
    then some incorrect_data
    else if value == 0x6A82
    then some not_supported
    else if value == 0x6A86
    then some wrong_p1p2
    else if value == 0x6A87
    then some wrong_data_length
    else if value == 0x6D00
    then some ins_not_supported
    else if value == 0x6E00
    then some cla_not_supported
    else if value == 0xB007
    then some bad_state
    else if value == 0xB008
    then some signature_fail
    else if value == 0x9000
    then some success
    else if value == 0xE000
    then some interrupted_execution
    else none

pub record ApduCommand : Type 0 where
  pub cla : ℕ
  pub ins : ℕ
  pub p1 : ℕ
  pub p2 : ℕ
  pub payload : List ℕ

-- `self.data.len() as u8` keeps the low eight bits.
unfoldable pub encode : ApduCommand → List ℕ
encode self = self.cla ∷ self.ins ∷ self.p1 ∷ self.p2 ∷ (length self.payload % 256) ∷ self.payload

abbrev pub default_command : ApduCommand
default_command = record {
  cla = cla_default;
  ins = 0x00;
  p1 = 0x00;
  p2 = current_protocol_version;
  payload = [];
}

pub record ApduResponse : Type 0 where
  pub payload : List ℕ
  pub status_word : StatusWord

pub data ApduError : Type 0 where
  status_word_unknown response_too_short : ApduError

unfoldable pub response_bytes : ApduResponse → List ℕ
response_bytes res = res.payload ++ u16_be (status_code res.status_word)

unfoldable pub response_of : List ℕ → Outcome ApduError ApduResponse
response_of res =
    let s = u16_of_be (get_or res (length res - 2) 0) (get_or res (length res - 1) 0) in
    let known = do
      check (leb 2 (length res))
      word ← ok_or (status_of s) status_word_unknown
      ok (record { payload = take (length res - 2) res; status_word = word })
    in if ltb (length res) 2 then err response_too_short else known
