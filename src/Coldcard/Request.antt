-- ===== src/Coldcard/Request.antt =====
-- bhwi/src/coldcard/api.rs, module `request`: the bytes of each request. A command's four letters are
-- written as their ASCII codes.
use bhwi.Prelude.{
  ℕ, ◌+◌, ◌/◌, ◌%◌, Bool, List, [], ◌∷◌, ◌++◌, Option, some, none, leb, if◌then◌else◌, length,
  Outcome, ok, check, ◌>>◌,
}
use bhwi.Prelude.Bytes.{u32_le, u32_of_le}

abbrev pub max_upload_chunk_len : ℕ
max_upload_chunk_len = 2048

-- `u16::to_le_bytes`.
abbrev u16_le : ℕ → List ℕ
u16_le n = (n % 256) ∷ (n / 256 % 256) ∷ []

abbrev version_or_1 : Option ℕ → ℕ
version_or_1 none = 1
version_or_1 (some v) = v

unfoldable pub start_encryption : Option ℕ → List ℕ → List ℕ
start_encryption version key = 110 ∷ 99 ∷ 114 ∷ 121 ∷ (u32_le (version_or_1 version) ++ key)

unfoldable pub start_backup : List ℕ
start_backup = 98 ∷ 97 ∷ 99 ∷ 107 ∷ []

-- The path and its text: the master's path is the empty one.
unfoldable pub get_xpub : (List ℕ → List ℕ) → List ℕ → List ℕ
get_xpub to_string [] = 120 ∷ 112 ∷ 117 ∷ 98 ∷ 109 ∷ []
get_xpub to_string (child ∷ path) = 120 ∷ 112 ∷ 117 ∷ 98 ∷ 109 ∷ 47 ∷ to_string (child ∷ path)

-- The masks of `addr_fmt`: the flags they join are different bits, so their sum is their union.
abbrev pub afc_pubkey : ℕ
afc_pubkey = 1

abbrev pub afc_segwit : ℕ
afc_segwit = 2

abbrev pub afc_bech32 : ℕ
afc_bech32 = 4

abbrev pub afc_script : ℕ
afc_script = 8

abbrev pub afc_wrapped : ℕ
afc_wrapped = 16

abbrev pub afc_bech32m : ℕ
afc_bech32m = 32

-- `bitcoin::address::AddressType`, which may have more members.
pub data AddressType : Type 0 where
  p2pkh p2sh p2wpkh p2wsh p2tr other_type : AddressType

unfoldable pub from_address_type : AddressType → ℕ
from_address_type p2pkh = afc_pubkey
from_address_type p2sh = afc_pubkey + afc_segwit + afc_wrapped
from_address_type p2wpkh = afc_pubkey + afc_segwit + afc_bech32
from_address_type p2wsh = afc_script + afc_segwit + afc_bech32
from_address_type p2tr = afc_pubkey + afc_segwit + afc_bech32m
from_address_type other_type = afc_pubkey + afc_segwit + afc_bech32

unfoldable pub show_address : (List ℕ → List ℕ) → List ℕ → ℕ → List ℕ
show_address to_string path addr_fmt = 115 ∷ 104 ∷ 111 ∷ 119 ∷ (u32_le addr_fmt ++ to_string path)

-- `u32::from_le_bytes(fingerprint.to_bytes())`, of four bytes.
abbrev xfp : List ℕ → ℕ
xfp (a ∷ b ∷ c ∷ d ∷ _) = u32_of_le a b c d
xfp (a ∷ b ∷ c ∷ []) = 0
xfp (a ∷ b ∷ []) = 0
xfp (a ∷ []) = 0
xfp [] = 0

unfoldable pub coldcard_xfp_path : List ℕ → List ℕ → List ℕ
coldcard_xfp_path fingerprint path = xfp fingerprint ∷ path

abbrev pub words_le : List ℕ → List ℕ
words_le [] = []
words_le (w ∷ ws) = u32_le w ++ words_le ws

-- The loop over the keys.
unfoldable pub key_paths_bytes : List (List ℕ × List ℕ) → List ℕ
unfolding coldcard_xfp_path
key_paths_bytes [] = []
key_paths_bytes ((fingerprint, derivation_path) ∷ rest) =
    let path = coldcard_xfp_path fingerprint derivation_path in
    ((length path % 256) ∷ words_le path) ++ key_paths_bytes rest

unfoldable pub show_p2sh_address : ℕ → List (List ℕ × List ℕ) → List ℕ → ℕ → List ℕ
unfolding key_paths_bytes
show_p2sh_address threshold key_paths redeem_script addr_fmt =
    112
    ∷ 50
    ∷ 115
    ∷ 104
    ∷ (u32_le addr_fmt
        ++ (threshold
            ∷ (length key_paths % 256)
            ∷ (u16_le (length redeem_script) ++ (redeem_script ++ key_paths_bytes key_paths))))

unfoldable pub miniscript_address : List ℕ → Bool → ℕ → List ℕ
miniscript_address name change index =
    109 ∷ 115 ∷ 97 ∷ 115 ∷ (u32_le (if change then 1 else 0) ++ (u32_le index ++ name))

unfoldable pub sign_message : (List ℕ → List ℕ) → List ℕ → List ℕ → List ℕ
sign_message to_string message path =
    let path_string = to_string path in
    115
    ∷ 109
    ∷ 115
    ∷ 103
    ∷ (u32_le 7
        ++ (u32_le (length path_string) ++ (u32_le (length message) ++ (path_string ++ message))))

unfoldable pub get_signed_message : List ℕ
get_signed_message = 115 ∷ 109 ∷ 111 ∷ 107 ∷ []

unfoldable pub upload {ℓ} : {E : Type ℓ} → ℕ → ℕ → List ℕ → Outcome E (List ℕ)
upload offset total_size data_ = do
  check (leb (length data_) max_upload_chunk_len)
  ok (117 ∷ 112 ∷ 108 ∷ 100 ∷ (u32_le offset ++ (u32_le total_size ++ data_)))

unfoldable pub sha256 : List ℕ
sha256 = 115 ∷ 104 ∷ 97 ∷ 50 ∷ []

unfoldable pub sign_transaction : ℕ → List ℕ → List ℕ
sign_transaction len file_sha = 115 ∷ 116 ∷ 120 ∷ 110 ∷ (u32_le len ++ (u32_le 0 ++ file_sha))

unfoldable pub multisig_enroll : ℕ → List ℕ → List ℕ
multisig_enroll len file_sha = 101 ∷ 110 ∷ 114 ∷ 108 ∷ (u32_le len ++ file_sha)

unfoldable pub get_signed_transaction : List ℕ
get_signed_transaction = 115 ∷ 116 ∷ 111 ∷ 107 ∷ []

unfoldable pub get_backup_file : List ℕ
get_backup_file = 98 ∷ 107 ∷ 111 ∷ 107 ∷ []

unfoldable pub download : ℕ → ℕ → ℕ → List ℕ
download offset len file_number =
    100 ∷ 119 ∷ 108 ∷ 100 ∷ (u32_le offset ++ (u32_le len ++ u32_le file_number))

unfoldable pub get_version : List ℕ
get_version = 118 ∷ 101 ∷ 114 ∷ 115 ∷ []
