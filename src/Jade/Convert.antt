-- ===== src/Jade/Convert.antt =====
-- bhwi/src/jade/mod.rs: the Jade's command for a command of any device. Texts are ASCII bytes.
pub mod Names
use bhwi.Prelude.{
  ℕ, zero, suc, ◌+◌, ◌/◌, ◌%◌, Bool, true, false, ◌&&◌, ◌||◌, List, [], ◌∷◌, ◌++◌, Option, none,
  some, ltb, ◌==◌, bytes_eq, if◌then◌else◌, length, take, Outcome, ok, err, ok_or, map_err, ◌>>=◌,
}
use bhwi.Policy.{
  Miniscript, Key, DescriptorPublicKey, single, xpub, multi_xpub, Wildcard, no_wildcard,
  format_key_info, extract_parts,
}
use bhwi.Common.{
  Command, DisplayAddress, by_path, by_descriptor, by_multisig, DeviceContext,
  MultisigDisplayAddress, AddressType,
}
use bhwi.Common
use bhwi.Coldcard.Machine.{MultisigAddressType, legacy, sh_wit, wit}
use bhwi.Ledger.Maps.{bytes_lt, sort_pairs}
use bhwi.Jade.Api.{MultisigSigner, MultisigDescriptor, JadeCrates}
use bhwi.Jade.{
  JadeCommand, at_descriptor, at_path, auth, get_info, get_receive_address, register_descriptor,
  register_multisig,
}
use bhwi.Jade

-- Of the common `Error`, what the conversion gives; the messages are left out.
pub data ConvertError : Type 0 where
  missing_command_info serialization invalid_input unsupported_display_address : ConvertError

-- The digits of a number, with fuel: one more than the number is enough.
unfoldable pub digits : ℕ → ℕ → List ℕ → List ℕ
digits zero n later = later
digits (suc fuel) n later =
    let here = (48 + n % 10) ∷ later in
    let more = digits fuel (n / 10) here in if ltb n 10 then here else more

-- `to_string` of a number.
unfoldable pub decimal : ℕ → List ℕ
decimal n = digits (suc n) n []

-- `replace("/**", "/<0;1>/*")`.
unfoldable pub explicit_multipath : List ℕ → List ℕ
explicit_multipath (x ∷ y ∷ z ∷ rest) =
    let replaced = explicit_multipath rest in
    let kept = explicit_multipath (y ∷ z ∷ rest) in
    if (x == 47) && ((y == 42) && (z == 42))
    then 47 ∷ 60 ∷ 48 ∷ 59 ∷ 49 ∷ 62 ∷ 47 ∷ 42 ∷ replaced
    else x ∷ kept
explicit_multipath text = text

-- The texts `pkh(k)`, `sh(wpkh(k))` and `wpkh(k)`.
unfoldable pub jade_path_variant : Option AddressType → Outcome ConvertError (List ℕ)
jade_path_variant none = ok (119 ∷ 112 ∷ 107 ∷ 104 ∷ 40 ∷ 107 ∷ 41 ∷ [])
jade_path_variant (some Common.p2pkh) = ok (112 ∷ 107 ∷ 104 ∷ 40 ∷ 107 ∷ 41 ∷ [])
jade_path_variant (some Common.p2sh) =
    ok (115 ∷ 104 ∷ 40 ∷ 119 ∷ 112 ∷ 107 ∷ 104 ∷ 40 ∷ 107 ∷ 41 ∷ 41 ∷ [])
jade_path_variant (some Common.p2wpkh) = ok (119 ∷ 112 ∷ 107 ∷ 104 ∷ 40 ∷ 107 ∷ 41 ∷ [])
jade_path_variant (some _) = err unsupported_display_address

-- The texts `sh(multi(k))`, `wsh(multi(k))` and `sh(wsh(multi(k)))`.
unfoldable pub multisig_variant_text : MultisigAddressType → List ℕ
multisig_variant_text legacy =
    115 ∷ 104 ∷ 40 ∷ 109 ∷ 117 ∷ 108 ∷ 116 ∷ 105 ∷ 40 ∷ 107 ∷ 41 ∷ 41 ∷ []
multisig_variant_text wit =
    119 ∷ 115 ∷ 104 ∷ 40 ∷ 109 ∷ 117 ∷ 108 ∷ 116 ∷ 105 ∷ 40 ∷ 107 ∷ 41 ∷ 41 ∷ []
multisig_variant_text sh_wit =
    115 ∷ 104 ∷ 40 ∷ 119 ∷ 115 ∷ 104 ∷ 40 ∷ 109 ∷ 117 ∷ 108 ∷ 116 ∷ 105 ∷ 40 ∷ 107 ∷ 41 ∷ 41 ∷ 41
    ∷ []

-- The numbers with a comma and a space between them, as `{path:?}` writes them in brackets.
abbrev pub numbers : List ℕ → List ℕ
numbers [] = []
numbers (n ∷ []) = decimal n
numbers (n ∷ m ∷ ns) = decimal n ++ (44 ∷ 32 ∷ numbers (m ∷ ns))

abbrev pub debug_path : List ℕ → List ℕ
debug_path path = 91 ∷ (numbers path ++ (93 ∷ []))

-- A fingerprint and a path.
abbrev pub Origin : Type 0
Origin = List ℕ × List ℕ

-- The order of pairs: by the fingerprints, and for equal ones by the paths.
unfoldable pub origin_lt : Origin → Origin → Bool
origin_lt p q = bytes_lt p.0 q.0 || (bytes_eq p.0 q.0 && bytes_lt p.1 q.1)

-- `sort`.
unfoldable pub insert_origin : Origin → List Origin → List Origin
insert_origin p [] = p ∷ []
insert_origin p (q ∷ qs) =
    let later = q ∷ insert_origin p qs in if origin_lt q p then later else p ∷ q ∷ qs

unfoldable pub sort_origins : List Origin → List Origin
sort_origins [] = []
sort_origins (p ∷ ps) = insert_origin p (sort_origins ps)

-- `hex::encode`.
abbrev pub hex_digit : ℕ → ℕ
hex_digit d = if ltb d 10 then 48 + d else 87 + d

abbrev pub hex : List ℕ → List ℕ
hex [] = []
hex (b ∷ bs) = hex_digit (b / 16) ∷ hex_digit (b % 16) ∷ hex bs

abbrev pub summary_of : List Origin → List ℕ
summary_of [] = []
summary_of ((fingerprint, path) ∷ rest) =
    hex fingerprint ++ (124 ∷ (debug_path path ++ (124 ∷ summary_of rest)))

-- What the multisig's name is the hash of.
unfoldable pub summary : List ℕ → ℕ → List Origin → List ℕ
summary variant threshold origins =
    variant ++ (124 ∷ (decimal threshold ++ (124 ∷ summary_of (sort_origins origins))))

module _ (sha256 : List ℕ → List ℕ) where
  -- "hwi" and twelve digits of the hash.
  unfoldable pub multisig_name_of : List ℕ → ℕ → List Origin → List ℕ
  multisig_name_of variant threshold origins =
      104 ∷ 119 ∷ 105 ∷ take 12 (hex (sha256 (summary variant threshold origins)))

-- What the loop over the keys collects.
pub record Signers : Type 0 where
  pub origins : List Origin
  pub signer_list : List MultisigSigner
  pub signer_paths : List (List ℕ)

module _ (m : Miniscript) where
  unfoldable pub signer_of : Key m → Outcome ConvertError (Origin × MultisigSigner × List ℕ)
  signer_of (single key) = err invalid_input
  signer_of (multi_xpub origin xkey paths _) = err invalid_input
  signer_of (xpub none xkey path no_wildcard) = err invalid_input
  signer_of (xpub (some (fingerprint, origin)) xkey path no_wildcard) = ok (
    (fingerprint, origin),
    record {
      signer_fingerprint = fingerprint;
      derivation = origin;
      signer_xpub = m.xpub_to_string xkey;
      signer_path = [];
    },
    path,
  )
  signer_of (xpub origin xkey path _) = err invalid_input

  unfoldable pub signers_of : List (Key m) → Outcome ConvertError Signers
  signers_of [] = ok (record { origins = []; signer_list = []; signer_paths = [] })
  signers_of (key ∷ keys) = do
    (origin, signer, path) ← signer_of key
    rest ← signers_of keys
    ok (record {
      origins = origin ∷ rest.origins;
      signer_list = signer ∷ rest.signer_list;
      signer_paths = path ∷ rest.signer_paths;
    })

module _ (m : Miniscript) (k : JadeCrates) (sha256 : List ℕ → List ℕ) where
  unfoldable pub jade_multisig_command :
      MultisigDisplayAddress m → Outcome ConvertError (JadeCommand k)
  jade_multisig_command shown = do
    let variant = multisig_variant_text shown.address_type
    signers ← signers_of m shown.keys
    ok (
        register_multisig (multisig_name_of sha256 variant shown.threshold signers.origins)
          (record {
            multisig_variant = variant;
            is_sorted = shown.sorted;
            multisig_threshold = shown.threshold;
            signers = signers.signer_list;
            master_blinding_key = none;
          })
          signers.signer_paths)

  -- `format!("@{index}")` with the text of the key; the map sorts them by these names.
  abbrev pub datavalues_from : ℕ → List (Key m) → List (List ℕ × List ℕ)
  datavalues_from index [] = []
  datavalues_from index (key ∷ keys) =
      (64 ∷ decimal index, format_key_info m key) ∷ datavalues_from (index + 1) keys

  unfoldable pub convert_register_wallet :
      List ℕ → m.WalletPolicy → Outcome ConvertError (JadeCommand k)
  convert_register_wallet name policy = do
    (descriptor, keys) ← map_err (λ e. serialization) (extract_parts m policy)
    ok (
        register_descriptor name (explicit_multipath descriptor)
          (sort_pairs (datavalues_from 0 keys)))

  unfoldable pub convert_display : DisplayAddress m → Outcome ConvertError (JadeCommand k)
  convert_display (by_descriptor index change display descriptor_name) =
      ok (get_receive_address (at_descriptor index change descriptor_name))
  convert_display (by_path path display address_format) = do
    variant ← jade_path_variant address_format
    ok (get_receive_address (at_path path variant))
  convert_display (by_multisig shown) = jade_multisig_command shown

  unfoldable pub jade_command :
      {ManagementContext : Type 0}
      → Command m ManagementContext k.Psbt
      → Outcome ConvertError (JadeCommand k)
  jade_command (Common.setup options context) = err missing_command_info
  jade_command Common.wipe = err missing_command_info
  jade_command (Common.restore options context) = err missing_command_info
  jade_command Common.toggle_passphrase = err missing_command_info
  jade_command Common.backup = err missing_command_info
  jade_command (Common.unlock network) = ok auth
  jade_command Common.get_master_fingerprint = ok Jade.get_master_fingerprint
  jade_command (Common.get_xpub path display) = ok (Jade.get_xpub path)
  jade_command (Common.display_address shown context) = convert_display shown
  jade_command (Common.sign_message message path) = ok (Jade.sign_message message path)
  jade_command Common.get_version = ok get_info
  jade_command (Common.register_wallet name policy) = convert_register_wallet name policy
  jade_command (Common.sign_tx psbt context) = ok (Jade.sign_psbt psbt)
