-- ===== src/Coldcard/Convert.antt =====
-- bhwi/src/coldcard/mod.rs: the Coldcard's command for a command of any device, with the checks of what
-- it registers. The crates miniscript and serde_json are an interface here.
pub mod Registered
use bhwi.Prelude.{
  ℕ, ◌+◌, Bool, true, false, ◌&&◌, ◌||◌, not, List, [], ◌∷◌, ◌++◌, Option, none, some, ltb, leb,
  ◌==◌, bytes_eq, if◌then◌else◌, length, Outcome, ok, err, ok_or, map_err, ensure, ◌>>=◌, ◌>>◌,
}
use bhwi.Policy.{
  Miniscript, Key, DescriptorPublicKey, single, xpub, multi_xpub, Wildcard, no_wildcard, unhardened,
  hardened_wildcard,
}
use bhwi.Common.{
  Command, DisplayAddress, by_path, by_descriptor, by_multisig, DeviceContext,
  MultisigDisplayAddress,
}
use bhwi.Common
use bhwi.Coldcard.Request.{from_address_type, other_type, afc_pubkey, afc_segwit, afc_bech32}
use bhwi.Coldcard.Request as Request
use bhwi.Coldcard.Bitcoin.{Bitcoin}
use bhwi.Coldcard.Machine.{
  ColdcardCommand, ColdcardMultisigDisplayKey, ColdcardMultisigDisplayAddress, show_address,
  miniscript_address, show_p2sh_address, start_encryption,
}
use bhwi.Coldcard.Machine
use bhwi.Ledger.Maps.{bytes_lt}

-- Of `ColdcardError`, what the conversion gives; the messages are left out.
pub data ConvertError : Type 0 where
  missing_command_info invalid_input serialization device : ConvertError

-- The part of the crate's types that the code looks at: the top of a script, and where in a
-- descriptor scripts stand.
pub data Terminal : Type 0 where
  sorted_multi : (k n : ℕ) → Terminal
  other_terminal : Terminal

pub data DescriptorShape : Type 0 where
  sh_ms sh_wsh wsh : Terminal → DescriptorShape
  sh_wpkh other_descriptor : DescriptorShape

pub record ColdcardCrates (m : Miniscript) : Type 1 where
  pub Descriptor : Type 0
  pub into_descriptor : m.WalletPolicy → Outcome m.WalletPolicyError Descriptor
  pub shape : Descriptor → DescriptorShape
  pub iter_pk : Descriptor → List (Key m)
  -- `serde_json::to_vec` of the name and the text of the descriptor
  pub registration_json : List ℕ → Descriptor → Outcome (Unit {0}) (List ℕ)
  -- The origin of a single key, and the key where it is a full one.
  pub single_origin : m.SinglePub → Option (List ℕ × List ℕ)
  pub full_key : m.SinglePub → Option (List ℕ)
  -- `derive_pub`, with the public key's bytes
  pub derive_pub : m.Xpub → List ℕ → Outcome (Unit {0}) (List ℕ)
  -- `inner.serialize()` of a public key
  pub inner_serialize : List ℕ → List ℕ

unfoldable pub sortedmulti_size : Terminal → Option (ℕ × ℕ)
sortedmulti_size (sorted_multi k n) = some (k, n)
sortedmulti_size other_terminal = none

unfoldable pub coldcard_sortedmulti_size : DescriptorShape → Option (ℕ × ℕ)
unfolding sortedmulti_size
coldcard_sortedmulti_size (sh_ms script) = sortedmulti_size script
coldcard_sortedmulti_size (sh_wsh script) = sortedmulti_size script
coldcard_sortedmulti_size sh_wpkh = none
coldcard_sortedmulti_size (wsh script) = sortedmulti_size script
coldcard_sortedmulti_size other_descriptor = none

-- A child number below 2 ^ 31 is a normal one.
unfoldable pub valid_single_path : List ℕ → Bool
valid_single_path path = bytes_eq path (0 ∷ [])

-- Two paths of one child each, which are 0 and 1 when they are sorted.
unfoldable pub valid_multi_paths : List (List ℕ) → Bool
valid_multi_paths ((a ∷ []) ∷ (b ∷ []) ∷ []) =
    if leb a b then (a == 0) && (b == 1) else (b == 0) && (a == 1)
valid_multi_paths _ = false

abbrev pub is_unhardened : Wildcard → Bool
is_unhardened unhardened = true
is_unhardened no_wildcard = false
is_unhardened hardened_wildcard = false

abbrev pub is_some : {A : Type 0} → Option A → Bool
is_some (some a) = true
is_some none = false

module _ (m : Miniscript) where
  unfoldable pub valid_key : Key m → Bool
  unfolding valid_single_path valid_multi_paths
  valid_key (xpub origin xkey path wildcard) =
      is_some origin && (is_unhardened wildcard && valid_single_path path)
  valid_key (multi_xpub origin xkey paths wildcard) =
      is_some origin && (is_unhardened wildcard && valid_multi_paths paths)
  valid_key (single key) = false

  unfoldable pub validate_coldcard_registration_key : Key m → Outcome ConvertError (Unit {0})
  unfolding valid_key
  validate_coldcard_registration_key key = ensure (valid_key key) invalid_input

  unfoldable pub validate_keys : List (Key m) → Outcome ConvertError (Unit {0})
  unfolding validate_coldcard_registration_key
  validate_keys [] = ok tt
  validate_keys (key ∷ keys) = validate_coldcard_registration_key key >> validate_keys keys

-- `is_ascii_graphic` or a space, of every byte.
unfoldable pub all_printable : List ℕ → Bool
all_printable [] = true
all_printable (byte ∷ bytes) = (leb 32 byte && leb byte 126) && all_printable bytes

module _ (m : Miniscript) (k : ColdcardCrates m) where
  unfoldable pub coldcard_registration_payload :
      List ℕ → m.WalletPolicy → Outcome ConvertError (List ℕ)
  unfolding all_printable coldcard_sortedmulti_size validate_keys
  coldcard_registration_payload name policy = do
    ensure ((leb 2 (length name) && leb (length name) 20) && all_printable name) invalid_input
    descriptor ← map_err (λ e. invalid_input) (k.into_descriptor policy)
    (threshold, signer_count) ← ok_or (coldcard_sortedmulti_size (k.shape descriptor)) invalid_input
    ensure (not ((threshold == 0) || (ltb signer_count threshold || ltb 15 signer_count)))
        invalid_input
    validate_keys m (k.iter_pk descriptor)
    payload ← map_err (λ e. serialization) (k.registration_json name descriptor)
    ensure (leb 101 (length payload) && leb (length payload) 4000) invalid_input
    ok payload

  unfoldable pub display_key : Key m → Outcome ConvertError ColdcardMultisigDisplayKey
  display_key (single key) = do
    (fingerprint, path) ← ok_or (k.single_origin key) serialization
    public_key ← ok_or (k.full_key key) serialization
    ok (record { fingerprint = fingerprint; path = path; public_key = public_key })
  display_key (xpub origin xkey path no_wildcard) = do
    (fingerprint, origin_path) ← ok_or origin serialization
    public_key ← map_err (λ e. serialization) (k.derive_pub xkey path)
    ok (record { fingerprint = fingerprint; path = origin_path ++ path; public_key = public_key })
  display_key (xpub origin xkey path _) = err serialization
  display_key (multi_xpub origin xkey paths _) = err serialization

  unfoldable pub display_keys :
      List (Key m) → Outcome ConvertError (List ColdcardMultisigDisplayKey)
  unfolding display_key
  display_keys [] = ok []
  display_keys (key ∷ keys) = do
    shown ← display_key key
    rest ← display_keys keys
    ok (shown ∷ rest)

  -- `sort_by_key`, which keeps the order of equal keys.
  unfoldable pub insert_key :
      ColdcardMultisigDisplayKey → List ColdcardMultisigDisplayKey → List ColdcardMultisigDisplayKey
  insert_key p [] = p ∷ []
  insert_key p (q ∷ qs) =
      let later = q ∷ insert_key p qs in
      if bytes_lt (k.inner_serialize q.public_key) (k.inner_serialize p.public_key)
      then later
      else p ∷ q ∷ qs

  unfoldable pub sort_keys : List ColdcardMultisigDisplayKey → List ColdcardMultisigDisplayKey
  unfolding insert_key
  sort_keys [] = []
  sort_keys (p ∷ ps) = insert_key p (sort_keys ps)

  unfoldable pub coldcard_multisig_display_address :
      MultisigDisplayAddress m → Outcome ConvertError ColdcardMultisigDisplayAddress
  unfolding display_keys sort_keys
  coldcard_multisig_display_address address = do
    ensure address.sorted device
    keys ← display_keys address.keys
    ok (record {
      threshold = address.threshold;
      address_type = address.address_type;
      keys = sort_keys keys;
    })

-- The address type of the crate, for the function of api.rs.
abbrev pub address_type_of : Common.AddressType → Request.AddressType
address_type_of Common.p2pkh = Request.p2pkh
address_type_of Common.p2sh = Request.p2sh
address_type_of Common.p2wpkh = Request.p2wpkh
address_type_of Common.p2wsh = Request.p2wsh
address_type_of Common.p2tr = Request.p2tr
address_type_of Common.p2a = other_type

-- `map(from_address_type).unwrap_or(AF_P2WPKH)`.
unfoldable pub addr_fmt_or : Option Common.AddressType → ℕ
addr_fmt_or none = afc_pubkey + afc_segwit + afc_bech32
addr_fmt_or (some address_type) = from_address_type (address_type_of address_type)

module _ (m : Miniscript) (k : ColdcardCrates m) (b : Bitcoin) where
  unfoldable pub convert_display : DisplayAddress m → Outcome ConvertError (ColdcardCommand b)
  unfolding coldcard_multisig_display_address addr_fmt_or
  convert_display (by_path path display address_format) =
      ok (show_address path (addr_fmt_or address_format))
  convert_display (by_descriptor index change display descriptor_name) =
      ok (miniscript_address descriptor_name change index)
  convert_display (by_multisig address) = do
    shown ← coldcard_multisig_display_address m k address
    ok (show_p2sh_address shown)

  unfoldable pub convert_sign_tx :
      {Context : Type 0} → b.Psbt → Option Context → Outcome ConvertError (ColdcardCommand b)
  convert_sign_tx psbt (some context) = err missing_command_info
  convert_sign_tx psbt none = ok (Machine.sign_psbt psbt)

  unfoldable pub coldcard_command :
      {ManagementContext : Type 0}
      → Command m ManagementContext b.Psbt
      → Outcome ConvertError (ColdcardCommand b)
  unfolding coldcard_registration_payload convert_display convert_sign_tx
  coldcard_command (Common.setup options context) = err missing_command_info
  coldcard_command Common.wipe = err missing_command_info
  coldcard_command (Common.restore options context) = err missing_command_info
  coldcard_command Common.toggle_passphrase = err missing_command_info
  coldcard_command Common.backup = ok Machine.backup
  coldcard_command (Common.unlock network) = ok start_encryption
  coldcard_command Common.get_master_fingerprint = ok Machine.get_master_fingerprint
  coldcard_command (Common.get_xpub path display) = ok (Machine.get_xpub path)
  coldcard_command (Common.sign_message message path) = ok (Machine.sign_message message path)
  coldcard_command Common.get_version = ok Machine.get_version
  coldcard_command (Common.display_address shown context) = convert_display shown
  coldcard_command (Common.register_wallet name policy) = do
    payload ← coldcard_registration_payload m k name policy
    ok (Machine.register_wallet payload)
  coldcard_command (Common.sign_tx psbt context) = convert_sign_tx psbt context
