-- ===== src/Ledger/Wallet.antt =====
-- bhwi/src/ledger/wallet.rs: how a Ledger is told of a wallet policy.
pub mod Known
use bhwi.Prelude.{
  ℕ, ◌+◌, ◌%◌, List, [], ◌∷◌, ◌++◌, map, Option, none, some, ◌==◌, leb, if◌then◌else◌, length, take,
  get_elem?, Outcome, ok, err, ◌>>=◌, ◌>>◌, ensure, check, unwrap, ok_or, map_err,
}
use bhwi.Policy.{Miniscript, Key, format_key_info, extract_parts}
use bhwi.Ledger.Consensus.{Consensus}
use bhwi.Ledger.Merkle
use bhwi.Ledger.Merkle.{infallible}
use bhwi.Ledger.Maps.{element_hashes}
use bhwi.Ledger.Store.{DelegatedStore, empty, add_known_preimage, add_known_list}

pub data Version : Type 0 where
  v1 v2 : Version

-- `self.version as u8`.
abbrev pub version_byte : Version → ℕ
version_byte v1 = 1
version_byte v2 = 2

pub record LedgerWalletPolicy (m : Miniscript) : Type 0 where
  pub name : List ℕ
  pub version : Version
  pub policy : m.WalletPolicy

pub data WalletError (m : Miniscript) : Type 0 where
  invalid_threshold unsupported_address_type invalid_policy : WalletError m
  wallet_policy : m.WalletPolicyError → WalletError m

-- What the wallet code uses of other crates.
pub record WalletCrates : Type 1 where
  pub consensus : Consensus
  pub sha256 : List ℕ → List ℕ
  pub miniscript : Miniscript

module _ (m : Miniscript) where
  -- `WalletPolicyParts::from_policy`: the template and the texts of the keys.
  unfoldable pub from_policy : m.WalletPolicy → Outcome (WalletError m) (List ℕ × List (List ℕ))
  from_policy policy = do
    (template, keys) ← map_err wallet_policy (extract_parts m policy)
    ok (template, map (format_key_info m) keys)

  -- The child number of a hardened index.
  abbrev hardened : ℕ → ℕ
  hardened index = 0x80000000 + index

  -- The templates `tr(@0/**)`, `wpkh(@0/**)`, `sh(wpkh(@0/**))` and `pkh(@0/**)` in ASCII.
  unfoldable pub singlesig_template : ℕ → Option (List ℕ)
  singlesig_template purpose =
      if purpose == hardened 86
      then some (116 ∷ 114 ∷ 40 ∷ 64 ∷ 48 ∷ 47 ∷ 42 ∷ 42 ∷ 41 ∷ [])
      else if purpose == hardened 84
      then some (119 ∷ 112 ∷ 107 ∷ 104 ∷ 40 ∷ 64 ∷ 48 ∷ 47 ∷ 42 ∷ 42 ∷ 41 ∷ [])
      else if purpose == hardened 49
      then some
          (115 ∷ 104 ∷ 40 ∷ 119 ∷ 112 ∷ 107 ∷ 104 ∷ 40 ∷ 64 ∷ 48 ∷ 47 ∷ 42 ∷ 42 ∷ 41 ∷ 41 ∷ [])
      else if purpose == hardened 44
      then some (112 ∷ 107 ∷ 104 ∷ 40 ∷ 64 ∷ 48 ∷ 47 ∷ 42 ∷ 42 ∷ 41 ∷ [])
      else none

  -- `trim_start_matches('m')`.
  unfoldable pub trim_m : List ℕ → List ℕ
  trim_m [] = []
  trim_m (x ∷ xs) = let rest = trim_m xs in if x == 109 then rest else x ∷ xs

  unfoldable pub singlesig_wallet_policy :
      List ℕ → List ℕ → m.Xpub → Outcome (WalletError m) m.WalletPolicy
  singlesig_wallet_policy path fingerprint xpub = do
    ensure (leb 5 (length path)) invalid_policy
    check (leb 3 (length path))
    purpose ← unwrap (get_elem? path 0)
    descriptor_template ← ok_or (singlesig_template purpose) unsupported_address_type
    policy ← map_err wallet_policy (m.policy_of_str descriptor_template)
    let xpub_str =
        91
        ∷ (m.fingerprint_to_string fingerprint
            ++ (47 ∷ (trim_m (m.path_to_string (take 3 path)) ++ (93 ∷ m.xpub_to_string xpub))))
    descriptor_key ← ok_or (m.key_of_str xpub_str) invalid_policy
    map_err wallet_policy (m.set_key_info policy (descriptor_key ∷ []))

module _ (w : WalletCrates) where
  -- The template itself, or in version 2 its hash.
  abbrev pub template_field : Version → List ℕ → List ℕ
  template_field v1 template = template
  template_field v2 template = w.sha256 template

  unfoldable pub serialize :
      LedgerWalletPolicy w.miniscript → Outcome (WalletError w.miniscript) (List ℕ)
  serialize self = do
    (template, keys) ← from_policy w.miniscript self.policy
    tree ← infallible (Merkle.new w.sha256 (element_hashes w.sha256 keys))
    root ← infallible (Merkle.root_hash tree)
    ok (
        version_byte self.version
        ∷ (length self.name % 256)
        ∷ (self.name
            ++ (w.consensus.serialize (length template)
                ++ (template_field self.version template
                    ++ (w.consensus.serialize (length keys) ++ root)))))

  unfoldable pub id : LedgerWalletPolicy w.miniscript → Outcome (WalletError w.miniscript) (List ℕ)
  id self = do serialized ← serialize self; ok (w.sha256 serialized)

  unfoldable pub to_store :
      LedgerWalletPolicy w.miniscript → Outcome (WalletError w.miniscript) DelegatedStore
  to_store self = do
    (template, keys) ← from_policy w.miniscript self.policy
    serialized ← serialize self
    (s, root) ←
        infallible (add_known_list w.sha256 (add_known_preimage w.sha256 empty serialized) keys)
    ok (add_known_preimage w.sha256 s template)
