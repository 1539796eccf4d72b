-- ===== src/Ledger/Psbt.antt =====
-- bhwi/src/ledger/psbt.rs: a PSBT as the pairs of version 2. The module `serialize` of that file, copied
-- from rust-bitcoin, and the crate `bitcoin` are not modelled. What they serialise appears as its
-- bytes, except for the signatures, which are added to a PSBT while it is signed.
pub mod Signatures
use bhwi.Prelude.{
  ℕ, ◌+◌, ◌/◌, ◌≡◌, Bool, List, [], ◌∷◌, ◌++◌, map, Option, none, some, length, Outcome, ok, unwrap,
  ◌>>=◌,
}
use bhwi.Prelude.Bytes.{u32_le}
use bhwi.Ledger.Consensus.{Consensus}
use bhwi.Ledger.Yield.{Keys}

pub record PsbtCrate (c : Consensus) : Type 1 where
  pub keys : Keys
  pub public_key_bytes : keys.PublicKey → List ℕ
  pub ecdsa_bytes : keys.EcdsaSignature → List ℕ
  pub xonly_bytes : keys.XonlyPublicKey → List ℕ
  pub leaf_hash_bytes : keys.TapLeafHash → List ℕ
  pub taproot_bytes : keys.TaprootSignature → List ℕ
  -- The orders of the maps' keys: the first is lower than the second.
  pub public_key_lt : keys.PublicKey → keys.PublicKey → Bool
  pub script_key_lt :
      keys.XonlyPublicKey × keys.TapLeafHash → keys.XonlyPublicKey × keys.TapLeafHash → Bool
  -- `deserialize::<Vec<u8>>`, which reads a length and as many bytes.
  pub vec_of : List ℕ → Option (List ℕ)
  pub vec_of_serialized :
      (bytes : List ℕ) → vec_of (c.serialize (length bytes) ++ bytes) ≡ some bytes

-- `raw::Pair`: the type and the rest of the key, and the value.
pub record RawPair : Type 0 where
  pub type_value : ℕ
  pub key : List ℕ
  pub value : List ℕ

abbrev pub unkeyed : ℕ → List ℕ → RawPair
unkeyed type_value value = record { type_value = type_value; key = []; value = value }

-- The macro's `push` and `push_map`, with the field's values serialised.
abbrev pub push : Option (List ℕ) → ℕ → List RawPair
push none type_value = []
push (some value) type_value = unkeyed type_value value ∷ []

abbrev pub push_map : List (List ℕ × List ℕ) → ℕ → List RawPair
push_map [] type_value = []
push_map ((key, value) ∷ rest) type_value =
    record { type_value = type_value; key = key; value = value } ∷ push_map rest type_value

-- `u64::to_le_bytes`.
abbrev pub u64_le : ℕ → List ℕ
u64_le n = u32_le n ++ u32_le (n / 4294967296)

module _ {c : Consensus} (k : PsbtCrate c) where
  pub record Input : Type 0 where
    pub non_witness_utxo : Option (List ℕ)
    pub witness_utxo : Option (List ℕ)
    pub partial_sigs : List (k.keys.PublicKey × k.keys.EcdsaSignature)
    pub sighash_type : Option (List ℕ)
    pub redeem_script : Option (List ℕ)
    pub witness_script : Option (List ℕ)
    pub bip32_derivation : List (List ℕ × List ℕ)
    pub final_script_sig : Option (List ℕ)
    pub final_script_witness : Option (List ℕ)
    pub ripemd160_preimages : List (List ℕ × List ℕ)
    pub sha256_preimages : List (List ℕ × List ℕ)
    pub hash160_preimages : List (List ℕ × List ℕ)
    pub hash256_preimages : List (List ℕ × List ℕ)
    pub tap_key_sig : Option k.keys.TaprootSignature
    pub tap_script_sigs :
        List ((k.keys.XonlyPublicKey × k.keys.TapLeafHash) × k.keys.TaprootSignature)
    pub tap_scripts : List (List ℕ × List ℕ)
    pub tap_key_origins : List (List ℕ × List ℕ)
    pub tap_internal_key : Option (List ℕ)
    pub tap_merkle_root : Option (List ℕ)
    pub proprietary : List RawPair
    pub unknown : List RawPair

-- The previous transaction's identifier and the sequence are their bytes.
pub record TxIn : Type 0 where
  pub txid : List ℕ
  pub vout : ℕ
  pub sequence : List ℕ

pub record Output : Type 0 where
  pub redeem_script : Option (List ℕ)
  pub witness_script : Option (List ℕ)
  pub bip32_derivation : List (List ℕ × List ℕ)
  pub tap_internal_key : Option (List ℕ)
  pub tap_tree : Option (List ℕ)
  pub tap_key_origins : List (List ℕ × List ℕ)
  pub proprietary : List RawPair
  pub unknown : List RawPair

pub record TxOut : Type 0 where
  pub amount : ℕ
  pub script_pubkey : List ℕ

-- The version is the `i32` as a `u32`; the lock time is its bytes.
pub record Transaction : Type 0 where
  pub version : ℕ
  pub lock_time : List ℕ
  pub tx_inputs : List TxIn
  pub tx_outputs : List TxOut

-- Of a key in `xpub`: its bytes, the fingerprint and the path.
pub record Psbt {c : Consensus} (k : PsbtCrate c) : Type 0 where
  pub unsigned_tx : Transaction
  pub xpub : List (List ℕ × List ℕ × List ℕ)
  pub proprietary : List RawPair
  pub unknown : List RawPair
  pub inputs : List (Input k)
  pub outputs : List Output

abbrev pub path_le : List ℕ → List ℕ
path_le [] = []
path_le (child ∷ path) = u32_le child ++ path_le path

abbrev pub xpub_pairs : List (List ℕ × List ℕ × List ℕ) → List RawPair
xpub_pairs [] = []
xpub_pairs ((key, fingerprint, path) ∷ rest) =
    record { type_value = 0x01; key = key; value = fingerprint ++ path_le path } ∷ xpub_pairs rest

module _ {c : Consensus} (k : PsbtCrate c) where
  unfoldable pub get_v2_global_pairs : Psbt k → List RawPair
  get_v2_global_pairs psbt =
      xpub_pairs psbt.xpub
      ++ (unkeyed 0x03 psbt.unsigned_tx.lock_time
          ∷ unkeyed 0x04 (c.serialize (length psbt.inputs))
          ∷ unkeyed 0x05 (c.serialize (length psbt.outputs))
          ∷ unkeyed 0x02 (u32_le psbt.unsigned_tx.version)
          ∷ unkeyed 0xFB (u32_le 2)
          ∷ (psbt.proprietary ++ psbt.unknown))

  abbrev sig_bytes : List (k.keys.PublicKey × k.keys.EcdsaSignature) → List (List ℕ × List ℕ)
  sig_bytes [] = []
  sig_bytes ((key, sig) ∷ rest) = (k.public_key_bytes key, k.ecdsa_bytes sig) ∷ sig_bytes rest

  abbrev tap_sig_bytes :
      List ((k.keys.XonlyPublicKey × k.keys.TapLeafHash) × k.keys.TaprootSignature)
      → List (List ℕ × List ℕ)
  tap_sig_bytes [] = []
  tap_sig_bytes (((key, leaf_hash), sig) ∷ rest) =
      (k.xonly_bytes key ++ k.leaf_hash_bytes leaf_hash, k.taproot_bytes sig) ∷ tap_sig_bytes rest

  abbrev key_sig_bytes : Option k.keys.TaprootSignature → Option (List ℕ)
  key_sig_bytes none = none
  key_sig_bytes (some sig) = some (k.taproot_bytes sig)

  -- The pairs from the final script witness on.
  abbrev later_pairs : Input k → List RawPair
  later_pairs input =
      push input.final_script_witness 0x08
      ++ (push_map input.ripemd160_preimages 0x0a
          ++ (push_map input.sha256_preimages 0x0b
              ++ (push_map input.hash160_preimages 0x0c
                  ++ (push_map input.hash256_preimages 0x0d
                      ++ (push (key_sig_bytes input.tap_key_sig) 0x13
                          ++ (push_map (tap_sig_bytes input.tap_script_sigs) 0x14
                              ++ (push_map input.tap_scripts 0x15
                                  ++ (push_map input.tap_key_origins 0x16
                                      ++ (push input.tap_internal_key 0x17
                                          ++ (push input.tap_merkle_root 0x18
                                              ++ (input.proprietary ++ input.unknown)))))))))))

  unfoldable pub get_v2_input_pairs : Input k → TxIn → List RawPair
  get_v2_input_pairs input txin =
      push input.non_witness_utxo 0x00
      ++ (push input.witness_utxo 0x01
          ++ (push_map (sig_bytes input.partial_sigs) 0x02
              ++ (push input.sighash_type 0x03
                  ++ (push input.redeem_script 0x04
                      ++ (push input.witness_script 0x05
                          ++ (push_map input.bip32_derivation 0x06
                              ++ (push input.final_script_sig 0x07
                                  ++ (unkeyed 0x0e txin.txid
                                      ∷ unkeyed 0x0f (u32_le txin.vout)
                                      ∷ unkeyed 0x10 txin.sequence
                                      ∷ later_pairs input))))))))

  unfoldable pub get_v2_output_pairs : Output → TxOut → List RawPair
  get_v2_output_pairs output txout =
      push output.redeem_script 0x00
      ++ (push output.witness_script 0x01
          ++ (push_map output.bip32_derivation 0x02
              ++ (unkeyed 0x03 (u64_le txout.amount)
                  ∷ unkeyed 0x04 txout.script_pubkey
                  ∷ (push output.tap_internal_key 0x05
                      ++ (push output.tap_tree 0x06
                          ++ (push_map output.tap_key_origins 0x07
                              ++ (output.proprietary ++ output.unknown)))))))

  -- The key is serialised with its length, which is read off again.
  unfoldable pub deserialize_pair {μ} : {E : Type μ} → RawPair → Outcome E (List ℕ × List ℕ)
  deserialize_pair pair = do
    let key = pair.type_value ∷ pair.key
    bytes ← unwrap (k.vec_of (c.serialize (length key) ++ key))
    ok (bytes, pair.value)
