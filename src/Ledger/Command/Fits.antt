-- ===== src/Ledger/Command/Fits.antt =====
-- bhwi/src/ledger/command.rs: the payload of a command against the single byte of its length.
use bhwi.Prelude.{
  ℕ, ◌*◌, ◌≤◌, ◌<◌, ◌≡◌, ◌↔◌, refl, arith, Bool, List, [], ◌∷◌, ◌++◌, Option, length, length-append,
  drop, get_or,
}
use bhwi.Ledger.Apdu.{ApduCommand, encode}
use bhwi.Ledger.Consensus.{Consensus}
use bhwi.Prelude.Bytes.{u32_be}
use bhwi.Ledger.Command.{
  flag, path_bytes, hmac_or_zeros, get_extended_pubkey, get_wallet_address, sign_psbt, sign_message,
}

-- What a device reads: five bytes, and as many as the last of them says, which are all that came.
abbrev pub Fits : ApduCommand → Type 0
Fits command =
    (get_or (encode command) 4 0 ≡ length command.payload)
    × (drop 5 (encode command) ≡ command.payload)

fits : (command : ApduCommand) → length command.payload < 256 → Fits command
unfolding encode
fits command h = (omega arith, refl)

length-path_bytes : (path : List ℕ) → length (path_bytes path) ≡ 4 * length path
length-path_bytes [] = refl
length-path_bytes (child ∷ path) = omega (arith, length-path_bytes path)

Fits-iff : (command : ApduCommand) → Fits command ↔ (length command.payload < 256)
unfolding encode
Fits-iff command = (λ h. omega (arith, h.0), λ h. fits command h)

-- The request for an extended key is framed as it should be exactly for paths of at most 63 levels.
pub get_extended_pubkey-Fits :
    (path : List ℕ) (display : Bool) → Fits (get_extended_pubkey path display) ↔ (length path ≤ 63)
unfolding get_extended_pubkey
get_extended_pubkey-Fits path display =
    let l = length-path_bytes path in
    let e = Fits-iff (get_extended_pubkey path display) in
    (λ h. omega (arith, e.0 h), λ h. e.1 (omega arith))

-- With an identifier and a registration code of 32 bytes, the request for an address is framed as it
-- should be.
pub get_wallet_address-Fits :
    (id : List ℕ) (hmac : Option (List ℕ)) (change : Bool) (index : ℕ) (display : Bool)
    → length id ≡ 32
    → length (hmac_or_zeros hmac) ≡ 32
    → Fits (get_wallet_address id hmac change index display)
unfolding get_wallet_address
get_wallet_address-Fits id hmac change index display h k =
    fits (get_wallet_address id hmac change index display) (
      omega (
        arith,
        length-append id (hmac_or_zeros hmac ++ (flag change ∷ u32_be index)),
        length-append (hmac_or_zeros hmac) (flag change ∷ u32_be index),
      ))

module _ (c : Consensus) where
  -- With hashes, an identifier and a registration code of 32 bytes, and the commitment to the global
  -- map of at most 73 bytes, which is a number and two hashes, the command to sign a PSBT is framed as
  -- it should be, whatever the numbers of inputs and outputs.
  pub sign_psbt-Fits :
      (global : List ℕ) (inputs : ℕ) (inputs_root : List ℕ) (outputs : ℕ) (outputs_root id : List ℕ)
      (hmac : Option (List ℕ))
      → length global ≤ 73
      → length inputs_root ≡ 32
      → length outputs_root ≡ 32
      → length id ≡ 32
      → length (hmac_or_zeros hmac) ≡ 32
      → Fits (sign_psbt c global inputs inputs_root outputs outputs_root id hmac)
  unfolding sign_psbt
  sign_psbt-Fits global inputs inputs_root outputs outputs_root id hmac g i o d h =
      let m = hmac_or_zeros hmac in
      let l1 = length-append id m in
      let l2 = length-append outputs_root (id ++ m) in
      let l3 = length-append (c.serialize outputs) (outputs_root ++ (id ++ m)) in
      let r = c.serialize outputs ++ (outputs_root ++ (id ++ m)) in
      let l4 = length-append inputs_root r in
      let l5 = length-append (c.serialize inputs) (inputs_root ++ r) in
      let l6 = length-append global (c.serialize inputs ++ (inputs_root ++ r)) in
      fits (sign_psbt c global inputs inputs_root outputs outputs_root id hmac)
        (omega (arith, l1, l2, l3, l4, l5, l6, c.serialize_short inputs, c.serialize_short outputs))

  -- With a root of 32 bytes and a path of at most 53 levels, the command to sign a message is framed as
  -- it should be, whatever the length of the message.
  pub sign_message-Fits :
      (n : ℕ) (root path : List ℕ)
      → length root ≡ 32
      → length path ≤ 53
      → Fits (sign_message c n root path)
  unfolding sign_message
  sign_message-Fits n root path h k =
      let l1 = length-append (c.serialize n) root in
      let l2 = length-append (path_bytes path) (c.serialize n ++ root) in
      fits (sign_message c n root path)
        (omega (arith, l1, l2, length-path_bytes path, c.serialize_short n))
