-- ===== src/Jade.antt =====
-- bhwi/src/jade/mod.rs: the client side of the Jade protocol. This file: the commands, the states of the
-- interpreter, and how a command starts. Texts are lists of bytes; the messages of errors are left out.
pub mod Api
pub mod Exchange
pub mod Fragments
pub mod Unlock
pub mod Safety
pub mod Errors
pub mod Convert
use bhwi.Prelude.{
  ℕ, ◌+◌, ◌%◌, ◌^◌, Bool, true, false, List, [], ◌∷◌, Option, none, some, if◌then◌else◌, Outcome,
  ok, err, panic, diverge, ok_or, ◌>>=◌,
}
use bhwi.Prelude.Text.{from_utf8}
use bhwi.Ledger.Command.{Network, bitcoin, regtest}
use bhwi.Jade.Api
use bhwi.Jade.Api.{
  JadeError, serialization, GetInfoReply, MultisigDescriptor, Method, Params, Request, JadeCrates,
  auth_user_params, get_xpub_params, sign_message_params, sign_psbt_params,
  descriptor_address_params, path_address_params, multisig_address_params,
  register_descriptor_params, register_multisig_params, no_params,
}

pub data ReceiveAddress : Type 0 where
  at_descriptor : (index : ℕ) (change : Bool) (descriptor_name : List ℕ) → ReceiveAddress
  at_path : (path variant : List ℕ) → ReceiveAddress
  at_multisig : (paths : List (List ℕ)) (multisig_name : List ℕ) → ReceiveAddress

-- The names "mainnet", "localtest" and "testnet" in ASCII.
unfoldable pub network_name : Network → List ℕ
network_name bitcoin = 109 ∷ 97 ∷ 105 ∷ 110 ∷ 110 ∷ 101 ∷ 116 ∷ []
network_name regtest = 108 ∷ 111 ∷ 99 ∷ 97 ∷ 108 ∷ 116 ∷ 101 ∷ 115 ∷ 116 ∷ []
network_name _ = 116 ∷ 101 ∷ 115 ∷ 116 ∷ 110 ∷ 101 ∷ 116 ∷ []

pub data JadeRecipient : Type 0 where
  device : JadeRecipient
  pin_server : (url : List ℕ) → JadeRecipient

pub record JadeTransmit : Type 0 where
  pub recipient : JadeRecipient
  pub payload : List ℕ

module _ (k : JadeCrates) where
  pub data JadeCommand : Type 0 where
    auth get_master_fingerprint get_info : JadeCommand
    get_xpub : (path : List ℕ) → JadeCommand
    get_receive_address : ReceiveAddress → JadeCommand
    register_descriptor :
        (descriptor_name descriptor : List ℕ) (datavalues : List (List ℕ × List ℕ)) → JadeCommand
    register_multisig :
        (multisig_name : List ℕ) (descriptor : MultisigDescriptor) (paths : List (List ℕ))
        → JadeCommand
    sign_message : (message path : List ℕ) → JadeCommand
    sign_psbt : k.Psbt → JadeCommand

  pub data JadeResponse : Type 0 where
    info : GetInfoReply → JadeResponse
    master_fingerprint : List ℕ → JadeResponse
    signature : ℕ → k.Signature → JadeResponse
    task_done registered_descriptor : JadeResponse
    xpub : k.Xpub → JadeResponse
    address : List ℕ → JadeResponse
    signed_psbt : k.Psbt → JadeResponse

  pub data State : Type 0 where
    new waiting_pin_server waiting_final_handshake : State
    running : JadeCommand → State
    getting_extended_data :
        (origid orig : List ℕ) (next_seqnum seqlen : ℕ) (chunks : List ℕ) → State

-- The interpreter, with the counter of the requests, which all interpreters of a process share.
pub record JadeInterpreter (k : JadeCrates) : Type 0 where
  pub network : List ℕ
  pub state : State k
  pub response : Option (JadeResponse k)
  pub counter : ℕ

module _ (k : JadeCrates) where
  abbrev pub Result : Type 0 → Type 0
  Result A = Outcome JadeError A

  -- `fetch_add` wraps around.
  unfoldable pub generate_request_id : JadeInterpreter k → JadeInterpreter k × ℕ
  generate_request_id self = (record self { counter = (self.counter + 1) % 2 ^ 64 }, self.counter)

  unfoldable pub request :
      JadeInterpreter k → Method → Params → JadeInterpreter k × Result JadeTransmit
  unfolding generate_request_id
  request self method params =
      let (self', id) = generate_request_id self in
      (
        self',
        (do
          payload ←
              ok_or
                (k.encode
                  (record { id_number = id; request_method = method; request_params = params }))
                serialization
          ok (record { recipient = device; payload = payload })),
      )

  -- The method and the parameters of each command.
  unfoldable pub call_of : List ℕ → JadeCommand k → Method × Params
  call_of network auth = (Api.auth_user, auth_user_params network none)
  call_of network get_master_fingerprint = (Api.get_xpub, get_xpub_params network [])
  call_of network (get_xpub path) = (Api.get_xpub, get_xpub_params network path)
  call_of network (sign_message message path) = (Api.sign_message, sign_message_params path message)
  call_of network (sign_psbt psbt) = (Api.sign_psbt, sign_psbt_params network (k.psbt_bytes psbt))
  call_of network (get_receive_address (at_descriptor index change descriptor_name)) = (
    Api.get_receive_address,
    descriptor_address_params network (if change then 1 else 0) index descriptor_name,
  )
  call_of network (get_receive_address (at_path path variant)) =
      (Api.get_receive_address, path_address_params network path variant)
  call_of network (get_receive_address (at_multisig paths multisig_name)) =
      (Api.get_receive_address, multisig_address_params network paths multisig_name)
  call_of network (register_descriptor descriptor_name descriptor datavalues) = (
    Api.register_descriptor,
    register_descriptor_params network descriptor_name descriptor datavalues,
  )
  call_of network (register_multisig multisig_name descriptor paths) =
      (Api.register_multisig, register_multisig_params network multisig_name descriptor)
  call_of network get_info = (Api.get_version_info, no_params)

  -- The command is running also when the request could not be written.
  abbrev start_call : JadeInterpreter k → JadeCommand k → JadeInterpreter k × Result JadeTransmit
  start_call self command =
      let (method, params) = call_of self.network command in
      let (self', sent) = request self method params in
      (record self' { state = running command }, sent)

  -- Only a message that is no text is refused before the state is set.
  unfoldable pub start : JadeInterpreter k → JadeCommand k → JadeInterpreter k × Result JadeTransmit
  start self (sign_message message path) =
      let started = start_call self (sign_message message path) in
      elim (from_utf8 message) [ none ↦ (self, err serialization) | some text ↦ started ]
  start self command = start_call self command

  -- `default` and `with_network`.
  unfoldable pub with_network : ℕ → Network → JadeInterpreter k
  with_network counter network = record {
    network = network_name network;
    state = new;
    response = none;
    counter = counter;
  }
