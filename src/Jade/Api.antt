-- ===== src/Jade/Api.antt =====
-- bhwi/src/jade/api.rs: the requests and responses of a Jade. CBOR, JSON, Base64 and the crate `bitcoin`
-- are not in the repository: what they do is an interface here.
use bhwi.Prelude.{ℕ, ◌≡◌, Bool, List, [], ◌∷◌, ◌++◌, Option, none, some, Outcome, ok, err}
use bhwi.Ledger.Command.{Network, bitcoin, testnet, testnet4, signet, regtest}

-- The code is the `i32` as a `u32`.
pub record ApiError : Type 0 where
  pub code : ℕ
  pub text : Option (List ℕ)
  pub details : Option (List ℕ)

pub record Reply (A : Type 0) : Type 0 where
  pub id : List ℕ
  pub seqlen : Option ℕ
  pub seqnum : Option ℕ
  pub result : Option A
  pub error : Option ApiError

pub data JadeError : Type 0 where
  no_error_or_result cbor serialization unexpected_result handshake_refused
        unsupported_display_address :
      JadeError
  rpc : ApiError → JadeError

-- `into_result`.
unfoldable pub into_result : {A : Type 0} → Reply A → Outcome JadeError A
into_result reply = elim reply.error [
  | some e ↦ err (rpc e)
  | none ↦ elim reply.result [ some a ↦ ok a | none ↦ err no_error_or_result ]
]

pub record PinParams : Type 0 where
  pub pin_data : List ℕ

pub data PinServerUrls : Type 0 where
  array : List (List ℕ) → PinServerUrls
  object : (url onion : List ℕ) → PinServerUrls

pub record PinServerRequestParams : Type 0 where
  pub urls : PinServerUrls
  pub http_method : List ℕ
  pub accept : List ℕ
  pub pin_params : PinParams

pub data AuthUserResponse : Type 0 where
  authenticated : Bool → AuthUserResponse
  pin_server_required : (params : PinServerRequestParams) (onreply : List ℕ) → AuthUserResponse

pub data JadeState : Type 0 where
  uninit unsaved locked ready temp : JadeState

pub data JadeNetworks : Type 0 where
  main_only test_only all_networks : JadeNetworks

unfoldable pub networks_of : JadeNetworks → List Network
networks_of main_only = bitcoin ∷ []
networks_of test_only = testnet ∷ testnet4 ∷ []
networks_of all_networks = (bitcoin ∷ []) ++ ((testnet ∷ testnet4 ∷ []) ++ (signet ∷ regtest ∷ []))

pub record GetInfoReply : Type 0 where
  pub jade_version : List ℕ
  pub jade_state : JadeState
  pub jade_networks : JadeNetworks

pub record MultisigSigner : Type 0 where
  pub signer_fingerprint : List ℕ
  pub derivation : List ℕ
  pub signer_xpub : List ℕ
  pub signer_path : List ℕ

pub record MultisigDescriptor : Type 0 where
  pub multisig_variant : List ℕ
  pub is_sorted : Bool
  pub multisig_threshold : ℕ
  pub signers : List MultisigSigner
  pub master_blinding_key : Option (List ℕ)

-- The methods' names.
pub data Method : Type 0 where
  auth_user get_xpub sign_message sign_psbt get_receive_address register_descriptor
        register_multisig get_version_info pin get_extended_data :
      Method

-- The parameters, a constructor for each of the structures; the first argument of most is the name of
-- the network.
pub data Params : Type 0 where
  no_params : Params
  auth_user_params : (network : List ℕ) (epoch : Option ℕ) → Params
  get_xpub_params : (network path : List ℕ) → Params
  sign_message_params : (path message : List ℕ) → Params
  sign_psbt_params : (network psbt : List ℕ) → Params
  descriptor_address_params :
      (network : List ℕ) (branch pointer : ℕ) (descriptor_name : List ℕ) → Params
  path_address_params : (network path variant : List ℕ) → Params
  multisig_address_params :
      (network : List ℕ) (paths : List (List ℕ)) (multisig_name : List ℕ) → Params
  register_descriptor_params :
      (network descriptor_name descriptor : List ℕ) (datavalues : List (List ℕ × List ℕ)) → Params
  register_multisig_params :
      (network multisig_name : List ℕ) (descriptor : MultisigDescriptor) → Params
  pin_request_params : PinParams → Params
  get_extended_data_params : (origid orig : List ℕ) (seqnum seqlen : ℕ) → Params

-- The identifier is the number of which the text is sent.
pub record Request : Type 0 where
  pub id_number : ℕ
  pub request_method : Method
  pub request_params : Params

pub record JadeCrates : Type 1 where
  pub Psbt : Type 0
  pub Signature : Type 0
  pub Xpub : Type 0
  -- `serde_cbor::to_vec`
  pub encode : Request → Option (List ℕ)
  -- `serde_cbor::from_slice` at the types of the responses
  pub decode_text : List ℕ → Option (Reply (List ℕ))
  pub decode_bool : List ℕ → Option (Reply Bool)
  pub decode_auth : List ℕ → Option (Reply AuthUserResponse)
  pub decode_info : List ℕ → Option (Reply GetInfoReply)
  pub decode_bytes : List ℕ → Option (Reply (List ℕ))
  -- `serde_json::to_vec` and `serde_json::from_slice`
  pub pin_to_json : PinParams → Option (List ℕ)
  pub pin_of_json : List ℕ → Option PinParams
  pub base64_decode : List ℕ → Option (List ℕ)
  pub xpub_of_str : List ℕ → Option Xpub
  pub fingerprint : Xpub → List ℕ
  pub from_compact : List ℕ → Option Signature
  pub psbt_bytes : Psbt → List ℕ
  pub psbt_of_bytes : List ℕ → Option Psbt
  -- The structures of the requests can be written into memory.
  pub encode_some : (r : Request) → (bytes : List ℕ) × (encode r ≡ some bytes)
