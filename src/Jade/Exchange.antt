-- ===== src/Jade/Exchange.antt =====
-- bhwi/src/jade/mod.rs, `exchange` and `end`.
use bhwi.Prelude.{
  ℕ, ◌+◌, List, [], ◌∷◌, ◌++◌, Option, none, some, leb, ◌==◌, if◌then◌else◌, ok, err, panic,
  diverge, ensure, ok_or, ◌>>=◌, ◌>>◌,
}
use bhwi.Jade.Api
use bhwi.Jade.Api.{
  JadeError, no_error_or_result, cbor, serialization, unexpected_result, handshake_refused, rpc,
  Reply, into_result, AuthUserResponse, authenticated, pin_server_required, PinServerUrls, array,
  object, PinParams, Method, Params, JadeCrates, pin_request_params, multisig_address_params,
  get_extended_data_params, MultisigDescriptor,
}
use bhwi.Jade.{
  ReceiveAddress, at_multisig, JadeRecipient, pin_server, JadeTransmit, JadeCommand, JadeResponse,
  State, new, waiting_pin_server, waiting_final_handshake, running, getting_extended_data,
  JadeInterpreter, Result, request,
}
use bhwi.Jade

-- What is to be sent: nothing, a request to the device, or a payload for the PIN server.
pub data Outgoing : Type 0 where
  nothing : Outgoing
  ask : Method → Params → Outgoing
  to_pin_server : (url payload : List ℕ) → Outgoing

abbrev pub or_default : Option ℕ → ℕ → ℕ
or_default (some n) default = n
or_default none default = default

-- The text "sign_psbt" in ASCII.
abbrev pub sign_psbt_text : List ℕ
sign_psbt_text = 115 ∷ 105 ∷ 103 ∷ 110 ∷ 95 ∷ 112 ∷ 115 ∷ 98 ∷ 116 ∷ []

module _ (k : JadeCrates) where
  -- What a handler does: the state to go to and the response to keep, where there are such.
  abbrev pub Handled : Type 0
  Handled = Result k (Option (State k) × Option (JadeResponse k) × Outgoing)

  abbrev pub respond : JadeResponse k → Handled
  respond response = ok (none, some response, nothing)

  unfoldable pub from_response : {A : Type 0} → Option (Reply A) → Result k A
  from_response decoded = do reply ← ok_or decoded cbor; into_result reply

  unfoldable pub parse_signed_psbt : List ℕ → Result k (JadeResponse k)
  parse_signed_psbt bytes = do
    psbt ← ok_or (k.psbt_of_bytes bytes) serialization
    ok (Jade.signed_psbt psbt)

  unfoldable pub server_url : PinServerUrls → Result k (List ℕ)
  server_url (array []) = err unexpected_result
  server_url (array (url ∷ urls)) = ok url
  server_url (object url onion) = ok url

  unfoldable pub on_auth : AuthUserResponse → Handled
  on_auth (authenticated done) = respond Jade.task_done
  on_auth (pin_server_required params onreply) = do
    url ← server_url params.urls
    payload ← ok_or (k.pin_to_json params.pin_params) serialization
    ok (some waiting_pin_server, none, to_pin_server url payload)

  unfoldable pub on_pin_server : List ℕ → Handled
  on_pin_server bytes = do
    pin_params ← ok_or (k.pin_of_json bytes) serialization
    ok (some waiting_final_handshake, none, ask Api.pin (pin_request_params pin_params))

  unfoldable pub on_final_handshake : List ℕ → Handled
  on_final_handshake bytes = do
    handshake_completed ← from_response (k.decode_bool bytes)
    ensure handshake_completed handshake_refused
    respond Jade.task_done

  unfoldable pub read_xpub : List ℕ → Result k k.Xpub
  read_xpub bytes = do
    text ← from_response (k.decode_text bytes)
    ok_or (k.xpub_of_str text) serialization

  -- `sig_bytes[1..]` and `sig_bytes[0]` panic on no bytes.
  unfoldable pub split_signature : List ℕ → Handled
  split_signature [] = panic
  split_signature (header ∷ bytes) = do
    sig ← ok_or (k.from_compact bytes) serialization
    respond (Jade.signature header sig)

  unfoldable pub on_signed_message : List ℕ → Handled
  on_signed_message bytes = do
    text ← from_response (k.decode_text bytes)
    sig_bytes ← ok_or (k.base64_decode text) serialization
    split_signature sig_bytes

  unfoldable pub on_first_fragment : Reply (List ℕ) → Handled
  on_first_fragment res = do
    chunk ← into_result res
    let seqnum = or_default res.seqnum 1
    let seqlen = or_default res.seqlen 1
    let whole = (do response ← parse_signed_psbt chunk; respond response)
    ensure (seqnum == 1) unexpected_result
    if leb seqlen 1
        then whole
        else ok (
          some (getting_extended_data res.id sign_psbt_text (seqnum + 1) seqlen chunk),
          none,
          ask Api.get_extended_data
              (get_extended_data_params res.id sign_psbt_text (seqnum + 1) seqlen),
        )

  -- `!registered` is an error.
  unfoldable pub registered : List ℕ → Result k (Unit {0})
  registered bytes = do
    answer ← from_response (k.decode_bool bytes)
    ensure answer unexpected_result

  unfoldable pub on_reply : List ℕ → JadeCommand k → List ℕ → Handled
  on_reply network Jade.auth bytes = do res ← from_response (k.decode_auth bytes); on_auth res
  on_reply network Jade.get_master_fingerprint bytes = do
    key ← read_xpub bytes
    respond (Jade.master_fingerprint (k.fingerprint key))
  on_reply network (Jade.get_xpub path) bytes = do key ← read_xpub bytes; respond (Jade.xpub key)
  on_reply network (Jade.sign_message message path) bytes = on_signed_message bytes
  on_reply network (Jade.sign_psbt psbt) bytes = do
    res ← ok_or (k.decode_bytes bytes) cbor
    on_first_fragment res
  on_reply network (Jade.get_receive_address place) bytes = do
    text ← from_response (k.decode_text bytes)
    respond (Jade.address text)
  on_reply network (Jade.register_descriptor name descriptor datavalues) bytes = do
    done ← registered bytes
    respond Jade.registered_descriptor
  on_reply network (Jade.register_multisig multisig_name descriptor paths) bytes = do
    done ← registered bytes
    ok (
      some (running (Jade.get_receive_address (at_multisig paths multisig_name))),
      none,
      ask Api.get_receive_address (multisig_address_params network paths multisig_name),
    )
  on_reply network Jade.get_info bytes = do
    info ← from_response (k.decode_info bytes)
    respond (Jade.info info)

  -- The loop over the later fragments: the state, which changes before the fragments are parsed and
  -- before the next is asked for, and the result.
  unfoldable pub take_fragment :
      (origid orig : List ℕ) (next_seqnum seqlen : ℕ) (chunks : List ℕ)
      → ℕ
      → List ℕ
      → State k × Result k (Option (JadeResponse k) × Outgoing)
  take_fragment origid orig next_seqnum seqlen chunks seqnum chunk =
      let whole = do response ← parse_signed_psbt (chunks ++ chunk); ok (some response, nothing)
      in let last : State k × Result k (Option (JadeResponse k) × Outgoing) =
          (getting_extended_data origid orig next_seqnum seqlen (chunks ++ chunk), whole) in
        if leb seqlen seqnum then last else (
          getting_extended_data origid orig (seqnum + 1) seqlen (chunks ++ chunk),
          ok (
            none,
            ask Api.get_extended_data (get_extended_data_params origid orig (seqnum + 1) seqlen),
          ),
        )

  -- The chunk of a fragment that has the number which is due.
  unfoldable pub due_chunk : ℕ → List ℕ → Result k (ℕ × List ℕ)
  due_chunk next_seqnum bytes = do
    res ← ok_or (k.decode_bytes bytes) cbor
    chunk ← into_result res
    let seqnum = or_default res.seqnum next_seqnum
    ensure (seqnum == next_seqnum) unexpected_result
    ok (seqnum, chunk)

  abbrev pub Exchanged : Type 0
  Exchanged = JadeInterpreter k × Result k (Option JadeTransmit)

  abbrev pub sent : JadeInterpreter k × Result k JadeTransmit → Exchanged
  sent (self, ok transmit) = (self, ok (some transmit))
  sent (self, err e) = (self, err e)
  sent (self, panic) = (self, panic)
  sent (self, diverge) = (self, diverge)

  abbrev pub send : JadeInterpreter k → Outgoing → Exchanged
  send self nothing = (self, ok none)
  send self (ask method params) = sent (request k self method params)
  send self (to_pin_server url payload) =
      (self, ok (some (record { recipient = pin_server url; payload = payload })))

  abbrev pub keep_response : JadeInterpreter k → Option (JadeResponse k) → JadeInterpreter k
  keep_response self none = self
  keep_response self (some response) = record self { response = some response }

  abbrev pub keep_state : JadeInterpreter k → Option (State k) → JadeInterpreter k
  keep_state self none = self
  keep_state self (some s) = record self { state = s }

  -- The new state and the response are kept when the request has been made.
  abbrev pub settled : Option (State k) → Option (JadeResponse k) → Exchanged → Exchanged
  settled s response (self, ok transmit) = (keep_response (keep_state self s) response, ok transmit)
  settled s response (self, err e) = (self, err e)
  settled s response (self, panic) = (self, panic)
  settled s response (self, diverge) = (self, diverge)

  abbrev pub settle : JadeInterpreter k → Handled → Exchanged
  settle self (ok (s, response, outgoing)) = settled s response (send self outgoing)
  settle self (err e) = (self, err e)
  settle self panic = (self, panic)
  settle self diverge = (self, diverge)

  abbrev pub settle_fragment :
      JadeInterpreter k → State k × Result k (Option (JadeResponse k) × Outgoing) → Exchanged
  settle_fragment self (s, ok (response, outgoing)) =
      send (keep_response (record self { state = s }) response) outgoing
  settle_fragment self (s, err e) = (record self { state = s }, err e)
  settle_fragment self (s, panic) = (record self { state = s }, panic)
  settle_fragment self (s, diverge) = (record self { state = s }, diverge)

  abbrev pub on_chunk :
      JadeInterpreter k
      → (ℕ → List ℕ → State k × Result k (Option (JadeResponse k) × Outgoing))
      → Result k (ℕ × List ℕ)
      → Exchanged
  on_chunk self taken (ok (seqnum, chunk)) = settle_fragment self (taken seqnum chunk)
  on_chunk self taken (err e) = (self, err e)
  on_chunk self taken panic = (self, panic)
  on_chunk self taken diverge = (self, diverge)

  unfoldable pub exchange_in : State k → JadeInterpreter k → List ℕ → Exchanged
  exchange_in (getting_extended_data origid orig next_seqnum seqlen chunks) self bytes =
      on_chunk self (take_fragment origid orig next_seqnum seqlen chunks)
        (due_chunk next_seqnum bytes)
  exchange_in new self bytes = (self, ok none)
  exchange_in waiting_pin_server self bytes = settle self (on_pin_server bytes)
  exchange_in waiting_final_handshake self bytes = settle self (on_final_handshake bytes)
  exchange_in (running command) self bytes = settle self (on_reply self.network command bytes)

  unfoldable pub exchange : JadeInterpreter k → List ℕ → Exchanged
  exchange self bytes = exchange_in self.state self bytes

  unfoldable pub end : JadeInterpreter k → Result k (JadeResponse k)
  end self = ok_or self.response no_error_or_result
