-- ===== src/Jade/Unlock.antt =====
-- bhwi/src/jade/mod.rs: the unlocking of a device with the help of the PIN server.
use bhwi.Prelude.{
  ℕ, ◌+◌, ◌%◌, ◌^◌, ◌≡◌, refl, ap, Bool, true, false, List, [], ◌∷◌, Option, none, some, ok, err,
}
use bhwi.Jade.Api
use bhwi.Jade.Api.{
  JadeError, PinServerUrls, array, object, Reply, into_result, PinParams, PinServerRequestParams,
  JadeCrates, pin_server_required, authenticated, pin_request_params, handshake_refused, Request,
}
use bhwi.Jade.{
  JadeTransmit, JadeCommand, JadeResponse, State, running, waiting_pin_server,
  waiting_final_handshake, JadeInterpreter, Result, request, generate_request_id, pin_server,
}
use bhwi.Jade
use bhwi.Jade.Exchange.{
  exchange, exchange_in, Exchanged, end, on_reply, on_auth, on_pin_server, on_final_handshake,
  from_response, server_url,
}

module _ (k : JadeCrates) where
  abbrev pub Answers : {A : Type 0} → Option (Reply A) → List ℕ → A → Type 0
  Answers decoded id a =
      decoded
      ≡ some (record { id = id; seqlen = none; seqnum = none; result = some a; error = none })

  -- The address is the first of a list, or the one that is not the onion address.
  abbrev pub FirstAddress : PinServerUrls → List ℕ → Type 0
  FirstAddress (array []) url = ⊥
  FirstAddress (array (first ∷ urls)) url = url ≡ first
  FirstAddress (object first onion) url = url ≡ first

  server_url_first :
      (urls : PinServerUrls) (url : List ℕ) → FirstAddress urls url → server_url k urls ≡ ok url
  unfolding server_url
  server_url_first (array []) url h = absurd h
  server_url_first (array (first ∷ urls)) url h = rw h refl
  server_url_first (object first onion) url h = rw h refl

  pin_server_asked :
      (self : JadeInterpreter k) (bytes id url payload onreply : List ℕ)
      (params : PinServerRequestParams)
      → self.state ≡ running Jade.auth
      → Answers (k.decode_auth bytes) id (pin_server_required params onreply)
      → server_url k params.urls ≡ ok url
      → k.pin_to_json params.pin_params ≡ some payload
      → exchange k self bytes ≡ (
        record self { state = waiting_pin_server },
        ok (some (record { recipient = pin_server url; payload = payload })),
      )
  unfolding exchange exchange_in on_reply from_response into_result on_auth
  pin_server_asked self bytes id url payload onreply params s a u p = rw (s, a, u, p) refl

  -- The `pin` request, with the number that is due, is sent to the device, whose answer is waited for.
  abbrev pub PassedOn : JadeInterpreter k → PinParams → Exchanged k → Type 0
  PassedOn self pin out =
      (bytes : List ℕ) × (k.encode (record {
        id_number = self.counter;
        request_method = Api.pin;
        request_params = pin_request_params pin;
      })
        ≡ some bytes)
      × (out ≡ (
        record {
          network = self.network;
          state = waiting_final_handshake;
          response = self.response;
          counter = (self.counter + 1) % 2 ^ 64;
        },
        ok (some (record { recipient = Jade.device; payload = bytes })),
      ))

  pin-PassedOn :
      (self : JadeInterpreter k) (bytes : List ℕ) (pin : PinParams)
      → self.state ≡ waiting_pin_server
      → k.pin_of_json bytes ≡ some pin
      → PassedOn self pin (exchange k self bytes)
  unfolding exchange exchange_in on_pin_server request generate_request_id
  pin-PassedOn self bytes pin s p =
      let (sent, e) = k.encode_some (record {
        id_number = self.counter;
        request_method = Api.pin;
        request_params = pin_request_params pin;
      }) in
      (sent, e, rw (s, p, e) refl)

  -- What the last message of the handshake leads to.
  abbrev pub Unlocked : Bool → Exchanged k → JadeInterpreter k → Type 0
  Unlocked true out self = (out.1 ≡ ok none) × (end k out.0 ≡ ok Jade.task_done)
  Unlocked false out self = out ≡ (self, err handshake_refused)

  handshake_ends :
      (self : JadeInterpreter k) (bytes id : List ℕ) (completed : Bool)
      → self.state ≡ waiting_final_handshake
      → Answers (k.decode_bool bytes) id completed
      → Unlocked completed (exchange k self bytes) self
  unfolding exchange exchange_in on_final_handshake from_response into_result end
  handshake_ends self bytes id true s a = (rw (s, a) refl, rw (s, a) refl)
  handshake_ends self bytes id false s a = rw (s, a) refl

-- A device that wants the PIN server sends the interpreter to the first address that it names, with the
-- data that it gives. What the server answers goes to the device in a `pin` request with the next number
-- of a request, and the answer of the device is waited for. When the device
-- then says that the handshake is completed, the interpreter sends nothing more and the command is
-- done; when it says no, the exchange fails and the interpreter stays as it was.
pub exchange-Unlocked :
    (k : JadeCrates) (self : JadeInterpreter k)
    (first second third id id' url payload onreply : List ℕ) (params : PinServerRequestParams)
    (pin : PinParams) (completed : Bool)
    → self.state ≡ running Jade.auth
    → Answers k (k.decode_auth first) id (pin_server_required params onreply)
    → FirstAddress k params.urls url
    → k.pin_to_json params.pin_params ≡ some payload
    → k.pin_of_json second ≡ some pin
    → Answers k (k.decode_bool third) id' completed
    → ((exchange k self first).1
        ≡ ok (some (record { recipient = pin_server url; payload = payload })))
      × PassedOn k (exchange k self first).0 pin (exchange k (exchange k self first).0 second)
      × Unlocked k completed
          (exchange k (exchange k (exchange k self first).0 second).0 third)
          (exchange k (exchange k self first).0 second).0
exchange-Unlocked k self first second third id id' url payload onreply params pin completed s a u p
      q h =
    let asked =
      pin_server_asked k self first id url payload onreply params s a
        (server_url_first k params.urls url u) p in
    let passed =
      pin-PassedOn k (exchange k self first).0 second pin (ap (λ out. out.0.state) asked) q in
    let waiting = ap (λ out. out.0.state) passed.2 in
    (
      ap (λ out. out.1) asked,
      passed,
      handshake_ends k (exchange k (exchange k self first).0 second).0 third id' completed waiting
          h,
    )
