-- ===== src/Jade/Errors.antt =====
-- bhwi/src/jade/mod.rs: the interpreter after an exchange that failed.
use bhwi.Prelude.{
  ℕ, ◌≡◌, ◌≢◌, ◌⊎◌, inl, inr, refl, arith, List, [], ◌++◌, Option, some, ok, err, panic, diverge,
  Returns, leb, Bool-cases,
}
use bhwi.Jade.Api.{JadeCrates}
use bhwi.Jade.{
  JadeTransmit, JadeCommand, JadeResponse, State, new, waiting_pin_server, waiting_final_handshake,
  running, getting_extended_data, JadeInterpreter, Result, request,
}
use bhwi.Jade
use bhwi.Jade.Fragments.{request_ok}
use bhwi.Jade.Safety.{
  from_response-Returns, on_auth-Returns, on_pin_server-Returns, on_final_handshake-Returns,
  read_xpub-Returns, parse_signed_psbt-Returns, on_first_fragment-Returns, registered-Returns,
  signed_message-Returns, into_result-Returns,
}
use bhwi.Jade.Exchange.{
  Outgoing, nothing, ask, to_pin_server, Handled, Exchanged, exchange, exchange_in, settle,
  settle_fragment, on_chunk, from_response, on_reply, take_fragment, due_chunk, keep_response,
}

module _ (k : JadeCrates) where
  -- No signature that the device sends is the Base64 text of nothing.
  abbrev pub NoEmptySignature : List ℕ → Type 0
  NoEmptySignature bytes =
      (text : List ℕ)
      → from_response k (k.decode_text bytes) ≡ ok text
      → k.base64_decode text ≢ some []

  on_reply-Returns :
      (network : List ℕ) (command : JadeCommand k) (bytes : List ℕ)
      → NoEmptySignature bytes
      → Returns (on_reply k network command bytes)
  unfolding on_reply
  on_reply-Returns network Jade.auth bytes h =
      grind (arith, from_response-Returns k (k.decode_auth bytes), on_auth-Returns k)
  on_reply-Returns network Jade.get_master_fingerprint bytes h =
      let key = read_xpub-Returns k bytes in ground (arith, key)
  on_reply-Returns network (Jade.get_xpub path) bytes h =
      let key = read_xpub-Returns k bytes in ground (arith, key)
  on_reply-Returns network (Jade.sign_message message path) bytes h =
      signed_message-Returns k bytes h
  on_reply-Returns network (Jade.sign_psbt psbt) bytes h =
      grind (arith, on_first_fragment-Returns k)
  on_reply-Returns network (Jade.get_receive_address place) bytes h =
      let reply = from_response-Returns k (k.decode_text bytes) in ground (arith, reply)
  on_reply-Returns network (Jade.register_descriptor name descriptor datavalues) bytes h =
      let done = registered-Returns k bytes in ground (arith, done)
  on_reply-Returns network (Jade.register_multisig name descriptor paths) bytes h =
      let done = registered-Returns k bytes in ground (arith, done)
  on_reply-Returns network Jade.get_info bytes h =
      let reply = from_response-Returns k (k.decode_info bytes) in ground (arith, reply)

  abbrev pub IsCollecting : State k → Type 0
  IsCollecting (getting_extended_data origid orig next_seqnum seqlen chunks) = Unit {0}
  IsCollecting _ = ⊥

  -- The exchange returned, and left the interpreter as it was when it failed; of one that collects
  -- fragments the state may have changed, and nothing else.
  abbrev pub Kept : JadeInterpreter k → Exchanged k → Type 0
  Kept self (self', ok transmit) = Unit {0}
  Kept self (self', err e) =
      (self' ≡ self)
      ⊎ (IsCollecting self.state
          × (self'.network ≡ self.network)
          × (self'.response ≡ self.response)
          × (self'.counter ≡ self.counter))
  Kept self (self', panic) = ⊥
  Kept self (self', diverge) = ⊥

  settle-Kept :
      (self : JadeInterpreter k) (handled : Handled k)
      → Returns handled
      → Kept self (settle k self handled)
  settle-Kept self (ok (s, response, nothing)) r = tt
  settle-Kept self (ok (s, response, ask method params)) r =
      let (t, e) = request_ok k self method params in rw e tt
  settle-Kept self (ok (s, response, to_pin_server url payload)) r = tt
  settle-Kept self (err e) r = inl refl
  settle-Kept self panic r = absurd r
  settle-Kept self diverge r = absurd r

  due_chunk-Returns : (next : ℕ) (bytes : List ℕ) → Returns (due_chunk k next bytes)
  unfolding due_chunk
  due_chunk-Returns next bytes = grind (arith, into_result-Returns {A = List ℕ})

  fragment-Kept :
      (self : JadeInterpreter k) (taken : State k × Result k (Option (JadeResponse k) × Outgoing))
      → IsCollecting self.state
      → Returns taken.1
      → Kept self (settle_fragment k self taken)
  fragment-Kept self (s, ok (response, nothing)) c r = tt
  fragment-Kept self (s, ok (response, ask method params)) c r =
      let (t, e) =
        request_ok k (keep_response k (record self { state = s }) response) method params in
      rw e tt
  fragment-Kept self (s, ok (response, to_pin_server url payload)) c r = tt
  fragment-Kept self (s, err e) c r = inr (c, refl, refl, refl)
  fragment-Kept self (s, panic) c r = absurd r
  fragment-Kept self (s, diverge) c r = absurd r

  take_fragment-Returns :
      (origid orig : List ℕ) (next_seqnum seqlen : ℕ) (chunks : List ℕ) (seqnum : ℕ)
      (chunk : List ℕ)
      → Returns (take_fragment k origid orig next_seqnum seqlen chunks seqnum chunk).1
  unfolding take_fragment
  take_fragment-Returns origid orig next_seqnum seqlen chunks seqnum chunk =
      let parsed = parse_signed_psbt-Returns k (chunks ++ chunk) in
      elim (Bool-cases (leb seqlen seqnum)) [
        | inl last ↦ rw last (ground (arith, parsed))
        | inr more ↦ rw more tt
      ]

  chunk-Kept :
      (self : JadeInterpreter k) (origid orig : List ℕ) (next_seqnum seqlen : ℕ) (chunks : List ℕ)
      (call : Result k (ℕ × List ℕ))
      → IsCollecting self.state
      → Returns call
      → Kept self (on_chunk k self (take_fragment k origid orig next_seqnum seqlen chunks) call)
  chunk-Kept self origid orig next_seqnum seqlen chunks (ok (seqnum, chunk)) c r =
      fragment-Kept self (take_fragment k origid orig next_seqnum seqlen chunks seqnum chunk) c
        (take_fragment-Returns origid orig next_seqnum seqlen chunks seqnum chunk)
  chunk-Kept self origid orig next_seqnum seqlen chunks (err e) c r = inl refl
  chunk-Kept self origid orig next_seqnum seqlen chunks panic c r = absurd r
  chunk-Kept self origid orig next_seqnum seqlen chunks diverge c r = absurd r

  exchange_in-Kept :
      (s : State k) (self : JadeInterpreter k) (bytes : List ℕ)
      → self.state ≡ s
      → NoEmptySignature bytes
      → Kept self (exchange_in k s self bytes)
  unfolding exchange_in
  exchange_in-Kept new self bytes e h = tt
  exchange_in-Kept waiting_pin_server self bytes e h =
      settle-Kept self _ (on_pin_server-Returns k bytes)
  exchange_in-Kept waiting_final_handshake self bytes e h =
      settle-Kept self _ (on_final_handshake-Returns k bytes)
  exchange_in-Kept (running command) self bytes e h =
      settle-Kept self _ (on_reply-Returns self.network command bytes h)
  exchange_in-Kept (getting_extended_data origid orig next_seqnum seqlen chunks) self bytes e h =
      chunk-Kept self origid orig next_seqnum seqlen chunks (due_chunk k next_seqnum bytes)
        (rw e tt) (due_chunk-Returns next_seqnum bytes)

-- Whatever the device or the PIN server sends, an exchange returns, as long as no text that is sent for a
-- signature is the Base64 text of nothing. When it fails, the interpreter is as it was before, unless it
-- is collecting the fragments of a PSBT: then only its state may have changed.
pub exchange-Kept :
    (k : JadeCrates) (self : JadeInterpreter k) (bytes : List ℕ)
    → NoEmptySignature k bytes
    → Kept k self (exchange k self bytes)
unfolding exchange
exchange-Kept k self bytes h = exchange_in-Kept k self.state self bytes refl h
