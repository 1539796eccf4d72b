-- ===== src/Jade/Safety.antt =====
-- bhwi/src/jade/mod.rs: what holds whatever the device sends.
use bhwi.Prelude.{
  ℕ, ◌≡◌, ◌≢◌, refl, arith, List, [], ◌∷◌, Option, none, some, ok, err, panic, diverge, Returns,
  ◌>>=◌, ok_or,
}
use bhwi.Jade.Api
use bhwi.Jade.Api.{JadeError, Reply, into_result, AuthUserResponse, JadeCrates}
use bhwi.Jade.{Result}
use bhwi.Jade.Exchange.{
  from_response, parse_signed_psbt, server_url, on_auth, on_pin_server, on_final_handshake,
  read_xpub, split_signature, on_signed_message, on_first_fragment, registered,
}

pub into_result-Returns : {A : Type 0} (reply : Reply A) → Returns (into_result reply)
unfolding into_result
into_result-Returns reply = ground arith

module _ (k : JadeCrates) where
  pub from_response-Returns :
      {A : Type 0} (decoded : Option (Reply A)) → Returns (from_response k decoded)
  unfolding from_response
  from_response-Returns none = tt
  from_response-Returns (some reply) = into_result-Returns reply

  pub server_url-Returns : (urls : Api.PinServerUrls) → Returns (server_url k urls)
  unfolding server_url
  server_url-Returns (Api.array []) = tt
  server_url-Returns (Api.array (url ∷ urls)) = tt
  server_url-Returns (Api.object url onion) = tt

  pub on_auth-Returns : (res : AuthUserResponse) → Returns (on_auth k res)
  unfolding on_auth
  on_auth-Returns (Api.authenticated done) = tt
  on_auth-Returns (Api.pin_server_required params onreply) =
      let url = server_url-Returns params.urls in ground (arith, url)

  pub on_pin_server-Returns : (bytes : List ℕ) → Returns (on_pin_server k bytes)
  unfolding on_pin_server
  on_pin_server-Returns bytes = ground arith

  pub on_final_handshake-Returns : (bytes : List ℕ) → Returns (on_final_handshake k bytes)
  unfolding on_final_handshake
  on_final_handshake-Returns bytes =
      let reply = from_response-Returns (k.decode_bool bytes) in ground (arith, reply)

  pub read_xpub-Returns : (bytes : List ℕ) → Returns (read_xpub k bytes)
  unfolding read_xpub
  read_xpub-Returns bytes =
      let reply = from_response-Returns (k.decode_text bytes) in ground (arith, reply)

  pub parse_signed_psbt-Returns : (bytes : List ℕ) → Returns (parse_signed_psbt k bytes)
  unfolding parse_signed_psbt
  parse_signed_psbt-Returns bytes = ground arith

  pub on_first_fragment-Returns : (res : Reply (List ℕ)) → Returns (on_first_fragment k res)
  unfolding on_first_fragment
  on_first_fragment-Returns res = grind (arith, into_result-Returns, parse_signed_psbt-Returns)

  pub registered-Returns : (bytes : List ℕ) → Returns (registered k bytes)
  unfolding registered
  registered-Returns bytes =
      let reply = from_response-Returns (k.decode_bool bytes) in ground (arith, reply)

  decoded-Returns :
      (sig : Option (List ℕ))
      → sig ≢ some []
      → Returns (ok_or sig Api.serialization >>= λ sig_bytes. split_signature k sig_bytes)
  unfolding split_signature
  decoded-Returns none h = tt
  decoded-Returns (some []) h = absurd (h refl)
  decoded-Returns (some (header ∷ bytes)) h = ground arith

  signed_text-Returns :
      (bytes : List ℕ) (call : Result k (List ℕ))
      → from_response k (k.decode_text bytes) ≡ call
      → Returns call
      → ((text : List ℕ) → call ≡ ok text → k.base64_decode text ≢ some [])
      → Returns (on_signed_message k bytes)
  unfolding on_signed_message
  signed_text-Returns bytes (ok text) e r h =
      rw e (decoded-Returns (k.base64_decode text) (h text refl))
  signed_text-Returns bytes (err why) e r h = rw e tt
  signed_text-Returns bytes panic e r h = absurd r
  signed_text-Returns bytes diverge e r h = absurd r

  pub signed_message-Returns :
      (bytes : List ℕ)
      → ((text : List ℕ)
          → from_response k (k.decode_text bytes) ≡ ok text
          → k.base64_decode text ≢ some [])
      → Returns (on_signed_message k bytes)
  signed_message-Returns bytes h =
      signed_text-Returns bytes (from_response k (k.decode_text bytes)) refl
        (from_response-Returns (k.decode_text bytes)) h
