-- ===== src/Jade/Fragments.antt =====
-- bhwi/src/jade/mod.rs: a signed PSBT that comes in fragments.
use bhwi.Prelude.{
  ℕ, ◌+◌, ◌≤◌, ◌<◌, ◌≡◌, refl, sym, ap, ◌∙◌, arith, List, [], ◌∷◌, ◌++◌, none, some, length, ok,
  leb, ==_refl, true, false,
}
use mathlib.Core.List.{append_assoc, append-nil}
use bhwi.Jade.Api
use bhwi.Jade.Api.{JadeError, Reply, into_result, Request, JadeCrates, get_extended_data_params}
use bhwi.Jade.{
  JadeTransmit, JadeCommand, JadeResponse, State, running, getting_extended_data, JadeInterpreter,
  Result, request, generate_request_id,
}
use bhwi.Jade
use bhwi.Jade.Exchange.{
  exchange, exchange_in, Exchanged, take_fragment, due_chunk, parse_signed_psbt, end,
  sign_psbt_text, on_reply, on_first_fragment, ask, send, settle_fragment, settled,
}

module _ (k : JadeCrates) where
  -- The response is the fragment of this number, of `n` in all.
  abbrev pub IsFragment : List ℕ → ℕ → ℕ → List ℕ → List ℕ → Type 0
  IsFragment id n number chunk bytes =
      k.decode_bytes bytes
      ≡ some (record {
        id = id;
        seqlen = some n;
        seqnum = some number;
        result = some chunk;
        error = none;
      })

  -- The responses are the fragments from this number on.
  abbrev pub AreFragments : List ℕ → ℕ → ℕ → List (List ℕ × List ℕ) → Type 0
  AreFragments id n number [] = number ≡ n + 1
  AreFragments id n number ((chunk, bytes) ∷ rest) =
      IsFragment id n number chunk bytes × AreFragments id n (number + 1) rest

  abbrev pub chunks_of : List (List ℕ × List ℕ) → List ℕ
  chunks_of [] = []
  chunks_of ((chunk, bytes) ∷ rest) = chunk ++ chunks_of rest

  -- The request for the fragment of a number.
  abbrev pub fragment_request : JadeInterpreter k → List ℕ → ℕ → ℕ → Exchanged k
  fragment_request self origid number n =
      send k self
        (ask Api.get_extended_data (get_extended_data_params origid sign_psbt_text number n))

  -- The interpreter after the fragments; each but the last is answered with a request for the next.
  abbrev pub Collects :
      JadeInterpreter k → List ℕ → ℕ → ℕ → List (List ℕ × List ℕ) → List ℕ → k.Psbt → Type 0
  Collects self id n number [] chunks psbt = ⊥
  Collects self id n number ((chunk, bytes) ∷ []) chunks psbt =
      ((exchange k self bytes).1 ≡ ok none)
      × (end k (exchange k self bytes).0 ≡ ok (Jade.signed_psbt psbt))
  Collects self id n number ((chunk, bytes) ∷ next ∷ rest) chunks psbt =
      (exchange k self bytes
        ≡ fragment_request
            (record self {
              state = getting_extended_data id sign_psbt_text (number + 1) n (chunks ++ chunk);
            })
            id (number + 1) n)
      × Collects (exchange k self bytes).0 id n (number + 1) (next ∷ rest) (chunks ++ chunk) psbt

  pub request_ok :
      (self : JadeInterpreter k) (method : Api.Method) (params : Api.Params)
      → (t : JadeTransmit) × (request k self method params ≡ ((generate_request_id k self).0, ok t))
  unfolding request
  request_ok self method params =
      let (bytes, e) = k.encode_some (record {
        id_number = (generate_request_id k self).1;
        request_method = method;
        request_params = params;
      }) in
      (record { recipient = Jade.device; payload = bytes }, rw e refl)

  Are-length :
      (id : List ℕ) (n number : ℕ) (rest : List (List ℕ × List ℕ))
      → AreFragments id n number rest
      → number + length rest ≡ n + 1
  Are-length id n number [] h = omega arith
  Are-length id n number (f ∷ rest) (_, h) = omega (arith, Are-length id n (number + 1) rest h)

  due_chunk-IsFragment :
      (id : List ℕ) (n number : ℕ) (chunk bytes : List ℕ)
      → IsFragment id n number chunk bytes
      → due_chunk k number bytes ≡ ok (number, chunk)
  unfolding due_chunk into_result
  due_chunk-IsFragment id n number chunk bytes h = rw (h, ==_refl number) refl

  -- An exchange while fragments are collected.
  exchange_fragment :
      (self : JadeInterpreter k) (id : List ℕ) (n number : ℕ) (chunks chunk bytes : List ℕ)
      → self.state ≡ getting_extended_data id sign_psbt_text number n chunks
      → IsFragment id n number chunk bytes
      → exchange k self bytes
        ≡ settle_fragment k self (take_fragment k id sign_psbt_text number n chunks number chunk)
  unfolding exchange exchange_in
  exchange_fragment self id n number chunks chunk bytes s h =
      rw (s, due_chunk-IsFragment id n number chunk bytes h) refl

  last_fragment :
      (self : JadeInterpreter k) (id : List ℕ) (n : ℕ) (chunks chunk : List ℕ) (psbt : k.Psbt)
      → k.psbt_of_bytes (chunks ++ chunk) ≡ some psbt
      → ((settle_fragment k self (take_fragment k id sign_psbt_text n n chunks n chunk)).1
          ≡ ok none)
        × (end k (settle_fragment k self (take_fragment k id sign_psbt_text n n chunks n chunk)).0
            ≡ ok (Jade.signed_psbt psbt))
  unfolding take_fragment parse_signed_psbt end
  last_fragment self id n chunks chunk psbt h =
      let whole : leb n n ≡ true = ground arith in (rw (whole, h) refl, rw (whole, h) refl)

  next_fragment :
      (self : JadeInterpreter k) (id : List ℕ) (n number : ℕ) (chunks chunk : List ℕ)
      → number < n
      → settle_fragment k self (take_fragment k id sign_psbt_text number n chunks number chunk)
        ≡ fragment_request
            (record self {
              state = getting_extended_data id sign_psbt_text (number + 1) n (chunks ++ chunk);
            })
            id
            (number + 1)
            n
  unfolding take_fragment
  next_fragment self id n number chunks chunk h =
      let more : leb n number ≡ false = ground arith in rw more refl

  -- The state that the request for the next fragment leaves.
  fragment_request-state :
      (self : JadeInterpreter k) (origid : List ℕ) (number n : ℕ)
      → (fragment_request self origid number n).0.state ≡ self.state
  unfolding generate_request_id
  fragment_request-state self origid number n =
      let (t, e) =
        request_ok self Api.get_extended_data
          (get_extended_data_params origid sign_psbt_text number n) in
      rw e refl

  Collects-later :
      (self : JadeInterpreter k) (id : List ℕ) (n number : ℕ) (rest : List (List ℕ × List ℕ))
      (chunks : List ℕ) (psbt : k.Psbt)
      → self.state ≡ getting_extended_data id sign_psbt_text number n chunks
      → 1 ≤ length rest
      → AreFragments id n number rest
      → k.psbt_of_bytes (chunks ++ chunks_of rest) ≡ some psbt
      → Collects self id n number rest chunks psbt
  Collects-later self id n number [] chunks psbt s some_fragment h p = absurd (omega arith)
  Collects-later self id n number ((chunk, bytes) ∷ []) chunks psbt s some_fragment (h, e) p =
      let number≡n : number ≡ n = omega arith in
      let step = exchange_fragment self id n number chunks chunk bytes s h in
      let whole = rw append-nil at p in
      rw (step, number≡n) (last_fragment self id n chunks chunk psbt whole)
  Collects-later self id n number ((chunk, bytes) ∷ next ∷ rest) chunks psbt s some_fragment (h, hs)
        p =
      let later : number < n = omega (arith, Are-length id n (number + 1) (next ∷ rest) hs) in
      let joined : JadeInterpreter k = record self {
        state = getting_extended_data id sign_psbt_text (number + 1) n (chunks ++ chunk);
      } in
      let step : exchange k self bytes ≡ fragment_request joined id (number + 1) n =
        exchange_fragment self id n number chunks chunk bytes s h
        ∙ next_fragment self id n number chunks chunk later in
      let state = ap (λ out. out.0.state) step ∙ fragment_request-state joined id (number + 1) n in
      let p' = rw (sym (append_assoc chunks chunk (chunks_of (next ∷ rest)))) at p in
      (
        step,
        Collects-later (exchange k self bytes).0 id n (number + 1) (next ∷ rest) (chunks ++ chunk)
            psbt state (omega arith) hs p',
      )

  first_fragment :
      (self : JadeInterpreter k) (unsigned : k.Psbt) (id : List ℕ) (n : ℕ) (chunk bytes : List ℕ)
      → self.state ≡ running (Jade.sign_psbt unsigned)
      → 2 ≤ n
      → IsFragment id n 1 chunk bytes
      → exchange k self bytes
        ≡ settled k
            (some (getting_extended_data id sign_psbt_text 2 n chunk))
            none
            (fragment_request self id 2 n)
  unfolding exchange exchange_in on_reply on_first_fragment into_result
  first_fragment self unsigned id n chunk bytes s h f =
      let more : leb n 1 ≡ false = ground arith in rw (s, f, more) refl

  settled-state :
      (s : State k) (self : JadeInterpreter k) (origid : List ℕ) (number n : ℕ)
      → (settled k (some s) none (fragment_request self origid number n)).0.state ≡ s
  settled-state s self origid number n =
      let (t, e) =
        request_ok self Api.get_extended_data
          (get_extended_data_params origid sign_psbt_text number n) in
      rw e refl

-- When the device answers SIGN_PSBT with a PSBT in two fragments or more, numbered from one and each with
-- the number of all of them, the interpreter asks for the second fragment after the first, and after
-- each further one but the last for the next. After the last it sends nothing, and its result is the
-- PSBT that all the fragments in their order make up.
pub sign_psbt-Collects :
    (k : JadeCrates) (self : JadeInterpreter k) (unsigned signed : k.Psbt) (id : List ℕ) (n : ℕ)
    (chunk bytes : List ℕ) (rest : List (List ℕ × List ℕ))
    → self.state ≡ running (Jade.sign_psbt unsigned)
    → 2 ≤ n
    → IsFragment k id n 1 chunk bytes
    → AreFragments k id n 2 rest
    → k.psbt_of_bytes (chunk ++ chunks_of k rest) ≡ some signed
    → (exchange k self bytes
        ≡ settled k
            (some (getting_extended_data id sign_psbt_text 2 n chunk))
            none
            (fragment_request k self id 2 n))
      × Collects k (exchange k self bytes).0 id n 2 rest chunk signed
sign_psbt-Collects k self unsigned signed id n chunk bytes rest s h f fs p =
    let step = first_fragment k self unsigned id n chunk bytes s h f in
    let state =
      ap (λ out. out.0.state) step
      ∙ settled-state k (getting_extended_data id sign_psbt_text 2 n chunk) self id 2 n in
    (
      step,
      Collects-later k (exchange k self bytes).0 id n 2 rest chunk signed state
          (omega (arith, Are-length k id n 2 rest fs)) fs p,
    )
