-- ===== src/Tests/Jade.antt =====
-- The theorems on the Jade interpreter at concrete inputs.
use bhwi.Prelude.{ℕ, ◌≡◌, ◌≢◌, refl, arith, Bool, true, List, [], ◌∷◌, Option, none, some, ◌==◌, ok}
use mathlib.Core.List.{Permᴰ}
use bhwi.Jade.Convert.{multisig_name_of}
use bhwi.Jade.Convert.Names.{multisig_name_of-Perm}
use bhwi.Tests.Primitives.{toy_sha256}
use bhwi.Jade.Api
use bhwi.Jade.Api.{
  Reply, AuthUserResponse, pin_server_required, authenticated, PinParams, PinServerRequestParams,
  array, GetInfoReply, JadeCrates, pin_request_params, into_result,
}
use bhwi.Jade.{
  JadeInterpreter, State, running, waiting_final_handshake, getting_extended_data, with_network,
  network_name, pin_server,
}
use bhwi.Jade
use bhwi.Jade.Exchange.{exchange, settled, sign_psbt_text}
use bhwi.Jade.Fragments.{fragment_request, Collects, sign_psbt-Collects}
use bhwi.Jade.Unlock.{PassedOn, Unlocked, exchange-Unlocked}
use bhwi.Jade.Errors.{Kept, exchange-Kept}

abbrev reply : {A : Type 0} → List ℕ → Option ℕ → Option ℕ → A → Reply A
reply id seqlen seqnum a = record {
  id = id;
  seqlen = seqlen;
  seqnum = seqnum;
  result = some a;
  error = none;
}

abbrev server : PinServerRequestParams
server = record {
  urls = array ((104 ∷ []) ∷ []);
  http_method = [];
  accept = [];
  pin_params = record { pin_data = 9 ∷ [] };
}

-- A fragment is its number, the number of all, and the bytes.
abbrev decode_fragment : List ℕ → Option (Reply (List ℕ))
decode_fragment (number ∷ n ∷ chunk) = some (reply (1 ∷ []) (some n) (some number) chunk)
decode_fragment _ = none

abbrev decode_bool : List ℕ → Option (Reply Bool)
decode_bool (b ∷ rest) = some (reply (2 ∷ []) none none (b == 1))
decode_bool _ = none

abbrev decode_auth : List ℕ → Option (Reply AuthUserResponse)
decode_auth bytes = some (reply (3 ∷ []) none none (pin_server_required server []))

abbrev info : GetInfoReply
info = record { jade_version = []; jade_state = Api.ready; jade_networks = Api.main_only }

abbrev crates : JadeCrates
crates = record {
  Psbt = List ℕ;
  Signature = List ℕ;
  Xpub = List ℕ;
  encode = λ r. some (r.id_number ∷ []);
  decode_text = λ bytes. some (reply [] none none bytes);
  decode_bool = decode_bool;
  decode_auth = decode_auth;
  decode_info = λ bytes. some (reply [] none none info);
  decode_bytes = decode_fragment;
  pin_to_json = λ p. some p.pin_data;
  pin_of_json = λ bytes. some (record { pin_data = bytes });
  base64_decode = λ text. some (1 ∷ text);
  xpub_of_str = λ s. some s;
  fingerprint = λ s. s;
  from_compact = λ s. some s;
  psbt_bytes = λ s. s;
  psbt_of_bytes = λ s. some s;
  encode_some = λ r. (r.id_number ∷ [], refl);
}

abbrev signing_psbt : JadeInterpreter crates
signing_psbt = record {
  network = [];
  state = running (Jade.sign_psbt (5 ∷ []));
  response = none;
  counter = 1;
}

sign_psbt-Collects_example :
    (exchange crates signing_psbt (1 ∷ 2 ∷ 10 ∷ [])
      ≡ settled crates
          (some (getting_extended_data (1 ∷ []) sign_psbt_text 2 2 (10 ∷ [])))
          none
          (fragment_request crates signing_psbt (1 ∷ []) 2 2))
    × Collects crates
        (exchange crates signing_psbt (1 ∷ 2 ∷ 10 ∷ [])).0
        (1 ∷ [])
        2
        2
        ((20 ∷ [], 2 ∷ 2 ∷ 20 ∷ []) ∷ [])
        (10 ∷ [])
        (10 ∷ 20 ∷ [])
sign_psbt-Collects_example =
    sign_psbt-Collects crates signing_psbt (5 ∷ []) (10 ∷ 20 ∷ []) (1 ∷ []) 2 (10 ∷ [])
      (1 ∷ 2 ∷ 10 ∷ []) ((20 ∷ [], 2 ∷ 2 ∷ 20 ∷ []) ∷ []) refl (omega arith) refl (refl, refl) refl

abbrev unlocking : JadeInterpreter crates
unlocking = record { network = []; state = running Jade.auth; response = none; counter = 1 }

exchange-Unlocked_example :
    ((exchange crates unlocking []).1
      ≡ ok (some (record { recipient = pin_server (104 ∷ []); payload = 9 ∷ [] })))
    × PassedOn crates
        (exchange crates unlocking []).0
        (record { pin_data = 7 ∷ [] })
        (exchange crates (exchange crates unlocking []).0 (7 ∷ []))
    × Unlocked crates true
        (exchange crates (exchange crates (exchange crates unlocking []).0 (7 ∷ [])).0 (1 ∷ []))
        (exchange crates (exchange crates unlocking []).0 (7 ∷ [])).0
exchange-Unlocked_example =
    exchange-Unlocked crates unlocking [] (7 ∷ []) (1 ∷ []) (3 ∷ []) (2 ∷ []) (104 ∷ []) (9 ∷ []) []
      server (record { pin_data = 7 ∷ [] }) true refl refl refl refl refl refl

never_empty : (text : List ℕ) → some (1 ∷ text) ≢ some []
never_empty text h = absurd cc

exchange-Kept_example : Kept crates unlocking (exchange crates unlocking (1 ∷ []))
exchange-Kept_example = exchange-Kept crates unlocking (1 ∷ []) (λ text h. never_empty text)

multisig_name_of-Perm_example :
    multisig_name_of toy_sha256 (119 ∷ []) 2 ((1 ∷ [], 7 ∷ []) ∷ (2 ∷ [], []) ∷ [])
    ≡ multisig_name_of toy_sha256 (119 ∷ []) 2 ((2 ∷ [], []) ∷ (1 ∷ [], 7 ∷ []) ∷ [])
multisig_name_of-Perm_example =
    multisig_name_of-Perm toy_sha256 (119 ∷ []) 2 ((1 ∷ [], 7 ∷ []) ∷ (2 ∷ [], []) ∷ [])
      ((2 ∷ [], []) ∷ (1 ∷ [], 7 ∷ []) ∷ []) (Permᴰ.swap refl refl)
