-- ===== src/Coldcard/Response/Tags.antt =====
-- bhwi/src/coldcard/api.rs: the four letters that begin a response.
use bhwi.Prelude.{ℕ, ◌≡◌, List, [], ◌∷◌, arith, ok}
use bhwi.Coldcard.Response.{
  ResponseMessage, okay, fram, error, refu, busy, biny, int1, int2, int3, mypb, asci, smrx, strx,
  tag, parse_response, split, message_in,
}

-- The letters of a message before its data.
abbrev pub tagged : ResponseMessage → List ℕ → List ℕ
tagged m bytes = let (a, b, c, d) = tag m in a ∷ b ∷ c ∷ d ∷ bytes

pub parse_response-tagged :
    (m : ResponseMessage) (bytes : List ℕ) → parse_response (tagged m bytes) ≡ ok (m, bytes)
unfolding parse_response split tag message_in
parse_response-tagged okay bytes = ground arith
parse_response-tagged fram bytes = ground arith
parse_response-tagged error bytes = ground arith
parse_response-tagged refu bytes = ground arith
parse_response-tagged busy bytes = ground arith
parse_response-tagged biny bytes = ground arith
parse_response-tagged int1 bytes = ground arith
parse_response-tagged int2 bytes = ground arith
parse_response-tagged int3 bytes = ground arith
parse_response-tagged mypb bytes = ground arith
parse_response-tagged asci bytes = ground arith
parse_response-tagged smrx bytes = ground arith
parse_response-tagged strx bytes = ground arith

letters : ℕ × ℕ × ℕ × ℕ → List ℕ
letters (a, b, c, d) = a ∷ b ∷ c ∷ d ∷ []
