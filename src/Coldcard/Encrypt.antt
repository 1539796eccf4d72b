-- ===== src/Coldcard/Encrypt.antt =====
-- bhwi/src/coldcard/encrypt.rs: the encryption of the channel. The curve and the cipher are the crates
-- `k256`, `aes` and `ctr`, which are not in the repository: an interface here.
use bhwi.Prelude.{ℕ, List, ◌∷◌, Option, drop, Outcome, ok, err, ok_or, ◌>>=◌}
use bhwi.Coldcard.Response.{
  ColdcardError, encryption_not_ready, encryption_not_new, bad_public_key, bad_session_key,
}

pub record Cipher : Type 1 where
  pub Secret : Type 0
  pub PublicKey : Type 0
  pub Stream : Type 0
  -- the 65 bytes of the uncompressed public key
  pub encoded_point : Secret → List ℕ
  pub from_sec1_bytes : List ℕ → Option PublicKey
  -- the 65 bytes of the point that the two keys share, unless it is the point at infinity
  pub shared_point : Secret → PublicKey → Option (List ℕ)
  pub sha256 : List ℕ → List ℕ
  -- `Ctr64BE::new` with a nonce of sixteen zeros
  pub new_stream : List ℕ → Stream
  -- the data under the next bytes of the key stream, and the stream after them
  pub apply_keystream : Stream → List ℕ → Stream × List ℕ

pub data Engine (c : Cipher) : Type 0 where
  new : c.Secret → Engine c
  -- the stream of what is sent, and of what is received
  ready_with : c.Stream → c.Stream → Engine c

module _ (c : Cipher) where
  unfoldable pub session_key : c.Secret → c.PublicKey → Outcome ColdcardError (List ℕ)
  session_key sk pk = do
    pt ← ok_or (c.shared_point sk pk) bad_session_key
    ok (c.sha256 (drop 1 pt))

  unfoldable pub ready : Engine c → List ℕ → Outcome ColdcardError (Engine c)
  unfolding session_key
  ready (new secret_key) public_key = do
    pk ← ok_or (c.from_sec1_bytes (4 ∷ public_key)) bad_public_key
    key ← session_key secret_key pk
    ok (ready_with (c.new_stream key) (c.new_stream key))
  ready (ready_with e d) public_key = err encryption_not_new

  unfoldable pub pub_key : Engine c → Outcome ColdcardError (List ℕ)
  pub_key (new key) = ok (drop 1 (c.encoded_point key))
  pub_key (ready_with e d) = err encryption_not_new

  unfoldable pub encrypt : Engine c → List ℕ → Outcome ColdcardError (Engine c × List ℕ)
  encrypt (new key) bytes = err encryption_not_ready
  encrypt (ready_with e d) bytes =
      let (e', sent) = c.apply_keystream e bytes in ok (ready_with e' d, sent)

  unfoldable pub decrypt : Engine c → List ℕ → Outcome ColdcardError (Engine c × List ℕ)
  decrypt (new key) bytes = err encryption_not_ready
  decrypt (ready_with e d) bytes =
      let (d', received) = c.apply_keystream d bytes in ok (ready_with e d', received)
