-- ===== src/Tests/Primitives.antt =====
-- A stand-in for SHA-256 with digests of 32 bytes, which tests can compute with.
use bhwi.Prelude.{ℕ, ◌+◌, ◌*◌, ◌%◌, ◌≡◌, refl, List, [], ◌∷◌, length, replicate}

checksum : ℕ → List ℕ → ℕ
checksum acc [] = acc
checksum acc (b ∷ bs) = checksum ((acc * 31 + b + 1) % 251) bs

unfoldable pub toy_sha256 : List ℕ → List ℕ
unfolding checksum
toy_sha256 bytes = checksum 7 bytes ∷ replicate 31 0

pub length-toy_sha256 : (bytes : List ℕ) → length (toy_sha256 bytes) ≡ 32
unfolding toy_sha256
length-toy_sha256 bytes = refl
