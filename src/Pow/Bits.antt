-- ===== src/Pow/Bits.antt =====
-- The bit count of a digest, bit by bit.
use lethe_project.Prelude.{
  ℕ, suc, ◌+◌, ◌≤◌, ◌↔◌, ◌/◌, ◌%◌, ◌<◌, ◌≡◌, refl, ◌==◌, Bool, true, false, List, [], ◌∷◌, ◌++◌,
  Bytes, Text, leb, if◌then◌else◌, arith, All, utf8,
}
use lethe_project.Env.{Env}
use lethe_project.Pow.{leading_zeros, leading_zero_bits, verify}

unfoldable pub bit : ℕ → ℕ → Bool
bit b weight = (b / weight) % 2 == 1

abbrev pub bits : ℕ → List Bool
bits b = bit b 128 ∷ bit b 64 ∷ bit b 32 ∷ bit b 16 ∷ bit b 8 ∷ bit b 4 ∷ bit b 2 ∷ bit b 1 ∷ []

-- The bits of a byte string, the highest bit of the first byte first
abbrev pub all_bits : Bytes → List Bool
all_bits [] = []
all_bits (b ∷ bs) = bits b ++ all_bits bs

-- How many bits there are before the first that is set
abbrev pub zeros : List Bool → ℕ
zeros [] = 0
zeros (true ∷ bs) = 0
zeros (false ∷ bs) = suc (zeros bs)

-- Below twice its weight, a bit is set exactly from its weight on.
bit-leb :
    (b : ℕ)
    → (b < 256 → bit b 128 ≡ leb 128 b)
      × (b < 128 → bit b 64 ≡ leb 64 b)
      × (b < 64 → bit b 32 ≡ leb 32 b)
      × (b < 32 → bit b 16 ≡ leb 16 b)
      × (b < 16 → bit b 8 ≡ leb 8 b)
      × (b < 8 → bit b 4 ≡ leb 4 b)
      × (b < 4 → bit b 2 ≡ leb 2 b)
      × (b < 2 → bit b 1 ≡ leb 1 b)
unfolding bit
bit-leb b = (
  λ h. ground arith,
  λ h. ground arith,
  λ h. ground arith,
  λ h. ground arith,
  λ h. ground arith,
  λ h. ground arith,
  λ h. ground arith,
  λ h. ground arith,
)

byte-zeros :
    (b : ℕ) (rest : List Bool)
    → b < 256
    → zeros (bits b ++ rest) ≡ (if b == 0 then 8 + zeros rest else leading_zeros b)
unfolding leading_zeros
byte-zeros b rest h = let (h128, h64, h32, h16, h8, h4, h2, h1) = bit-leb b in ground arith

leading_zero_bits-zeros :
    (digest : Bytes)
    → All (λ b. b < 256) digest
    → leading_zero_bits digest ≡ zeros (all_bits digest)
unfolding leading_zero_bits
leading_zero_bits-zeros [] h = refl
leading_zero_bits-zeros (b ∷ bs) (lt, h) =
    ground (arith, byte-zeros b (all_bits bs) lt, leading_zero_bits-zeros bs h)

-- Where the digest consists of bytes, a nonce passes exactly if the digest of the thread id, the body
-- and the nonce begins with at least the number of zero bits that is asked for.
pub verify_iff :
    (env : Env) (thread_id : Bytes) (body : Text) (nonce : Bytes) (asked : ℕ)
    → All (λ b. b < 256) (env.sha256 (thread_id ++ utf8 body ++ nonce))
    → (verify env thread_id body nonce asked ≡ true)
      ↔ (asked ≤ zeros (all_bits (env.sha256 (thread_id ++ utf8 body ++ nonce))))
unfolding verify
verify_iff env thread_id body nonce asked h =
    ground (arith, leading_zero_bits-zeros (env.sha256 (thread_id ++ utf8 body ++ nonce)) h)
