-- ===== src/Pow.antt =====
-- crates/lethe-server/src/pow.rs, with `u8::leading_zeros` written out.
pub mod Bits
use lethe_project.Prelude.{ℕ, ◌+◌, ◌==◌, Bool, [], ◌∷◌, ◌++◌, Bytes, Text, leb, utf8, if◌then◌else◌}
use lethe_project.Env.{Env}

unfoldable pub leading_zeros : ℕ → ℕ
leading_zeros b =
    if leb 128 b
    then 0
    else if leb 64 b
    then 1
    else if leb 32 b
    then 2
    else if leb 16 b
    then 3
    else if leb 8 b
    then 4
    else if leb 4 b
    then 5
    else if leb 2 b
    then 6
    else if leb 1 b
    then 7
    else 8

unfoldable pub leading_zero_bits : Bytes → ℕ
unfolding leading_zeros
leading_zero_bits [] = 0
leading_zero_bits (byte ∷ digest) =
    let rest = leading_zero_bits digest in if byte == 0 then 8 + rest else leading_zeros byte

unfoldable pub verify : Env → Bytes → Text → Bytes → ℕ → Bool
unfolding leading_zero_bits
verify env thread_id body nonce bits =
    leb bits (leading_zero_bits (env.sha256 (thread_id ++ utf8 body ++ nonce)))
