-- ===== src/Env.antt =====
-- What the server calls and does not implement: the base64, ed25519, sha2 and curve25519 crates.
-- A clock reading and fresh random ids are arguments of the handlers that use them.
use lethe_project.Prelude.{ℕ, Bool, Option, Bytes, Text}

-- curve25519_dalek, as far as `crypto::verify_vouch` uses it
pub record Curve : Type 1 where
  pub Point : Type 0
  pub Scalar : Type 0
  pub decompress : Bytes → Option Point
  pub compress : Point → Bytes
  pub is_small_order : Point → Bool
  pub is_torsion_free : Point → Bool
  pub is_identity : Point → Bool
  pub from_canonical_bytes : Bytes → Option Scalar
  pub from_bytes_mod_order_wide : Bytes → Scalar
  -- `nonspec_map_to_curve::<Sha512>`
  pub map_to_curve : Bytes → Point
  pub add : Point → Point → Point
  pub mul : Scalar → Point → Point
  pub basepoint : Point
  pub scalar_eq : Scalar → Scalar → Bool

pub record Env : Type 1 where
  -- `URL_SAFE_NO_PAD`
  pub unb64 : Text → Option Bytes
  pub b64 : Bytes → Text
  -- `VerifyingKey::from_bytes` succeeds
  pub is_key : Bytes → Bool
  pub verify_strict : Bytes → Bytes → Bytes → Bool
  pub sha256 : Bytes → Bytes
  pub sha512 : Bytes → Bytes
  pub curve : Curve

-- A reading of the clock: seconds since 1970 as an i64, and the day, as its Julian day number.
pub record Clock : Type 0 where
  pub now_ts : ℕ
  pub today : ℕ
