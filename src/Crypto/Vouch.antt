-- ===== src/Crypto/Vouch.antt =====
-- `verify_vouch` of crates/lethe-server/src/crypto.rs: a linkable ring signature over the curve of
-- the environment.
pub mod Sign
pub mod Points
pub mod Walk
pub mod Complete
use lethe_project.Prelude.{
  ℕ, Bool, true, false, not, ◌||◌, Option, none, some, List, [], ◌∷◌, length, Bytes, Text, utf8,
  lex_lt, ltb, ◌==◌,
}
use lethe_project.Error.{
  Result, ok, err, CryptoError, bad_pubkey, bad_signature, verify_failed, ◌>>=◌, ◌>>◌,
}
use lethe_project.Env.{Env}
use lethe_project.Payload.{vouch_key_image_input, vouch_message_input, vouch_challenge_input}
use lethe_project.Crypto.{Checked}

pub record VouchParts : Type 0 where
  pub room_id : Bytes
  pub thread_id : Bytes
  pub body : Text
  pub roster_epoch : ℕ
  pub ring : List Bytes
  pub key_image : Bytes
  pub c0 : Bytes
  pub s : List Bytes

unfoldable pub require : Bool → CryptoError → Checked
require true e = ok tt
require false e = err e

unfoldable pub or_err : {A : Type 0} → Option A → CryptoError → Result CryptoError A
or_err none e = err e
or_err (some a) e = ok a

module _ (env : Env) where
  open env.curve use {
    Point, Scalar, decompress, compress, is_small_order, is_torsion_free, is_identity,
    from_canonical_bytes, from_bytes_mod_order_wide, map_to_curve, add, mul, basepoint, scalar_eq,
  }

  unfoldable pub valid_point : Bytes → Result CryptoError Point
  valid_point bytes = do
    require (length bytes == 32) bad_pubkey
    p ← or_err (decompress bytes) bad_pubkey
    require (not (is_small_order p || (not (is_torsion_free p) || is_identity p))) bad_pubkey
    ok p

  unfoldable pub canonical_scalar : Bytes → Result CryptoError Scalar
  canonical_scalar bytes = or_err (from_canonical_bytes bytes) bad_signature

  unfoldable pub follows : Option Bytes → Bytes → Bool
  follows none pk = true
  follows (some before) pk = lex_lt before pk

  -- The loop that fills `points` and `bases`; the first argument is the ring key before.
  unfoldable pub collect_points :
      Bytes → Bytes → Option Bytes → List Bytes → Result CryptoError (List (Point × Point))
  collect_points room_id thread_id before [] = ok []
  collect_points room_id thread_id before (pk ∷ ring) = do
    require (follows before pk) bad_signature
    p ← valid_point pk
    rest ← collect_points room_id thread_id (some pk) ring
    ok ((p, map_to_curve (vouch_key_image_input room_id thread_id pk)) ∷ rest)

  -- The loop along the ring, from one challenge to the next.
  unfoldable pub walk_ring :
      Bytes → Point → List (Point × Point) → List Bytes → Scalar → Result CryptoError Scalar
  walk_ring m key_image [] ss c = ok c
  walk_ring m key_image (k ∷ ks) [] c = err bad_signature
  walk_ring m key_image ((p, base) ∷ ks) (s_bytes ∷ ss) c = do
    s ← canonical_scalar s_bytes
    let l = add (mul c p) (mul s basepoint)
    let r = add (mul s base) (mul c key_image)
    let next =
        from_bytes_mod_order_wide (env.sha512 (vouch_challenge_input m (compress l) (compress r)))
    walk_ring m key_image ks ss next

  unfoldable pub verify_vouch : VouchParts → Checked
  verify_vouch v = do
    let n = length v.ring
    require (not (n == 0 || (ltb 50 n || not (length v.s == n)))) bad_signature
    key_image ← valid_point v.key_image
    points ← collect_points v.room_id v.thread_id none v.ring
    let m = env.sha512 (
        vouch_message_input v.room_id v.thread_id (env.sha256 (utf8 v.body)) v.roster_epoch v.ring
          v.key_image)
    c0 ← canonical_scalar v.c0
    c ← walk_ring m key_image points v.s c0
    require (scalar_eq c c0) verify_failed
