-- ===== src/Crypto/Vouch/Points.antt =====
-- The points that `verify_vouch` of crates/lethe-server/src/crypto.rs collects are those that the
-- browser signs over.
use lethe_project.Prelude.{
  ◌≡◌, ◌∙◌, Option, none, some, List, [], ◌∷◌, length, Bytes, arith, not, ◌||◌, ◌==◌,
}
use lethe_project.Error.{ok, CryptoError, bad_pubkey, bad_signature, bind-ok}
use lethe_project.Env.{Env}
use lethe_project.Payload.{vouch_key_image_input}
use lethe_project.Crypto.Vouch.{valid_point, collect_points, or_err, require, follows}
use lethe_project.Crypto.Vouch.Sign.{Scalars, ring_points}

or_err-ok : {A : Type 0} (o : Option A) (e : CryptoError) (a : A) → or_err o e ≡ ok a → o ≡ some a
unfolding or_err
or_err-ok none e a h = ground arith
or_err-ok (some b) e a h = ground arith

module _ (env : Env) where
  open env.curve use {Point, decompress, map_to_curve, is_small_order, is_torsion_free, is_identity}

  valid_point-decompress :
      (b : Bytes) (p : Point) → valid_point env b ≡ ok p → decompress b ≡ some p
  unfolding valid_point
  valid_point-decompress b p h =
      let (u, (_, h1)) = bind-ok (require (length b == 32) bad_pubkey) _ p h in
      let (q, (d, h2)) = bind-ok (or_err (decompress b) bad_pubkey) _ p h1 in
      let (v, (_, h3)) =
        bind-ok
          (require (not (is_small_order q || (not (is_torsion_free q) || is_identity q)))
            bad_pubkey)
          (λ _. ok q) p h2 in
      or_err-ok (decompress b) bad_pubkey q d ∙ ground arith

  module _ (ops : Scalars env) (room_id thread_id : Bytes) where
    pub ring_points-collect :
        (before : Option Bytes) (ring : List Bytes) (points : List (Point × Point))
        → collect_points env room_id thread_id before ring ≡ ok points
        → (ring_points env ops room_id thread_id ring ≡ some points) × (length points ≡ length ring)
    unfolding collect_points ring_points
    ring_points-collect before [] points h = (ground arith, ground arith)
    ring_points-collect before (pk ∷ ring) points h =
        let (u, (_, h1)) = bind-ok (require (follows env before pk) bad_signature) _ points h in
        let (p, (d, h2)) = bind-ok (valid_point env pk) _ points h1 in
        let (rest, (c, h3)) =
          bind-ok (collect_points env room_id thread_id (some pk) ring)
            (λ rest. ok ((p, map_to_curve (vouch_key_image_input room_id thread_id pk)) ∷ rest))
            points h2 in
        let (r, l) = ring_points-collect (some pk) ring rest c in
        (rw (ring_points, valid_point-decompress pk p d, r) (ground arith), ground (arith, l))
