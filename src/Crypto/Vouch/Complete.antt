-- ===== src/Crypto/Vouch/Complete.antt =====
-- `verify_vouch` of crates/lethe-server/src/crypto.rs accepts what `ringSign` of
-- client/src/lib/ringsig.ts makes.
use lethe_project.Prelude.{
  subst, length-drop-le, ◌≤◌, ◌<◌, ℕ, ◌≡◌, refl, sym, ap, ◌∙◌, false, none, some, List, ◌∷◌, ◌++◌,
  length, take, drop, take-drop, Bytes, Text, ltb, ◌==◌, arith, not, ◌||◌,
}
use lethe_project.Error.{bad_signature, ok}
use lethe_project.Env.{Env}
use lethe_project.Crypto.Vouch.{
  VouchParts, valid_point, canonical_scalar, collect_points, walk_ring, verify_vouch, or_err,
  require,
}
use lethe_project.Crypto.Vouch.Walk.{
  IsGroup, first_challenge, closed, walk-closed, closed-first, length-closed,
}
use lethe_project.Crypto.Vouch.Points.{ring_points-collect}
use lethe_project.Crypto.Vouch.Sign.{
  Scalars, ring_sign, ring_points, message_digest, vouch_with, key_image_of, build_vouch,
}

module _ (env : Env) (ops : Scalars env) where
  open env.curve use {
    Point, Scalar, decompress, compress, from_canonical_bytes, add, mul, basepoint, scalar_eq,
  }

  module _ (g : IsGroup env ops) (room_id thread_id : Bytes) (body : Text) (roster_epoch : ℕ)
      (ring : List Bytes) (signer : ℕ) (x alpha : Scalar) (random : ℕ → Scalar)
      (points : List (Point × Point)) (base : Point) (after : List (Point × Point)) where
    abbrev digest : Bytes
    digest = message_digest env ops room_id thread_id body roster_epoch ring (compress (mul x base))

    abbrev signed : VouchParts
    signed =
        let (c0, s) =
          closed env ops g digest x alpha random signer (take signer points) base after in
        record {
          room_id = room_id;
          thread_id = thread_id;
          body = body;
          roster_epoch = roster_epoch;
          ring = ring;
          key_image = compress (mul x base);
          c0 = c0;
          s = s;
        }

    built :
        ring_points env ops room_id thread_id ring ≡ some points
        → length points ≡ length ring
        → (length ring == 0 || ltb 50 (length ring)) ≡ false
        → drop signer points ≡ (mul x basepoint, base) ∷ after
        → build_vouch env ops room_id thread_id body roster_epoch ring signer x alpha random
          ≡ some signed
    unfolding build_vouch vouch_with key_image_of ring_sign
    built r l n d = rw (build_vouch, r, key_image_of, d, vouch_with, ring_sign, l, n, d) refl

    not_empty : drop signer points ≡ (mul x basepoint, base) ∷ after → 0 < length points
    not_empty d = omega (arith, length-drop-le signer points, ap length d)

    in_range :
        (ps : List (Point × Point)) (ks : List Bytes)
        → length ps ≡ length ks
        → length ks ≤ 50
        → 0 < length ps
        → (length ks == 0 || ltb 50 (length ks)) ≡ false
    in_range ps ks l n k = ground arith

    -- The test of the lengths passes.
    in_bounds :
        (n l : ℕ)
        → (n == 0 || ltb 50 n) ≡ false
        → l ≡ n
        → require (not (n == 0 || (ltb 50 n || not (l == n)))) bad_signature ≡ ok tt
    unfolding require
    in_bounds n l h e = ground arith

    -- The scalar that is sent for the first challenge is read back.
    reads_back : (c : Bytes) (f : Scalar) → c ≡ ops.to_bytes f → canonical_scalar env c ≡ ok f
    unfolding canonical_scalar or_err
    reads_back c f e = rw (e, g.canonical f) refl

    walks_round :
        drop signer points ≡ (mul x basepoint, base) ∷ after
        → walk_ring env digest
            (mul x base)
            points
            (closed env ops g digest x alpha random signer (take signer points) base after).1
            (first_challenge env ops g digest x alpha random signer (take signer points) base after)
          ≡ ok (
              first_challenge env ops g digest x alpha random signer
                (take signer points)
                base
                after)
    walks_round d =
        subst
          (λ ps.
            walk_ring env digest (mul x base) ps
              (closed env ops g digest x alpha random signer (take signer points) base after).1
              (first_challenge env ops g digest x alpha random signer (take signer points) base
                after)
            ≡ ok (
                first_challenge env ops g digest x alpha random signer (take signer points) base
                  after))
          (ap (λ ks. take signer points ++ ks) (sym d) ∙ take-drop signer points)
          (walk-closed env ops g digest x alpha random signer (take signer points) base after)

    length-signed :
        drop signer points ≡ (mul x basepoint, base) ∷ after
        → length points ≡ length ring
        → length signed.s ≡ length ring
    length-signed d l =
        length-closed env ops g digest x alpha random signer (take signer points) base after
        ∙ (ap length (ap (λ ks. take signer points ++ ks) (sym d) ∙ take-drop signer points) ∙ l)

    accepted :
        collect_points env room_id thread_id none ring ≡ ok points
        → length points ≡ length ring
        → (length ring == 0 || ltb 50 (length ring)) ≡ false
        → drop signer points ≡ (mul x basepoint, base) ∷ after
        → valid_point env (compress (mul x base)) ≡ ok (mul x base)
        → verify_vouch env signed ≡ ok tt
    unfolding verify_vouch message_digest require
    accepted c l n d k =
        rw
          (
            in_bounds (length ring) (length signed.s) n (length-signed d l),
            k,
            c,
            reads_back signed.c0 _ (
                closed-first env ops g digest x alpha random signer (take signer points) base
                  after),
            walks_round d,
            g.scalar_eq_refl _,
          )
          refl

    -- Against a ring that the server takes, a member whose key stands at its place makes a vouch, and the server
    -- accepts it, whatever the room, the thread, the text and the random scalars, where the ring has at most 50 keys
    -- and the key image is a point that the server takes.
    pub build_vouch-accepted :
        collect_points env room_id thread_id none ring ≡ ok points
        → length ring ≤ 50
        → drop signer points ≡ (mul x basepoint, base) ∷ after
        → valid_point env (compress (mul x base)) ≡ ok (mul x base)
        → (v : VouchParts) × ((build_vouch env ops room_id thread_id body roster_epoch ring signer x
                alpha random
              ≡ some v)
            × (verify_vouch env v ≡ ok tt))
    build_vouch-accepted c n d k =
        let (r, l) = ring_points-collect env ops room_id thread_id none ring points c in
        let bound : (length ring == 0 || ltb 50 (length ring)) ≡ false =
          in_range points ring l n (not_empty d) in
        (signed, (built r l bound d, accepted c l bound d k))
