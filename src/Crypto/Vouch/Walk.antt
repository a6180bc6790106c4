-- ===== src/Crypto/Vouch/Walk.antt =====
-- The walk along a ring in `verify_vouch` of crates/lethe-server/src/crypto.rs, beside the loop of
-- `ringSign` of client/src/lib/ringsig.ts.
use lethe_project.Prelude.{
  ℕ, ◌+◌, ◌≡◌, refl, ◌∙◌, true, some, List, [], ◌∷◌, ◌++◌, length, length-append, Bytes, arith,
}
use lethe_project.Error.{ok}
use lethe_project.Env.{Env}
use lethe_project.Crypto.Vouch.{canonical_scalar, walk_ring, or_err}
use lethe_project.Crypto.Vouch.Sign.{Scalars, challenge, ring_loop, responses, close_ring}

module _ (env : Env) (ops : Scalars env) where
  open env.curve use {
    Point, Scalar, decompress, compress, from_canonical_bytes, add, mul, basepoint, scalar_eq,
  }

  -- What the points and scalars of curve25519 promise
  pub record IsGroup : Type 0 where
    pub add_comm : (p q : Point) → add p q ≡ add q p
    pub mul_subtract :
        (a c : Scalar) (p : Point) → add (mul (ops.subtract a c) p) (mul c p) ≡ mul a p
    pub mul_multiply : (c x : Scalar) (p : Point) → mul (ops.multiply c x) p ≡ mul c (mul x p)
    pub scalar_eq_refl : (c : Scalar) → scalar_eq c c ≡ true
    pub canonical : (c : Scalar) → from_canonical_bytes (ops.to_bytes c) ≡ some c
    pub compressed : (p : Point) → decompress (compress p) ≡ some p

  module _ (g : IsGroup) (m : Bytes) (key_image : Point) (random : ℕ → Scalar) where
    -- One place of the ring
    walk-step :
        (p base : Point) (s c : Scalar) (ks : List (Point × Point)) (ss : List Bytes)
        → walk_ring env m key_image ((p, base) ∷ ks) (ops.to_bytes s ∷ ss) c
          ≡ walk_ring env m key_image ks ss (
              challenge env ops m
                (add (mul s basepoint) (mul c p))
                (add (mul s base) (mul c key_image)))
    unfolding walk_ring canonical_scalar or_err challenge
    walk-step p base s c ks ss = rw (g.canonical s, g.add_comm (mul c p) (mul s basepoint)) refl

    walk-loop :
        (i : ℕ) (ks : List (Point × Point)) (c : Scalar)
        → walk_ring env m key_image ks (responses env ops random i ks) c
          ≡ ok (ring_loop env ops m key_image random i ks c)
    unfolding responses ring_loop
    walk-loop i [] c = unfold walk_ring in refl
    walk-loop i ((p, base) ∷ ks) c = walk-step p base (random i) c ks _ ∙ walk-loop (i + 1) ks _

    walk-append :
        (i : ℕ) (ks rest : List (Point × Point)) (ss : List Bytes) (c : Scalar)
        → walk_ring env m key_image (ks ++ rest) (responses env ops random i ks ++ ss) c
          ≡ walk_ring env m key_image rest ss (ring_loop env ops m key_image random i ks c)
    unfolding responses ring_loop
    walk-append i [] rest ss c = refl
    walk-append i ((p, base) ∷ ks) rest ss c =
        walk-step p base (random i) c (ks ++ rest) _ ∙ walk-append (i + 1) ks rest ss _

    length-responses :
        (i : ℕ) (ks : List (Point × Point)) → length (responses env ops random i ks) ≡ length ks
    unfolding responses
    length-responses i [] = refl
    length-responses i (k ∷ ks) = omega (arith, length-responses (i + 1) ks)

  module _ (g : IsGroup) (m : Bytes) (x alpha : Scalar) (random : ℕ → Scalar) (signer : ℕ)
      (before : List (Point × Point)) (base : Point) (after : List (Point × Point)) where
    -- The challenge at the first place
    abbrev pub first_challenge : Scalar
    first_challenge =
        ring_loop env ops m (mul x base) random (signer + 1) after
          (challenge env ops m (mul alpha basepoint) (mul alpha base))

    abbrev pub closed : Bytes × List Bytes
    closed = close_ring env ops m (mul x base) x alpha random signer before base after

    -- The signer's response makes up for the challenge that comes to it.
    signer-cancels :
        (c : Scalar) (p : Point)
        → add (mul (ops.subtract alpha (ops.multiply c x)) p) (mul c (mul x p)) ≡ mul alpha p
    signer-cancels c p = rw (← g.mul_multiply c x p) (g.mul_subtract alpha (ops.multiply c x) p)

    walk-signer :
        (c : Scalar) (ss : List Bytes)
        → walk_ring env m
            (mul x base)
            ((mul x basepoint, base) ∷ after)
            (ops.to_bytes (ops.subtract alpha (ops.multiply c x)) ∷ ss)
            c
          ≡ walk_ring env m
              (mul x base)
              after
              ss
              (challenge env ops m (mul alpha basepoint) (mul alpha base))
    walk-signer c ss =
        walk-step g m (mul x base) random (mul x basepoint) base _ c after ss
        ∙ rw (signer-cancels c basepoint, signer-cancels c base) refl

    -- The walk comes back to the challenge that it starts from.
    pub walk-closed :
        walk_ring env m
          (mul x base)
          (before ++ (mul x basepoint, base) ∷ after)
          closed.1
          first_challenge
        ≡ ok first_challenge
    unfolding close_ring
    walk-closed =
        walk-append g m (mul x base) random 0 before _ _ first_challenge
        ∙ (walk-signer _ _ ∙ walk-loop g m (mul x base) random (signer + 1) after _)

    pub closed-first : closed.0 ≡ ops.to_bytes first_challenge
    unfolding close_ring
    closed-first = refl

    pub length-closed : length closed.1 ≡ length (before ++ (mul x basepoint, base) ∷ after)
    unfolding close_ring
    length-closed = omega (
      arith,
      length-append (responses env ops random 0 before)
          (ops.to_bytes _ ∷ responses env ops random (signer + 1) after),
      length-append before ((mul x basepoint, base) ∷ after),
      length-responses g m (mul x base) random 0 before,
      length-responses g m (mul x base) random (signer + 1) after,
    )
