-- ===== src/Crypto/Vouch/Sign.antt =====
-- The browser's half of a vouch: `ringSign` of client/src/lib/ringsig.ts, and what `buildVouch` of
-- client/src/lib/vouch.ts signs. The points of libsodium are those of the environment's curve; the
-- random scalars are arguments, one for each place of the ring, and `alpha`.
use lethe_project.Prelude.{
  ℕ, ◌+◌, ◌||◌, Option, none, some, List, [], ◌∷◌, ◌++◌, length, take, drop, Bytes, Text, utf8, ltb,
  ◌==◌, if◌then◌else◌,
}
use lethe_project.Env.{Env}
use lethe_project.Payload.{vouch_key_image_input, vouch_message_input, vouch_challenge_input}
use lethe_project.Crypto.Vouch.{VouchParts}

-- The arithmetic of scalars, which the server does not use
pub record Scalars (env : Env) : Type 0 where
  pub multiply : env.curve.Scalar → env.curve.Scalar → env.curve.Scalar
  pub subtract : env.curve.Scalar → env.curve.Scalar → env.curve.Scalar
  pub to_bytes : env.curve.Scalar → Bytes

module _ (env : Env) (ops : Scalars env) where
  open env.curve use {
    Point, Scalar, decompress, compress, from_bytes_mod_order_wide, map_to_curve, add, mul,
    basepoint,
  }

  unfoldable pub challenge : Bytes → Point → Point → Scalar
  challenge m l r =
      from_bytes_mod_order_wide (env.sha512 (vouch_challenge_input m (compress l) (compress r)))

  -- The loop over the places from `i` on
  unfoldable pub ring_loop :
      Bytes → Point → (ℕ → Scalar) → ℕ → List (Point × Point) → Scalar → Scalar
  unfolding challenge
  ring_loop m key_image random i [] c = c
  ring_loop m key_image random i ((p, base) ∷ ring) c = ring_loop m key_image random (i + 1) ring (
      challenge m (add (mul (random i) basepoint) (mul c p))
        (add (mul (random i) base) (mul c key_image)))

  unfoldable pub responses : (ℕ → Scalar) → ℕ → List (Point × Point) → List Bytes
  responses random i [] = []
  responses random i (k ∷ ring) = ops.to_bytes (random i) ∷ responses random (i + 1) ring

  -- The loop starts after the signer and ends before it, and passes the first place in between.
  unfoldable pub close_ring :
      Bytes
      → Point
      → Scalar
      → Scalar
      → (ℕ → Scalar)
      → ℕ
      → List (Point × Point)
      → Point
      → List (Point × Point)
      → Bytes × List Bytes
  unfolding challenge ring_loop responses
  close_ring m key_image x alpha random signer before base after =
      let c0 =
        ring_loop m key_image random (signer + 1) after
          (challenge m (mul alpha basepoint) (mul alpha base)) in
      let c = ring_loop m key_image random 0 before c0 in
      (
        ops.to_bytes c0,
        responses random 0 before
            ++ ops.to_bytes (ops.subtract alpha (ops.multiply c x))
              ∷ responses random (signer + 1) after,
      )

  -- A ring or a signer that is out of range throws.
  unfoldable pub ring_sign :
      Bytes
      → List (Point × Point)
      → ℕ
      → Scalar
      → Point
      → Scalar
      → (ℕ → Scalar)
      → Option (Bytes × List Bytes)
  unfolding close_ring
  ring_sign m ring signer x key_image alpha random =
      if length ring == 0 || ltb 50 (length ring) then none else elim (drop signer ring) [
        | [] ↦ none
        | (p, base) ∷ after ↦
            some (close_ring m key_image x alpha random signer (take signer ring) base after)
      ]

  -- Every ring key with its base; a key that is no point throws.
  unfoldable pub ring_points : Bytes → Bytes → List Bytes → Option (List (Point × Point))
  ring_points room_id thread_id [] = some []
  ring_points room_id thread_id (pk ∷ ring) = elim (decompress pk) [
    | none ↦ none
    | some p ↦ elim (ring_points room_id thread_id ring) [
      | none ↦ none
      | some rest ↦ some ((p, map_to_curve (vouch_key_image_input room_id thread_id pk)) ∷ rest)
    ]
  ]

  unfoldable pub message_digest : Bytes → Bytes → Text → ℕ → List Bytes → Bytes → Bytes
  message_digest room_id thread_id body roster_epoch ring key_image =
      env.sha512
        (vouch_message_input room_id thread_id (env.sha256 (utf8 body)) roster_epoch ring key_image)

  unfoldable pub vouch_with :
      Bytes
      → Bytes
      → Text
      → ℕ
      → List Bytes
      → ℕ
      → Scalar
      → Scalar
      → (ℕ → Scalar)
      → List (Point × Point)
      → Point
      → Option VouchParts
  unfolding ring_sign message_digest
  vouch_with room_id thread_id body roster_epoch ring signer x alpha random points key_image =
      elim (ring_sign (message_digest room_id thread_id body roster_epoch ring (compress key_image))
        points signer x key_image alpha random) [
          | none ↦ none
          | some (c0, s) ↦ some (record {
            room_id = room_id;
            thread_id = thread_id;
            body = body;
            roster_epoch = roster_epoch;
            ring = ring;
            key_image = compress key_image;
            c0 = c0;
            s = s;
          })
        ]

  unfoldable pub key_image_of : Scalar → ℕ → List (Point × Point) → Option Point
  key_image_of x signer points = elim (drop signer points) [
    | [] ↦ none
    | (p, base) ∷ after ↦ some (mul x base)
  ]

  -- The end of `buildVouch`, after its tests of the roster
  unfoldable pub build_vouch :
      Bytes → Bytes → Text → ℕ → List Bytes → ℕ → Scalar → Scalar → (ℕ → Scalar) → Option VouchParts
  unfolding ring_points vouch_with key_image_of
  build_vouch room_id thread_id body roster_epoch ring signer x alpha random =
      elim (ring_points room_id thread_id ring) [
        | none ↦ none
        | some points ↦ elim (key_image_of x signer points) [
          | none ↦ none
          | some key_image ↦
              vouch_with room_id thread_id body roster_epoch ring signer x alpha random points
                key_image
        ]
      ]
