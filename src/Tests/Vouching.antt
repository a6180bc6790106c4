-- ===== src/Tests/Vouching.antt =====
-- A vouch over the group of two elements.
use lethe_project.Prelude.{
  ◌≡◌, refl, Bool, true, false, not, ◌&&◌, some, [], ◌∷◌, Option, List, Bytes, codes, length, same,
  ◌==◌, ◌%◌, ℕ, if◌then◌else◌, arith, lex_lt, ◌≤◌,
}
use lethe_project.Error.{ok}
use lethe_project.Env.{Env, Curve}
use lethe_project.Crypto.Vouch.{VouchParts, verify_vouch, collect_points, valid_point}
use lethe_project.Crypto.Vouch.Sign.{Scalars, build_vouch}
use lethe_project.Crypto.Vouch.Walk.{IsGroup}
use lethe_project.Crypto.Vouch.Complete.{build_vouch-accepted}
use lethe_project.Tests.{fill, open_env, key}

abbrev xor : Bool → Bool → Bool
xor true b = not b
xor false b = b

abbrev bit : ℕ → Bytes → Bool
bit n [] = false
bit n (c ∷ cs) = c % 2 == n

abbrev to_bytes : Bool → Bytes
to_bytes true = fill 32 1
to_bytes false = fill 32 0

abbrev parity_curve : Curve
parity_curve = record {
  Point = Bool;
  Scalar = Bool;
  decompress = λ b. some (bit 1 b);
  compress = to_bytes;
  is_small_order = λ p. false;
  is_torsion_free = λ p. true;
  is_identity = not;
  from_canonical_bytes = λ b. some (bit 1 b);
  from_bytes_mod_order_wide = λ b. length b % 2 == 1;
  map_to_curve = λ b. true;
  add = xor;
  mul = λ c p. c && p;
  basepoint = true;
  scalar_eq = λ c d. not (xor c d);
}

abbrev parity_env : Env
parity_env = record open_env { curve = parity_curve }

abbrev parity : Scalars parity_env
parity = record { multiply = λ c d. c && d; subtract = xor; to_bytes = to_bytes }

parity-add_comm : (p q : Bool) → xor p q ≡ xor q p
parity-add_comm p q = ground arith

parity-mul_subtract : (a c p : Bool) → xor (xor a c && p) (c && p) ≡ (a && p)
parity-mul_subtract a c p = ground arith

parity-mul_multiply : (c x p : Bool) → ((c && x) && p) ≡ (c && (x && p))
parity-mul_multiply c x p = ground arith

parity-scalar_eq : (c : Bool) → not (xor c c) ≡ true
parity-scalar_eq c = ground arith

parity-bytes : (c : Bool) → some (bit 1 (to_bytes c)) ≡ some c
parity-bytes true = refl
parity-bytes false = refl

parity-IsGroup : IsGroup parity_env parity
parity-IsGroup = record {
  add_comm = parity-add_comm;
  mul_subtract = parity-mul_subtract;
  mul_multiply = parity-mul_multiply;
  scalar_eq_refl = parity-scalar_eq;
  canonical = parity-bytes;
  compressed = parity-bytes;
}

-- The keys of three members; the second one signs.
abbrev members : List Bytes
members = key 1 ∷ key 3 ∷ key 5 ∷ []

build_vouch-accepted_example :
    (v : VouchParts) × ((build_vouch parity_env parity
          (fill 16 1)
          (fill 16 2)
          (codes "hi")
          4
          members
          1
          true
          true
          (λ i. i % 2 == 0)
        ≡ some v)
      × (verify_vouch parity_env v ≡ ok tt))
unfolding collect_points lethe_project.Crypto.Vouch.require lethe_project.Crypto.Vouch.follows
    valid_point lethe_project.Crypto.Vouch.or_err lex_lt lethe_project.Prelude.drop
build_vouch-accepted_example =
    build_vouch-accepted parity_env parity parity-IsGroup (fill 16 1) (fill 16 2) (codes "hi") 4
      members 1 true true (λ i. i % 2 == 0) ((true, true) ∷ (true, true) ∷ (true, true) ∷ []) true
      ((true, true) ∷ []) refl (omega arith) refl refl
