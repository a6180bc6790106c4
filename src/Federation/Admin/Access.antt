-- ===== src/Federation/Admin/Access.antt =====
-- Who the admin handlers of crates/lethe-server/src/federation/route.rs let in.
use lethe_project.Prelude.{
  ℕ, zero, suc, ◌/◌, ◌%◌, ◌≤◌, ◌≡◌, refl, sym, ◌∙◌, true, false, Bool-cases, inl, inr, [], ◌∷◌,
  Bytes, same, same-eq, same_refl, subst, ◌==◌, arith, length,
}
use Prim.Native.Nat.{digits, differ, bit_xor, bit_or, bit_xor-bitwise, bit_or-bitwise, max}
use lethe_project.Federation.Admin.{constant_time_eq, fold_diff}

differ_zero : (a b : ℕ) → differ a b ≡ 0 → a ≡ b
differ_zero zero b h = ground arith
differ_zero (suc a) zero h = ground arith
differ_zero (suc a) (suc b) h = omega (arith, differ_zero a b h)

differ_same : (a : ℕ) → differ a a ≡ 0
differ_same zero = refl
differ_same (suc a) = differ_same a

xor-digits : (n a b : ℕ) → a ≤ n → digits (λ x. x) differ n a b ≡ 0 → a ≡ b
xor-digits zero a b l h = omega (arith, l, h)
xor-digits (suc n) zero b l h = ground arith
xor-digits (suc n) (suc a) b l h =
    let d = differ_zero (suc a % 2) (b % 2) (omega (arith, h)) in
    let r = xor-digits n (suc a / 2) (b / 2) (omega (arith, l)) (omega (arith, h)) in
    omega (arith, d, r)

xor-digits_same : (n a : ℕ) → a ≤ n → digits (λ x. x) differ n a a ≡ 0
xor-digits_same zero a l = omega (arith, l)
xor-digits_same (suc n) zero l = refl
xor-digits_same (suc n) (suc a) l =
    omega (arith, differ_same (suc a % 2), xor-digits_same n (suc a / 2) (omega (arith, l)))

or-digits : (n a b : ℕ) → a ≤ n → digits (λ x. x) max n a b ≡ 0 → (a ≡ 0) × (b ≡ 0)
or-digits zero a b l h = (omega (arith, l), h)
or-digits (suc n) zero b l h = (refl, h)
or-digits (suc n) (suc a) b l h =
    let (r, q) = or-digits n (suc a / 2) (b / 2) (omega (arith, l)) (omega (arith, h)) in
    let m : max (suc a % 2) (b % 2) ≡ 0 = omega (arith, h) in absurd (omega (arith, r, m))

xor-bitwise : (a b : ℕ) → bit_xor a b ≡ digits (λ x. x) differ a a b
xor-bitwise a b = bit_xor-bitwise a b

or-bitwise : (a b : ℕ) → bit_or a b ≡ digits (λ x. x) max a a b
or-bitwise a b = bit_or-bitwise a b

xor_zero : (a b : ℕ) → bit_xor a b ≡ 0 → a ≡ b
xor_zero a b h = xor-digits a a b (omega arith) (sym (xor-bitwise a b) ∙ h)

xor_same : (a : ℕ) → bit_xor a a ≡ 0
xor_same a = xor-bitwise a a ∙ xor-digits_same a a (omega arith)

or_zero : (a b : ℕ) → bit_or a b ≡ 0 → (a ≡ 0) × (b ≡ 0)
or_zero a b h = or-digits a a b (omega arith) (sym (or-bitwise a b) ∙ h)

fold-same :
    (acc : ℕ) (a b : Bytes)
    → length a ≡ length b
    → fold_diff acc a b ≡ 0
    → (acc ≡ 0) × (same a b ≡ true)
unfolding fold_diff same
fold-same acc [] [] l h = (h, refl)
fold-same acc [] (y ∷ ys) l h = absurd (omega (arith, l))
fold-same acc (x ∷ xs) [] l h = absurd (omega (arith, l))
fold-same acc (x ∷ xs) (y ∷ ys) l h =
    let (o, r) = fold-same (bit_or acc (bit_xor x y)) xs ys (omega (arith, l)) h in
    let (z, x_y) = or_zero acc (bit_xor x y) o in let e = xor_zero x y x_y in (z, ground arith)

fold_refl : (a : Bytes) → fold_diff 0 a a ≡ 0
unfolding fold_diff
fold_refl [] = refl
fold_refl (x ∷ xs) = rw (xor_same x) (fold_refl xs)

not-same : (a b : Bytes) → same a b ≡ false → constant_time_eq a b ≡ false
unfolding constant_time_eq
not-same a b t = elim (Bool-cases (length a == length b)) [
  | inl l ↦ let f = fold-same 0 a b (ground arith) in ground (arith, f)
  | inr l ↦ rw l refl
]

-- The comparison without an early exit is the equality of byte strings.
pub constant_time_eq-same : (a b : Bytes) → constant_time_eq a b ≡ same a b
unfolding constant_time_eq
constant_time_eq-same a b = elim (Bool-cases (same a b)) [
  | inl t ↦
      let e = same-eq a b t in
      let f = fold_refl a in
      subst (λ c. constant_time_eq a c ≡ same a c) e (rw (same_refl a, f) (ground arith))
  | inr t ↦ rw t (not-same a b t)
]
