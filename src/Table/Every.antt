-- ===== src/Table/Every.antt =====
-- What holds of every row of a table holds of every row after a statement.
use lethe_project.Prelude.{
  ◌≡◌, Bool, true, false, some, List, [], ◌∷◌, arith, if◌then◌else◌, All, Bool-cases, inl, inr,
  subst,
}
use lethe_project.Table.{select, first, update, delete, place, order_by}

module _ {ℓ κ} {A : Type ℓ} (P : A → Type κ) where
  pub All-select : (p : A → Bool) (xs : List A) → All P xs → All P (select p xs)
  unfolding select
  All-select p [] h = tt
  All-select p (x ∷ xs) (a, h) =
      elim (p x) as (λ b. All P (if b then x ∷ select p xs else select p xs)) [
        | true ↦ (a, All-select p xs h)
        | false ↦ All-select p xs h
      ]

  pub All-delete : (p : A → Bool) (xs : List A) → All P xs → All P (delete p xs)
  unfolding delete
  All-delete p [] h = tt
  All-delete p (x ∷ xs) (a, h) =
      elim (p x) as (λ b. All P (if b then delete p xs else x ∷ delete p xs)) [
        | true ↦ All-delete p xs h
        | false ↦ (a, All-delete p xs h)
      ]

  pub All-first : (p : A → Bool) (xs : List A) (a : A) → first p xs ≡ some a → All P xs → P a
  unfolding first
  All-first p [] a e h = ground arith
  All-first p (x ∷ xs) a e (b, h) = elim (Bool-cases (p x)) [
    | inl t ↦ subst P (ground arith) b
    | inr t ↦ All-first p xs a (ground arith) h
  ]

  pub All-update :
      (p : A → Bool) (f : A → A) (xs : List A)
      → ((x : A) → p x ≡ true → P x → P (f x))
      → All P xs
      → All P (update p f xs)
  unfolding update
  All-update p f [] k h = tt
  All-update p f (x ∷ xs) k (a, h) = elim (Bool-cases (p x)) [
    | inl t ↦ rw t (k x t a, All-update p f xs k h)
    | inr t ↦ rw t (a, All-update p f xs k h)
  ]

module _ {ℓ} {A : Type ℓ} where
  pub All-select_where {κ} :
      (P : A → Type κ) (p : A → Bool) (xs : List A)
      → All (λ x. p x ≡ true → P x) xs
      → All P (select p xs)
  unfolding select
  All-select_where P p [] h = tt
  All-select_where P p (x ∷ xs) (a, h) = elim (Bool-cases (p x)) [
    | inl t ↦ rw t (a t, All-select_where P p xs h)
    | inr t ↦ rw t (All-select_where P p xs h)
  ]

  -- A selection holds only rows that pass the test.
  pub All-select_test : (p : A → Bool) (xs : List A) → All (λ x. p x ≡ true) (select p xs)
  unfolding select
  All-select_test p [] = tt
  All-select_test p (x ∷ xs) = elim (Bool-cases (p x)) [
    | inl t ↦ rw t (t, All-select_test p xs)
    | inr t ↦ rw t (All-select_test p xs)
  ]

module _ {ℓ} {A : Type ℓ} (before : A → A → Bool) where
  pub All-place {κ} :
      (P : A → Type κ) (x : A) (ys : List A) → P x → All P ys → All P (place before x ys)
  unfolding place
  All-place P x [] a h = (a, tt)
  All-place P x (y ∷ ys) a (b, h) =
      elim (before y x) as (λ t. All P (if t then y ∷ place before x ys else x ∷ y ∷ ys)) [
        | true ↦ (b, All-place P x ys a h)
        | false ↦ (a, (b, h))
      ]

  pub All-order_by {κ} : (P : A → Type κ) (xs : List A) → All P xs → All P (order_by before xs)
  unfolding order_by
  All-order_by P [] h = tt
  All-order_by P (x ∷ xs) (a, h) = All-place P x (order_by before xs) a (All-order_by P xs h)
