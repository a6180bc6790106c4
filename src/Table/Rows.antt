-- ===== src/Table/Rows.antt =====
-- The laws of the tests and selections on a table.
use lethe_project.Prelude.{
  ◌+◌, ◌≤◌, ◌<◌, ◌≡◌, refl, Bool, true, false, some, List, [], ◌∷◌, ◌++◌, arith, if◌then◌else◌,
}
use lethe_project.Table.{select, first, any, count, update}

module _ {ℓ} {A : Type ℓ} where
  pub any-append : (p : A → Bool) (xs : List A) (y : A) → p y ≡ true → any p (xs ++ y ∷ []) ≡ true
  unfolding any
  any-append p [] y h = ground arith
  any-append p (x ∷ xs) y h = ground (arith, any-append p xs y h)

  pub any-append_old :
      (p : A → Bool) (xs : List A) (y : A) → p y ≡ false → any p (xs ++ y ∷ []) ≡ any p xs
  unfolding any
  any-append_old p [] y h = ground arith
  any-append_old p (x ∷ xs) y h = ground (arith, any-append_old p xs y h)

  pub count-append :
      (p : A → Bool) (xs : List A) (y : A)
      → count p (xs ++ y ∷ []) ≡ count p xs + (if p y then 1 else 0)
  unfolding count
  count-append p [] y = ground arith
  count-append p (x ∷ xs) y = ground (arith, count-append p xs y)

  pub count-update-le :
      (p q : A → Bool) (f : A → A) (xs : List A)
      → ((x : A) → q x ≡ true → p (f x) ≡ true → p x ≡ true)
      → count p (update q f xs) ≤ count p xs
  unfolding count update
  count-update-le p q f [] h = omega arith
  count-update-le p q f (x ∷ xs) h = ground (arith, count-update-le p q f xs h, h x)

  pub count-eq-zero : (p : A → Bool) (xs : List A) → any p xs ≡ false → count p xs ≡ 0
  unfolding any count
  count-eq-zero p [] h = refl
  count-eq-zero p (x ∷ xs) h = ground (arith, count-eq-zero p xs)

  pub any-of-count : (p : A → Bool) (xs : List A) → 0 < count p xs → any p xs ≡ true
  unfolding any count
  any-of-count p [] h = absurd (omega arith)
  any-of-count p (x ∷ xs) h = ground (arith, any-of-count p xs)

  pub first-eq-some : (p : A → Bool) (xs : List A) (a : A) → first p xs ≡ some a → p a ≡ true
  unfolding first
  first-eq-some p [] a h = ground arith
  first-eq-some p (x ∷ xs) a h = ground (arith, first-eq-some p xs a)

  pub any-of-first : (p : A → Bool) (xs : List A) (a : A) → first p xs ≡ some a → any p xs ≡ true
  unfolding first any
  any-of-first p [] a h = ground arith
  any-of-first p (x ∷ xs) a h = ground (arith, any-of-first p xs a)

  pub any-weaken :
      (p q : A → Bool) (xs : List A)
      → ((x : A) → p x ≡ true → q x ≡ true)
      → any p xs ≡ true
      → any q xs ≡ true
  unfolding any
  any-weaken p q [] h e = ground arith
  any-weaken p q (x ∷ xs) h e = ground (arith, any-weaken p q xs h, h x)

  pub any-update :
      (p q : A → Bool) (f : A → A) (xs : List A)
      → ((x : A) → p (f x) ≡ p x)
      → any p (update q f xs) ≡ any p xs
  unfolding any update
  any-update p q f [] h = refl
  any-update p q f (x ∷ xs) h = ground (arith, any-update p q f xs h, h x)

  -- An update that makes no row fit leaves a table with none that fits.
  pub any-update-false :
      (p q : A → Bool) (f : A → A) (xs : List A)
      → ((x : A) → p (f x) ≡ true → p x ≡ true)
      → any p xs ≡ false
      → any p (update q f xs) ≡ false
  unfolding any update
  any-update-false p q f [] h e = refl
  any-update-false p q f (x ∷ xs) h e = ground (arith, any-update-false p q f xs h, h x)

  pub any-append_mono :
      (p : A → Bool) (xs : List A) (y : A) → any p xs ≡ true → any p (xs ++ y ∷ []) ≡ true
  unfolding any
  any-append_mono p [] y h = ground arith
  any-append_mono p (x ∷ xs) y h = ground (arith, any-append_mono p xs y)

  pub first-append :
      (p : A → Bool) (xs : List A) (y a : A) → first p xs ≡ some a → first p (xs ++ y ∷ []) ≡ some a
  unfolding first
  first-append p [] y a h = ground arith
  first-append p (x ∷ xs) y a h = ground (arith, first-append p xs y a)

  pub select-append_old :
      (p : A → Bool) (xs : List A) (y : A) → p y ≡ false → select p (xs ++ y ∷ []) ≡ select p xs
  unfolding select
  select-append_old p [] y h = ground arith
  select-append_old p (x ∷ xs) y h = ground (arith, select-append_old p xs y h)

  pub select-select :
      (p q : A → Bool) (xs : List A)
      → ((x : A) → p x ≡ true → q x ≡ true)
      → select p (select q xs) ≡ select p xs
  unfolding select
  select-select p q [] h = refl
  select-select p q (x ∷ xs) h = ground (arith, select-select p q xs h, h x)
