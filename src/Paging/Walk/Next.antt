-- ===== src/Paging/Walk/Next.antt =====
-- From one page to the next: what a reader needs who keeps no more than the last key.
use lethe_project.Prelude.{
  ℕ, suc, ◌≡◌, subst, Bool, true, some, Option, List, ◌∷◌, take, drop, last, All,
}
use lethe_project.Paging.{is_after}
use lethe_project.Paging.Walk.Order.{IsSorted, AreDistinct, IsOrder}
use lethe_project.Paging.Walk.{left, row_before, after-last, left-next, left-IsSorted, left-after}

module _ {A K : Type 0} (before : K → K → Bool) (key : A → K) (o : IsOrder before) where
  -- A page before the end has a last row, and what is left after that row is what the page leaves out.
  pub page-next :
      (n : ℕ) (c : Option K) (rows : List A) (y : A) (ys : List A)
      → AreDistinct (row_before before key) rows
      → left before key o c rows ≡ y ∷ ys
      → (x : A) × ((last (take (suc n) (y ∷ ys)) ≡ some x)
          × (left before key o (some (key x)) rows ≡ drop (suc n) (y ∷ ys)))
  page-next n c rows y ys d e =
      let sorted : IsSorted (row_before before key) (y ∷ ys) =
        subst (IsSorted (row_before before key)) e (left-IsSorted before key o c rows d) in
      let passed : All (λ x. is_after before key c x ≡ true) (y ∷ ys) =
        subst (All (λ x. is_after before key c x ≡ true)) e (left-after before key o c rows) in
      let (x, (l, (t, r))) = after-last before key o n y ys sorted in
      (x, (l, left-next before key o c rows n y ys x d e passed.0 r t))
