-- ===== src/Paging.antt =====
-- `ORDER BY … LIMIT` after a cursor: the queries that db/federation.rs, db/post_removals.rs,
-- db/feed.rs and db/moderation.rs of crates/lethe-server/src repeat.
pub mod Walk
pub mod Keys
use lethe_project.Prelude.{
  ℕ, Bool, true, false, ◌&&◌, ◌||◌, Option, none, some, List, Bytes, take, ltb, ◌==◌, lex_lt,
}
use lethe_project.Table.{select, order_by}
use lethe_project.Db.{Date}

-- An i32, which may be negative
pub data ℤ : Type 0 where
  pos negsuc : ℕ → ℤ

unfoldable pub ltz : ℤ → ℤ → Bool
ltz (pos a) (pos b) = ltb a b
ltz (pos a) (negsuc b) = false
ltz (negsuc a) (pos b) = true
ltz (negsuc a) (negsuc b) = ltb b a

unfoldable pub same_day : ℤ → ℤ → Bool
same_day (pos a) (pos b) = a == b
same_day (negsuc a) (negsuc b) = a == b
same_day _ _ = false

-- `(d, i) < (e, j)` on a DATE and an id
unfoldable pub earlier : ℤ × Bytes → ℤ × Bytes → Bool
unfolding ltz same_day
earlier (d, i) (e, j) = ltz d e || (same_day d e && lex_lt i j)

unfoldable pub later : Date × Bytes → Date × Bytes → Bool
later (d, i) (e, j) = ltb e d || (d == e && lex_lt j i)

module _ {A K : Type 0} (before : K → K → Bool) (key : A → K) where
  unfoldable pub is_after : Option K → A → Bool
  is_after none a = true
  is_after (some c) a = before c (key a)

  unfoldable pub in_order : List A → List A
  unfolding order_by
  in_order = order_by (λ a b. before (key a) (key b))

  unfoldable pub page : Option K → ℕ → List A → List A
  unfolding is_after in_order
  page cursor limit rows = take limit (in_order (select (is_after cursor) rows))
