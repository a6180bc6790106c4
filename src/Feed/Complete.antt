-- ===== src/Feed/Complete.antt =====
-- Scrolling through the feed shows every thread: crates/lethe-server/src/db/feed.rs, `list`.
use lethe_project.Prelude.{
  ℕ, ◌<◌, ◌≡◌, ◌∙◌, refl, false, Option, none, List, [], ◌∷◌, length, same, All, Text, arith,
  All-weaken,
}
use lethe_project.Table.{select}
use lethe_project.Env.{Env}
use lethe_project.Db.{Db, Date, Thread}
use lethe_project.Paging.{later, in_order}
use lethe_project.Paging.Keys.{later-IsOrder, later-apart}
use lethe_project.Paging.Walk.{follow, walk, row_before, walk-all}
use lethe_project.Paging.Walk.Order.{AreDistinct, AreDistinct-select, length-select-le}
use lethe_project.Feed.{
  FeedSort, last_comment, newest, boards_of, is_on, sort_key, feed_threads, page_limit,
}

-- The ids are a primary key.
abbrev pub AreThreadsDistinct : List Thread → Type 0
AreThreadsDistinct [] = Unit
AreThreadsDistinct (t ∷ ts) =
    All (λ (u : Thread). same t.id u.id ≡ false) ts × AreThreadsDistinct ts

threads-AreDistinct :
    (sort : FeedSort) (ts : List Thread)
    → AreThreadsDistinct ts
    → AreDistinct (row_before later (sort_key sort)) ts
unfolding row_before sort_key
threads-AreDistinct sort [] h = tt
threads-AreDistinct last_comment (t ∷ ts) (h, hs) = (
  All-weaken _ ts (λ (u : Thread) k. later-apart t.last_post_at u.last_post_at t.id u.id k) h,
  threads-AreDistinct last_comment ts hs,
)
threads-AreDistinct newest (t ∷ ts) (h, hs) = (
  All-weaken _ ts (λ (u : Thread) k. later-apart t.created_at u.created_at t.id u.id k) h,
  threads-AreDistinct newest ts hs,
)

module _ (env : Env) (parse_date : Text → Option Date) where
  -- The threads that a reader sees who scrolls so far, over a feed that does not change
  unfoldable pub scroll : ℕ → Option Text → FeedSort → Db → List Thread
  unfolding follow feed_threads
  scroll fuel category sort s =
      follow (λ c. feed_threads env parse_date category sort c page_limit s) (sort_key sort) fuel
        none

  scroll-walk :
      (fuel : ℕ) (category : Option Text) (sort : FeedSort) (s : Db)
      → scroll fuel category sort s
        ≡ walk later
            (sort_key sort)
            fuel
            none
            page_limit
            (select (is_on (boards_of category)) s.threads)
  unfolding scroll walk feed_threads
  scroll-walk fuel category sort s = refl

  -- A reader who scrolls through the feed sees every thread of the category once, from the latest to the earliest,
  -- for both sort keys, where the ids differ, the threads do not change meanwhile, and there are more requests than
  -- threads.
  pub scroll-order :
      (fuel : ℕ) (category : Option Text) (sort : FeedSort) (s : Db)
      → AreThreadsDistinct s.threads
      → length s.threads < fuel
      → scroll fuel category sort s
        ≡ in_order later (sort_key sort) (select (is_on (boards_of category)) s.threads)
  scroll-order fuel category sort s d h =
      scroll-walk fuel category sort s
      ∙ walk-all later (sort_key sort) later-IsOrder fuel 49
          (select (is_on (boards_of category)) s.threads)
          (AreDistinct-select (row_before later (sort_key sort)) (is_on (boards_of category))
            s.threads (threads-AreDistinct sort s.threads d))
          (omega (arith, length-select-le (is_on (boards_of category)) s.threads, h))
