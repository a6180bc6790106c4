-- ===== src/Federation/Stream/Complete.antt =====
-- A peer that asks for page after page gets every post of the server:
-- crates/lethe-server/src/db/federation.rs, `list_outgoing_posts`.
use lethe_project.Prelude.{
  ℕ, ◌<◌, ◌≡◌, ◌∙◌, refl, false, none, List, [], ◌∷◌, length, same, All, Bytes, arith, All-weaken,
}
use lethe_project.Table.{select}
use lethe_project.Db.{Db, Post}
use lethe_project.Paging.{earlier, in_order}
use lethe_project.Paging.Keys.{earlier-IsOrder, earlier-apart}
use lethe_project.Paging.Walk.{follow, walk, row_before, walk-all}
use lethe_project.Paging.Walk.Order.{AreDistinct, AreDistinct-select, length-select-le}
use lethe_project.Federation.Stream.{events_page_limit, is_outgoing, post_key, outgoing_page}

-- The ids are a primary key.
abbrev pub AreIdsDistinct : List Post → Type 0
AreIdsDistinct [] = Unit
AreIdsDistinct (p ∷ ps) = All (λ (q : Post). same p.id q.id ≡ false) ps × AreIdsDistinct ps

pub ids-AreDistinct :
    (ps : List Post) → AreIdsDistinct ps → AreDistinct (row_before earlier post_key) ps
unfolding row_before post_key
ids-AreDistinct [] h = tt
ids-AreDistinct (p ∷ ps) (h, hs) = (
  All-weaken _ ps (λ (q : Post) k. earlier-apart p.created_at q.created_at p.id q.id k) h,
  ids-AreDistinct ps hs,
)

-- What a peer receives that asks so often
unfoldable pub all_pages : ℕ → Bytes → Db → List Post
unfolding follow outgoing_page
all_pages fuel origin s =
    follow (λ c. outgoing_page origin c events_page_limit s) post_key fuel none

all_pages-walk :
    (fuel : ℕ) (origin : Bytes) (s : Db)
    → all_pages fuel origin s
      ≡ walk earlier post_key fuel none events_page_limit
          (select (is_outgoing origin s.threads) s.posts)
unfolding all_pages walk outgoing_page
all_pages-walk fuel origin s = refl

-- A peer that asks for page after page of outgoing posts, each after the last post of the page before, receives
-- every post that the server originated once, in the order of date and id, where the ids differ, the posts do not
-- change meanwhile, and it asks more often than there are posts.
pub all_pages-order :
    (fuel : ℕ) (origin : Bytes) (s : Db)
    → AreIdsDistinct s.posts
    → length s.posts < fuel
    → all_pages fuel origin s
      ≡ in_order earlier post_key (select (is_outgoing origin s.threads) s.posts)
all_pages-order fuel origin s d h =
    all_pages-walk fuel origin s
    ∙ walk-all earlier post_key earlier-IsOrder fuel 199
        (select (is_outgoing origin s.threads) s.posts)
        (AreDistinct-select (row_before earlier post_key) (is_outgoing origin s.threads) s.posts
          (ids-AreDistinct s.posts d))
        (omega (arith, length-select-le (is_outgoing origin s.threads) s.posts, h))
