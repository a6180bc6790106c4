-- ===== src/Feed.antt =====
-- crates/lethe-server/src/db/feed.rs and crates/lethe-server/src/routes/feed.rs.
pub mod Complete
use lethe_project.Prelude.{
  ℕ, Bool, true, false, not, ◌&&◌, Option, none, some, List, [], ◌∷◌, Bytes, Text, codes, same,
  take, map, map_option, ◌==◌, if◌then◌else◌,
}
use lethe_project.Table.{any, first, select}
use lethe_project.Error.{Result, ok, err, AppError, bad_request}
use lethe_project.Env.{Env}
use lethe_project.Db.{Db, Date, Post, Thread}
use lethe_project.Paging.{later, page}
use lethe_project.Posts.Queries.{in_thread}

abbrev pub feed_boards : List Text
feed_boards = codes "government" ∷ codes "economy" ∷ codes "science_tech" ∷ codes "all_other" ∷ []

abbrev pub page_limit : ℕ
page_limit = 50

pub data FeedSort : Type 0 where
  last_comment newest : FeedSort

pub record FeedItem : Type 0 where
  pub thread_id : Text
  pub board_id : Text
  pub title : Text
  pub created_at : Date
  pub last_post_at : Date
  pub post_count : ℕ
  pub op_vouch_room_id : Option Text
  pub vouch_room_ids : List Text

pub record FeedResp : Type 0 where
  pub items : List FeedItem
  pub category : Option Text
  pub sort : FeedSort

-- The boards of a category, or of all
unfoldable pub boards_of : Option Text → List Text
boards_of none = feed_boards
boards_of (some c) = select (λ b. same b c) feed_boards

unfoldable pub sort_key : FeedSort → Thread → Date × Bytes
sort_key last_comment t = (t.last_post_at, t.id)
sort_key newest t = (t.created_at, t.id)

unfoldable pub is_on : List Text → Thread → Bool
is_on boards t = any (λ b. same b t.board_id) boards

-- The vouch room of the post with seq 1
unfoldable pub op_vouch_room : Db → Thread → Option Bytes
unfolding in_thread
op_vouch_room s t = elim (first (λ (p : Post). in_thread t.id p && p.seq == 1) s.posts) [
  | none ↦ none
  | some p ↦ p.vouch_room_id
]

-- SELECT DISTINCT … WHERE … IS NOT NULL, in the order of the table
unfoldable pub distinct_rooms : Bytes → List Bytes → List Post → List Bytes
unfolding in_thread
distinct_rooms thread_id seen [] = []
distinct_rooms thread_id seen (p ∷ ps) = elim (p.vouch_room_id) [
  | none ↦ distinct_rooms thread_id seen ps
  | some r ↦
      if in_thread thread_id p && not (any (same r) seen)
      then r ∷ distinct_rooms thread_id (r ∷ seen) ps
      else distinct_rooms thread_id seen ps
]

module _ (env : Env)
    -- "[year]-[month]-[day]"
    (parse_date : Text → Option Date) where
  unfoldable pub feed_item : Db → Thread → FeedItem
  unfolding op_vouch_room distinct_rooms
  feed_item s t = record {
    thread_id = env.b64 t.id;
    board_id = t.board_id;
    title = t.title;
    created_at = t.created_at;
    last_post_at = t.last_post_at;
    post_count = t.post_count;
    op_vouch_room_id = map_option env.b64 (op_vouch_room s t);
    vouch_room_ids = map env.b64 (take 20 (distinct_rooms t.id [] s.posts));
  }

  unfoldable pub feed_threads :
      Option Text → FeedSort → Option (Date × Bytes) → ℕ → Db → List Thread
  unfolding boards_of sort_key is_on page
  feed_threads category sort cursor limit s =
      page later (sort_key sort) cursor limit (select (is_on (boards_of category)) s.threads)

  unfoldable pub list : Option Text → FeedSort → Option (Date × Bytes) → ℕ → Db → List FeedItem
  unfolding feed_threads feed_item
  list category sort cursor limit s = map (feed_item s) (feed_threads category sort cursor limit s)

  unfoldable pub query_cursor : Option Text → Option Text → Result AppError (Option (Date × Bytes))
  query_cursor (some ts) (some id) = elim (parse_date ts) [
    | none ↦ err (bad_request "cursor_ts must be YYYY-MM-DD")
    | some d ↦ elim (env.unb64 id) [
      | none ↦ err (bad_request "cursor_id b64")
      | some i ↦ ok (some (d, i))
    ]
  ]
  query_cursor none none = ok none
  query_cursor _ _ = err (bad_request "cursor_ts and cursor_id come together")

  unfoldable pub get :
      Option Text → FeedSort → Option Text → Option Text → Db → Result AppError FeedResp
  unfolding query_cursor list
  get cat sort cursor_ts cursor_id s = elim (query_cursor cursor_ts cursor_id) [
    | err e ↦ err e
    | ok cursor ↦
        ok (record { items = list cat sort cursor page_limit s; category = cat; sort = sort })
  ]
