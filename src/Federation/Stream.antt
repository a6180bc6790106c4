-- ===== src/Federation/Stream.antt =====
-- The streams of crates/lethe-server/src/db/federation.rs and the handler `events` of
-- crates/lethe-server/src/federation/route.rs.
pub mod Complete
pub mod Follow
use lethe_project.Prelude.{
  ℕ, ◌&&◌, Bool, Option, none, some, List, [], ◌∷◌, Bytes, Text, map, map_option, last,
}
use lethe_project.Table.{first, any, select}
use lethe_project.Error.{
  Result, ok, err, DbError, column_decode, AppError, bad_request, not_found, db, ◌>>=◌,
}
use lethe_project.Env.{Env}
use lethe_project.Db.{Db, Date, Thread, Post, Removal}
use lethe_project.Threads.{is_thread}
use lethe_project.Posts.Queries.{holds}
use lethe_project.PostRemovals.{list_global_for_origin}
use lethe_project.Paging.{ℤ, pos, earlier, page}
use lethe_project.Federation.Wire.{EventsResponse}
use lethe_project.Federation.Events.{Identity, Calendar, build_post_event, build_removal_event}
use lethe_project.Federation.Cursor.{parse_cursor, encode_cursor}

abbrev pub events_page_limit : ℕ
events_page_limit = 200

pub record PostStreamRow : Type 0 where
  pub board_id : Text
  pub thread_id : Bytes
  pub thread_origin_server_id : Option Bytes
  pub thread_title : Text
  pub origin_server_id : Bytes
  pub origin_post_id : Bytes
  pub body : Text
  pub created_at : Date
  pub author_pubkey : Option Bytes
  pub author_signature : Option Bytes

-- The JOIN with threads and the WHERE on the origin
unfoldable pub is_outgoing : Bytes → List Thread → Post → Bool
unfolding holds is_thread
is_outgoing origin_server_id threads p =
    holds p.origin_server_id origin_server_id && any (is_thread p.thread_id) threads

unfoldable pub post_key : Post → ℤ × Bytes
post_key p = (pos p.created_at, p.id)

-- Every row that is selected has a thread and an origin server; a NULL post id does not decode.
unfoldable pub stream_row : Bytes → Thread → Post → Bytes → PostStreamRow
stream_row origin_server_id t p origin_post_id = record {
  board_id = t.board_id;
  thread_id = p.thread_id;
  thread_origin_server_id = t.origin_server_id;
  thread_title = t.title;
  origin_server_id = origin_server_id;
  origin_post_id = origin_post_id;
  body = p.body;
  created_at = p.created_at;
  author_pubkey = p.pubkey;
  author_signature = p.signature;
}

unfoldable pub stream_rows : Bytes → List Thread → List Post → Result DbError (List PostStreamRow)
unfolding stream_row is_thread
stream_rows origin_server_id threads [] = ok []
stream_rows origin_server_id threads (p ∷ ps) = do
  rest ← stream_rows origin_server_id threads ps
  elim (first (is_thread p.thread_id) threads) [
    | none ↦ ok rest
    | some t ↦ elim p.origin_post_id [
      | none ↦ err column_decode
      | some id ↦ ok (stream_row origin_server_id t p id ∷ rest)
    ]
  ]

unfoldable pub outgoing_page : Bytes → Option (ℤ × Bytes) → ℕ → Db → List Post
unfolding page is_outgoing post_key
outgoing_page origin_server_id cursor limit s =
    page earlier post_key cursor limit (select (is_outgoing origin_server_id s.threads) s.posts)

unfoldable pub list_outgoing_posts :
    Bytes → Option (ℤ × Bytes) → ℕ → Db → Result DbError (List PostStreamRow)
unfolding stream_rows outgoing_page
list_outgoing_posts origin_server_id cursor limit s =
    stream_rows origin_server_id s.threads (outgoing_page origin_server_id cursor limit s)

unfoldable pub list_outgoing_removals : Bytes → Option (ℤ × Bytes) → ℕ → Db → List Removal
unfolding list_global_for_origin
list_outgoing_removals = list_global_for_origin

abbrev pub or_own : Option Bytes → Bytes → Bytes
or_own none own = own
or_own (some o) own = o

module _ (env : Env) (cal : Calendar) (is_day : ℤ → Bool) where
  unfoldable pub query_cursor : Option Text → AppError → Result AppError (Option (ℤ × Bytes))
  unfolding parse_cursor
  query_cursor since e = elim (parse_cursor env is_day since) [ none ↦ err e | some c ↦ ok c ]

  unfoldable pub rows_or_fail :
      Result DbError (List PostStreamRow) → Result AppError (List PostStreamRow)
  rows_or_fail (ok rows) = ok rows
  rows_or_fail (err e) = err (db e)

  unfoldable pub respond : Identity → List PostStreamRow → List Removal → EventsResponse
  unfolding build_post_event build_removal_event last encode_cursor
  respond identity posts removals = record {
    posts =
        map
          (λ (r : PostStreamRow). build_post_event env cal identity (record {
            board_id = r.board_id;
            thread_id = r.thread_id;
            thread_origin_server_id = or_own r.thread_origin_server_id r.origin_server_id;
            thread_title = r.thread_title;
            origin_server_id = r.origin_server_id;
            origin_post_id = r.origin_post_id;
            body = r.body;
            created_at = r.created_at;
            author_pubkey = r.author_pubkey;
            author_signature = r.author_signature;
          }))
          posts;
    removals =
        map
          (λ (r : Removal). build_removal_event env cal identity (record {
            origin_server_id = identity.pubkey;
            origin_post_id = r.post_id;
            reason = r.reason;
            removed_at = r.removed_at;
          }))
          removals;
    next_post_cursor =
        map_option
          (λ (r : PostStreamRow). encode_cursor env is_day (pos r.created_at) r.origin_post_id)
          (last posts);
    next_removal_cursor =
        map_option (λ (r : Removal). encode_cursor env is_day (pos r.removed_at) r.post_id)
          (last removals);
  }

  unfoldable pub events :
      Option Identity → Option Text → Option Text → Db → Result AppError EventsResponse
  unfolding query_cursor list_outgoing_posts list_outgoing_removals rows_or_fail respond
  events none since_post since_removal s = err not_found
  events (some identity) since_post since_removal s = do
    post_cursor ← query_cursor since_post (bad_request "since_post cursor")
    removal_cursor ← query_cursor since_removal (bad_request "since_removal cursor")
    posts ← rows_or_fail (list_outgoing_posts identity.pubkey post_cursor events_page_limit s)
    ok (
        respond identity posts
          (list_outgoing_removals identity.pubkey removal_cursor events_page_limit s))
