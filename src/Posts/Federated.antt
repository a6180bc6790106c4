-- ===== src/Posts/Federated.antt =====
-- `insert_federated` of crates/lethe-server/src/db/posts.rs.
use lethe_project.Prelude.{
  ℕ, ◌+◌, not, Option, none, some, [], ◌∷◌, ◌++◌, Bytes, Text, if◌then◌else◌,
}
use lethe_project.Table.{any, update}
use lethe_project.Error.{Result, ok, err, DbError, database}
use lethe_project.Threads.{is_thread}
use lethe_project.Db.{Db, Date, Post}
use lethe_project.Posts.Queries.{is_post, has_origin, max_seq, bump_thread}

pub record FederatedPost : Type 0 where
  pub thread_id : Bytes
  pub body : Text
  pub pubkey : Option Bytes
  pub signature : Option Bytes
  pub created_at : Date
  pub origin_server_id : Bytes
  pub origin_post_id : Bytes

unfoldable pub federated_row : Bytes → ℕ → FederatedPost → Post
federated_row local_id seq p = record {
  id = local_id;
  thread_id = p.thread_id;
  seq = seq;
  body = p.body;
  pow_nonce = [];
  pubkey = p.pubkey;
  signature = p.signature;
  created_at = p.created_at;
  origin_server_id = some p.origin_server_id;
  origin_post_id = some p.origin_post_id;
  vouch = none;
  vouch_room_id = none;
}

-- `local_id` is the fresh id. ON CONFLICT looks at the index on the origin only, and first.
unfoldable pub insert_federated :
    Bytes → FederatedPost → Db → Result DbError (Option (Bytes × ℕ)) × Db
unfolding federated_row has_origin is_post is_thread max_seq
insert_federated local_id p s =
    let seq = max_seq p.thread_id s.posts + 1 in
    if any (has_origin p.origin_server_id p.origin_post_id) s.posts
    then (ok none, s)
    else if any (is_post local_id) s.posts
    then (err (database "posts_pkey"), s)
    else if not (any (is_thread p.thread_id) s.threads)
    then (err (database "posts_thread_id_fkey"), s)
    else (
      ok (some (local_id, seq)),
      record s {
        posts = s.posts ++ federated_row local_id seq p ∷ [];
        threads = update (is_thread p.thread_id) (bump_thread p.created_at) s.threads;
      },
    )
