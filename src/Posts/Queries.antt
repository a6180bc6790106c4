-- ===== src/Posts/Queries.antt =====
-- The statements on posts: crates/lethe-server/src/db/posts.rs.
pub mod Numbers
use lethe_project.Prelude.{
  ℕ, ◌+◌, max, Bool, true, false, not, ◌&&◌, Option, none, some, List, [], ◌∷◌, ◌++◌, Bytes, Text,
  codes, same, ltb, if◌then◌else◌, map_option,
}
use lethe_project.Table.{first, any, update}
use lethe_project.Error.{Result, ok, err, DbError, database, column_decode}
use lethe_project.Threads.{is_thread}
use lethe_project.Db.{Db, Date, Thread, Post, Removal, global}

-- A value of a column that may be NULL, compared with a value
unfoldable pub holds : Option Bytes → Bytes → Bool
holds none b = false
holds (some a) b = same a b

unfoldable pub is_post : Bytes → Post → Bool
is_post id p = same p.id id

unfoldable pub in_thread : Bytes → Post → Bool
in_thread thread_id p = same p.thread_id thread_id

-- WHERE thread_id = $1 AND pubkey = $2
unfoldable pub signed_by : Bytes → Bytes → Post → Bool
unfolding in_thread holds
signed_by thread_id pubkey p = in_thread thread_id p && holds p.pubkey pubkey

-- COALESCE(MAX(seq), 0)
unfoldable pub max_seq : Bytes → List Post → ℕ
max_seq thread_id [] = 0
max_seq thread_id (p ∷ ps) =
    let rest = max_seq thread_id ps in if in_thread thread_id p then max p.seq rest else rest

pub record NewPost : Type 0 where
  pub thread_id : Bytes
  pub body : Text
  pub pow_nonce : Bytes
  pub pubkey : Option Bytes
  pub signature : Option Bytes
  pub created_at : Date
  pub origin_server_id : Bytes
  pub vouch : Option (Text × Bytes)

abbrev pub vouch_json : Option (Text × Bytes) → Option Text
vouch_json none = none
vouch_json (some (json, room)) = some json

abbrev pub vouch_room : Option (Text × Bytes) → Option Bytes
vouch_room none = none
vouch_room (some (json, room)) = some room

unfoldable pub post_row : Bytes → ℕ → NewPost → Post
post_row post_id seq p = record {
  id = post_id;
  thread_id = p.thread_id;
  seq = seq;
  body = p.body;
  pow_nonce = p.pow_nonce;
  pubkey = p.pubkey;
  signature = p.signature;
  created_at = p.created_at;
  origin_server_id = some p.origin_server_id;
  origin_post_id = some post_id;
  vouch = vouch_json p.vouch;
  vouch_room_id = vouch_room p.vouch;
}

abbrev pub bump_thread : Date → Thread → Thread
bump_thread created_at t = record t {
  last_post_at = max t.last_post_at created_at;
  post_count = t.post_count + 1;
}

-- WHERE origin_server_id = $1 AND origin_post_id = $2, the unique index posts_origin_idx
unfoldable pub has_origin : Bytes → Bytes → Post → Bool
unfolding holds
has_origin origin_server_id origin_post_id p =
    holds p.origin_server_id origin_server_id && holds p.origin_post_id origin_post_id

-- `post_id` is the fresh id. One transaction; the answer is `Inserted`.
unfoldable pub insert : Bytes → NewPost → Db → Result DbError (Bytes × ℕ) × Db
unfolding max_seq in_thread is_post is_thread has_origin post_row
insert post_id p s =
    let seq = max_seq p.thread_id s.posts + 1 in
    if any (is_post post_id) s.posts
    then (err (database "posts_pkey"), s)
    else if any (has_origin p.origin_server_id post_id) s.posts
    then (err (database "posts_origin_idx"), s)
    else if not (any (is_thread p.thread_id) s.threads)
    then (err (database "posts_thread_id_fkey"), s)
    else (
      ok (post_id, seq),
      record s {
        posts = s.posts ++ post_row post_id seq p ∷ [];
        threads = update (is_thread p.thread_id) (bump_thread p.created_at) s.threads;
      },
    )

-- MIN(seq) over the rows that fit
unfoldable pub min_seq : (Post → Bool) → List Post → Option ℕ
min_seq p [] = none
min_seq p (x ∷ xs) =
    let rest = min_seq p xs in
    if p x
    then some (elim rest [ none ↦ x.seq | some m ↦ if ltb m x.seq then m else x.seq ])
    else rest

-- `SELECT MIN(seq)` has one row in every case, NULL where no row fits, and `(i32,)` does not decode
-- NULL.
unfoldable pub signer_first_seq : Bytes → Bytes → Db → Result DbError (Option ℕ) × Db
unfolding min_seq signed_by
signer_first_seq thread_id pubkey s = elim (min_seq (signed_by thread_id pubkey) s.posts) [
  | none ↦ (err column_decode, s)
  | some seq ↦ (ok (some seq), s)
]

unfoldable pub pubkey_signed_in_thread : Bytes → Bytes → Db → Bool
unfolding signed_by
pubkey_signed_in_thread thread_id pubkey s = any (signed_by thread_id pubkey) s.posts

unfoldable pub exists : Bytes → Db → Bool
unfolding is_post
exists post_id s = any (is_post post_id) s.posts

-- `format!("[removed: {reason}]")`
unfoldable pub tombstone_body : Text → Text
tombstone_body reason = codes "[removed: " ++ (reason ++ codes "]")

unfoldable pub author_pubkey : Bytes → Db → Option (Option Bytes)
unfolding is_post
author_pubkey post_id s = map_option (λ (p : Post). p.pubkey) (first (is_post post_id) s.posts)

unfoldable pub is_removal : Bytes → Removal → Bool
is_removal post_id r = same r.post_id post_id

abbrev pub scrub : Post → Post
scrub p = record p {
  body = [];
  signature = none;
  pubkey = none;
  pow_nonce = [];
  vouch = none;
  vouch_room_id = none;
}

-- One transaction. `post_removals.post_id` REFERENCES posts(id).
unfoldable pub author_delete : Bytes → Text → Date → Db → Result DbError Bool × Db
unfolding is_removal is_post
author_delete post_id reason removed_at s =
    if any (is_removal post_id) s.post_removals
    then (ok false, s)
    else if not (any (is_post post_id) s.posts)
    then (err (database "post_removals_post_id_fkey"), s)
    else (
      ok true,
      record s {
        post_removals =
            s.post_removals
            ++ record {
              post_id = post_id;
              removed_at = removed_at;
              reason = reason;
              scope = global;
              origin_server_id = none;
              origin_signature = none;
            }
              ∷ [];
        posts = update (is_post post_id) scrub s.posts;
      },
    )
