-- ===== src/PostRemovals.antt =====
-- crates/lethe-server/src/db/post_removals.rs.
use lethe_project.Prelude.{
  ℕ, Bool, true, false, not, ◌&&◌, Option, List, ◌∷◌, [], ◌++◌, Bytes, if◌then◌else◌,
}
use lethe_project.Table.{any, select}
use lethe_project.Error.{Result, ok, err, DbError, database}
use lethe_project.Db.{Db, Scope, local, global, Removal, Post}
use lethe_project.Posts.Queries.{is_post, is_removal, holds}
use lethe_project.Paging.{ℤ, pos, earlier, page}

-- `NewRemoval` has the fields of the row.
unfoldable pub insert : Removal → Db → Result DbError Bool × Db
unfolding is_removal is_post
insert r s =
    if any (is_removal r.post_id) s.post_removals
    then (ok false, s)
    else if not (any (is_post r.post_id) s.posts)
    then (err (database "post_removals_post_id_fkey"), s)
    else (ok true, record s { post_removals = s.post_removals ++ r ∷ [] })

unfoldable pub is_removed : Bytes → Db → Bool
unfolding is_removal
is_removed post_id s = any (is_removal post_id) s.post_removals

unfoldable pub is_global : Scope → Bool
is_global local = false
is_global global = true

-- The JOIN of post_removals and posts, and its WHERE
unfoldable pub is_global_for : Bytes → List Post → Removal → Bool
unfolding is_global holds is_post
is_global_for origin_server_id posts r =
    is_global r.scope
    && any (λ p. is_post r.post_id p && holds p.origin_server_id origin_server_id) posts

unfoldable pub removal_key : Removal → ℤ × Bytes
removal_key r = (pos r.removed_at, r.post_id)

unfoldable pub list_global_for_origin : Bytes → Option (ℤ × Bytes) → ℕ → Db → List Removal
unfolding is_global_for removal_key page
list_global_for_origin origin_server_id cursor limit s =
    page earlier removal_key cursor limit
      (select (is_global_for origin_server_id s.posts) s.post_removals)
