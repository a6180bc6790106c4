-- ===== src/Threads.antt =====
-- crates/lethe-server/src/db/threads.rs.
use lethe_project.Prelude.{
  Bool, not, Option, none, some, [], ◌∷◌, ◌++◌, Bytes, Text, same, if◌then◌else◌, map_option,
}
use lethe_project.Table.{first, any}
use lethe_project.Error.{Result, ok, err, DbError, database}
use lethe_project.Db.{Db, Date, Board, Thread}

unfoldable pub is_thread : Bytes → Thread → Bool
is_thread id t = same t.id id

-- `last_post_at` and `post_count` have their defaults: the current day and 0.
unfoldable pub thread_row : Bytes → Text → Text → Date → Option Date → Bytes → Date → Thread
thread_row id board_id title created_at expires_at origin_server_id today = record {
  id = id;
  board_id = board_id;
  title = title;
  created_at = created_at;
  last_post_at = today;
  post_count = 0;
  expires_at = expires_at;
  origin_server_id = some origin_server_id;
}

unfoldable pub create :
    Bytes → Text → Text → Date → Option Date → Bytes → Date → Db → Result DbError (Unit {0}) × Db
unfolding thread_row is_thread
create id board_id title created_at expires_at origin_server_id today s =
    if any (is_thread id) s.threads
    then (err (database "threads_pkey"), s)
    else if not (any (λ (b : Board). same b.id board_id) s.boards)
    then (err (database "threads_board_id_fkey"), s)
    else (
      ok tt,
      record s {
        threads =
            s.threads
            ++ thread_row id board_id title created_at expires_at origin_server_id today ∷ [];
      },
    )

unfoldable pub exists : Bytes → Db → Bool
unfolding is_thread
exists id s = any (is_thread id) s.threads

unfoldable pub board_id_for : Bytes → Db → Option Text
unfolding is_thread
board_id_for id s = map_option (λ (t : Thread). t.board_id) (first (is_thread id) s.threads)

-- A thread id that is there already leaves the row alone.
unfoldable pub ensure_for_federation :
    Bytes → Text → Text → Date → Bytes → Date → Db → Result DbError (Unit {0}) × Db
unfolding thread_row is_thread
ensure_for_federation id board_id title created_at origin_server_id today s =
    if any (is_thread id) s.threads
    then (ok tt, s)
    else create id board_id title created_at none origin_server_id today s

unfoldable pub get_title : Bytes → Db → Option Text
unfolding is_thread
get_title id s = map_option (λ (t : Thread). t.title) (first (is_thread id) s.threads)
