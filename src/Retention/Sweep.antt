-- ===== src/Retention/Sweep.antt =====
-- What a sweep deletes, and what makes it fail.
use lethe_project.Prelude.{ℕ, ◌+◌, ◌≡◌, not, length, ◌&&◌, true, arith}
use lethe_project.Table.{any, select}
use lethe_project.Error.{err, database}
use lethe_project.Db.{Db, Date, Post}
use lethe_project.Retention.{
  run_once, delete_threads, is_thread_due, is_message_due, is_referenced, is_due_thread_of,
  RetentionStats,
}

-- Where a thread that is due is the origin of a room, the sweep fails on the foreign key and leaves
-- the database as it was: no other thread, no room message and no nonce is pruned.
pub run_once-blocked :
    (now : ℕ) (today : Date) (s : Db)
    → any (λ t. is_thread_due today s.boards t && is_referenced s t) s.threads ≡ true
    → run_once now today s ≡ (err (database "rooms_origin_thread_fkey"), s)
unfolding run_once delete_threads
run_once-blocked now today s h = ground arith

-- What a sweep that succeeds leaves, and what it reports
pub record IsSwept (now : ℕ) (today : Date) (s s' : Db) (stats : RetentionStats) : Type 0 where
  pub threads : s'.threads ≡ select (λ t. not (is_thread_due today s.boards t)) s.threads
  pub messages :
      s'.room_messages ≡ select (λ m. not (is_message_due today s.rooms m)) s.room_messages
  pub posts : s'.posts ≡ select (λ (p : Post). not (is_due_thread_of s today p.thread_id)) s.posts
  pub threads_counted : stats.threads_deleted + length s'.threads ≡ length s.threads
  pub messages_counted :
      stats.room_messages_deleted + length s'.room_messages ≡ length s.room_messages
  pub nonces_counted :
      stats.request_nonces_deleted + length s'.request_nonces ≡ length s.request_nonces
