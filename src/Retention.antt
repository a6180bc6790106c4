-- ===== src/Retention.antt =====
-- crates/lethe-server/src/db/retention.rs.
pub mod Sweep
use lethe_project.Prelude.{
  ℕ, ◌+◌, Bool, false, not, ◌&&◌, ◌||◌, Option, none, some, List, Bytes, same, ltb, leb,
  if◌then◌else◌,
}
use lethe_project.Table.{first, any, count, delete}
use lethe_project.Error.{Result, ok, err, DbError, database}
use lethe_project.Db.{Db, Date, Board, Thread, Post, Room, Message, Report, Removal}
use lethe_project.Nonces.{prune_older_than}
use lethe_project.Rooms.Queries.{has_id}

pub record RetentionStats : Type 0 where
  pub threads_deleted : ℕ
  pub room_messages_deleted : ℕ
  pub request_nonces_deleted : ℕ

-- `expires_at IS NOT NULL AND expires_at <= current_date`
unfoldable pub has_expired : Date → Option Date → Bool
has_expired today none = false
has_expired today (some d) = leb d today

-- `created_at < current_date - days`, which a NULL makes not true
unfoldable pub is_older : Date → Date → Option ℕ → Bool
is_older today created_at none = false
is_older today created_at (some days) = ltb (created_at + days) today

abbrev pub board_days : Option Board → Option ℕ
board_days none = none
board_days (some b) = b.retention_days

abbrev pub room_days : Option Room → Option ℕ
room_days none = none
room_days (some r) = some r.message_retention_days

unfoldable pub is_thread_due : Date → List Board → Thread → Bool
unfolding has_expired is_older
is_thread_due today boards t =
    has_expired today t.expires_at
    || is_older today t.created_at (board_days (first (λ (b : Board). same b.id t.board_id) boards))

unfoldable pub is_message_due : Date → List Room → Message → Bool
unfolding is_older has_id
is_message_due today rooms m =
    is_older today m.created_at (room_days (first (has_id m.room_id) rooms))

unfoldable pub is_origin : Option Bytes → Bytes → Bool
is_origin none id = false
is_origin (some t) id = same t id

-- rooms.origin_thread REFERENCES threads(id), with no action on a deletion
unfoldable pub is_referenced : Db → Thread → Bool
unfolding is_origin
is_referenced s t = any (λ (r : Room). is_origin r.origin_thread t.id) s.rooms

unfoldable pub is_due_thread_of : Db → Date → Bytes → Bool
unfolding is_thread_due
is_due_thread_of s today id =
    any (λ (t : Thread). same t.id id && is_thread_due today s.boards t) s.threads

unfoldable pub is_due_post : Db → Date → Bytes → Bool
unfolding is_due_thread_of
is_due_post s today id =
    any (λ (p : Post). same p.id id && is_due_thread_of s today p.thread_id) s.posts

-- The first statement; posts, and with them reports and removals, follow their thread by
-- ON DELETE CASCADE.
unfoldable pub delete_threads : Date → Db → Result DbError ℕ × Db
unfolding is_thread_due is_referenced is_due_post is_due_thread_of
delete_threads today s =
    if any (λ t. is_thread_due today s.boards t && is_referenced s t) s.threads
    then (err (database "rooms_origin_thread_fkey"), s)
    else (
      ok (count (is_thread_due today s.boards) s.threads),
      record s {
        threads = delete (is_thread_due today s.boards) s.threads;
        posts = delete (λ (p : Post). is_due_thread_of s today p.thread_id) s.posts;
        reports = delete (λ (r : Report). is_due_post s today r.post_id) s.reports;
        post_removals = delete (λ (r : Removal). is_due_post s today r.post_id) s.post_removals;
      },
    )

unfoldable pub delete_messages : Date → Db → ℕ × Db
unfolding is_message_due
delete_messages today s = (
  count (is_message_due today s.rooms) s.room_messages,
  record s { room_messages = delete (is_message_due today s.rooms) s.room_messages },
)

unfoldable pub sweep_rest : ℕ → Date → ℕ → Db → Result DbError RetentionStats × Db
unfolding delete_messages
sweep_rest now today threads s =
    let (messages, s1) = delete_messages today s in
    let (nonces, s2) = prune_older_than now 600 s1 in
    (
      ok (record {
        threads_deleted = threads;
        room_messages_deleted = messages;
        request_nonces_deleted = nonces;
      }),
      s2,
    )

-- `now` and `today` are the database's clock. Three statements, not in one transaction.
unfoldable pub run_once : ℕ → Date → Db → Result DbError RetentionStats × Db
unfolding delete_threads sweep_rest
run_once now today s =
    let (deleted, s1) = delete_threads today s in
    elim deleted [ ok threads ↦ sweep_rest now today threads s1 | err e ↦ (err e, s1) ]
