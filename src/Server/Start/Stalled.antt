-- ===== src/Server/Start/Stalled.antt =====
-- The retention worker, `spawn_retention_worker` of crates/lethe-server/src/lib.rs, where the foreign key of
-- rooms.origin_thread stops its first statement.
use lethe_project.Prelude.{
  ℕ, ◌≤◌, ◌≡◌, refl, ◌&&◌, true, Option, none, some, List, [], ◌∷◌, All, arith,
}
use lethe_project.Table.{any}
use lethe_project.Table.Rows.{any-weaken}
use lethe_project.Env.{Clock}
use lethe_project.Db.{Db, Date, Thread}
use lethe_project.Retention.{is_thread_due, is_referenced, has_expired, is_older}
use lethe_project.Retention.Sweep.{run_once-blocked}
use lethe_project.Server.Start.{run_retention, sweeps}

-- A thread whose time has come by the day is the origin of a room.
abbrev pub IsHeld : Date → Db → Type 0
IsHeld day s = any (λ t. is_thread_due day s.boards t && is_referenced s t) s.threads ≡ true

expired-later :
    (d d' : Date) (e : Option Date) → d ≤ d' → has_expired d e ≡ true → has_expired d' e ≡ true
unfolding has_expired
expired-later d d' none h k = k
expired-later d d' (some e) h k = ground arith

older-later :
    (d d' created : Date) (days : Option ℕ)
    → d ≤ d'
    → is_older d created days ≡ true
    → is_older d' created days ≡ true
unfolding is_older
older-later d d' created none h k = k
older-later d d' created (some n) h k = ground arith

due-later :
    (d d' : Date) (s : Db) (t : Thread)
    → d ≤ d'
    → is_thread_due d s.boards t && is_referenced s t ≡ true
    → is_thread_due d' s.boards t && is_referenced s t ≡ true
unfolding is_thread_due
due-later d d' s t h k =
    ground (arith, expired-later d d' t.expires_at h, older-later d d' t.created_at _ h)

IsHeld-later : (d d' : Date) (s : Db) → d ≤ d' → IsHeld d s → IsHeld d' s
IsHeld-later d d' s h k =
    any-weaken (λ t. is_thread_due d s.boards t && is_referenced s t)
      (λ t. is_thread_due d' s.boards t && is_referenced s t) s.threads (λ t. due-later d d' s t h)
      k

sweeps-stalled :
    (d : Date) (ticks : List Clock) (s : Db)
    → IsHeld d s
    → All (λ clk. d ≤ clk.today) ticks
    → sweeps ticks s ≡ s
unfolding sweeps
sweeps-stalled d [] s held a = refl
sweeps-stalled d (clk ∷ ticks) s held (h, a) =
    rw (run_once-blocked clk.now_ts clk.today s (IsHeld-later d clk.today s h held))
      (sweeps-stalled d ticks s held a)

-- Where a thread that is due by a day is the origin of a room, the retention worker, on its own, deletes nothing by
-- any number of ticks on that day and later ones, so that no thread, no room message and no nonce goes.
pub run_retention-stalled :
    (d : Date) (ticks : List Clock) (s : Db)
    → IsHeld d s
    → All (λ clk. d ≤ clk.today) ticks
    → run_retention ticks s ≡ s
unfolding run_retention
run_retention-stalled d [] s held a = refl
run_retention-stalled d (instant ∷ ticks) s held (h, a) = sweeps-stalled d ticks s held a
