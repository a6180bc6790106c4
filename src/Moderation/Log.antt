-- ===== src/Moderation/Log.antt =====
-- `list_recent` of crates/lethe-server/src/db/moderation.rs.
use lethe_project.Prelude.{ℕ, Option, List, Bytes}
use lethe_project.Db.{Db, Date, ModerationAction}
use lethe_project.Paging.{later, page}

unfoldable pub decided_key : ModerationAction → Date × Bytes
decided_key a = (a.decided_at, a.id)

unfoldable pub list_recent : ℕ → Option (Date × Bytes) → Db → List ModerationAction
unfolding decided_key page
list_recent limit cursor s = page later decided_key cursor limit s.moderation_actions
