-- ===== src/Moderation/Duplicates.antt =====
-- What "recent" means to the duplicate rule, whose column holds days.
use lethe_project.Prelude.{ℕ, ◌+◌, ◌/◌, ◌≤◌, ◌≡◌, ◌↔◌, true, arith}
use lethe_project.Moderation.{is_recent, unix_epoch_day}

-- A post counts as recent exactly if the day it was created on is not before the day of the clock:
-- of the last 24 hours only those since midnight UTC count.
pub is_recent_iff :
    (now created_at : ℕ)
    → (is_recent now created_at ≡ true) ↔ (unix_epoch_day + now / 86400 ≤ created_at)
unfolding is_recent
is_recent_iff now created_at = ground arith
