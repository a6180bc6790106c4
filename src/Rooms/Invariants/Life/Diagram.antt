-- ===== src/Rooms/Invariants/Life/Diagram.antt =====
-- The statuses of a box key in a room and the edges between them, read off a row of room_members
-- (crates/lethe-server/src/db/rooms.rs).
use lethe_project.Prelude.{Option, none, some, Bytes}
use lethe_project.Table.{first}
use lethe_project.Db.{Db, Date, Member}
use lethe_project.Rooms.Queries.{has_box}

pub data Status : Type 0 where
  absent pending member gone : Status

infix 40 ◌⟶◌ ◌⟶*◌
pub data ◌⟶◌ : Status → Status → Type 0 where
  founds : absent ⟶ member
  asks : absent ⟶ pending
  is_let_in : pending ⟶ member
  withdraws : pending ⟶ gone
  departs : member ⟶ gone

pub data ◌⟶*◌ : Status → Status → Type 0 where
  stays : {s : Status} → s ⟶* s
  goes : {s t u : Status} → s ⟶ t → t ⟶* u → s ⟶* u

pub ⟶*-trans : {s t u : Status} → s ⟶* t → t ⟶* u → s ⟶* u
⟶*-trans stays k = k
⟶*-trans (goes e h) k = goes e (⟶*-trans h k)

abbrev pub standing : Option Date → Option Bytes → Status
standing (some d) k = gone
standing none none = pending
standing none (some k) = member

-- The status of the first row of the key
unfoldable pub row_status : Option Member → Status
row_status none = absent
row_status (some m) = standing m.removed_at m.wrapped_key

unfoldable pub status : Bytes → Bytes → Db → Status
unfolding row_status
status room_id box s = row_status (first (has_box room_id box) s.room_members)

pub removed-⟶* :
    (d : Option Date) (k : Option Bytes) (now : Date) → standing d k ⟶* standing (some now) k
removed-⟶* (some d) k now = stays
removed-⟶* none none now = goes withdraws stays
removed-⟶* none (some k) now = goes departs stays

pub keyed-⟶* :
    (d : Option Date) (k : Option Bytes) (w : Bytes) → standing d k ⟶* standing d (some w)
keyed-⟶* (some d) k w = stays
keyed-⟶* none none w = goes is_let_in stays
keyed-⟶* none (some k) w = stays
