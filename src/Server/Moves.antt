-- ===== src/Server/Moves.antt =====
-- What the moves that are no room calls leave alone.
pub mod Posting
pub mod Writing
pub mod Admin
pub mod Workers
use lethe_project.Prelude.{ℕ, ◌≡◌, refl, ◌∙◌}
use lethe_project.Db.{Db}

-- The rooms, their members and their rosters are the same.
pub record SameRooms (s t : Db) : Type 0 where
  pub rooms : t.rooms ≡ s.rooms
  pub members : t.room_members ≡ s.room_members
  pub rosters : t.room_rosters ≡ s.room_rosters

-- The rooms and the nonces are the same.
pub record Aside (s t : Db) : Type 0 where
  pub tables : SameRooms s t
  pub nonces : t.request_nonces ≡ s.request_nonces

pub Aside-refl : (s : Db) → Aside s s
Aside-refl s = record {
  tables = record { rooms = refl; members = refl; rosters = refl };
  nonces = refl;
}

pub Aside-trans : {s t u : Db} → Aside s t → Aside t u → Aside s u
Aside-trans h k = record {
  tables = record {
    rooms = k.tables.rooms ∙ h.tables.rooms;
    members = k.tables.members ∙ h.tables.members;
    rosters = k.tables.rosters ∙ h.tables.rosters;
  };
  nonces = k.nonces ∙ h.nonces;
}
