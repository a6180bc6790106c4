-- ===== src/Rooms/Invariants/Frames.antt =====
-- Which tables the statements leave alone.
use lethe_project.Prelude.{
  ℕ, ◌≡◌, Bytes, Text, List, [], ◌∷◌, ◌++◌, arith, Bool-cases, Option-cases, inl, inr, ◌==◌, length,
}
use lethe_project.Table.{any, count, update}
use lethe_project.Db.{Db, Date}
use lethe_project.Nonces.{record_nonce}
use lethe_project.Rooms.Queries
use lethe_project.Rooms.Queries.{
  NewRoom, insert_roster, roster_row, at_epoch_before, publish_roster, is_roster, has_id,
  has_invite, has_box, references_thread, room_row, creator_row, current_epoch, is_active_box,
  remove_row,
}
use lethe_project.Rooms.Messages.{NewMessage, insert_message}
use lethe_project.Rooms.Rekey
use lethe_project.Rooms.Rekey.{Wrap, apply_wraps, survivors, all_survive, bump_epoch, next_epoch}

module _ (now : ℕ) (kind : Text) (pk : Bytes) (ts : ℕ) (s : Db) where
  pub members-nonce : (record_nonce now kind pk ts s).1.room_members ≡ s.room_members
  unfolding record_nonce
  members-nonce = ground arith

  pub rooms-nonce : (record_nonce now kind pk ts s).1.rooms ≡ s.rooms
  unfolding record_nonce
  rooms-nonce = ground arith

  pub rosters-nonce : (record_nonce now kind pk ts s).1.room_rosters ≡ s.room_rosters
  unfolding record_nonce
  rosters-nonce = ground arith

module _ (id : Bytes) (m : NewMessage) (s : Db) where
  pub members-message : (insert_message id m s).1.room_members ≡ s.room_members
  unfolding insert_message
  members-message = ground arith

  pub rooms-message : (insert_message id m s).1.rooms ≡ s.rooms
  unfolding insert_message
  rooms-message = ground arith

  pub rosters-message : (insert_message id m s).1.room_rosters ≡ s.room_rosters
  unfolding insert_message
  rosters-message = ground arith

pub members-roster :
    (room_id : Bytes) (epoch : ℕ) (ring : List Bytes) (sig : Bytes) (today : Date) (s : Db)
    → (insert_roster room_id epoch ring sig today s).1.room_members ≡ s.room_members
unfolding insert_roster
members-roster room_id epoch ring sig today s = ground arith

-- What holds before a statement and after its success holds after it.
pub create-cases :
    (id : Bytes) (r : NewRoom) (s : Db) (P : Db → Type 0)
    → P s
    → P (record s {
      rooms = s.rooms ++ room_row id r ∷ [];
      room_members = s.room_members ++ creator_row id r ∷ [];
    })
    → P (Queries.create id r s).1
unfolding Queries.create
create-cases id r s P h g = elim (Bool-cases (any (has_id id) s.rooms)) [
  | inl t ↦ rw t h
  | inr t ↦ elim (Bool-cases (any (has_invite r.invite_code) s.rooms)) [
    | inl u ↦ rw (t, u) h
    | inr u ↦ elim (Bool-cases (references_thread r.origin_thread s)) [
      | inr v ↦ rw (t, u, v) h
      | inl v ↦ elim (Bool-cases (any (has_box id r.creator_box_pubkey) s.room_members)) [
        | inl w ↦ rw (t, u, v, w) h
        | inr w ↦ rw (t, u, v, w) g
      ]
    ]
  ]
]

pub insert_roster-cases :
    (r : Bytes) (e : ℕ) (ring : List Bytes) (sig : Bytes) (today : Date) (s : Db) (P : Db → Type 0)
    → P s
    → P (record s {
      rooms = update (at_epoch_before r e) (publish_roster e) s.rooms;
      room_rosters = s.room_rosters ++ roster_row r e ring sig today ∷ [];
    })
    → P (insert_roster r e ring sig today s).1
unfolding insert_roster roster_row
insert_roster-cases r e ring sig today s P h g =
    elim (Bool-cases (count (at_epoch_before r e) s.rooms == 1)) [
      | inr t ↦ rw t h
      | inl t ↦ elim (Bool-cases (any (is_roster r e) s.room_rosters)) [
        | inl u ↦ rw (t, u) h
        | inr u ↦ elim (Bool-cases (length sig == 64)) [
          | inr v ↦ rw (t, u, v) h
          | inl v ↦ rw (t, u, v) g
        ]
      ]
    ]

bump-cases :
    (r : Bytes) (before s : Db) (P : Db → Type 0)
    → P before
    → P (record s { rooms = update (has_id r) next_epoch s.rooms })
    → P (bump_epoch r before s).1
unfolding bump_epoch
bump-cases r before s P h g =
    elim (Option-cases
      (current_epoch r (record s { rooms = update (has_id r) next_epoch s.rooms }))) [
        | inl t ↦ rw (t, bump_epoch) h
        | inr (e, t) ↦ rw (t, bump_epoch) g
      ]

pub rekey-cases :
    (r b : Bytes) (wraps : List Wrap) (today : Date) (s : Db) (P : Db → Type 0)
    → P s
    → P (record s {
      room_members =
          apply_wraps r wraps (update (is_active_box r b) (remove_row today) s.room_members);
      rooms = update (has_id r) next_epoch s.rooms;
    })
    → P (Rekey.remove_and_rekey r b wraps today s).1
unfolding Rekey.remove_and_rekey
rekey-cases r b wraps today s P h g =
    let left = update (is_active_box r b) (remove_row today) s.room_members in
    elim (Bool-cases (count (is_active_box r b) s.room_members == 1)) [
      | inr t ↦ rw t h
      | inl t ↦ elim (Bool-cases (length (survivors r left) == length wraps)) [
        | inr u ↦ rw (t, u) h
        | inl u ↦ elim (Bool-cases (all_survive wraps (survivors r left))) [
          | inr v ↦ rw (t, u, v) h
          | inl v ↦
              rw (t, u, v)
                (bump-cases r s (record s { room_members = apply_wraps r wraps left }) P h g)
        ]
      ]
    ]
