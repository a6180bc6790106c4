-- ===== src/Rooms/Invariants/Life.antt =====
-- The life of a box key in a room, as the rows of room_members tell it: the statements of
-- crates/lethe-server/src/db/rooms.rs under the calls of routes/rooms.rs.
pub mod Diagram
pub mod Rows
use lethe_project.Prelude.{
  ℕ, ◌≡◌, refl, sym, ap, subst, Bool, true, false, Bool-cases, inl, inr, Option, none, some, List,
  [], ◌∷◌, ◌++◌, Bytes, arith, if◌then◌else◌, same,
}
use lethe_project.Table.{any, first, update}
use lethe_project.Env.{Env}
use lethe_project.Db.{Db, Date, Member}
use lethe_project.Rooms.Queries
use lethe_project.Rooms.Queries.{
  has_box, is_active_box, is_active_sig, is_pending_box, pending_row, creator_row, add_member,
  NewRoom, soft_remove_by_sig, grant_wrap, remove_row, grant_row,
}
use lethe_project.Rooms.Rekey
use lethe_project.Rooms.Rekey.{Wrap, apply_wraps, wrap_row}
use lethe_project.Rooms.Calls.Stable.{Stable}
use lethe_project.Rooms.Invariants.Frames.{
  members-nonce, members-message, members-roster, create-cases, rekey-cases,
}
use lethe_project.Rooms.Invariants.Life.Diagram.{
  Status, absent, pending, member, gone, ◌⟶◌, ◌⟶*◌, founds, asks, is_let_in, withdraws, departs,
  stays, goes, ⟶*-trans, row_status, standing, status, removed-⟶*, keyed-⟶*,
}
use lethe_project.Rooms.Invariants.Life.Rows.{append-⟶*, remove-⟶*, grants-⟶*, wraps-⟶*}

module _ (room_id box : Bytes) where
  create-⟶* :
      (id : Bytes) (r : NewRoom) (s : Db)
      → status room_id box s ⟶* status room_id box (Queries.create id r s).1
  unfolding status row_status creator_row
  create-⟶* id r s =
      create-cases id r s (λ t. status room_id box s ⟶* status room_id box t) stays
        (append-⟶* room_id box (creator_row id r) s.room_members (goes founds stays))

  add-⟶* :
      (r b sig : Bytes) (today : Date) (s : Db)
      → status room_id box s ⟶* status room_id box (add_member r b sig today s).1
  unfolding status row_status add_member pending_row
  add-⟶* r b sig today s = ground (
    arith,
    append-⟶* room_id box (pending_row r b sig today) s.room_members (goes asks stays),
    stays {s = status room_id box s},
  )

  grant-⟶* :
      (r b w i : Bytes) (s : Db)
      → status room_id box s ⟶* status room_id box (grant_wrap r b w i s).1
  unfolding status grant_wrap
  grant-⟶* r b w i s = elim (Bool-cases (any (is_active_box r i) s.room_members)) [
    | inl t ↦ rw t (grants-⟶* room_id box (is_pending_box r b) w i s.room_members)
    | inr t ↦ rw t stays
  ]

  rekey-⟶* :
      (r b : Bytes) (wraps : List Wrap) (today : Date) (s : Db)
      → status room_id box s ⟶* status room_id box (Rekey.remove_and_rekey r b wraps today s).1
  unfolding status
  rekey-⟶* r b wraps today s =
      rekey-cases r b wraps today s (λ t. status room_id box s ⟶* status room_id box t) stays
        (⟶*-trans (remove-⟶* room_id box (is_active_box r b) today s.room_members)
          (wraps-⟶* room_id box r wraps _))

  pub same_members :
      (s t : Db) → t.room_members ≡ s.room_members → status room_id box s ⟶* status room_id box t
  unfolding status
  same_members s t e = rw e stays

  -- The statements take a key from a status only along the edges.
  pub life-Stable : (s : Db) → Stable (λ t. status room_id box s ⟶* status room_id box t)
  life-Stable s = record {
    on_nonce = λ now kind pk ts t h. ⟶*-trans h (same_members t _ (members-nonce now kind pk ts t));
    on_create = λ id r t h. ⟶*-trans h (create-⟶* id r t);
    on_add = λ r b sig today t _ h. ⟶*-trans h (add-⟶* r b sig today t);
    on_leave = λ r sig today t h. ⟶*-trans h (
        unfold status soft_remove_by_sig in
        remove-⟶* room_id box (is_active_sig r sig) today t.room_members);
    on_grant = λ r b w i t h. ⟶*-trans h (grant-⟶* r b w i t);
    on_roster = λ r e ring sig today t h.
        ⟶*-trans h (same_members t _ (members-roster r e ring sig today t));
    on_rekey = λ r b wraps today t h. ⟶*-trans h (rekey-⟶* r b wraps today t);
    on_message = λ id m t h. ⟶*-trans h (same_members t _ (members-message id m t));
  }
