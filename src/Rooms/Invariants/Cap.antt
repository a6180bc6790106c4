-- ===== src/Rooms/Invariants/Cap.antt =====
-- The number of active members of a room under the statements of crates/lethe-server/src/db/rooms.rs.
pub mod Rows
use lethe_project.Rooms.Invariants.Cap.Rows.{
  active, IsCapped, remove-IsCapped, grants-IsCapped, wraps-IsCapped, append-IsCapped,
  member-has_row, Known, unknown-empty, update-Known, wraps-Known, rooms-Known,
}
use lethe_project.Prelude.{
  ℕ, ◌+◌, ◌≤◌, ◌≡◌, refl, Bool, true, false, List, [], ◌∷◌, ◌++◌, ◌∙◌, ap, Bytes, arith, same,
  same-eq, same_refl, Bool-cases, inl, inr, All, All-append, All-weaken,
}
use lethe_project.Table.{any, update, count}
use lethe_project.Table.Rows.{
  any-append_mono, any-append, count-append, count-update-le, any-update, any-weaken,
}
use lethe_project.Table.Every.{All-update}
use lethe_project.Env.{Env}
use lethe_project.Db.{Db, Date, Member, Room, empty_db}
use lethe_project.Rooms.Queries
use lethe_project.Rooms.Queries.{
  has_box, has_id, is_active, is_active_in, is_active_box, is_active_sig, is_pending_box,
  pending_row, creator_row, room_row, add_member, NewRoom, soft_remove_by_sig, grant_wrap,
  remove_row, grant_row, is_member_by_box, active_member_count, has_invite, references_thread,
  insert_roster, at_epoch_before, publish_roster,
}
use lethe_project.Rooms.Membership.{has_room, max_room_members}
use lethe_project.Rooms.Rekey
use lethe_project.Rooms.Rekey.{Wrap, apply_wraps, wrap_row, bump_epoch, next_epoch}
use lethe_project.Rooms.Messages.{insert_message}
use lethe_project.Nonces.{record_nonce}
use lethe_project.Rooms.Calls.Stable.{Stable}
use lethe_project.Rooms.Invariants.Frames.{
  members-nonce, members-message, rooms-nonce, rooms-message, create-cases, insert_roster-cases,
  rekey-cases,
}

pub record Capped (s : Db) : Type 0 where
  rows : IsCapped s.room_members
  known : All (Known s.rooms) s.room_members

pub same_tables :
    (s t : Db) → t.room_members ≡ s.room_members → t.rooms ≡ s.rooms → Capped s → Capped t
same_tables s t e f c = record { rows = rw e c.rows; known = rw (e, f) c.known }

-- A newcomer without a row fits, if the handler found room.
newcomer-fits :
    (r b : Bytes) (s : Db)
    → has_room r b s ≡ true
    → any (has_box r b) s.room_members ≡ false
    → active r s.room_members + 1 ≤ max_room_members
unfolding has_room is_member_by_box active_member_count active
newcomer-fits r b s room fresh = ground (arith, member-has_row r b s.room_members)

append-Known :
    (rooms : List Room) (m : Member) (rows : List Member)
    → Known rooms m
    → All (Known rooms) rows
    → All (Known rooms) (rows ++ m ∷ [])
append-Known rooms m rows k h = All-append (Known rooms) rows (m ∷ []) h (k, tt)

add-Capped :
    (r b sig : Bytes) (today : Date) (s : Db)
    → has_room r b s ≡ true
    → Capped s
    → Capped (add_member r b sig today s).1
unfolding add_member pending_row
add-Capped r b sig today s room c = elim (Bool-cases (any (has_box r b) s.room_members)) [
  | inl old ↦ rw old c
  | inr fresh ↦ elim (Bool-cases (any (has_id r) s.rooms)) [
    | inr unknown ↦ rw (fresh, unknown) c
    | inl there ↦
        rw (fresh, there)
          (record {
            rows =
                append-IsCapped (pending_row r b sig today) s.room_members
                  (newcomer-fits r b s room fresh) c.rows;
            known = append-Known s.rooms (pending_row r b sig today) s.room_members there c.known;
          })
  ]
]

-- The rooms table grows.
more-Known :
    (rooms : List Room) (r : Room) (rows : List Member)
    → All (Known rooms) rows
    → All (Known (rooms ++ r ∷ [])) rows
more-Known rooms r rows h =
    All-weaken (Known (rooms ++ r ∷ [])) rows (λ m e. any-append_mono (has_id m.room_id) rooms r e)
      h

create-Capped : (id : Bytes) (r : NewRoom) (s : Db) → Capped s → Capped (Queries.create id r s).1
unfolding Queries.create
create-Capped id r s c = elim (Bool-cases (any (has_id id) s.rooms)) [
  | inl old ↦ rw old c
  | inr fresh ↦
      let fits : active id s.room_members + 1 ≤ max_room_members =
        omega (arith, unknown-empty id s.rooms s.room_members fresh c.known) in
      let grown : Capped (record s {
        rooms = s.rooms ++ room_row id r ∷ [];
        room_members = s.room_members ++ creator_row id r ∷ [];
      }) =
        record {
          rows =
              unfold creator_row in append-IsCapped (creator_row id r) s.room_members fits c.rows;
          known =
              append-Known (s.rooms ++ room_row id r ∷ []) (creator_row id r) s.room_members
                (unfold creator_row room_row has_id in
                  any-append (has_id id) s.rooms (room_row id r) (same_refl id))
                (more-Known s.rooms (room_row id r) s.room_members c.known);
        } in
      create-cases id r s Capped c grown
]

grant-Capped : (r b w i : Bytes) (s : Db) → Capped s → Capped (grant_wrap r b w i s).1
unfolding grant_wrap
grant-Capped r b w i s c = elim (Bool-cases (any (is_active_box r i) s.room_members)) [
  | inr f ↦ rw f c
  | inl t ↦ rw t (record {
    rows = grants-IsCapped (is_pending_box r b) w i s.room_members c.rows;
    known =
        update-Known s.rooms (is_pending_box r b) (grant_row w i) s.room_members (λ m. refl)
          c.known;
  })
]

roster-Capped :
    (r : Bytes) (e : ℕ) (ring : List Bytes) (sig : Bytes) (today : Date) (s : Db)
    → Capped s
    → Capped (insert_roster r e ring sig today s).1
roster-Capped r e ring sig today s c = insert_roster-cases r e ring sig today s Capped c (record {
  rows = c.rows;
  known =
      rooms-Known s.rooms (at_epoch_before r e) (publish_roster e) s.room_members (λ x. refl)
        c.known;
})

rekey-Capped :
    (r b : Bytes) (wraps : List Wrap) (today : Date) (s : Db)
    → Capped s
    → Capped (Rekey.remove_and_rekey r b wraps today s).1
rekey-Capped r b wraps today s c =
    let left = update (is_active_box r b) (remove_row today) s.room_members in
    rekey-cases r b wraps today s Capped c (record {
      rows =
          wraps-IsCapped r wraps left
            (remove-IsCapped (is_active_box r b) today s.room_members c.rows);
      known =
          rooms-Known s.rooms (has_id r) next_epoch (apply_wraps r wraps left) (λ x. refl)
            (wraps-Known s.rooms r wraps left (
              update-Known s.rooms (is_active_box r b) (remove_row today) s.room_members (λ m. refl)
                c.known));
    })

pub Capped-stable : Stable Capped
Capped-stable = record {
  on_nonce = λ now kind pk ts s h.
      same_tables s (record_nonce now kind pk ts s).1 (members-nonce now kind pk ts s)
        (rooms-nonce now kind pk ts s) h;
  on_create = create-Capped;
  on_add = add-Capped;
  on_leave = λ r sig today s h. record {
    rows =
        unfold soft_remove_by_sig in
        remove-IsCapped (is_active_sig r sig) today s.room_members h.rows;
    known =
        unfold soft_remove_by_sig in
        update-Known s.rooms (is_active_sig r sig) (remove_row today) s.room_members (λ m. refl)
          h.known;
  };
  on_grant = grant-Capped;
  on_roster = roster-Capped;
  on_rekey = rekey-Capped;
  on_message = λ id m s h.
      same_tables s (insert_message id m s).1 (members-message id m s) (rooms-message id m s) h;
}

pub empty-Capped : Capped empty_db
unfolding count active
empty-Capped = record { rows = record { cap = λ b. omega arith }; known = tt }

pub Capped-le :
    (room_id : Bytes) (s : Db) → Capped s → active_member_count room_id s ≤ max_room_members
unfolding active_member_count active
Capped-le room_id s c = c.rows.cap room_id
