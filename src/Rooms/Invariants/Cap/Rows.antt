-- ===== src/Rooms/Invariants/Cap/Rows.antt =====
-- Rows of room_members under the statements of crates/lethe-server/src/db/rooms.rs: how many are active, and whose rooms are there.
use lethe_project.Prelude.{
  ℕ, ◌+◌, ◌≤◌, ◌≡◌, refl, Bool, true, false, List, [], ◌∷◌, ◌++◌, ◌∙◌, ap, Bytes, arith, same,
  same-eq, All, All-weaken,
}
use lethe_project.Table.{any, update, count}
use lethe_project.Table.Rows.{count-append, count-update-le, any-update, any-weaken}
use lethe_project.Table.Every.{All-update}
use lethe_project.Db.{Date, Member, Room}
use lethe_project.Rooms.Queries.{
  has_box, has_id, is_active_in, is_active_box, remove_row, grant_row,
}
use lethe_project.Rooms.Membership.{max_room_members}
use lethe_project.Rooms.Rekey.{Wrap, apply_wraps, wrap_row}

-- Active rows of a room.
unfoldable pub active : Bytes → List Member → ℕ
active r rows = count (is_active_in r) rows

pub record IsCapped (rows : List Member) : Type 0 where
  pub cap : (r : Bytes) → active r rows ≤ max_room_members

-- An update that turns no row active keeps the cap.
update-IsCapped :
    (q : Member → Bool) (f : Member → Member) (rows : List Member)
    → ((r : Bytes) (m : Member) → is_active_in r (f m) ≡ true → is_active_in r m ≡ true)
    → IsCapped rows
    → IsCapped (update q f rows)
unfolding active
update-IsCapped q f rows k c = record {
  cap = λ r. omega (arith, count-update-le (is_active_in r) q f rows (λ m _ e. k r m e), c.cap r);
}

pub remove-IsCapped :
    (q : Member → Bool) (now : Date) (rows : List Member)
    → IsCapped rows
    → IsCapped (update q (remove_row now) rows)
unfolding is_active_in
remove-IsCapped q now rows = update-IsCapped q (remove_row now) rows (λ r m e. ground arith)

pub grants-IsCapped :
    (q : Member → Bool) (w i : Bytes) (rows : List Member)
    → IsCapped rows
    → IsCapped (update q (grant_row w i) rows)
unfolding is_active_in
grants-IsCapped q w i rows = update-IsCapped q (grant_row w i) rows (λ r m e. e)

pub wraps-IsCapped :
    (r : Bytes) (wraps : List Wrap) (rows : List Member)
    → IsCapped rows
    → IsCapped (apply_wraps r wraps rows)
unfolding apply_wraps is_active_in
wraps-IsCapped r [] rows h = h
wraps-IsCapped r ((b, w) ∷ wraps) rows h =
    wraps-IsCapped r wraps (update (is_active_box r b) (wrap_row w) rows)
      (update-IsCapped (is_active_box r b) (wrap_row w) rows (λ r m e. e) h)

-- One more row where its room has fewer than 50 active ones.
pub append-IsCapped :
    (m : Member) (rows : List Member)
    → active m.room_id rows + 1 ≤ max_room_members
    → IsCapped rows
    → IsCapped (rows ++ m ∷ [])
unfolding active is_active_in
append-IsCapped m rows fits c = record {
  cap = λ r. ground (arith, count-append (is_active_in r) rows m, c.cap r, same-eq m.room_id r);
}

pub member-has_row :
    (room_id box : Bytes) (rows : List Member)
    → any (is_active_box room_id box) rows ≡ true
    → any (has_box room_id box) rows ≡ true
unfolding is_active_box
member-has_row room_id box rows h =
    any-weaken (is_active_box room_id box) (has_box room_id box) rows (λ m p. ground arith) h

-- Every member's room is there.
abbrev pub Known : List Room → Member → Type 0
Known rooms m = any (has_id m.room_id) rooms ≡ true

pub unknown-empty :
    (r : Bytes) (rooms : List Room) (rows : List Member)
    → any (has_id r) rooms ≡ false
    → All (Known rooms) rows
    → active r rows ≡ 0
unfolding active count is_active_in
unknown-empty r rooms [] h k = refl
unknown-empty r rooms (m ∷ rows) h (a, k) =
    ground (arith, unknown-empty r rooms rows h k, same-eq m.room_id r)

pub update-Known :
    (rooms : List Room) (q : Member → Bool) (f : Member → Member) (rows : List Member)
    → ((m : Member) → (f m).room_id ≡ m.room_id)
    → All (Known rooms) rows
    → All (Known rooms) (update q f rows)
update-Known rooms q f rows k = All-update (Known rooms) q f rows (λ m _ h. rw (k m) h)

pub wraps-Known :
    (rooms : List Room) (r : Bytes) (wraps : List Wrap) (rows : List Member)
    → All (Known rooms) rows
    → All (Known rooms) (apply_wraps r wraps rows)
unfolding apply_wraps
wraps-Known rooms r [] rows h = h
wraps-Known rooms r ((b, w) ∷ wraps) rows h =
    wraps-Known rooms r wraps (update (is_active_box r b) (wrap_row w) rows)
      (update-Known rooms (is_active_box r b) (wrap_row w) rows (λ m. refl) h)

-- An update of the rooms that leaves their ids.
pub rooms-Known :
    (rooms : List Room) (q : Room → Bool) (f : Room → Room) (rows : List Member)
    → ((r : Room) → (f r).id ≡ r.id)
    → All (Known rooms) rows
    → All (Known (update q f rooms)) rows
unfolding has_id
rooms-Known rooms q f rows k h =
    All-weaken (Known (update q f rooms)) rows
      (λ m e. any-update (has_id m.room_id) q f rooms (λ r. ap (λ i. same i m.room_id) (k r)) ∙ e) h
