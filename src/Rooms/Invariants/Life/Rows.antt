-- ===== src/Rooms/Invariants/Life/Rows.antt =====
-- The status of a box key under an update or an insert of room_members
-- (crates/lethe-server/src/db/rooms.rs).
use lethe_project.Prelude.{◌≡◌, refl, Bool, Bool-cases, inl, inr, some, List, [], ◌∷◌, ◌++◌, Bytes}
use lethe_project.Table.{first, update}
use lethe_project.Db.{Date, Member}
use lethe_project.Rooms.Queries.{has_box, is_active_box, remove_row, grant_row}
use lethe_project.Rooms.Rekey.{Wrap, apply_wraps, wrap_row}
use lethe_project.Rooms.Invariants.Life.Diagram.{
  Status, absent, ◌⟶*◌, stays, ⟶*-trans, row_status, removed-⟶*, keyed-⟶*,
}

module _ (room_id box : Bytes) where
  abbrev pub rows_status : List Member → Status
  rows_status rows = row_status (first (has_box room_id box) rows)

  update-⟶* :
      (q : Member → Bool) (f : Member → Member) (rows : List Member)
      → ((m : Member) → has_box room_id box (f m) ≡ has_box room_id box m)
      → ((m : Member) → row_status (some m) ⟶* row_status (some (f m)))
      → rows_status rows ⟶* rows_status (update q f rows)
  unfolding first update
  update-⟶* q f [] k h = stays
  update-⟶* q f (m ∷ rows) k h = elim (Bool-cases (q m)) [
    | inl t ↦ elim (Bool-cases (has_box room_id box m)) [
      | inl u ↦ rw (t, k m, u) (h m)
      | inr u ↦ rw (t, k m, u) (update-⟶* q f rows k h)
    ]
    | inr t ↦ elim (Bool-cases (has_box room_id box m)) [
      | inl u ↦ rw (t, u) stays
      | inr u ↦ rw (t, u) (update-⟶* q f rows k h)
    ]
  ]

  pub append-⟶* :
      (m : Member) (rows : List Member)
      → absent ⟶* row_status (some m)
      → rows_status rows ⟶* rows_status (rows ++ m ∷ [])
  unfolding first row_status
  append-⟶* m [] h = elim (Bool-cases (has_box room_id box m)) [
    | inl t ↦ rw t h
    | inr t ↦ rw t stays
  ]
  append-⟶* m (n ∷ rows) h = elim (Bool-cases (has_box room_id box n)) [
    | inl t ↦ rw t stays
    | inr t ↦ rw t (append-⟶* m rows h)
  ]

  pub remove-⟶* :
      (q : Member → Bool) (now : Date) (rows : List Member)
      → rows_status rows ⟶* rows_status (update q (remove_row now) rows)
  unfolding has_box row_status
  remove-⟶* q now rows =
      update-⟶* q (remove_row now) rows (λ m. refl) (λ m. removed-⟶* m.removed_at m.wrapped_key now)

  pub grants-⟶* :
      (q : Member → Bool) (w i : Bytes) (rows : List Member)
      → rows_status rows ⟶* rows_status (update q (grant_row w i) rows)
  unfolding has_box row_status
  grants-⟶* q w i rows =
      update-⟶* q (grant_row w i) rows (λ m. refl) (λ m. keyed-⟶* m.removed_at m.wrapped_key w)

  wrap-⟶* :
      (q : Member → Bool) (w : Bytes) (rows : List Member)
      → rows_status rows ⟶* rows_status (update q (wrap_row w) rows)
  unfolding has_box row_status
  wrap-⟶* q w rows =
      update-⟶* q (wrap_row w) rows (λ m. refl) (λ m. keyed-⟶* m.removed_at m.wrapped_key w)

  pub wraps-⟶* :
      (r : Bytes) (wraps : List Wrap) (rows : List Member)
      → rows_status rows ⟶* rows_status (apply_wraps r wraps rows)
  unfolding apply_wraps
  wraps-⟶* r [] rows = stays
  wraps-⟶* r ((b, w) ∷ wraps) rows =
      ⟶*-trans (wrap-⟶* (is_active_box r b) w rows) (wraps-⟶* r wraps _)
