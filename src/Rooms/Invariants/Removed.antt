-- ===== src/Rooms/Invariants/Removed.antt =====
-- The rows of a removed member under the statements of crates/lethe-server/src/db/rooms.rs.
use lethe_project.Prelude.{
  ◌≡◌, refl, Bool, true, false, List, [], ◌∷◌, Bytes, arith, same-eq, ◌++◌, ◌∙◌,
}
use lethe_project.Table.{any, update}
use lethe_project.Table.Rows.{any-append_mono, any-append_old, any-update, any-update-false}
use lethe_project.Db.{Db, Date, Member}
use lethe_project.Rooms.Queries
use lethe_project.Rooms.Queries.{
  has_box, is_active_box, is_active_sig, is_pending_box, pending_row, creator_row, add_member,
  NewRoom, soft_remove_by_sig, grant_wrap, remove_row, grant_row, is_member_by_box,
}
use lethe_project.Rooms.Rekey
use lethe_project.Rooms.Rekey.{Wrap, apply_wraps, wrap_row}
use lethe_project.Rooms.Calls.Stable.{Stable}
use lethe_project.Rooms.Invariants.Frames.{members-nonce, members-message, members-roster}

module _ (room_id box : Bytes) where
  -- The box key has a row in the room, and no active one.
  abbrev pub RowsGone : List Member → Type 0
  RowsGone rows =
      (any (has_box room_id box) rows ≡ true) × (any (is_active_box room_id box) rows ≡ false)

  pub record IsGone (s : Db) : Type 0 where
    pub rows : RowsGone s.room_members

  -- No update that leaves the keys and does not clear `removed_at` brings the member back.
  update-gone :
      (q : Member → Bool) (f : Member → Member) (rows : List Member)
      → ((m : Member) → has_box room_id box (f m) ≡ has_box room_id box m)
      → ((m : Member) → is_active_box room_id box (f m) ≡ true → is_active_box room_id box m ≡ true)
      → RowsGone rows
      → RowsGone (update q f rows)
  update-gone q f rows k a (h, g) = (
    any-update (has_box room_id box) q f rows k ∙ h,
    any-update-false (is_active_box room_id box) q f rows a g,
  )

  -- A new row has another key.
  append-gone :
      (m : Member) (rows : List Member)
      → any (has_box m.room_id m.member_box_pubkey) rows ≡ false
      → RowsGone rows
      → RowsGone (rows ++ m ∷ [])
  unfolding has_box is_active_box
  append-gone m rows c (h, g) = (
    any-append_mono (has_box room_id box) rows m h,
    any-append_old (is_active_box room_id box) rows m
          (ground (arith, same-eq m.room_id room_id, same-eq m.member_box_pubkey box))
        ∙ g,
  )

  remove-gone :
      (q : Member → Bool) (now : Date) (rows : List Member)
      → RowsGone rows
      → RowsGone (update q (remove_row now) rows)
  unfolding has_box is_active_box
  remove-gone q now rows h = update-gone q (remove_row now) rows (λ m. refl) (λ m e. ground arith) h

  grants-gone :
      (q : Member → Bool) (w i : Bytes) (rows : List Member)
      → RowsGone rows
      → RowsGone (update q (grant_row w i) rows)
  unfolding has_box is_active_box
  grants-gone q w i rows h = update-gone q (grant_row w i) rows (λ m. refl) (λ m e. e) h

  wraps-gone :
      (r : Bytes) (wraps : List Wrap) (rows : List Member)
      → RowsGone rows
      → RowsGone (apply_wraps r wraps rows)
  unfolding apply_wraps
  wraps-gone r [] rows h = h
  wraps-gone r ((b, w) ∷ wraps) rows h =
      wraps-gone r wraps (update (is_active_box r b) (wrap_row w) rows) (
        unfold has_box is_active_box in
        update-gone (is_active_box r b) (wrap_row w) rows (λ m. refl) (λ m e. e) h)

  create-IsGone : (id : Bytes) (r : NewRoom) (s : Db) → IsGone s → IsGone (Queries.create id r s).1
  unfolding Queries.create creator_row
  create-IsGone id r s h = record {
    rows = ground (arith, append-gone (creator_row id r) s.room_members, h.rows);
  }

  add-IsGone :
      (r b sig : Bytes) (today : Date) (s : Db) → IsGone s → IsGone (add_member r b sig today s).1
  unfolding add_member pending_row
  add-IsGone r b sig today s h = record {
    rows = ground (arith, append-gone (pending_row r b sig today) s.room_members, h.rows);
  }

  grant-IsGone : (r b w i : Bytes) (s : Db) → IsGone s → IsGone (grant_wrap r b w i s).1
  unfolding grant_wrap
  grant-IsGone r b w i s h = record {
    rows = ground (arith, grants-gone (is_pending_box r b) w i s.room_members h.rows, h.rows);
  }

  rekey-IsGone :
      (r b : Bytes) (wraps : List Wrap) (today : Date) (s : Db)
      → IsGone s
      → IsGone (Rekey.remove_and_rekey r b wraps today s).1
  unfolding Rekey.remove_and_rekey
  rekey-IsGone r b wraps today s h = record {
    rows = ground (
      arith,
      wraps-gone r wraps (update (is_active_box r b) (remove_row today) s.room_members)
          (remove-gone (is_active_box r b) today s.room_members h.rows),
      h.rows,
    );
  }

  pub IsGone-stable : Stable IsGone
  IsGone-stable = record {
    on_nonce = λ now kind pk ts s h. record { rows = rw (members-nonce now kind pk ts s) h.rows };
    on_create = create-IsGone;
    on_add = λ r b sig today s _ h. add-IsGone r b sig today s h;
    on_leave = λ r sig today s h. record {
      rows =
          unfold soft_remove_by_sig in
          remove-gone (is_active_sig r sig) today s.room_members h.rows;
    };
    on_grant = grant-IsGone;
    on_roster =
        λ r e ring sig today s h. record { rows = rw (members-roster r e ring sig today s) h.rows };
    on_rekey = rekey-IsGone;
    on_message = λ id m s h. record { rows = rw (members-message id m s) h.rows };
  }
