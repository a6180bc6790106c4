-- ===== src/Rooms/Removal/Effects.antt =====
-- What a removal does to the room, and that it is final.
use lethe_project.Prelude.{ℕ, ◌≡◌, ◌∙◌, refl, true, false, some, List, [], ◌∷◌, Bytes, Text, arith}
use lethe_project.Table.{update, any}
use lethe_project.Table.Rows.{any-of-count, any-update}
use lethe_project.Error.{Result, ok, err, DbError}
use lethe_project.Action.Ensures.{Ensures, Ensures-bind}
use lethe_project.Checks.Ensures.{Ensures-decode, Ensures-decode_pubkey}
use lethe_project.Server.{Reach}
use lethe_project.Server.Invariants.{removed_for_good}
use lethe_project.Env.{Env, Clock}
use lethe_project.Db.{Db, Date, Member}
use lethe_project.Rooms.Requests.{RemoveMemberReq}
use lethe_project.Rooms.Queries.{has_box, is_active_box, remove_row, is_member_by_box}
use lethe_project.Rooms.Rekey
use lethe_project.Rooms.Rekey.{Wrap, apply_wraps, wrap_row}
use lethe_project.Rooms.Rekey.Success.{success, left}
use lethe_project.Rooms.Removal.{rekey_statement, rekeyed, remove_and_rekey}

any_box-apply :
    (r b : Bytes) (ws : List Wrap) (rows : List Member)
    → (any (has_box r b) (apply_wraps r ws rows) ≡ any (has_box r b) rows)
      × (any (is_active_box r b) (apply_wraps r ws rows) ≡ any (is_active_box r b) rows)
unfolding apply_wraps
any_box-apply r b [] rows = (refl, refl)
any_box-apply r b ((c, w) ∷ ws) rows =
    let (h, a) = any_box-apply r b ws (update (is_active_box r c) (wrap_row w) rows) in
    (
      h
          ∙ unfold has_box in
            any-update (has_box r b) (is_active_box r c) (wrap_row w) rows (λ m. refl),
      a
          ∙ unfold is_active_box has_box in
            any-update (is_active_box r b) (is_active_box r c) (wrap_row w) rows (λ m. refl),
    )

none-active :
    (r b : Bytes) (now : Date) (rows : List Member)
    → any (is_active_box r b) (update (is_active_box r b) (remove_row now) rows) ≡ false
unfolding any update is_active_box
none-active r b now [] = refl
none-active r b now (m ∷ rows) = ground (arith, none-active r b now rows)

still-there :
    (r b : Bytes) (now : Date) (rows : List Member)
    → any (is_active_box r b) rows ≡ true
    → any (has_box r b) (update (is_active_box r b) (remove_row now) rows) ≡ true
unfolding any update is_active_box has_box
still-there r b now [] h = ground arith
still-there r b now (m ∷ rows) h = ground (arith, still-there r b now rows)

-- After a successful rekey the target has a row, and no active one.
target-out :
    (r b : Bytes) (wraps : List Wrap) (now : Date) (s s' : Db) (e : ℕ)
    → Rekey.remove_and_rekey r b wraps now s ≡ (ok e, s')
    → (any (has_box r b) s'.room_members ≡ true) × (any (is_active_box r b) s'.room_members ≡ false)
target-out r b wraps now s s' e h =
    let won = success r b wraps now s s' e h in
    let (k, a) = any_box-apply r b wraps (left r b wraps now s s' e) in
    (
      rw won.rows (
          k
          ∙ still-there r b now s.room_members
              (any-of-count (is_active_box r b) s.room_members (omega (arith, won.found)))),
      rw won.rows (a ∙ none-active r b now s.room_members),
    )

abbrev Out : Bytes → Bytes → ℕ → Db → Type 0
Out r b e s =
    (any (has_box r b) s.room_members ≡ true) × (any (is_active_box r b) s.room_members ≡ false)

rekeyed-ok : (r : Result DbError ℕ × Db) (e : ℕ) (s' : Db) → rekeyed r ≡ (ok e, s') → r ≡ (ok e, s')
unfolding rekeyed
rekeyed-ok (ok e', s) e s' h = ground arith
rekeyed-ok (err e', s) e s' h = ground arith

rekey-Out :
    (r b : Bytes) (wraps : List Wrap) (now : Date)
    → Ensures (Out r b) (rekey_statement (Rekey.remove_and_rekey r b wraps now))
unfolding rekey_statement
rekey-Out r b wraps now = record {
  at = λ s e s' h.
      target-out r b wraps now s s' e (rekeyed-ok (Rekey.remove_and_rekey r b wraps now s) e s' h);
}

module _ (env : Env) (clk : Clock) (room : Text) (req : RemoveMemberReq)
    (room_id target : Bytes) where
  remove-Out :
      env.unb64 room ≡ some room_id
      → env.unb64 req.target_box_pubkey ≡ some target
      → Ensures (Out room_id target) (remove_and_rekey env clk room req)
  unfolding remove_and_rekey
  remove-Out hr ht = Ensures-decode env room room_id _ _ hr (
      search (Ensures-bind, Ensures-decode_pubkey env req.target_box_pubkey target, rekey-Out) depth
        24)

  -- Where `remove_and_rekey` succeeds, its target is no active member of the room after the call, nor after any
  -- further moves of the server, its workers and starts among them: the box key never comes back.
  pub removed_stays_out :
      (s s' t : Db) (epoch : ℕ)
      → env.unb64 room ≡ some room_id
      → env.unb64 req.target_box_pubkey ≡ some target
      → remove_and_rekey env clk room req s ≡ (ok epoch, s')
      → Reach env s' t
      → (is_member_by_box room_id target s' ≡ false) × (is_member_by_box room_id target t ≡ false)
  unfolding is_member_by_box
  removed_stays_out s s' t epoch hr ht h r =
      let (there, out) = (remove-Out hr ht).at s epoch s' h in
      (out, removed_for_good room_id target env s' t there out r)
