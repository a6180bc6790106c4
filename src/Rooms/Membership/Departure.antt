-- ===== src/Rooms/Membership/Departure.antt =====
-- What `leave` promises.
use lethe_project.Prelude.{
  ◌≡◌, true, false, some, List, [], ◌∷◌, Bytes, Text, arith, refl, same, same-eq, ◌&&◌, same_refl,
}
use lethe_project.Table.{any, update}
use lethe_project.Error.{ok}
use lethe_project.Env.{Env, Clock}
use lethe_project.Db.{Db, Date, Member}
use lethe_project.Action.{◌>>=◌}
use lethe_project.Checks.{decode, decode_pubkey, decode_sig, check_window, checked, check_nonce}
use lethe_project.Nonces.{record_nonce}
use lethe_project.Rooms.Requests.{LeaveRoomReq}
use lethe_project.Rooms.Queries.{is_active_sig, is_member, remove_row, soft_remove_by_sig}
use lethe_project.Rooms.Membership.{leave}

none_active_after :
    (room_id sig : Bytes) (now : Date) (rows : List Member)
    → any (is_active_sig room_id sig) (update (is_active_sig room_id sig) (remove_row now) rows)
      ≡ false
unfolding any update is_active_sig
none_active_after room_id sig now [] = refl
none_active_after room_id sig now (m ∷ rows) =
    ground (arith, none_active_after room_id sig now rows)

-- Rows of another member are not touched.
others_after :
    (room_id sig room' sig' : Bytes) (now : Date) (rows : List Member)
    → (same room_id room' && same sig sig') ≡ false
    → any (is_active_sig room' sig') (update (is_active_sig room_id sig) (remove_row now) rows)
      ≡ any (is_active_sig room' sig') rows
unfolding any update is_active_sig
others_after room_id sig room' sig' now [] h = refl
others_after room_id sig room' sig' now (m ∷ rows) h = ground (
  arith,
  others_after room_id sig room' sig' now rows,
  same-eq m.room_id room_id,
  same-eq m.room_id room',
  same-eq m.member_sig_pubkey sig,
  same-eq m.member_sig_pubkey sig',
  same_refl room',
  same_refl sig',
)

soft_remove-is_member :
    (room_id sig : Bytes) (now : Date) (s : Db)
    → is_member room_id sig (soft_remove_by_sig room_id sig now s).1 ≡ false
unfolding is_member soft_remove_by_sig
soft_remove-is_member room_id sig now s = none_active_after room_id sig now s.room_members

soft_remove-others :
    (room_id sig room' sig' : Bytes) (now : Date) (s : Db)
    → (same room_id room' && same sig sig') ≡ false
    → is_member room' sig' (soft_remove_by_sig room_id sig now s).1 ≡ is_member room' sig' s
unfolding is_member soft_remove_by_sig
soft_remove-others room_id sig room' sig' now s h =
    others_after room_id sig room' sig' now s.room_members h

module _ (env : Env) (clk : Clock) (room : Text) (req : LeaveRoomReq) (room_id pk : Bytes) where
  -- Where `leave` answers with success, the signing key that the request names was a member of the
  -- room before, is no member of it afterwards, and every other pair of a room and a signing key is
  -- a member exactly if it was one before.
  pub leave_removes :
      (room' pk' : Bytes) (s s' : Db)
      → env.unb64 room ≡ some room_id
      → env.unb64 req.sig_pubkey ≡ some pk
      → (same room_id room' && same pk pk') ≡ false
      → leave env clk room req s ≡ (ok tt, s')
      → (is_member room_id pk s ≡ true)
        × (is_member room_id pk s' ≡ false)
        × (is_member room' pk' s' ≡ is_member room' pk' s)
  unfolding leave decode_pubkey decode_sig check_nonce is_member record_nonce soft_remove_by_sig
      decode check_window checked ◌>>=◌
  leave_removes room' pk' s s' hr hp hd h = ground (
    arith,
    none_active_after room_id pk clk.today s.room_members,
    others_after room_id pk room' pk' clk.today s.room_members,
  )
