-- ===== src/Tests/Moves.antt =====
-- Runs of the server's moves, and of rosters.
use lethe_project.Prelude.{
  ℕ, ◌+◌, ◌<◌, ◌≡◌, refl, Bool, false, none, some, List, [], ◌∷◌, Bytes, Text, arith, All, length,
  codes,
}
use lethe_project.Action.{◌>>=◌}
use lethe_project.Checks.{decode, decode_pubkey, decode_sig, check_window, checked, check_nonce}
use lethe_project.Crypto
use lethe_project.Nonces.{in_window, record_nonce}
use lethe_project.Table.{any, update, count, select, first}
use lethe_project.Rooms.Queries
use lethe_project.Rooms.Queries.{
  is_active_in, has_box, is_active_box, is_member, is_member_by_box, is_creator_by_sig, add_member,
}
use lethe_project.Rooms.Rekey
use lethe_project.Rooms.Rekey.{Wrap, survivors}
use lethe_project.Rooms.Removal.{remove_and_rekey}
use lethe_project.Server.{room, sweep, after, here, next}
use lethe_project.Rooms.Calls
use lethe_project.Server.Router.{is_by_get, handler, room_handler, api}
use lethe_project.Server.Router.Safe.{is_by_get-after}
use lethe_project.Server.Replay
use lethe_project.Server.Replay.{remove, accept}
use lethe_project.Server.Replay.Once.{signed_once}
use lethe_project.Server.Invariants.{removed_for_good, Reach-⟶*}
use lethe_project.Rooms.Invariants.Life.Diagram.{◌⟶*◌, status}
use lethe_project.Rooms.Requests.{PostRosterReq}
use lethe_project.Rooms.Calls.{RoomCall, join}
use lethe_project.Tests.{fill, open_env, noon, hall, key, a_sig, hall_db}
use lethe_project.Tests.Rooms.{rejoin, remove_3, without_3}

-- The request comes again after a sweep and another call.
signed_once_example :
    (accept open_env noon (remove hall remove_3) (
      after open_env noon
        (room rejoin)
        (after open_env noon sweep (accept open_env noon (remove hall remove_3) hall_db).1))).0
    ≡ false
unfolding remove_and_rekey ◌>>=◌ decode decode_pubkey decode_sig check_window checked check_nonce
    record_nonce in_window Queries.meta_by_id Queries.is_creator_by_sig Queries.is_creator_row
    Queries.has_sig Queries.is_active Queries.has_id any first lethe_project.Prelude.same
    Crypto.verify_remove_request Crypto.verify_ed25519 lethe_project.Rooms.Removal.decode_wraps
    lethe_project.Rooms.Removal.rekey_statement Rekey.remove_and_rekey count Queries.is_active_box
    Rekey.survivors select update Queries.is_active_in Rekey.all_survive Queries.current_epoch
    Replay.signer Replay.timestamp accept
signed_once_example =
    signed_once open_env noon noon (remove hall remove_3) (remove hall remove_3) (key 12) hall_db
      (after open_env noon (room rejoin)
        (after open_env noon sweep (accept open_env noon (remove hall remove_3) hall_db).1))
      1000 refl refl refl refl (omega arith) (omega arith) (omega arith) refl
      (Replay.next (Replay.next Replay.here noon sweep (omega arith)) noon (room rejoin)
        (omega arith))
      (omega arith)

is_by_get-after_example :
    after open_env noon (room (Calls.invite_info (fill 2 5))) hall_db ≡ hall_db
unfolding is_by_get handler room_handler api lethe_project.Prelude.same any
is_by_get-after_example =
    is_by_get-after open_env noon (room (Calls.invite_info (fill 2 5))) hall_db refl

removed_for_good_example :
    is_member_by_box hall (key 3) (after open_env noon (room rejoin) without_3) ≡ false
unfolding remove_and_rekey ◌>>=◌ decode decode_pubkey decode_sig check_window checked check_nonce
    record_nonce in_window Queries.meta_by_id Queries.is_creator_by_sig Queries.is_creator_row
    Queries.has_sig Queries.is_active Queries.has_id any first lethe_project.Prelude.same
    Crypto.verify_remove_request Crypto.verify_ed25519 lethe_project.Rooms.Removal.decode_wraps
    lethe_project.Rooms.Removal.rekey_statement Rekey.remove_and_rekey count Queries.is_active_box
    Rekey.survivors select update Queries.is_active_in Rekey.all_survive Queries.current_epoch
    Queries.has_box Rekey.apply_wraps is_member_by_box
removed_for_good_example =
    removed_for_good hall (key 3) open_env without_3 (after open_env noon (room rejoin) without_3)
      refl refl (next here noon (room rejoin))

Reach-⟶*_example :
    status hall (key 3) hall_db ⟶* status hall (key 3) (after open_env noon (room rejoin) hall_db)
Reach-⟶*_example =
    Reach-⟶* hall (key 3) open_env hall_db (after open_env noon (room rejoin) hall_db)
      (next here noon (room rejoin))

abbrev hall_roster : PostRosterReq
hall_roster = record {
  epoch = 1;
  member_sig_pubkeys = key 12 ∷ key 13 ∷ key 14 ∷ [];
  creator_sig = a_sig;
}
