-- ===== src/Tests/Rooms.antt =====
-- Runs of the room handlers.
use lethe_project.Prelude.{
  ℕ, ◌+◌, ◌≤◌, ◌<◌, ◌≡◌, refl, Bool, true, false, none, some, List, [], ◌∷◌, Bytes, Text, arith,
  All, length, codes,
}
use lethe_project.Error.{ok}
use lethe_project.Action.{◌>>=◌}
use lethe_project.Checks.{
  decode, decode_pubkey, decode_sig, check_window, checked, check_nonce, statement,
}
use lethe_project.Crypto
use lethe_project.Nonces.{in_window, record_nonce}
use lethe_project.Db.{Db, Room}
use lethe_project.Table.{any, update, count, select, first}
use lethe_project.Rooms.Requests.{
  JoinRoomReq, JoinRoomResp, RemoveMemberReq, LeaveRoomReq, SendMessageReq, SendMessageResp,
}
use lethe_project.Rooms.Queries
use lethe_project.Rooms.Queries.{
  is_active_in, has_box, is_active_box, is_member, is_member_by_box, active_member_count,
  is_creator_by_sig, add_member,
}
use lethe_project.Rooms.Rekey
use lethe_project.Rooms.Rekey.{Wrap, survivors}
use lethe_project.Rooms.Rekey.Coverage.{remove_and_rekey-covers, has_wrap}
use lethe_project.Rooms.Rekey.Skipped.{rekey_may_skip, remaining, rekeyed_db}
use lethe_project.Rooms.Messages.{visible_messages}
use lethe_project.Rooms.Talk.{send_message, max_ciphertext}
use lethe_project.Rooms.Talk.Gates.{send_message_checks}
use lethe_project.Rooms.Talk.History.{visible_messages-gated, Ascending}
use lethe_project.Rooms.Membership.Restricted.{IsProved, join_proves}
use lethe_project.Rooms.Membership.Departure.{leave_removes}
use lethe_project.Rooms.Removal.{remove_and_rekey}
use lethe_project.Rooms.Removal.Effects.{removed_stays_out}
use lethe_project.Server.{room, after, here, next}
use lethe_project.Rooms.Queries.{accepted_active_sig_pubkeys}
use lethe_project.Rooms.Membership.{join as join_room, leave, max_room_members}
use lethe_project.Rooms.Membership.Arrival.{newcomer_is_creator}
use lethe_project.Rooms.Membership.Admission.{newcomer_admits_itself, is_accepted_as}
use lethe_project.Rooms.Queries.{grant_wrap, is_active_member_pair}
use lethe_project.Rooms.Calls.{RoomCall, join}
use lethe_project.Tests.{hall_room, fill, open_env, noon, hall, key, a_sig, hall_db}

abbrev pub rejoin : RoomCall
rejoin = join (fill 2 5) (record {
  box_pubkey = key 3;
  sig_pubkey = key 15;
  proof_thread_pubkey = none;
  proof_ts = none;
  proof_sig = none;
})

abbrev pub remove_3 : RemoveMemberReq
remove_3 = record {
  remover_sig_pubkey = key 12;
  ts = 1000;
  sig = a_sig;
  target_box_pubkey = key 3;
  new_wrapped_keys =
      record { for_box_pubkey = key 2; wrapped_key = fill 3 7 }
      ∷ record { for_box_pubkey = key 4; wrapped_key = fill 3 8 }
      ∷ [];
}

abbrev pub without_3 : Db
without_3 = (remove_and_rekey open_env noon hall remove_3 hall_db).1

removed_stays_out_example :
    (is_member_by_box hall (key 3) without_3 ≡ false)
    × (is_member_by_box hall (key 3) (after open_env noon (room rejoin) without_3) ≡ false)
unfolding remove_and_rekey ◌>>=◌ decode decode_pubkey decode_sig check_window checked check_nonce
    record_nonce in_window Queries.meta_by_id Queries.is_creator_by_sig Queries.is_creator_row
    Queries.has_sig Queries.is_active Queries.has_id any first lethe_project.Prelude.same
    Crypto.verify_remove_request Crypto.verify_ed25519 lethe_project.Rooms.Removal.decode_wraps
    lethe_project.Rooms.Removal.rekey_statement Rekey.remove_and_rekey count Queries.is_active_box
    Rekey.survivors select update Queries.is_active_in Rekey.all_survive Queries.current_epoch
removed_stays_out_example =
    removed_stays_out open_env noon hall remove_3 hall (key 3) hall_db without_3
      (after open_env noon (room rejoin) without_3) 2 refl refl refl (next here noon (room rejoin))

newcomer_is_creator_example :
    ((add_member hall (key 5) (key 15) 20 hall_db).0 ≡ ok tt)
    × (is_creator_by_sig hall (key 15) (add_member hall (key 5) (key 15) 20 hall_db).1 ≡ true)
unfolding any Queries.has_box Queries.has_id lethe_project.Prelude.same
newcomer_is_creator_example = newcomer_is_creator hall (key 5) (key 15) 20 hall_db refl refl

abbrev wraps : List Wrap
wraps = (key 2, fill 3 7) ∷ (key 4, fill 3 8) ∷ []

abbrev rekeyed_hall : Db
rekeyed_hall = (Rekey.remove_and_rekey hall (key 3) wraps 20 hall_db).1

remove_and_rekey-covers_example :
    All (λ m. has_wrap wraps m ≡ true) (select (is_active_in hall) rekeyed_hall.room_members)
unfolding any lethe_project.Prelude.same Rekey.remove_and_rekey count is_active_box survivors select
    update is_active_in Rekey.all_survive Queries.current_epoch first
remove_and_rekey-covers_example =
    remove_and_rekey-covers hall (key 3) wraps 20 hall_db rekeyed_hall 2 (refl, (refl, tt)) refl

-- Twice the same box, none for the member with box `key 4`
abbrev doubled : List Wrap
doubled = (key 2, fill 3 7) ∷ (key 2, fill 3 8) ∷ []

rekey_may_skip_example :
    (Rekey.remove_and_rekey hall (key 3) doubled 20 hall_db
      ≡ (ok 2, rekeyed_db hall (key 3) (key 4) doubled 20 hall_db 1))
    × (select
          (has_box hall (key 4))
          (rekeyed_db hall (key 3) (key 4) doubled 20 hall_db 1).room_members
        ≡ select (has_box hall (key 4)) (remaining hall (key 3) (key 4) doubled 20 hall_db 1))
unfolding count is_active_box lethe_project.Prelude.same survivors select update is_active_in
    Rekey.all_survive any Queries.current_epoch first
rekey_may_skip_example =
    rekey_may_skip hall (key 3) (key 4) doubled 20 hall_db 1 refl refl refl refl refl refl

abbrev goodbye : LeaveRoomReq
goodbye = record { sig_pubkey = key 13; ts = 1000; sig = a_sig }

abbrev left_hall : Db
left_hall = (leave open_env noon hall goodbye hall_db).1

leave_removes_example :
    (is_member hall (key 13) hall_db ≡ true)
    × (is_member hall (key 13) left_hall ≡ false)
    × (is_member hall (key 12) left_hall ≡ is_member hall (key 12) hall_db)
unfolding leave ◌>>=◌ decode decode_pubkey decode_sig check_window checked check_nonce record_nonce
    in_window Queries.meta_by_id any first lethe_project.Prelude.same Crypto.verify_leave_request
    Crypto.verify_ed25519 Queries.is_member Queries.is_active_sig Queries.has_sig Queries.is_active
    Queries.soft_remove_by_sig update Queries.has_id count
leave_removes_example =
    leave_removes open_env noon hall goodbye hall (key 13) hall (key 12) hall_db left_hall refl refl
      refl refl

abbrev hello : SendMessageReq
hello = record {
  sender_sig_pubkey = key 12;
  nonce = fill 24 3;
  ciphertext = fill 5 6;
  sender_sig = a_sig;
}

abbrev told : Db
told = (send_message open_env noon (fill 16 7) hall hello hall_db).1

abbrev told_answer : SendMessageResp
told_answer = record { message_id = fill 16 7; created_at = 20 }

send_message_checks_example :
    (is_member hall (key 12) hall_db ≡ true)
    × (Crypto.verify_room_message_sender open_env (key 12) a_sig hall (fill 24 3) (fill 5 6)
        ≡ ok tt)
    × (length (fill 24 3) ≡ 24)
    × (length (fill 5 6) ≤ max_ciphertext)
    × (told_answer.created_at ≡ noon.today)
unfolding send_message ◌>>=◌ decode decode_pubkey decode_sig is_member any
    lethe_project.Prelude.same checked Crypto.verify_room_message_sender Crypto.verify_ed25519
    statement lethe_project.Rooms.Messages.insert_message Queries.has_id
send_message_checks_example =
    send_message_checks open_env noon (fill 16 7) hall hello hall (key 12) (fill 24 3) (fill 5 6)
      a_sig told_answer hall_db told refl refl refl refl refl refl

visible_messages-gated_example :
    Ascending (visible_messages hall 10 (some 0) 500 told)
    × (length (visible_messages hall 10 (some 0) 500 told) ≤ 500)
    × All
        (λ m. (m.room_id ≡ hall) × (10 ≤ m.created_at) × (0 < m.seq))
        (visible_messages hall 10 (some 0) 500 told)
visible_messages-gated_example = visible_messages-gated hall 10 (some 0) 500 told

abbrev guest_room : Room
guest_room = record hall_room { allowlist_thread_pubkeys = some (key 7 ∷ []) }

abbrev guest_db : Db
guest_db = record hall_db { rooms = guest_room ∷ [] }

abbrev guest : JoinRoomReq
guest = record {
  box_pubkey = key 6;
  sig_pubkey = key 16;
  proof_thread_pubkey = some (key 7);
  proof_ts = some 1000;
  proof_sig = some a_sig;
}

abbrev welcomed : JoinRoomResp
welcomed = record {
  room_id = hall;
  members =
      Queries.list_members open_env hall (join_room open_env noon (fill 2 5) guest guest_db).1;
}

join_proves_example : IsProved open_env noon (fill 2 5) guest (key 7 ∷ []) (key 6)
unfolding join_room ◌>>=◌ decode decode_pubkey decode_sig check_window checked in_window
    Queries.meta_by_invite first any lethe_project.Prelude.same Crypto.verify_join_proof
    Crypto.verify_ed25519 lethe_project.Rooms.Membership.check_allowlist
    lethe_project.Rooms.Membership.enroll is_member_by_box active_member_count count statement
    add_member
join_proves_example =
    join_proves open_env noon (fill 2 5) guest guest_room (key 7 ∷ []) (key 6) welcomed guest_db
      (join_room open_env noon (fill 2 5) guest guest_db).1 refl refl refl refl

newcomer_admits_itself_example :
    (is_active_member_pair hall (key 15) (key 5) (add_member hall (key 5) (key 15) 20 hall_db).1
      ≡ true)
    × ((grant_wrap hall
          (key 5)
          (fill 3 1)
          (key 5)
          (add_member hall (key 5) (key 15) 20 hall_db).1).0
        ≡ true)
    × (any
          (is_accepted_as hall (key 15))
          (grant_wrap hall
            (key 5)
            (fill 3 1)
            (key 5)
            (add_member hall (key 5) (key 15) 20 hall_db).1).1.room_members
        ≡ true)
unfolding any Queries.has_box Queries.has_id lethe_project.Prelude.same
newcomer_admits_itself_example =
    newcomer_admits_itself hall (key 5) (key 15) (fill 3 1) 20 hall_db refl refl
