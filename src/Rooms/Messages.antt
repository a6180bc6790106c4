-- ===== src/Rooms/Messages.antt =====
-- `insert_message` and `list_messages_for_member` of crates/lethe-server/src/db/rooms.rs.
use lethe_project.Prelude.{
  ℕ, ◌+◌, Bool, true, not, ◌&&◌, Option, none, some, List, [], ◌∷◌, ◌++◌, map, Bytes, same, ltb,
  leb, if◌then◌else◌, take,
}
use lethe_project.Table.{select, any, order_by}
use lethe_project.Error.{Result, ok, err, DbError, database}
use lethe_project.Env.{Env}
use lethe_project.Db.{Db, Date, Message}
use lethe_project.Rooms.Queries.{has_id}
use lethe_project.Rooms.Requests.{MessageView}

pub record NewMessage : Type 0 where
  pub room_id : Bytes
  pub sender_sig_pubkey : Bytes
  pub nonce : Bytes
  pub ciphertext : Bytes
  pub sender_sig : Bytes
  pub created_at : Date

unfoldable pub message_row : Bytes → ℕ → NewMessage → Message
message_row id seq m = record {
  id = id;
  seq = seq;
  room_id = m.room_id;
  sender_sig_pubkey = m.sender_sig_pubkey;
  nonce = m.nonce;
  ciphertext = m.ciphertext;
  sender_sig = m.sender_sig;
  created_at = m.created_at;
}

-- `id` is the fresh id. A sequence is not rolled back: a failed insert uses its number up.
unfoldable pub insert_message : Bytes → NewMessage → Db → Result DbError Bytes × Db
unfolding message_row
insert_message id m s =
    let s' = record s { next_message_seq = s.next_message_seq + 1 } in
    if any (λ (x : Message). same x.id id) s.room_messages
    then (err (database "room_messages_pkey"), s')
    else if not (any (has_id m.room_id) s.rooms)
    then (err (database "room_messages_room_id_fkey"), s')
    else (
      ok id,
      record s' { room_messages = s.room_messages ++ message_row id s.next_message_seq m ∷ [] },
    )

-- An absent cursor is no test.
unfoldable pub is_after : Option ℕ → Message → Bool
is_after none m = true
is_after (some s) m = ltb s m.seq

unfoldable pub is_visible : Bytes → Date → Option ℕ → Message → Bool
unfolding is_after
is_visible room_id member_joined_at since_seq m =
    same m.room_id room_id && (leb member_joined_at m.created_at && is_after since_seq m)

abbrev pub seq_before : Message → Message → Bool
seq_before m n = ltb m.seq n.seq

-- The rows of the SELECT, before they are turned into views.
unfoldable pub visible_messages : Bytes → Date → Option ℕ → ℕ → Db → List Message
visible_messages room_id member_joined_at since_seq limit s =
    take limit
      (order_by seq_before (select (is_visible room_id member_joined_at since_seq) s.room_messages))

unfoldable pub message_view : Env → Message → MessageView
message_view env m = record {
  message_id = env.b64 m.id;
  seq = m.seq;
  sender_sig_pubkey = env.b64 m.sender_sig_pubkey;
  nonce = env.b64 m.nonce;
  ciphertext = env.b64 m.ciphertext;
  sender_sig = env.b64 m.sender_sig;
  created_at = m.created_at;
}

unfoldable pub list_messages_for_member : Env → Bytes → Date → Option ℕ → ℕ → Db → List MessageView
unfolding visible_messages message_view
list_messages_for_member env room_id member_joined_at since_seq limit s =
    map (message_view env) (visible_messages room_id member_joined_at since_seq limit s)
