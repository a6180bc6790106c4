-- ===== src/Rooms/Talk/Gates.antt =====
-- Who may write to a room, and what a member reads of it.
use lethe_project.Prelude.{◌≤◌, ◌≡◌, true, some, Bytes, Text, arith, length}
use lethe_project.Action.{◌>>=◌}
use lethe_project.Error.{ok}
use lethe_project.Env.{Env, Clock}
use lethe_project.Db.{Db}
use lethe_project.Checks.{decode, decode_pubkey, decode_sig, checked, statement}
use lethe_project.Crypto.{verify_room_message_sender}
use lethe_project.Rooms.Requests.{SendMessageReq, SendMessageResp}
use lethe_project.Rooms.Queries.{is_member}
use lethe_project.Rooms.Talk.{send_message, max_ciphertext}

module _ (env : Env) (clk : Clock) (id : Bytes) (room : Text) (req : SendMessageReq) where
  -- Where `send_message` succeeds, the sender's signing key was an active member of the room, the
  -- signature of the room, the nonce and the ciphertext verifies under that key, the nonce has 24
  -- bytes, the ciphertext is within its bound, and the answer carries the day.
  pub send_message_checks :
      (room_id pk nonce text sig : Bytes) (resp : SendMessageResp) (s s' : Db)
      → env.unb64 room ≡ some room_id
      → env.unb64 req.sender_sig_pubkey ≡ some pk
      → env.unb64 req.nonce ≡ some nonce
      → env.unb64 req.ciphertext ≡ some text
      → env.unb64 req.sender_sig ≡ some sig
      → send_message env clk id room req s ≡ (ok resp, s')
      → (is_member room_id pk s ≡ true)
        × (verify_room_message_sender env pk sig room_id nonce text ≡ ok tt)
        × (length nonce ≡ 24)
        × (length text ≤ max_ciphertext)
        × (resp.created_at ≡ clk.today)
  unfolding send_message decode decode_pubkey decode_sig checked statement ◌>>=◌
  send_message_checks room_id pk nonce text sig resp s s' h1 h2 h3 h4 h5 h = ground arith
