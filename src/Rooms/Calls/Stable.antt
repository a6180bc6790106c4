-- ===== src/Rooms/Calls/Stable.antt =====
-- What holds before every statement on the room tables and after it holds after every call.
use lethe_project.Prelude.{
  Bool-cases, inl, inr, ℕ, ◌≡◌, true, some, none, Option, List, [], ◌∷◌, Bytes, Text, refl,
}
use lethe_project.Error.{Result, ok, err, DbError}
use lethe_project.Action.{modify, ◌>>=◌}
use lethe_project.Action.Keeps.{
  Keeps, Keeps-pure, Keeps-gets, Keeps-guard, Keeps-modify, Keeps-bind,
}
use lethe_project.Checks
use lethe_project.Checks.{statement}
use lethe_project.Checks.Keeps.{
  from_db-snd, Keeps-decode, Keeps-decode_pubkey, check_rules, Keeps-check_nonce, Keeps-statement,
}
use lethe_project.Env.{Env, Clock}
use lethe_project.Db.{Db, Date}
use lethe_project.Nonces.{record_nonce}
use lethe_project.Rooms.Queries
use lethe_project.Rooms.Queries.{NewRoom, add_member, soft_remove_by_sig, grant_wrap, insert_roster}
use lethe_project.Rooms.Rekey
use lethe_project.Rooms.Rekey.{Wrap}
use lethe_project.Rooms.Messages.{NewMessage, insert_message}
use lethe_project.Rooms.Requests.{RewrapEntry, JoinRoomReq, CreateRoomReq}
use lethe_project.Rooms.Membership
use lethe_project.Rooms.Membership.{has_room, enroll, check_allowlist}
use lethe_project.Rooms.Removal
use lethe_project.Rooms.Removal.{decode_wraps, rekeyed, rekey_statement, rekey_error}
use lethe_project.Rooms.Creation
use lethe_project.Rooms.Creation.{
  optional_bytes, optional_pubkey, optional_sig, check_provenance, decode_allowlist, check_list,
}
use lethe_project.Rooms.Talk
use lethe_project.Rooms.Vouching
use lethe_project.Rooms.Vouching.{decode_ring}
use lethe_project.Rooms.Calls.{
  RoomCall, create, join, leave, invite_info, wrap, members, roster, post_roster, provenance,
  send_message, list_messages, remove, after,
}

pub record Stable (P : Db → Type 0) : Type 0 where
  pub on_nonce :
      (now : ℕ) (kind : Text) (pk : Bytes) (ts : ℕ) (s : Db)
      → P s
      → P (record_nonce now kind pk ts s).1
  pub on_create : (id : Bytes) (r : NewRoom) (s : Db) → P s → P (Queries.create id r s).1
  pub on_add :
      (room_id box sig : Bytes) (today : Date) (s : Db)
      → has_room room_id box s ≡ true
      → P s
      → P (add_member room_id box sig today s).1
  pub on_leave :
      (room_id sig : Bytes) (today : Date) (s : Db)
      → P s
      → P (soft_remove_by_sig room_id sig today s).1
  pub on_grant :
      (room_id box wrapped inviter : Bytes) (s : Db)
      → P s
      → P (grant_wrap room_id box wrapped inviter s).1
  pub on_roster :
      (room_id : Bytes) (epoch : ℕ) (ring : List Bytes) (sig : Bytes) (today : Date) (s : Db)
      → P s
      → P (insert_roster room_id epoch ring sig today s).1
  pub on_rekey :
      (room_id box : Bytes) (wraps : List Wrap) (today : Date) (s : Db)
      → P s
      → P (Rekey.remove_and_rekey room_id box wraps today s).1
  pub on_message : (id : Bytes) (m : NewMessage) (s : Db) → P s → P (insert_message id m s).1

rekeyed-snd : (r : Result DbError ℕ × Db) → (rekeyed r).1 ≡ r.1
unfolding rekeyed
rekeyed-snd (ok e, s) = refl
rekeyed-snd (err e, s) = refl

module _ {P : Db → Type 0} (stable : Stable P) (env : Env) (clk : Clock) where
  nonce-Keeps : (kind : Text) (pk : Bytes) (ts : ℕ) → Keeps P (Checks.check_nonce clk kind pk ts)
  nonce-Keeps = Keeps-check_nonce stable.on_nonce clk

  enroll-Keeps : (room_id box sig : Bytes) → Keeps P (enroll env clk room_id box sig)
  unfolding enroll statement ◌>>=◌
  enroll-Keeps room_id box sig = record {
    at = λ s h. elim (Bool-cases (has_room room_id box s)) [
      | inl t ↦
          rw (t, from_db-snd (add_member room_id box sig clk.today s))
            (stable.on_add room_id box sig clk.today s t h)
      | inr f ↦ rw f h
    ];
  }

  allowlist-Keeps :
      (l : Option (List Bytes)) (code : Text) (box : Bytes) (req : JoinRoomReq)
      → Keeps P (check_allowlist env clk l code box req)
  unfolding check_allowlist
  allowlist-Keeps none code box req = search check_rules
  allowlist-Keeps (some l) code box req = search check_rules depth 20

  join-Keeps : (code : Text) (req : JoinRoomReq) → Keeps P (Membership.join env clk code req)
  unfolding Membership.join
  join-Keeps code req = search (check_rules, enroll-Keeps, allowlist-Keeps) depth 20

  pub soft_remove-Keeps :
      (room_id sig : Bytes) → Keeps P (modify (soft_remove_by_sig room_id sig clk.today))
  soft_remove-Keeps room_id sig =
      Keeps-modify (soft_remove_by_sig room_id sig clk.today)
        (stable.on_leave room_id sig clk.today)

  pub grant-Keeps :
      (room_id box wrapped inviter : Bytes)
      → Keeps P (modify (grant_wrap room_id box wrapped inviter))
  grant-Keeps room_id box wrapped inviter =
      Keeps-modify (grant_wrap room_id box wrapped inviter)
        (stable.on_grant room_id box wrapped inviter)

  insert_roster-Keeps :
      (room_id : Bytes) (epoch : ℕ) (ring : List Bytes) (sig : Bytes)
      → Keeps P (statement (insert_roster room_id epoch ring sig clk.today))
  insert_roster-Keeps room_id epoch ring sig =
      Keeps-statement (insert_roster room_id epoch ring sig clk.today)
        (stable.on_roster room_id epoch ring sig clk.today)

  insert_message-Keeps : (id : Bytes) (m : NewMessage) → Keeps P (statement (insert_message id m))
  insert_message-Keeps id m = Keeps-statement (insert_message id m) (stable.on_message id m)

  pub create_room-Keeps : (id : Bytes) (r : NewRoom) → Keeps P (statement (Queries.create id r))
  create_room-Keeps id r = Keeps-statement (Queries.create id r) (stable.on_create id r)

  pub rekey-Keeps :
      (room_id box : Bytes) (wraps : List Wrap)
      → Keeps P (rekey_statement (Rekey.remove_and_rekey room_id box wraps clk.today))
  unfolding rekey_statement
  rekey-Keeps room_id box wraps = record {
    at = λ s h.
        rw (rekeyed-snd (Rekey.remove_and_rekey room_id box wraps clk.today s))
          (stable.on_rekey room_id box wraps clk.today s h);
  }

  pub wraps-Keeps : (box : Bytes) (ws : List RewrapEntry) → Keeps P (decode_wraps env clk box ws)
  unfolding decode_wraps
  wraps-Keeps box [] = search check_rules
  wraps-Keeps box (w ∷ ws) = Keeps-bind _ _ (Keeps-decode_pubkey env w.for_box_pubkey _) λ pk.
      Keeps-bind _ _ (Keeps-guard _ _) λ _.
        Keeps-bind _ _ (Keeps-decode env w.wrapped_key _) λ wrapped.
          Keeps-bind _ _ (Keeps-guard _ _)
            λ _. Keeps-bind _ _ (wraps-Keeps box ws) λ wraps. Keeps-pure _

  ring-Keeps : (ps : List Text) → Keeps P (decode_ring env clk ps)
  unfolding decode_ring
  ring-Keeps [] = search check_rules
  ring-Keeps (p ∷ ps) =
      Keeps-bind _ _ (Keeps-decode_pubkey env p _)
        λ key. Keeps-bind _ _ (ring-Keeps ps) λ keys. Keeps-pure _

  list-Keeps : (thread : Bytes) (l : List Text) → Keeps P (decode_allowlist env clk thread l)
  unfolding decode_allowlist
  list-Keeps thread [] = search check_rules
  list-Keeps thread (p ∷ ps) = Keeps-bind _ _ (Keeps-decode_pubkey env p _) λ key.
      Keeps-bind _ _ (Keeps-gets _) λ signed.
        Keeps-bind _ _ (Keeps-guard _ _)
          λ _. Keeps-bind _ _ (list-Keeps thread ps) λ keys. Keeps-pure _

  pub check_list-Keeps :
      (origin : Option Bytes) (l : Option (List Text)) → Keeps P (check_list env clk origin l)
  unfolding check_list
  check_list-Keeps origin none = search check_rules
  check_list-Keeps origin (some []) = search check_rules
  check_list-Keeps origin (some (p ∷ ps)) = search (check_rules, list-Keeps) depth 12

  pub bytes-Keeps : (t : Option Text) → Keeps P (optional_bytes env clk t)
  unfolding optional_bytes
  bytes-Keeps none = search check_rules
  bytes-Keeps (some t) = search check_rules

  pub pubkey-Keeps : (t : Option Text) → Keeps P (optional_pubkey env clk t)
  unfolding optional_pubkey
  pubkey-Keeps none = search check_rules
  pubkey-Keeps (some t) = search check_rules

  pub sig-Keeps : (t : Option Text) → Keeps P (optional_sig env clk t)
  unfolding optional_sig
  sig-Keeps none = search check_rules
  sig-Keeps (some t) = search check_rules

  pub provenance-Keeps : (a b c : Option Bytes) → Keeps P (check_provenance env clk a b c)
  unfolding check_provenance
  provenance-Keeps (some a) (some b) (some c) = search check_rules depth 12
  provenance-Keeps (some a) none none = search check_rules
  provenance-Keeps none none none = search check_rules
  provenance-Keeps _ _ _ = search check_rules

  create-Keeps :
      (id : Bytes) (code : Text) (req : CreateRoomReq)
      → Keeps P (Creation.create env clk id code req)
  unfolding Creation.create
  create-Keeps id code req =
      search
        (
          check_rules, nonce-Keeps, create_room-Keeps, bytes-Keeps, pubkey-Keeps, sig-Keeps,
          provenance-Keeps, check_list-Keeps,
        )
        depth 40

  -- Every call, whatever it answers, keeps what the statements keep.
  pub call-Keeps : (c : RoomCall) (s : Db) → P s → P (after env clk c s)
  unfolding after
  call-Keeps (create id code req) s h = (create-Keeps id code req).at s h
  call-Keeps (join code req) s h = (join-Keeps code req).at s h
  call-Keeps (leave room req) s h =
      let k : Keeps P (Membership.leave env clk room req) =
        unfold Membership.leave in search (check_rules, nonce-Keeps, soft_remove-Keeps) depth 30 in
      k.at s h
  call-Keeps (invite_info code) s h =
      let k : Keeps P (Membership.invite_info env clk code) =
        unfold Membership.invite_info in search check_rules depth 30 in
      k.at s h
  call-Keeps (wrap room req) s h =
      let k : Keeps P (Membership.wrap env clk room req) =
        unfold Membership.wrap in search (check_rules, nonce-Keeps, grant-Keeps) depth 30 in
      k.at s h
  call-Keeps (members room req) s h =
      let k : Keeps P (Talk.members_authed env clk room req) =
        unfold Talk.members_authed in search (check_rules, nonce-Keeps) depth 30 in
      k.at s h
  call-Keeps (roster room) s h =
      let k : Keeps P (Vouching.roster env clk room) =
        unfold Vouching.roster in search check_rules depth 30 in
      k.at s h
  call-Keeps (post_roster room req) s h =
      let k : Keeps P (Vouching.post_roster env clk room req) =
        unfold Vouching.post_roster in
        search (check_rules, ring-Keeps, insert_roster-Keeps) depth 30 in
      k.at s h
  call-Keeps (provenance room) s h =
      let k : Keeps P (Talk.provenance env clk room) =
        unfold Talk.provenance in search check_rules depth 30 in
      k.at s h
  call-Keeps (send_message id room req) s h =
      let k : Keeps P (Talk.send_message env clk id room req) =
        unfold Talk.send_message in search (check_rules, insert_message-Keeps) depth 30 in
      k.at s h
  call-Keeps (list_messages room req) s h =
      let k : Keeps P (Talk.list_messages_authed env clk room req) =
        unfold Talk.list_messages_authed in search (check_rules, nonce-Keeps) depth 30 in
      k.at s h
  call-Keeps (remove room req) s h =
      let k : Keeps P (Removal.remove_and_rekey env clk room req) =
        unfold Removal.remove_and_rekey in
        search (check_rules, nonce-Keeps, wraps-Keeps, rekey-Keeps) depth 30 in
      k.at s h
