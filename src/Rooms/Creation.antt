-- ===== src/Rooms/Creation.antt =====
-- `create` of crates/lethe-server/src/logic/rooms.rs.
use lethe_project.Prelude.{Option, none, some, List, [], ◌∷◌, Bytes, Text, codes, leb, length}
use lethe_project.Error.{bad_request, forbidden}
use lethe_project.Action.{Action, pure, fail, gets, guard, or_fail, ◌>>=◌, ◌>>◌}
use lethe_project.Env.{Env, Clock}
use lethe_project.Crypto.{verify_create_room, verify_room_provenance}
use lethe_project.Checks.{
  checked, decode, decode_pubkey, decode_sig, check_window, check_nonce, statement,
}
use lethe_project.Db.{Db}
use lethe_project.Posts.Queries.{pubkey_signed_in_thread}
use lethe_project.Rooms.Requests.{CreateRoomReq, CreateRoomResp}
use lethe_project.Rooms.Queries
use lethe_project.Rooms.Membership.{max_wrapped_key}

-- `origin_for_db`, `creator_pk_for_db` and `sig_for_db`
pub record Provenance : Type 0 where
  pub origin : Option Bytes
  pub creator_pk : Option Bytes
  pub sig : Option Bytes

module _ (env : Env) (clk : Clock) where
  unfoldable pub optional_bytes : Option Text → Action Db (Option Bytes)
  optional_bytes none = pure none
  optional_bytes (some t) = do v ← decode env t "origin_thread b64"; pure (some v)

  unfoldable pub optional_pubkey : Option Text → Action Db (Option Bytes)
  optional_pubkey none = pure none
  optional_pubkey (some t) = do v ← decode_pubkey env t "creator_thread_pubkey"; pure (some v)

  unfoldable pub optional_sig : Option Text → Action Db (Option Bytes)
  optional_sig none = pure none
  optional_sig (some t) = do
    v ← decode_sig env t "provenance_sig b64" "provenance_sig length"
    pure (some v)

  -- The `match` on the three optional values.
  unfoldable pub check_provenance :
      Option Bytes → Option Bytes → Option Bytes → Action Db Provenance
  check_provenance (some thread) (some pk) (some sig) = do
    signed ← gets (pubkey_signed_in_thread thread pk)
    guard signed (forbidden "creator_thread_pubkey did not sign in origin_thread")
    checked (verify_room_provenance env pk sig thread)
    pure (record { origin = some thread; creator_pk = some pk; sig = some sig })
  check_provenance (some thread) none none =
      pure (record { origin = some thread; creator_pk = none; sig = none })
  check_provenance none none none = pure (record { origin = none; creator_pk = none; sig = none })
  check_provenance _ _ _ =
      fail (
        bad_request
          "creator_thread_pubkey and provenance_sig must come together with origin_thread")

  unfoldable pub decode_allowlist : Bytes → List Text → Action Db (List Bytes)
  decode_allowlist thread [] = pure []
  decode_allowlist thread (pk ∷ list) = do
    key ← decode_pubkey env pk "allowlist_thread_pubkey"
    signed ← gets (pubkey_signed_in_thread thread key)
    guard signed (forbidden "allowlist pubkey did not sign in origin_thread")
    keys ← decode_allowlist thread list
    pure (key ∷ keys)

  -- An empty list is no list.
  unfoldable pub check_list : Option Bytes → Option (List Text) → Action Db (Option (List Bytes))
  check_list origin none = pure none
  check_list origin (some []) = pure none
  check_list origin (some (pk ∷ list)) = do
    thread ← or_fail origin (bad_request "allowlist requires origin_thread")
    keys ← decode_allowlist thread (pk ∷ list)
    pure (some keys)

  -- `new_id` and `invite_code` are the fresh random values.
  unfoldable pub create : Bytes → Text → CreateRoomReq → Action Db CreateRoomResp
  create new_id invite_code req = do
    creator_box ← decode_pubkey env req.creator_box_pubkey "creator_box_pubkey"
    creator_sig ← decode_pubkey env req.creator_sig_pubkey "creator_sig_pubkey"
    wrapped ← decode env req.wrapped_key_for_creator "wrapped b64"
    guard (leb (length wrapped) max_wrapped_key) (bad_request "wrapped_key too large")
    create_sig ←
        decode_sig env req.creator_create_sig "creator_create_sig b64" "creator_create_sig length"
    check_window clk req.creator_create_ts "creator_create_ts outside ±60s window"
    checked
        (verify_create_room env creator_sig create_sig creator_box wrapped req.creator_create_ts)
    check_nonce clk (codes "create") creator_sig req.creator_create_ts
    origin_thread ← optional_bytes req.origin_thread
    creator_thread_pubkey ← optional_pubkey req.creator_thread_pubkey
    provenance_sig ← optional_sig req.provenance_sig
    provenance ← check_provenance origin_thread creator_thread_pubkey provenance_sig
    allowlist ← check_list origin_thread req.allowlist_thread_pubkeys
    room_id ← statement (
        Queries.create new_id (record {
          origin_thread = provenance.origin;
          invite_code = invite_code;
          creator_box_pubkey = creator_box;
          creator_sig_pubkey = creator_sig;
          wrapped_key_for_creator = wrapped;
          creator_thread_pubkey = provenance.creator_pk;
          provenance_sig = provenance.sig;
          created_at = clk.today;
          allowlist_thread_pubkeys = allowlist;
        }))
    pure (record { room_id = env.b64 room_id; invite_code = invite_code })
