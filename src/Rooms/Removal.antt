-- ===== src/Rooms/Removal.antt =====
-- `remove_and_rekey` of crates/lethe-server/src/logic/rooms.rs.
pub mod Effects
use lethe_project.Prelude.{
  ℕ, not, ◌&&◌, List, [], ◌∷◌, Bytes, Text, codes, same, ltb, leb, is_some, length,
}
use lethe_project.Error.{
  Result, ok, err, DbError, database, row_not_found, column_decode, protocol, AppError, bad_request,
  not_found, forbidden, conflict, db,
}
use lethe_project.Action.{Action, pure, gets, guard, ◌>>=◌, ◌>>◌}
use lethe_project.Env.{Env, Clock}
use lethe_project.Crypto.{verify_remove_request}
use lethe_project.Checks.{checked, decode, decode_pubkey, decode_sig, check_window, check_nonce}
use lethe_project.Db.{Db}
use lethe_project.Rooms.Requests.{RemoveMemberReq, RewrapEntry}
use lethe_project.Rooms.Queries.{meta_by_id, is_creator_by_sig}
use lethe_project.Rooms.Rekey.{Wrap}
use lethe_project.Rooms.Rekey
use lethe_project.Rooms.Membership.{max_wrapped_key}

-- The `map_err` on the transaction.
unfoldable pub rekey_error : DbError → AppError
rekey_error row_not_found = conflict "target is not a current member"
rekey_error (protocol msg) =
    bad_request "new_wrapped_keys must cover every surviving member exactly"
rekey_error (database name) = db (database name)
rekey_error column_decode = db column_decode

unfoldable pub rekeyed : Result DbError ℕ × Db → Result AppError ℕ × Db
rekeyed (ok epoch, s) = (ok epoch, s)
rekeyed (err e, s) = (err (rekey_error e), s)

unfoldable pub rekey_statement : (Db → Result DbError ℕ × Db) → Action Db ℕ
unfolding rekeyed rekey_error
rekey_statement f s = rekeyed (f s)

module _ (env : Env) (clk : Clock) where
  unfoldable pub decode_wraps : Bytes → List RewrapEntry → Action Db (List Wrap)
  decode_wraps target_box [] = pure []
  decode_wraps target_box (w ∷ ws) = do
    pk ← decode_pubkey env w.for_box_pubkey "for_box_pubkey"
    guard (not (same pk target_box)) (bad_request "cannot rewrap for the removed target")
    wrapped ← decode env w.wrapped_key "wrapped_key b64"
    guard (ltb 0 (length wrapped) && leb (length wrapped) max_wrapped_key)
        (bad_request "wrapped_key length")
    wraps ← decode_wraps target_box ws
    pure ((pk, wrapped) ∷ wraps)

  -- The answer is `RemoveMemberResp`, whose one field is the epoch.
  unfoldable pub remove_and_rekey : Text → RemoveMemberReq → Action Db ℕ
  remove_and_rekey room_id_b64 req = do
    room_id ← decode env room_id_b64 "room_id b64"
    found ← gets (meta_by_id room_id)
    guard (is_some found) not_found
    remover_pk ← decode_pubkey env req.remover_sig_pubkey "remover_sig_pubkey"
    sig ← decode_sig env req.sig "sig b64" "sig length"
    target_box ← decode_pubkey env req.target_box_pubkey "target_box_pubkey"
    check_window clk req.ts "ts outside ±60s window"
    checked (verify_remove_request env remover_pk sig room_id req.ts target_box)
    check_nonce clk (codes "remove") remover_pk req.ts
    creator ← gets (is_creator_by_sig room_id remover_pk)
    guard creator (forbidden "only the room creator may remove members")
    wraps ← decode_wraps target_box req.new_wrapped_keys
    rekey_statement (Rekey.remove_and_rekey room_id target_box wraps clk.today)
