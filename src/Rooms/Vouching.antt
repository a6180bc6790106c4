-- ===== src/Rooms/Vouching.antt =====
-- `roster` and `post_roster` of crates/lethe-server/src/logic/rooms.rs.
pub mod Rosters
use lethe_project.Prelude.{
  ℕ, ◌+◌, Bool, true, false, ◌&&◌, List, [], ◌∷◌, map, Bytes, Text, same, lex_lt, ltb, leb, length,
  ◌==◌,
}
use lethe_project.Error.{bad_request, not_found, conflict}
use lethe_project.Action.{Action, pure, gets, guard, or_fail, ◌>>=◌, ◌>>◌}
use lethe_project.Env.{Env, Clock}
use lethe_project.Crypto.{verify_roster_sig}
use lethe_project.Checks.{checked, decode, decode_pubkey, decode_sig, statement}
use lethe_project.Db.{Db}
use lethe_project.Rooms.Requests.{PostRosterReq, RosterResp}
use lethe_project.Rooms.Queries.{
  meta_by_id, roster_at, creator_sig_pubkey, accepted_active_sig_pubkeys, insert_roster,
}

abbrev pub vouch_max_ring : ℕ
vouch_max_ring = 50

-- The loop over `ring.windows(2)`.
unfoldable pub strictly_sorted : List Bytes → Bool
strictly_sorted [] = true
strictly_sorted (a ∷ []) = true
strictly_sorted (a ∷ b ∷ ring) = lex_lt a b && strictly_sorted (b ∷ ring)

-- `==` on `Vec<Vec<u8>>`
unfoldable pub same_keys : List Bytes → List Bytes → Bool
same_keys [] [] = true
same_keys (a ∷ as') (b ∷ bs) = same a b && same_keys as' bs
same_keys _ _ = false

module _ (env : Env) (clk : Clock) where
  unfoldable pub roster : Text → Action Db RosterResp
  roster room_id_b64 = do
    room_id ← decode env room_id_b64 "room_id b64"
    found ← gets (meta_by_id room_id)
    meta ← or_fail found not_found
    guard (meta.vouching_enabled && ltb 0 meta.roster_epoch) not_found
    at_epoch ← gets (roster_at room_id meta.roster_epoch)
    stored ← or_fail at_epoch not_found
    creator_row ← gets (creator_sig_pubkey room_id)
    creator ← or_fail creator_row not_found
    pure (record {
      room_id = env.b64 room_id;
      creator_sig_pubkey = env.b64 creator;
      epoch = meta.roster_epoch;
      member_sig_pubkeys = map env.b64 stored.member_sig_pubkeys;
      creator_sig = env.b64 stored.creator_sig;
    })

  unfoldable pub decode_ring : List Text → Action Db (List Bytes)
  decode_ring [] = pure []
  decode_ring (p ∷ ps) = do
    key ← decode_pubkey env p "member_sig_pubkey"
    keys ← decode_ring ps
    pure (key ∷ keys)

  unfoldable pub post_roster : Text → PostRosterReq → Action Db Unit
  post_roster room_id_b64 req = do
    room_id ← decode env room_id_b64 "room_id b64"
    found ← gets (meta_by_id room_id)
    meta ← or_fail found not_found
    guard (req.epoch == meta.roster_epoch + 1) (conflict "roster epoch must be current + 1")
    guard
        (ltb 0 (length req.member_sig_pubkeys)
          && leb (length req.member_sig_pubkeys) vouch_max_ring)
        (bad_request "roster size")
    ring ← decode_ring req.member_sig_pubkeys
    guard (strictly_sorted ring) (bad_request "roster must be strictly sorted")
    creator_sig ← decode_sig env req.creator_sig "creator_sig b64" "creator_sig length"
    creator_row ← gets (creator_sig_pubkey room_id)
    creator ← or_fail creator_row not_found
    checked (verify_roster_sig env creator creator_sig room_id req.epoch ring)
    live ← gets (accepted_active_sig_pubkeys room_id)
    guard (same_keys live ring)
        (conflict "roster does not match the room's accepted active members")
    inserted ← statement (insert_roster room_id req.epoch ring creator_sig clk.today)
    guard inserted (conflict "roster epoch advanced concurrently")
