-- ===== src/Federation/Admin.antt =====
-- The admin handlers of crates/lethe-server/src/federation/route.rs.
pub mod Access
pub mod Tokens
use lethe_project.Prelude.{
  ℕ, suc, ◌+◌, ◌-◌, ◌%◌, ◌^◌, Bool, true, false, not, ◌&&◌, ◌||◌, Option, none, some, List, [], ◌∷◌,
  ◌++◌, Bytes, Text, String, codes, same, utf8, ltb, leb, ◌==◌, length, map, is_none, is_some,
  map_option, if◌then◌else◌,
}
use Prim.Native.Nat.{bit_xor, bit_or, Ordering}
use Prim.Native.String.{compare}
use lethe_project.Table.{any}
use lethe_project.Error.{
  Result, ok, err, AppError, DbError, database, column_decode, db, bad_request, not_found,
  forbidden, conflict,
}
use lethe_project.Action.{Action, pure, fail, gets, modify, guard, or_fail, ◌>>=◌, ◌>>◌}
use lethe_project.Env.{Env, Clock}
use lethe_project.Db.{Db, Peer, AdminToken}
use lethe_project.AdminTokens
use lethe_project.Federation.Peers.{upsert_peer, set_enabled, list_peers, list_enabled_peers}
use lethe_project.Federation.Cursor.{display}
use lethe_project.Paging.{ℤ, pos, negsuc}
use lethe_project.Moderation.Words.{starts_with}

-- The loop of `constant_time_eq`
unfoldable pub fold_diff : ℕ → Bytes → Bytes → ℕ
fold_diff acc [] ys = acc
fold_diff acc (x ∷ xs) [] = acc
fold_diff acc (x ∷ xs) (y ∷ ys) = fold_diff (bit_or acc (bit_xor x y)) xs ys

unfoldable pub constant_time_eq : Bytes → Bytes → Bool
unfolding fold_diff
constant_time_eq a b = if length a == length b then fold_diff 0 a b == 0 else false

-- What the handlers read of `Config`, with the fresh token and `Date::to_string`.
pub record AdminConfig : Type 0 where
  pub admin_token : Option Text
  pub pull_horizon_days : ℤ
  pub server_pubkey : Option Bytes
  pub fresh_token : Bytes
  pub show_date : ℕ → Text
  -- `serde_json::to_vec` of the object with the fields `post` and `removal`
  pub write_cursors : Text → Text → Bytes

pub record PeerView : Type 0 where
  pub server_pubkey : Text
  pub endpoint : Text
  pub label : Option Text
  pub enabled : Bool

pub record AddPeerReq : Type 0 where
  pub server_pubkey : Text
  pub endpoint : Text
  pub label : Option Text

pub record DisablePeerReq : Type 0 where
  pub server_pubkey : Text
  pub enabled : Bool

pub record MintTokenResp : Type 0 where
  pub label : Text
  pub token : Text

pub record TokenView : Type 0 where
  pub label : Text
  pub created_at : Text
  pub revoked_at : Option Text

-- `strip_prefix("Bearer ")`
unfoldable pub strip_prefix : Text → Text → Option Text
strip_prefix [] t = some t
strip_prefix (p ∷ ps) [] = none
strip_prefix (p ∷ ps) (c ∷ cs) = let rest = strip_prefix ps cs in if p == c then rest else none

-- The header as a text, where there is one that is text
unfoldable pub presented_token : Option Text → Text
unfolding strip_prefix
presented_token none = []
presented_token (some h) = elim (strip_prefix (codes "Bearer ") h) [ none ↦ [] | some t ↦ t ]

unfoldable pub is_bootstrap : Option Text → Text → Bool
unfolding constant_time_eq
is_bootstrap none presented = false
is_bootstrap (some configured) presented =
    not (same configured []) && constant_time_eq (utf8 configured) (utf8 presented)

module _ (env : Env) (clk : Clock) (cfg : AdminConfig) where
  -- `SELECT 1` has an INT4, and `(i64,)` does not decode that: where there is a row, the query fails.
  unfoldable pub probe_tokens : Db → Result DbError (Option ℕ)
  probe_tokens s =
      if any (λ (t : AdminToken). is_none t.revoked_at) s.admin_tokens
      then err column_decode
      else ok none

  -- `.ok().flatten()`, and whether there is a row in it
  unfoldable pub has_active_token : Db → Bool
  unfolding probe_tokens
  has_active_token s = elim (probe_tokens s) [ ok found ↦ is_some found | err e ↦ false ]

  unfoldable pub refuse_admin : Option Text → Bool → Action Db (Unit {0})
  refuse_admin none false = fail (forbidden "admin token not configured")
  refuse_admin _ _ = fail (forbidden "bad admin token")

  unfoldable pub require_admin : Option Text → Action Db (Unit {0})
  unfolding presented_token is_bootstrap refuse_admin has_active_token AdminTokens.verify
  require_admin header s =
      let presented = presented_token header in
      if is_bootstrap cfg.admin_token presented
      then (ok tt, s)
      else if not (same presented []) && is_some (AdminTokens.verify env presented s)
      then (ok tt, s)
      else refuse_admin cfg.admin_token (has_active_token s) s

  -- The horizon is cast to an i32, and the subtraction saturates at its least value.
  unfoldable pub to_i32 : ℕ → ℤ
  to_i32 n = let m = n % 2 ^ 32 in if ltb m (2 ^ 31) then pos m else negsuc (2 ^ 32 - 1 - m)

  unfoldable pub saturating_sub : ℕ → ℤ → ℤ
  saturating_sub day (pos n) = if leb n day then pos (day - n) else negsuc (n - day - 1)
  saturating_sub day (negsuc n) =
      if ltb (day + suc n) (2 ^ 31) then pos (day + suc n) else pos (2 ^ 31 - 1)

  unfoldable pub backfill_cursor : ℤ → Option Bytes
  unfolding to_i32 saturating_sub display
  backfill_cursor (pos (suc n)) =
      let cursor =
        display (saturating_sub clk.today (to_i32 (suc n)))
        ++ 46 ∷ env.b64 (0 ∷ 0 ∷ 0 ∷ 0 ∷ 0 ∷ 0 ∷ 0 ∷ 0 ∷ 0 ∷ 0 ∷ 0 ∷ 0 ∷ 0 ∷ 0 ∷ 0 ∷ 0 ∷ []) in
      some (cfg.write_cursors cursor cursor)
  backfill_cursor _ = none

  unfoldable pub peer_view : Peer → PeerView
  peer_view p = record {
    server_pubkey = env.b64 p.server_pubkey;
    endpoint = p.endpoint;
    label = p.label;
    enabled = p.enabled;
  }

  unfoldable pub list_peers_public : Action Db (List PeerView)
  unfolding peer_view
  list_peers_public = do peers ← gets list_enabled_peers; pure (map peer_view peers)

  unfoldable pub list_all_peers : Option Text → Action Db (List PeerView)
  unfolding require_admin peer_view
  list_all_peers header = do
    require_admin header
    peers ← gets list_peers
    pure (map peer_view peers)

  -- `ids::unb64_array::<32>`
  unfoldable pub decode_key : Text → String → Action Db Bytes
  decode_key t label = do
    v ← or_fail (env.unb64 t) (bad_request label)
    guard (length v == 32) (bad_request label)
    pure v

  unfoldable pub is_self : Bytes → Bool
  is_self pk = elim (cfg.server_pubkey) [ none ↦ false | some own ↦ same pk own ]

  unfoldable pub add_peer : Option Text → AddPeerReq → Action Db (Unit {0})
  unfolding require_admin decode_key is_self backfill_cursor upsert_peer
  add_peer header req = do
    require_admin header
    pk ← decode_key req.server_pubkey "server_pubkey"
    guard (not (is_self pk)) (bad_request "cannot peer with self")
    guard (not (same req.endpoint []) && leb (length (utf8 req.endpoint)) 1024)
        (bad_request "endpoint length")
    modify (λ s. (
      tt,
      upsert_peer clk.today pk req.endpoint req.label (backfill_cursor cfg.pull_horizon_days) s,
    ))

  abbrev pub is_pkey : String → Bool
  is_pkey c = elim (compare c "admin_tokens_pkey") [ Ordering.eq ↦ true | _ ↦ false ]

  abbrev pub mint_error : DbError → AppError
  mint_error (database c) = elim (is_pkey c) [
    | true ↦ conflict "token collision; try again"
    | false ↦ db (database c)
  ]
  mint_error e = db e

  abbrev pub minted : Result DbError (Unit {0}) × Db → Result AppError (Unit {0}) × Db
  minted (ok u, s) = (ok u, s)
  minted (err e, s) = (err (mint_error e), s)

  unfoldable pub mint_token : Option Text → Text → Action Db MintTokenResp
  unfolding require_admin AdminTokens.insert
  mint_token header label = do
    require_admin header
    guard (not (same label []) && leb (length (utf8 label)) 64) (bad_request "label length")
    (λ s. minted (AdminTokens.insert env clk.today label (env.b64 cfg.fresh_token) s))
    pure (record { label = label; token = env.b64 cfg.fresh_token })

  unfoldable pub list_tokens : Option Text → Action Db (List TokenView)
  unfolding require_admin AdminTokens.list
  list_tokens header = do
    require_admin header
    rows ← gets AdminTokens.list
    pure (
        map
          (λ (t : AdminToken). record {
            label = t.label;
            created_at = cfg.show_date t.created_at;
            revoked_at = map_option cfg.show_date t.revoked_at;
          })
          rows)

  -- The answer is the number of tokens that were revoked.
  unfoldable pub revoke_token : Option Text → Text → Action Db ℕ
  unfolding require_admin AdminTokens.revoke
  revoke_token header label = do
    require_admin header
    updated ← modify (AdminTokens.revoke clk.today label)
    guard (not (updated == 0)) not_found
    pure updated

  unfoldable pub set_peer_enabled : Option Text → DisablePeerReq → Action Db (Unit {0})
  unfolding require_admin decode_key set_enabled
  set_peer_enabled header req = do
    require_admin header
    pk ← decode_key req.server_pubkey "server_pubkey"
    updated ← modify (set_enabled pk req.enabled)
    guard updated not_found
