-- ===== src/Config.antt =====
-- crates/lethe-server/src/config.rs. `vars` is `std::env::var`, where it succeeds; the four `parse` are
-- parameters whose error is the text that Display writes.
use lethe_project.Prelude.{
  ℕ, ◌≡◌, ◌≢◌, Bool, false, ◌||◌, Option, none, some, [], ◌∷◌, ◌++◌, Text, codes, same, arith,
}
use lethe_project.Error.{Result, ok, err, ◌>>=◌}
use lethe_project.Moderation.Words.{to_ascii_lowercase}
use lethe_project.Paging.{ℤ}

-- `FromStr` of SocketAddr, u8, u64 and i64
pub record Parsers (SocketAddr : Type 0) : Type 0 where
  pub parse_addr : Text → Result Text SocketAddr
  pub parse_u8 : Text → Result Text ℕ
  pub parse_u64 : Text → Result Text ℕ
  pub parse_i64 : Text → Result Text ℤ

pub record Config (SocketAddr : Type 0) : Type 0 where
  pub database_url : Text
  pub bind_addr : SocketAddr
  pub default_pow_bits : ℕ
  pub server_key_path : Text
  pub federation_enabled : Bool
  -- Seconds
  pub pull_interval : ℕ
  pub pull_horizon_days : ℤ
  pub admin_token : Option Text
  pub moderation_summary : Option Text
  pub operator_label : Option Text
  pub release_manifest_path : Option Text

unfoldable pub unwrap_or : Option Text → Text → Text
unwrap_or none t = t
unwrap_or (some s) t = s

-- `ok_or`, and `map_err` on what `var` gives
unfoldable pub required : Option Text → Text → Result Text Text
required none e = err e
required (some s) e = ok s

-- `map_err(|e| format!("{name}: {e}"))`
unfoldable pub named : {A : Type 0} → Text → Result Text A → Result Text A
named name (ok a) = ok a
named name (err e) = err (name ++ codes ": " ++ e)

-- `matches!(s.to_ascii_lowercase().as_str(), "1" | "true" | "yes")`
unfoldable pub is_yes : Text → Bool
unfolding to_ascii_lowercase
is_yes s =
    let t = to_ascii_lowercase s in
    same t (codes "1") || (same t (codes "true") || same t (codes "yes"))

-- `.map(…).unwrap_or(false)`
unfoldable pub is_enabled : Option Text → Bool
unfolding is_yes
is_enabled none = false
is_enabled (some s) = is_yes s

-- `.ok().filter(|s| !s.is_empty())`
unfoldable pub filter_empty : Option Text → Option Text
filter_empty none = none
filter_empty (some []) = none
filter_empty (some t) = some t

module _ {SocketAddr : Type 0} (std : Parsers SocketAddr) (vars : Text → Option Text) where
  unfoldable pub from_env : Result Text (Config SocketAddr)
  unfolding unwrap_or required named is_enabled filter_empty
  from_env = do
    database_url ← required (vars (codes "DATABASE_URL")) (codes "DATABASE_URL is required")
    bind_addr ←
        named (codes "BIND_ADDR")
          (std.parse_addr (unwrap_or (vars (codes "BIND_ADDR")) (codes "127.0.0.1:8080")))
    default_pow_bits ←
        named (codes "DEFAULT_BOARD_POW_BITS")
          (std.parse_u8 (unwrap_or (vars (codes "DEFAULT_BOARD_POW_BITS")) (codes "18")))
    pull_interval ←
        named (codes "LETHE_PULL_INTERVAL_SECS")
          (std.parse_u64 (unwrap_or (vars (codes "LETHE_PULL_INTERVAL_SECS")) (codes "60")))
    pull_horizon_days ←
        named (codes "LETHE_PULL_HORIZON_DAYS")
          (std.parse_i64 (unwrap_or (vars (codes "LETHE_PULL_HORIZON_DAYS")) (codes "30")))
    ok (record {
      database_url = database_url;
      bind_addr = bind_addr;
      default_pow_bits = default_pow_bits;
      server_key_path = unwrap_or (vars (codes "LETHE_SERVER_KEY_PATH")) (codes "./server-key");
      federation_enabled = is_enabled (vars (codes "LETHE_FEDERATION_ENABLED"));
      pull_interval = pull_interval;
      pull_horizon_days = pull_horizon_days;
      admin_token = filter_empty (vars (codes "LETHE_ADMIN_TOKEN"));
      moderation_summary = vars (codes "LETHE_MODERATION_SUMMARY");
      operator_label = vars (codes "LETHE_OPERATOR_LABEL");
      release_manifest_path = vars (codes "LETHE_RELEASE_MANIFEST");
    })

filter_empty-full : (o : Option Text) → filter_empty o ≢ some []
unfolding filter_empty
filter_empty-full none h = ground arith
filter_empty-full (some []) h = ground arith
filter_empty-full (some (c ∷ cs)) h = ground arith

-- A configuration that is read never has an empty admin token.
from_env-admin_token :
    {SocketAddr : Type 0} (std : Parsers SocketAddr) (vars : Text → Option Text)
    (c : Config SocketAddr)
    → from_env std vars ≡ ok c
    → c.admin_token ≢ some []
unfolding from_env required named
from_env-admin_token std vars c h e =
    ground (arith, filter_empty-full (vars (codes "LETHE_ADMIN_TOKEN")))
