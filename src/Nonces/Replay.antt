-- ===== src/Nonces/Replay.antt =====
-- Signed requests under a clock and a nonce table that is pruned: the window test of the handlers and
-- `request_nonces`, crates/lethe-server/src/db/nonces.rs, together.
pub mod Requests
pub mod Ideal
use lethe_project.Nonces.Replay.Requests.{
  Accepted, same_request, IsKnown-accepted, IsKnown, IsKnown-tick, IsKnown-prune, IsKnown-append,
  not-accepted,
}
use lethe_project.Prelude.{
  ℕ, ◌+◌, ◌^◌, ◌≤◌, ◌<◌, ◌≡◌, refl, Bool, true, false, ◌&&◌, ◌⊎◌, inl, inr, List, [], ◌∷◌, ◌++◌,
  Bytes, Text, arith, same, same-eq, same_refl, ◌==◌, ltb, All, All-weaken, Bool-cases,
}
use lethe_project.Table.{any, delete}
use lethe_project.Table.Rows.{any-append, any-append_mono}
use lethe_project.Error.{ok, err, Result, AppError}
use lethe_project.Action.{◌>>=◌, ◌>>◌, Action}
use lethe_project.Env.{Clock}
use lethe_project.Db.{Db, Nonce}
use lethe_project.Checks.{check_window, check_nonce}
use lethe_project.Nonces.{i64_mod, in_window, is_nonce, record_nonce, prune_older_than}
use lethe_project.Nonces.Window.{in_window_iff}

-- The server's clock, its database, and the requests that it has accepted, the latest first.
pub record World : Type 0 where
  pub now : ℕ
  pub db : Db
  pub log : List Accepted

-- What the handlers do with a timestamp between decoding and acting.
unfoldable pub authenticate : Clock → Text → Bytes → ℕ → Action Db Unit
authenticate clk kind pk ts = do
  check_window clk ts "ts outside ±60s window"
  check_nonce clk kind pk ts

logged : World → Text → Bytes → ℕ → Result AppError Unit × Db → World
logged w kind pk ts (ok u, s) = record w {
  db = s;
  log = record { kind = kind; sig_pubkey = pk; ts = ts; at = w.now } ∷ w.log;
}
logged w kind pk ts (err e, s) = record w { db = s }

unfoldable pub receive : World → Text → Bytes → ℕ → World
unfolding logged authenticate
receive w kind pk ts =
    logged w kind pk ts (authenticate (record { now_ts = w.now; today = 0 }) kind pk ts w.db)

-- Time passes, requests come with any i64 timestamp, and the retention worker prunes.
pub data Step : World → World → Type 0 where
  tick : (w : World) (n : ℕ) → w.now + n < 2 ^ 62 → Step w (record w { now = w.now + n })
  request :
      (w : World) (kind : Text) (pk : Bytes) (ts : ℕ) → ts < i64_mod → Step w (receive w kind pk ts)
  prune : (w : World) → Step w (record w { db = (prune_older_than w.now 600 w.db).1 })

pub data Run (w : World) : World → Type 0 where
  start : Run w w
  next : {u v : World} → Run w u → Step u v → Run w v

-- No two entries are the same request.
abbrev pub NoReplay : List Accepted → Type 0
NoReplay [] = Unit
NoReplay (a ∷ log) = (any (same_request a.kind a.sig_pubkey a.ts) log ≡ false) × NoReplay log

record Safe (w : World) : Type 0 where
  clock : (60 ≤ w.now) × (w.now < 2 ^ 62)
  known : All (IsKnown w.now w.db.request_nonces) w.log
  unique : NoReplay w.log

-- The two outcomes of a request.
data Outcome (w : World) (kind : Text) (pk : Bytes) (ts : ℕ) : Type 0 where
  refused : receive w kind pk ts ≡ w → Outcome w kind pk ts
  taken :
      in_window w.now ts ≡ true
      → any (is_nonce kind pk ts) w.db.request_nonces ≡ false
      → receive w kind pk ts ≡ record w {
        db = record w.db {
          request_nonces =
              w.db.request_nonces
              ++ record { kind = kind; sig_pubkey = pk; ts = ts; seen_at = w.now } ∷ [];
        };
        log = record { kind = kind; sig_pubkey = pk; ts = ts; at = w.now } ∷ w.log;
      }
      → Outcome w kind pk ts

outcome : (w : World) (kind : Text) (pk : Bytes) (ts : ℕ) → Outcome w kind pk ts
unfolding receive check_window check_nonce ◌>>=◌ record_nonce
outcome w kind pk ts = elim (Bool-cases (in_window w.now ts)) [
  | inr f ↦ refused (rw f)
  | inl t ↦ elim (Bool-cases (any (is_nonce kind pk ts) w.db.request_nonces)) [
    | inl u ↦ refused (rw (t, u))
    | inr u ↦ taken t u (rw (t, u))
  ]
]

Safe-receive :
    (w : World) (kind : Text) (pk : Bytes) (ts : ℕ)
    → ts < i64_mod
    → Safe w
    → Safe (receive w kind pk ts)
Safe-receive w kind pk ts r h = elim (outcome w kind pk ts) [
  | refused e ↦ rw e h
  | taken t u e ↦
      let row : Nonce = record { kind = kind; sig_pubkey = pk; ts = ts; seen_at = w.now } in
      rw e (record {
        clock = h.clock;
        known = (
          IsKnown-accepted kind pk ts w.now w.db.request_nonces h.clock.0 h.clock.1 r t,
          All-weaken (IsKnown w.now (w.db.request_nonces ++ row ∷ [])) w.log
              (λ a k. IsKnown-append w.now w.db.request_nonces row a k) h.known,
        );
        unique = (
          not-accepted w.now w.db.request_nonces kind pk ts w.log h.clock.0 h.clock.1 t u h.known,
          h.unique,
        );
      })
]

Safe-Step : {u v : World} → Step u v → Safe u → Safe v
Safe-Step (tick w n bound) h = record {
  clock = omega (arith, h.clock);
  known =
      All-weaken (IsKnown (w.now + n) w.db.request_nonces) w.log
        (IsKnown-tick w.now n w.db.request_nonces) h.known;
  unique = h.unique;
}
Safe-Step (request w kind pk ts r) h = Safe-receive w kind pk ts r h
Safe-Step (prune w) h =
    unfold prune_older_than in
    record {
      clock = h.clock;
      known =
          All-weaken (IsKnown w.now (delete (λ n. ltb (n.seen_at + 600) w.now) w.db.request_nonces))
            w.log (IsKnown-prune w.now w.db.request_nonces) h.known;
      unique = h.unique;
    }

Safe-Run : {u v : World} → Safe u → Run u v → Safe v
Safe-Run h start = h
Safe-Run h (next r st) = Safe-Step st (Safe-Run h r)

-- From a clock between 60 and 2 ^ 62 seconds after 1970 and an empty log, whatever requests come
-- and whenever the nonces are pruned, no kind, key and timestamp is accepted twice.
pub no_replay :
    (now : ℕ) (s : Db) (w : World)
    → 60 ≤ now
    → now < 2 ^ 62
    → Run (record { now = now; db = s; log = [] }) w
    → NoReplay w.log
no_replay now s w lo hi r =
    (Safe-Run (record { clock = (lo, hi); known = tt; unique = tt }) r).unique
