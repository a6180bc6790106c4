-- ===== src/Nonces/Replay/Ideal.antt =====
-- The nonce table of crates/lethe-server/src/db/nonces.rs, which is pruned, against a memory that
-- forgets nothing.
use lethe_project.Prelude.{
  ℕ, ◌+◌, ◌^◌, ◌≤◌, ◌<◌, ◌≡◌, refl, ap, Bool, true, false, not, ◌&&◌, inl, inr, List, [], ◌∷◌, ◌++◌,
  Bytes, Text, arith, same-eq, same_refl, All, All-append, All-weaken, Bool-cases, if◌then◌else◌,
}
use lethe_project.Table.{any}
use lethe_project.Table.Every.{All-delete}
use lethe_project.Error.{ok, err, Result, AppError}
use lethe_project.Action.{◌>>=◌}
use lethe_project.Db.{Db, Nonce}
use lethe_project.Checks.{check_window, check_nonce}
use lethe_project.Nonces.{i64_mod, in_window, is_nonce, record_nonce, prune_older_than}
use lethe_project.Nonces.Replay.Requests.{Accepted, same_request, not-accepted}
use lethe_project.Nonces.Replay.{
  World, authenticate, receive, Safe, Safe-receive, Safe-Step, tick as tick_step,
  prune as prune_step,
}

-- What happens to a server, one after the other
pub data Event : Type 0 where
  tick : ℕ → Event
  request : Text → Bytes → ℕ → Event
  prune : Event

unfoldable pub is_ok : Result AppError (Unit {0}) → Bool
is_ok (ok u) = true
is_ok (err e) = false

-- Whether the server lets a request through
unfoldable pub answer : World → Text → Bytes → ℕ → Bool
unfolding is_ok authenticate
answer w kind pk ts = is_ok (authenticate (record { now_ts = w.now; today = 0 }) kind pk ts w.db).0

unfoldable pub answers : World → List Event → List Bool
unfolding answer receive
answers w [] = []
answers w (tick n ∷ es) = answers (record w { now = w.now + n }) es
answers w (request kind pk ts ∷ es) = answer w kind pk ts ∷ answers (receive w kind pk ts) es
answers w (prune ∷ es) = answers (record w { db = (prune_older_than w.now 600 w.db).1 }) es

-- The memory: a request is let through in its window, and only the first time.
unfoldable pub is_new : ℕ → List Accepted → Text → Bytes → ℕ → Bool
is_new now log kind pk ts = in_window now ts && not (any (same_request kind pk ts) log)

unfoldable pub remember : Bool → Accepted → List Accepted → List Accepted
remember b a log = if b then a ∷ log else log

unfoldable pub ideal_answers : ℕ → List Accepted → List Event → List Bool
unfolding is_new remember
ideal_answers now log [] = []
ideal_answers now log (tick n ∷ es) = ideal_answers (now + n) log es
ideal_answers now log (request kind pk ts ∷ es) =
    is_new now log kind pk ts
    ∷ ideal_answers now
        (remember (is_new now log kind pk ts)
          (record { kind = kind; sig_pubkey = pk; ts = ts; at = now }) log)
        es
ideal_answers now log (prune ∷ es) = ideal_answers now log es

-- Timestamps are i64s, and the clock stays below 2 ^ 62 seconds after 1970.
abbrev pub InRange : ℕ → List Event → Type 0
InRange now [] = Unit
InRange now (tick n ∷ es) = (now + n < 2 ^ 62) × InRange (now + n) es
InRange now (request kind pk ts ∷ es) = (ts < i64_mod) × InRange now es
InRange now (prune ∷ es) = InRange now es

-- A row that an accepted request left
abbrev IsLogged : List Accepted → Nonce → Type 0
IsLogged log n = any (same_request n.kind n.sig_pubkey n.ts) log ≡ true

record Agrees (w : World) : Type 0 where
  safe : Safe w
  logged : All (IsLogged w.log) w.db.request_nonces

any-logged :
    (kind : Text) (pk : Bytes) (ts : ℕ) (log : List Accepted) (rows : List Nonce)
    → All (IsLogged log) rows
    → any (is_nonce kind pk ts) rows ≡ true
    → any (same_request kind pk ts) log ≡ true
unfolding any is_nonce
any-logged kind pk ts log [] h e = ground arith
any-logged kind pk ts log (n ∷ rows) (h, hs) e =
    ground (arith, any-logged kind pk ts log rows hs, same-eq n.kind kind, same-eq n.sig_pubkey pk)

-- The server after it let a request through
abbrev taken : World → Text → Bytes → ℕ → World
taken w kind pk ts = record w {
  db = record w.db {
    request_nonces =
        w.db.request_nonces
        ++ record { kind = kind; sig_pubkey = pk; ts = ts; seen_at = w.now } ∷ [];
  };
  log = record { kind = kind; sig_pubkey = pk; ts = ts; at = w.now } ∷ w.log;
}

-- What the server and the memory do with a request: the same.
data SameCase (w : World) (kind : Text) (pk : Bytes) (ts : ℕ) : Type 0 where
  shut :
      answer w kind pk ts ≡ false
      → receive w kind pk ts ≡ w
      → is_new w.now w.log kind pk ts ≡ false
      → SameCase w kind pk ts
  open_to :
      answer w kind pk ts ≡ true
      → receive w kind pk ts ≡ taken w kind pk ts
      → is_new w.now w.log kind pk ts ≡ true
      → SameCase w kind pk ts

same_case : (w : World) (kind : Text) (pk : Bytes) (ts : ℕ) → Agrees w → SameCase w kind pk ts
unfolding answer receive check_window check_nonce ◌>>=◌ record_nonce is_new
same_case w kind pk ts h = elim (Bool-cases (in_window w.now ts)) [
  | inr f ↦ shut (rw f refl) (rw f refl) (rw f refl)
  | inl t ↦ elim (Bool-cases (any (is_nonce kind pk ts) w.db.request_nonces)) [
    | inl u ↦
        shut (rw (t, u) refl) (rw (t, u) refl)
          (rw (t, any-logged kind pk ts w.log w.db.request_nonces h.logged u) refl)
    | inr u ↦ open_to (rw (t, u) refl) (rw (t, u) refl) (
        rw
          (
            t,
            not-accepted w.now w.db.request_nonces kind pk ts w.log h.safe.clock.0 h.safe.clock.1 t
                u h.safe.known,
          )
          refl)
  ]
]

taken-Agrees :
    (w : World) (kind : Text) (pk : Bytes) (ts : ℕ)
    → ts < i64_mod
    → receive w kind pk ts ≡ taken w kind pk ts
    → Agrees w
    → Agrees (taken w kind pk ts)
unfolding any
taken-Agrees w kind pk ts r e h = record {
  safe = rw (← e) (Safe-receive w kind pk ts r h.safe);
  logged =
      All-append _ w.db.request_nonces _
        (All-weaken (IsLogged (taken w kind pk ts).log) w.db.request_nonces (λ n k. ground arith)
          h.logged)
        (ground (arith, same_refl kind, same_refl pk), tt);
}

answers_from :
    (es : List Event) (w : World)
    → InRange w.now es
    → Agrees w
    → answers w es ≡ ideal_answers w.now w.log es
unfolding answers ideal_answers remember
answers_from [] w r h = refl
answers_from (tick n ∷ es) w (b, r) h =
    answers_from es (record w { now = w.now + n }) r
      (record { safe = Safe-Step (tick_step w n b) h.safe; logged = h.logged })
answers_from (prune ∷ es) w r h =
    answers_from es (record w { db = (prune_older_than w.now 600 w.db).1 }) r
      (record {
        safe = Safe-Step (prune_step w) h.safe;
        logged =
            unfold prune_older_than in All-delete (IsLogged w.log) _ w.db.request_nonces h.logged;
      })
answers_from (request kind pk ts ∷ es) w (b, r) h = elim (same_case w kind pk ts h) [
  | shut a e i ↦ rw (a, e, i) (ap (λ t. false ∷ t) (answers_from es w r h))
  | open_to a e i ↦
      rw (a, e, i)
        (ap (λ t. true ∷ t)
          (answers_from es (taken w kind pk ts) r (taken-Agrees w kind pk ts b e h)))
]

-- From a clock between 60 and 2 ^ 62 seconds after 1970 and an empty nonce table, a server that prunes the
-- table whenever it wants lets through exactly the requests that one with an endless memory lets through: those
-- in their window that it did not let through before.
pub answers-ideal :
    (now : ℕ) (s : Db) (es : List Event)
    → 60 ≤ now
    → now < 2 ^ 62
    → s.request_nonces ≡ []
    → InRange now es
    → answers (record { now = now; db = s; log = [] }) es ≡ ideal_answers now [] es
answers-ideal now s es lo hi e r =
    answers_from es (record { now = now; db = s; log = [] }) r
      (record { safe = record { clock = (lo, hi); known = tt; unique = tt }; logged = rw e tt })
