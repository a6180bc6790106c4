-- ===== src/Server/Moves/Workers.antt =====
-- The workers and the start, and the tables that they leave alone: crates/lethe-server/src/db/retention.rs,
-- federation/pull.rs and federation/identity.rs.
use lethe_project.Prelude.{
  ℕ, ◌≤◌, ◌≡◌, refl, ap, arith, false, Bytes, Option, none, some, List, [], ◌∷◌, ◌++◌, same,
  same-eq, length, length-append, Bool-cases, inl, inr, ◌<◌, All, All-weaken,
}
use lethe_project.Error.{Result, ok, err, DbError}
use lethe_project.Env.{Env, Clock}
use lethe_project.Db.{Db, Date, Peer}
use lethe_project.Nonces.{prune_older_than}
use lethe_project.Moderation.{Judge}
use lethe_project.Retention
use lethe_project.Federation.Events.{Calendar, Identity as ServerIdentity}
use lethe_project.Federation.Identity
use lethe_project.Federation.Identity.{Machine, KeyFile, Host, IdentityError}
use lethe_project.Federation.Peers.{list_enabled_peers}
use lethe_project.Federation.Pull.Cycle
use lethe_project.Federation.Pull.Cycle.{Net}
use lethe_project.Federation.Pull.Isolation.{run_once-Spares}
use lethe_project.Server.Moves.{Aside, Aside-refl, SameRooms}

-- A key that is none of the peers': it is longer than each of theirs.
long_key : List Peer → Bytes
long_key [] = 0 ∷ []
long_key (p ∷ ps) = p.server_pubkey ++ long_key ps

-- A sweep leaves the room tables alone, but not the nonces.
pub sweep-SameRooms :
    (now : ℕ) (today : Date) (s : Db) → SameRooms s (Retention.run_once now today s).1
unfolding Retention.run_once Retention.delete_threads Retention.sweep_rest Retention.delete_messages
    prune_older_than
sweep-SameRooms now today s = record {
  rooms = ground arith;
  members = ground arith;
  rosters = ground arith;
}

loaded-Aside :
    (m : Machine) (f : KeyFile) (r : Result IdentityError ServerIdentity) (s : Db)
    → Aside s (Identity.start_loaded m f r (record { file = some f; db = s })).1.db
unfolding Identity.start_loaded Identity.finish Identity.backfill
loaded-Aside m f (ok id) s = record {
  tables = record { rooms = refl; members = refl; rosters = refl };
  nonces = refl;
}
loaded-Aside m f (err e) s = Aside-refl s

unloaded-Aside :
    (m : Machine) (r : Result DbError (Option Bytes)) (s : Db)
    → Aside s (Identity.start_unloaded m r (record { file = none; db = s })).1.db
unfolding Identity.start_unloaded Identity.migrate Identity.generate Identity.finish
    Identity.backfill Identity.clear_legacy_seed Identity.publish_key
unloaded-Aside m (ok none) s = record {
  tables = record { rooms = ground arith; members = ground arith; rosters = ground arith };
  nonces = ground arith;
}
unloaded-Aside m (ok (some seed)) s = record {
  tables = record { rooms = ground arith; members = ground arith; rosters = ground arith };
  nonces = ground arith;
}
unloaded-Aside m (err e) s = Aside-refl s

pub restart-Aside :
    (m : Machine) (file : Option KeyFile) (s : Db)
    → Aside s (Identity.load_or_create m (record { file = file; db = s })).1.db
unfolding Identity.load_or_create Identity.start
restart-Aside m (some f) s = loaded-Aside m f (Identity.load_from_file m f) s
restart-Aside m none s = unloaded-Aside m (Identity.read_legacy_seed m s.instance_identity) s

long_key-positive : (ps : List Peer) → 1 ≤ length (long_key ps)
unfolding long_key
long_key-positive [] = omega arith
long_key-positive (p ∷ ps) =
    omega (arith, length-append p.server_pubkey (long_key ps), long_key-positive ps)

shorter-keys :
    (ps : List Peer) → All (λ (p : Peer). length p.server_pubkey < length (long_key ps)) ps
unfolding long_key
shorter-keys [] = tt
shorter-keys (p ∷ ps) =
    let long = long_key-positive ps in
    let whole = length-append p.server_pubkey (long_key ps) in
    (
      omega (arith, long, whole),
      All-weaken (λ (q : Peer). length q.server_pubkey < length (long_key (p ∷ ps))) ps
          (λ q h. omega (arith, whole, h)) (shorter-keys ps),
    )

shorter-apart : (a b : Bytes) → length a < length b → same a b ≡ false
shorter-apart a b h = elim (Bool-cases (same a b)) [
  | inr f ↦ f
  | inl t ↦ let e = ap (λ (x : Bytes). length x) (same-eq a b t) in absurd (omega (arith, h, e))
]

-- A cycle touches no room table, whatever the peers send.
pub pull-Aside :
    (env : Env) (cal : Calendar) (clk : Clock) (judge : Judge) (net : Net) (self : Bytes) (s : Db)
    → Aside s (Cycle.run_once env cal clk judge net self s).1
pull-Aside env cal clk judge net self s =
    let o = long_key (list_enabled_peers s) in
    let h = run_once-Spares env cal clk judge net self o s (
      All-weaken (λ (p : Peer). same p.server_pubkey o ≡ false) (list_enabled_peers s)
        (λ p k. shorter-apart p.server_pubkey o k) (shorter-keys (list_enabled_peers s))) in
    record {
      tables = record { rooms = h.rooms; members = h.members; rosters = h.rosters };
      nonces = h.nonces;
    }
