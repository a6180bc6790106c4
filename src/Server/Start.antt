-- ===== src/Server/Start.antt =====
-- Start-up: `build_state`, `run` and `spawn_retention_worker` of crates/lethe-server/src/lib.rs, `spawn` of
-- federation/pull.rs, and main.rs. The database pool, the sockets and the clock are parameters.
pub mod Stalled
use lethe_project.Prelude.{ℕ, Bool, Option, List, [], ◌∷◌, ◌++◌, Bytes, Text, if◌then◌else◌}
use lethe_project.Error.{Result, ok, err}
use lethe_project.Env.{Env, Clock}
use lethe_project.Db.{Db}
use lethe_project.Moderation.{Judge}
use lethe_project.Config.{Config, Parsers, from_env}
use lethe_project.Retention
use lethe_project.Federation.Events.{Calendar, Identity}
use lethe_project.Federation.Identity.{Machine, Host, IdentityError, load_or_create}
use lethe_project.Federation.Pull.Cycle
use lethe_project.Federation.Pull.Cycle.{Net}
use lethe_project.Server.Router.{App, router}

pub data StartError : Type 0 where
  config : Text → StartError
  connect bind serve : StartError
  identity : IdentityError → StartError

-- The tasks that a start leaves running; a worker has its interval in seconds.
pub data Task : Type 0 where
  retention_worker : ℕ → Task
  pull_worker : Identity → ℕ → Task
  http : App → Task

-- Whether the pool connects and the address can be bound, how serving ends, and LETHE_STATIC_DIR
pub record Outside (SocketAddr : Type 0) : Type 0 where
  pub connects : Text → Bool
  pub binds : SocketAddr → Bool
  pub serves_to_end : Bool
  pub static_dir : Option Text

module _ {SocketAddr : Type 0} (out : Outside SocketAddr) (machine : Text → Machine) where
  abbrev pub loaded : Result IdentityError Identity × Host → Result StartError Identity × Host
  loaded (ok id, h) = (ok id, h)
  loaded (err e, h) = (err (identity e), h)

  -- The identity of the state; the key file is that of the configured path.
  unfoldable pub build_state : Config SocketAddr → Host → Result StartError Identity × Host
  unfolding load_or_create
  build_state cfg h =
      if out.connects cfg.database_url
      then loaded (load_or_create (machine cfg.server_key_path) h)
      else (err connect, h)

  abbrev pub pull_tasks : Config SocketAddr → Identity → List Task
  pull_tasks cfg id = if cfg.federation_enabled then pull_worker id cfg.pull_interval ∷ [] else []

  -- The workers run before the address is bound.
  unfoldable pub start_tasks :
      Config SocketAddr → Identity → Result StartError (Unit {0}) × List Task
  start_tasks cfg id =
      let workers = retention_worker 3600 ∷ pull_tasks cfg id in
      if out.binds cfg.bind_addr
      then (
        if out.serves_to_end then ok tt else err serve,
        workers ++ http (router out.static_dir) ∷ [],
      )
      else (err bind, workers)

  abbrev pub started :
      Config SocketAddr
      → Result StartError Identity × Host
      → (Result StartError (Unit {0}) × List Task) × Host
  started cfg (ok id, h) = (start_tasks cfg id, h)
  started cfg (err e, h) = ((err e, []), h)

  unfoldable pub run : Config SocketAddr → Host → (Result StartError (Unit {0}) × List Task) × Host
  unfolding build_state start_tasks
  run cfg h = started cfg (build_state cfg h)

  unfoldable pub main :
      Parsers SocketAddr
      → (Text → Option Text)
      → Host
      → (Result StartError (Unit {0}) × List Task) × Host
  unfolding from_env run
  main std vars h = elim (from_env std vars) [
    | ok cfg ↦ run cfg h
    | err e ↦ ((err (config e), []), h)
  ]

-- A sweep at each tick; one that fails is logged, and the loop goes on.
unfoldable pub sweeps : List Clock → Db → Db
unfolding Retention.run_once
sweeps [] s = s
sweeps (clk ∷ ticks) s = sweeps ticks (Retention.run_once clk.now_ts clk.today s).1

-- The first tick, which fires instantly, is let pass.
unfoldable pub run_retention : List Clock → Db → Db
unfolding sweeps
run_retention [] s = s
run_retention (instant ∷ ticks) s = sweeps ticks s

-- A cycle at the start and after each delay
unfoldable pub run_pulls : Env → Calendar → Judge → Bytes → List (Clock × Net) → Db → Db
unfolding Cycle.run_once
run_pulls env cal judge self [] s = s
run_pulls env cal judge self ((clk, net) ∷ cycles) s =
    run_pulls env cal judge self cycles (Cycle.run_once env cal clk judge net self s).1
