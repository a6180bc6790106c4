-- ===== src/Federation/Identity.antt =====
-- `load_or_create` of crates/lethe-server/src/federation/identity.rs, over the key file and the
-- database. A step that fails leaves what the steps before it wrote.
pub mod Restart
use lethe_project.Prelude.{
  ℕ, ◌%◌, Bool, true, false, not, ◌&&◌, Option, none, some, List, [], ◌∷◌, ◌++◌, Bytes, same,
  length, ◌==◌, is_none, if◌then◌else◌,
}
use lethe_project.Table.{any, update}
use lethe_project.Error.{Result, ok, err, DbError, protocol}
use lethe_project.Db.{Db, Thread, Post, InstanceIdentity}
use lethe_project.Federation.Events.{Identity}

abbrev pub seed_len : ℕ
seed_len = 32

pub data IdentityError : Type 0 where
  io : IdentityError
  insecure bad_length : ℕ → IdentityError
  db : DbError → IdentityError

-- The low nine bits of the mode, and the bytes
pub record KeyFile : Type 0 where
  pub mode : ℕ
  pub bytes : Bytes

pub record Host : Type 0 where
  pub file : Option KeyFile
  pub db : Db

-- `from_seed` of ed25519-dalek, whether the file can be read and written, and the fresh seed
pub record Machine : Type 0 where
  pub from_seed : Bytes → Identity
  pub is_readable : Bool
  pub is_writable : Bool
  pub fresh_seed : Bytes

module _ (m : Machine) where
  -- `mode & 0o077`, the bits of the group and of the others
  unfoldable pub load_from_file : KeyFile → Result IdentityError Identity
  load_from_file f =
      if not (f.mode % 64 == 0)
      then err (insecure f.mode)
      else if not m.is_readable
      then err io
      else if not (length f.bytes == seed_len)
      then err (bad_length (length f.bytes))
      else ok (m.from_seed f.bytes)

  -- `LIMIT 1` without an order: the first row of the table
  unfoldable pub read_legacy_seed : List InstanceIdentity → Result DbError (Option Bytes)
  read_legacy_seed [] = ok none
  read_legacy_seed (row ∷ rows) = elim (row.server_privkey) [
    | none ↦ ok none
    | some seed ↦
        if length seed == seed_len
        then ok (some seed)
        else err (protocol "legacy server_privkey has wrong length")
  ]

  abbrev pub forget : InstanceIdentity → InstanceIdentity
  forget row = record row { server_privkey = none }

  unfoldable pub clear_legacy_seed : Db → Db
  clear_legacy_seed s = record s {
    instance_identity = update (λ row. true) forget s.instance_identity;
  }

  -- ON CONFLICT DO NOTHING
  unfoldable pub publish_key : Bytes → Db → Db
  publish_key pubkey s = record s {
    instance_identity =
        if any (λ (row : InstanceIdentity). same row.server_pubkey pubkey) s.instance_identity
        then s.instance_identity
        else s.instance_identity ++ record { server_pubkey = pubkey; server_privkey = none } ∷ [];
  }

  abbrev pub stamp_thread : Bytes → Thread → Thread
  stamp_thread pubkey t = record t { origin_server_id = some pubkey }

  abbrev pub stamp_post : Bytes → Post → Post
  stamp_post pubkey p = record p { origin_server_id = some pubkey; origin_post_id = some p.id }

  unfoldable pub backfill : Bytes → Db → Db
  backfill pubkey s = record s {
    threads = update (λ (t : Thread). is_none t.origin_server_id) (stamp_thread pubkey) s.threads;
    posts = update (λ (p : Post). is_none p.origin_server_id) (stamp_post pubkey) s.posts;
  }

  -- `create_new` with mode 0600
  abbrev pub new_file : Bytes → KeyFile
  new_file seed = record { mode = 0x180; bytes = seed }

  unfoldable pub finish : Identity → Option KeyFile → Db → Result IdentityError Identity × Host
  unfolding backfill
  finish id file s = (ok id, record { file = file; db = backfill id.pubkey s })

  unfoldable pub migrate : Bytes → Host → Result IdentityError Identity × Host
  unfolding finish clear_legacy_seed
  migrate seed h =
      if m.is_writable
      then finish (m.from_seed seed) (some (new_file seed)) (clear_legacy_seed h.db)
      else (err io, h)

  unfoldable pub generate : Host → Result IdentityError Identity × Host
  unfolding finish publish_key
  generate h =
      let id = m.from_seed m.fresh_seed in
      if m.is_writable
      then finish id (some (new_file m.fresh_seed)) (publish_key id.pubkey h.db)
      else (err io, h)

  unfoldable pub start_loaded :
      KeyFile → Result IdentityError Identity → Host → Result IdentityError Identity × Host
  unfolding finish
  start_loaded f (err e) h = (err e, h)
  start_loaded f (ok id) h = finish id (some f) h.db

  unfoldable pub start_unloaded :
      Result DbError (Option Bytes) → Host → Result IdentityError Identity × Host
  unfolding migrate generate
  start_unloaded (err e) h = (err (db e), h)
  start_unloaded (ok (some seed)) h = migrate seed h
  start_unloaded (ok none) h = generate h

  -- What the existence of the file decides
  unfoldable pub start : Option KeyFile → Host → Result IdentityError Identity × Host
  unfolding load_from_file read_legacy_seed start_loaded start_unloaded
  start (some f) h = start_loaded f (load_from_file f) h
  start none h = start_unloaded (read_legacy_seed h.db.instance_identity) h

  unfoldable pub load_or_create : Host → Result IdentityError Identity × Host
  unfolding start
  load_or_create h = start h.file h
