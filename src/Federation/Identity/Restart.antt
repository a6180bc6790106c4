-- ===== src/Federation/Identity/Restart.antt =====
-- A server that restarts is the same server: crates/lethe-server/src/federation/identity.rs.
use lethe_project.Prelude.{
  ◌≡◌, refl, subst, Bool, true, false, Option, none, some, List, [], ◌∷◌, Bytes, is_none, length,
  arith, if◌then◌else◌,
}
use lethe_project.Table.{update}
use lethe_project.Error.{Result, ok, err, DbError}
use lethe_project.Db.{Db, Thread, Post, InstanceIdentity}
use lethe_project.Federation.Events.{Identity}
use lethe_project.Federation.Identity.{
  Machine, Host, KeyFile, IdentityError, io, start, start_loaded, start_unloaded, load_from_file,
  read_legacy_seed, migrate, generate, finish, backfill, clear_legacy_seed, publish_key, new_file,
  load_or_create, stamp_thread, stamp_post,
}

update-update :
    {A : Type 0} (p : A → Bool) (f g : A → A) (xs : List A)
    → ((x : A) → p (f x) ≡ false)
    → update p g (update p f xs) ≡ update p f xs
unfolding update
update-update p f g [] h = refl
update-update p f g (x ∷ xs) h = ground (arith, update-update p f g xs h, h x)

module _ (m : Machine) where
  backfill_again : (pk pk' : Bytes) (s : Db) → backfill m pk' (backfill m pk s) ≡ backfill m pk s
  unfolding backfill
  backfill_again pk pk' s =
      let t =
        update-update (λ (t : Thread). is_none t.origin_server_id) (stamp_thread m pk)
          (stamp_thread m pk') s.threads (λ x. refl) in
      let p =
        update-update (λ (p : Post). is_none p.origin_server_id) (stamp_post m pk)
          (stamp_post m pk') s.posts (λ x. refl) in
      rw (t, p) refl

  -- The host comes to the same identity again, and does not change.
  abbrev pub IsStable : Result IdentityError Identity × Host → Identity → Type 0
  IsStable (r, h) id = load_or_create m h ≡ (ok id, h)

  finish-again :
      (id : Identity) (f : KeyFile) (s : Db)
      → load_from_file m f ≡ ok id
      → IsStable (finish m id (some f) s) id
  unfolding load_or_create start start_loaded finish
  finish-again id f s h =
      rw (load_or_create, start, h, start_loaded, finish, backfill_again id.pubkey id.pubkey s) refl

  new_file-loads :
      (seed : Bytes)
      → m.is_readable ≡ true
      → length seed ≡ 32
      → load_from_file m (new_file m seed) ≡ ok (m.from_seed seed)
  unfolding load_from_file
  new_file-loads seed r l = rw (r, l) refl

  -- The id that `finish` answers with
  finish-id :
      (a id : Identity) (f : KeyFile) (s : Db)
      → (finish m a (some f) s).0 ≡ ok id
      → load_from_file m f ≡ ok a
      → IsStable (finish m a (some f) s) id
  unfolding finish
  finish-id a id f s h k =
      let e : a ≡ id = ground arith in
      subst (λ x. load_or_create m (finish m a (some f) s).1 ≡ (ok x, (finish m a (some f) s).1)) e
        (finish-again a f s k)

  module _ (r : m.is_readable ≡ true) (w : m.is_writable ≡ true)
      (l : length m.fresh_seed ≡ 32) where
    migrate-again :
        (seed : Bytes) (h : Host) (id : Identity)
        → length seed ≡ 32
        → (migrate m seed h).0 ≡ ok id
        → IsStable (migrate m seed h) id
    unfolding migrate load_or_create
    migrate-again seed h id n k = rw w (
        finish-id (m.from_seed seed) id (new_file m seed) (clear_legacy_seed m h.db)
          (subst
            (λ b.
              (if b
                then finish m (m.from_seed seed) (some (new_file m seed)) (clear_legacy_seed m h.db)
                else (err io, h)).0
              ≡ ok id)
            w k)
          (new_file-loads seed r n))

    generate-again :
        (h : Host) (id : Identity) → (generate m h).0 ≡ ok id → IsStable (generate m h) id
    unfolding generate load_or_create
    generate-again h id k =
        let a = m.from_seed m.fresh_seed in
        rw w (
          finish-id a id (new_file m m.fresh_seed) (publish_key m a.pubkey h.db)
            (subst
              (λ b.
                (if b
                  then finish m a (some (new_file m m.fresh_seed)) (publish_key m a.pubkey h.db)
                  else (err io, h)).0
                ≡ ok id)
              w k)
            (new_file-loads m.fresh_seed r l))

    legacy-length :
        (rows : List InstanceIdentity) (seed : Bytes)
        → read_legacy_seed m rows ≡ ok (some seed)
        → length seed ≡ 32
    unfolding read_legacy_seed
    legacy-length [] seed h = ground arith
    legacy-length (row ∷ rows) seed h = ground arith

    unloaded-again :
        (x : Result DbError (Option Bytes)) (h : Host) (id : Identity)
        → ((seed : Bytes) → x ≡ ok (some seed) → length seed ≡ 32)
        → (start_unloaded m x h).0 ≡ ok id
        → IsStable (start_unloaded m x h) id
    unfolding start_unloaded
    unloaded-again (err e) h id n k = ground arith
    unloaded-again (ok (some seed)) h id n k = migrate-again seed h id (n seed refl) k
    unloaded-again (ok none) h id n k = generate-again h id k

    loaded-again :
        (f : KeyFile) (x : Result IdentityError Identity) (h : Host) (id : Identity)
        → load_from_file m f ≡ x
        → (start_loaded m f x h).0 ≡ ok id
        → IsStable (start_loaded m f x h) id
    unfolding start_loaded
    loaded-again f (err e) h id n k = ground arith
    loaded-again f (ok a) h id n k = finish-id a id f h.db k n

    start-again :
        (file : Option KeyFile) (h : Host) (id : Identity)
        → (start m file h).0 ≡ ok id
        → IsStable (start m file h) id
    unfolding start
    start-again (some f) h id k = loaded-again f (load_from_file m f) h id refl k
    start-again none h id k =
        unloaded-again (read_legacy_seed m h.db.instance_identity) h id
          (legacy-length h.db.instance_identity) k

  -- Once a start has succeeded, the next start gives the same identity and changes neither the key file nor the
  -- database, where the file can be read and written and a fresh seed has 32 bytes.
  pub load_or_create-again :
      (h : Host) (id : Identity)
      → m.is_readable ≡ true
      → m.is_writable ≡ true
      → length m.fresh_seed ≡ 32
      → (load_or_create m h).0 ≡ ok id
      → load_or_create m (load_or_create m h).1 ≡ (ok id, (load_or_create m h).1)
  unfolding load_or_create
  load_or_create-again h id r w l k = start-again r w l h.file h id k
