-- ===== src/Federation/Pull/Isolation/Events.antt =====
-- A single event from a peer, as crates/lethe-server/src/federation/pull.rs applies it: what it can change.
use lethe_project.Federation.Pull.Isolation.Frame.{
  posts_of, removals_of, Spares, Spares-trans, SparesIn, same_state, if-SparesIn, other_tables,
  ensure-SparesIn, insert_federated-SparesIn, insert_removal-SparesIn,
}
use lethe_project.Federation.Pull.Isolation.Owned.{local_id-other}
use lethe_project.Prelude.{
  length, ◌==◌, ℕ, ◌≡◌, refl, sym, subst, Bool, false, Option, none, some, Bytes, same,
}
use lethe_project.Error.{Result, ok, err, DbError}
use lethe_project.Env.{Env, Clock}
use lethe_project.Db.{Db}
use lethe_project.Moderation.{Judge, Verdict, allow, reject, evaluate, log_reject}
use lethe_project.Posts.Queries.{holds}
use lethe_project.Federation.Wire.{PostEvent, RemovalEvent, PostEventFields, RemovalEventFields}
use lethe_project.Federation.Events.{Calendar, DecodeError, verify_post_event}
use lethe_project.Federation.Events.Origin.{
  verify_post_event-IsSignedBy, verify_removal_event-IsSignedBy,
}
use lethe_project.Federation.Peers.{local_id_for_origin}
use lethe_project.Federation.Pull.Ingest.{
  is_author_valid, text, IngestError, apply_post_event, apply_removal_event, admit_post, store_post,
  store_removal, store_in_thread, federated_post, admit_judged, admit_claimed, remove_found,
  remove_verified, is_inserted, is_new_removal, admit_verified,
}

module _ (env : Env) (cal : Calendar) (clk : Clock) (judge : Judge) (o : Bytes) where
  is_inserted-SparesIn :
      (s : Db) (x : Result DbError (Option (Bytes × ℕ)) × Db)
      → SparesIn o s x
      → SparesIn o s (is_inserted env cal clk judge x)
  is_inserted-SparesIn s (ok r, t) h = record { state = h.state }
  is_inserted-SparesIn s (err e, t) h = record { state = h.state }

  is_new_removal-SparesIn :
      (s : Db) (x : Result DbError Bool × Db)
      → SparesIn o s x
      → SparesIn o s (is_new_removal env cal clk judge x)
  is_new_removal-SparesIn s (ok r, t) h = record { state = h.state }
  is_new_removal-SparesIn s (err e, t) h = record { state = h.state }

  store_in_thread-SparesIn :
      (local_id : Bytes) (d : PostEventFields) (s : Db) (x : Result DbError (Unit {0}) × Db)
      → same d.origin_server_id o ≡ false
      → SparesIn o s x
      → SparesIn o s (store_in_thread env cal clk judge local_id d x)
  unfolding store_in_thread
  store_in_thread-SparesIn local_id d s (err e, t) h k = record { state = k.state }
  store_in_thread-SparesIn local_id d s (ok u, t) h k =
      let i = insert_federated-SparesIn o local_id (federated_post env cal clk judge d) t h in
      is_inserted-SparesIn s _ (record { state = Spares-trans o s t _ k.state i.state })

  admit_judged-SparesIn :
      (local_id action_id : Bytes) (d : PostEventFields) (v : Verdict) (s : Db)
      → same d.origin_server_id o ≡ false
      → SparesIn o s (admit_judged env cal clk judge local_id action_id d v s)
  unfolding admit_judged store_post log_reject posts_of removals_of
  admit_judged-SparesIn local_id action_id d (reject reason) s h =
      other_tables o s (ok false) s.threads _ s.federation_peers
  admit_judged-SparesIn local_id action_id d allow s h =
      store_in_thread-SparesIn local_id d s _ h (ensure-SparesIn o _ _ _ _ _ _ s)

  admit_verified-SparesIn :
      (local_id action_id signer : Bytes) (r : Result DecodeError PostEventFields) (s : Db)
      → same signer o ≡ false
      → ((d : PostEventFields) → r ≡ ok d → d.origin_server_id ≡ signer)
      → SparesIn o s (admit_verified env cal clk judge local_id action_id r s)
  unfolding admit_post
  admit_verified-SparesIn local_id action_id signer (err e) s h k = same_state o s _
  admit_verified-SparesIn local_id action_id signer (ok d) s h k =
      let h' = subst (λ x. same x o ≡ false) (sym (k d refl)) h in
      if-SparesIn o s
        (is_author_valid env cal clk judge d.thread_id d.body d.author_pubkey d.author_signature) _
        _
        (admit_judged-SparesIn local_id action_id d (evaluate judge clk.now_ts d.board_id d.body s)
          s h')
        (same_state o s (ok false))

  admit_claimed-SparesIn :
      (local_id action_id : Bytes) (e : PostEvent) (signer self : Bytes)
      (r : Result IngestError Bytes) (s : Db)
      → same signer o ≡ false
      → SparesIn o s (admit_claimed env cal clk judge local_id action_id e signer self r s)
  unfolding admit_claimed
  admit_claimed-SparesIn local_id action_id e signer self (err x) s h = same_state o s _
  admit_claimed-SparesIn local_id action_id e signer self (ok claimed) s h =
      if-SparesIn o s (same claimed self) _ _ (same_state o s (ok false)) (
        admit_verified-SparesIn local_id action_id signer (verify_post_event env cal e signer) s h
          (λ d k. (verify_post_event-IsSignedBy env cal e signer d k).0))

  pub apply_post_event-Spares :
      (local_id action_id : Bytes) (e : PostEvent) (signer self : Bytes) (s : Db)
      → same signer o ≡ false
      → Spares o s (apply_post_event env cal clk judge local_id action_id e signer self s).1
  unfolding apply_post_event
  apply_post_event-Spares local_id action_id e signer self s h =
      (admit_claimed-SparesIn local_id action_id e signer self _ s h).state

  remove_found-SparesIn :
      (sig : Bytes) (d : RemovalEventFields) (id : Option Bytes) (s : Db)
      → same d.origin_server_id o ≡ false
      → local_id_for_origin d.origin_server_id d.origin_post_id s ≡ id
      → SparesIn o s (remove_found env cal clk judge sig d id s)
  unfolding remove_found holds
  remove_found-SparesIn sig d none s h e = same_state o s _
  remove_found-SparesIn sig d (some id) s h e = is_new_removal-SparesIn s _ (
      insert_removal-SparesIn o _ s h
        (λ other k. local_id-other o d.origin_server_id d.origin_post_id other id s h k e))

  store_removal-SparesIn :
      (d : RemovalEventFields) (sig : Option Bytes) (s : Db)
      → same d.origin_server_id o ≡ false
      → SparesIn o s (store_removal env cal clk judge d sig s)
  unfolding store_removal
  store_removal-SparesIn d none s h = same_state o s _
  store_removal-SparesIn d (some sig) s h =
      if-SparesIn o s (length sig == 64) _ _
        (remove_found-SparesIn sig d (local_id_for_origin d.origin_server_id d.origin_post_id s) s h
          refl)
        (same_state o s (err (text "removal signature length")))

  remove_verified-SparesIn :
      (e : RemovalEvent) (signer : Bytes) (r : Result DecodeError RemovalEventFields) (s : Db)
      → same signer o ≡ false
      → ((d : RemovalEventFields) → r ≡ ok d → d.origin_server_id ≡ signer)
      → SparesIn o s (remove_verified env cal clk judge e r s)
  remove_verified-SparesIn e signer (ok d) s h k =
      store_removal-SparesIn d _ s (subst (λ x. same x o ≡ false) (sym (k d refl)) h)
  remove_verified-SparesIn e signer (err x) s h k = same_state o s _

  pub apply_removal_event-Spares :
      (e : RemovalEvent) (signer : Bytes) (s : Db)
      → same signer o ≡ false
      → Spares o s (apply_removal_event env cal clk judge e signer s).1
  unfolding apply_removal_event
  apply_removal_event-Spares e signer s h =
      (remove_verified-SparesIn e signer _ s h
        (λ d k. (verify_removal_event-IsSignedBy env cal e signer d k).0)).state
