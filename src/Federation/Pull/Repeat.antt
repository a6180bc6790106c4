-- ===== src/Federation/Pull/Repeat.antt =====
-- An event that comes again: crates/lethe-server/src/federation/pull.rs, `apply_post_event`.
use lethe_project.Prelude.{
  ℕ, ◌+◌, ◌≡◌, refl, sym, subst, ◌∙◌, ap, true, Bool-cases, inl, inr, Option, none, some, Bytes,
  same, arith, same_refl,
}
use lethe_project.Table.{any}
use lethe_project.Table.Rows.{any-append}
use lethe_project.Error.{Result, ok, err, DbError}
use lethe_project.Env.{Env, Clock}
use lethe_project.Db.{Db}
use lethe_project.Moderation.{Judge, Verdict, allow, reject, evaluate, log_reject}
use lethe_project.Threads
use lethe_project.Posts.Queries.{holds, has_origin, max_seq}
use lethe_project.Posts.Federated.{FederatedPost, insert_federated, federated_row}
use lethe_project.Federation.Wire.{PostEvent, PostEventFields}
use lethe_project.Federation.Events.{Calendar, DecodeError, verify_post_event}
use lethe_project.Federation.Pull.Ingest.{
  IngestError, apply_post_event, admit_post, store_post, store_in_thread, federated_post,
  admit_judged, admit_claimed, is_inserted, admit_verified,
}

-- The post is there already.
abbrev pub IsStored : Bytes → Bytes → Db → Type 0
IsStored origin id s = any (has_origin origin id) s.posts ≡ true

insert_again :
    (local_id : Bytes) (p : FederatedPost) (s : Db)
    → IsStored p.origin_server_id p.origin_post_id s
    → insert_federated local_id p s ≡ (ok none, s)
unfolding insert_federated
insert_again local_id p s h = rw h refl

row-origin :
    (local_id : Bytes) (seq : ℕ) (p : FederatedPost)
    → has_origin p.origin_server_id p.origin_post_id (federated_row local_id seq p) ≡ true
unfolding federated_row has_origin holds
row-origin local_id seq p = rw (same_refl p.origin_server_id, same_refl p.origin_post_id) refl

insert-IsStored :
    (local_id : Bytes) (p : FederatedPost) (s : Db) (r : Bytes × ℕ)
    → (insert_federated local_id p s).0 ≡ ok (some r)
    → IsStored p.origin_server_id p.origin_post_id (insert_federated local_id p s).1
unfolding insert_federated
insert-IsStored local_id p s r h =
    let seq = max_seq p.thread_id s.posts + 1 in
    let stored =
      any-append (has_origin p.origin_server_id p.origin_post_id) s.posts
        (federated_row local_id seq p) (row-origin local_id seq p) in
    ground arith

create-posts :
    (id board_id title : Bytes) (created_at : ℕ) (e : Option ℕ) (origin : Bytes) (today : ℕ)
    (s : Db)
    → (Threads.create id board_id title created_at e origin today s).1.posts ≡ s.posts
unfolding Threads.create
create-posts id board_id title created_at e origin today s = ground arith

ensure-posts :
    (id board_id title : Bytes) (created_at : ℕ) (origin : Bytes) (today : ℕ) (s : Db)
    → (Threads.ensure_for_federation id board_id title created_at origin today s).1.posts ≡ s.posts
unfolding Threads.ensure_for_federation
ensure-posts id board_id title created_at origin today s =
    ground (arith, create-posts id board_id title created_at none origin today s)

module _ (env : Env) (cal : Calendar) where
  module _ (clk : Clock) (judge : Judge) where
    is_inserted-some :
        (x : Result DbError (Option (Bytes × ℕ)) × Db)
        → (is_inserted env cal clk judge x).0 ≡ ok true
        → (r : Bytes × ℕ) × (x.0 ≡ ok (some r))
    is_inserted-some (ok none, s) h = ground arith
    is_inserted-some (ok (some r), s) h = (r, refl)
    is_inserted-some (err e, s) h = ground arith

    is_inserted-state :
        (x : Result DbError (Option (Bytes × ℕ)) × Db) → (is_inserted env cal clk judge x).1 ≡ x.1
    is_inserted-state (ok r, s) = refl
    is_inserted-state (err e, s) = refl

    store-IsStored :
        (local_id : Bytes) (d : PostEventFields) (x : Result DbError (Unit {0}) × Db)
        → (store_in_thread env cal clk judge local_id d x).0 ≡ ok true
        → IsStored d.origin_server_id d.origin_post_id
            (store_in_thread env cal clk judge local_id d x).1
    unfolding store_in_thread
    store-IsStored local_id d (err e, s) h = ground arith
    store-IsStored local_id d (ok u, s) h =
        let p = federated_post env cal clk judge d in
        let (r, k) = is_inserted-some (insert_federated local_id p s) h in
        subst (IsStored d.origin_server_id d.origin_post_id)
          (sym (is_inserted-state (insert_federated local_id p s)))
          (insert-IsStored local_id p s r k)

    store_again :
        (local_id : Bytes) (d : PostEventFields) (x : Result DbError (Unit {0}) × Db)
        → IsStored d.origin_server_id d.origin_post_id x.1
        → (store_in_thread env cal clk judge local_id d x).1 ≡ x.1
    unfolding store_in_thread
    store_again local_id d (err e, s) h = refl
    store_again local_id d (ok u, s) h =
        rw (insert_again local_id (federated_post env cal clk judge d) s h) refl

    judged-IsStored :
        (local_id action_id : Bytes) (d : PostEventFields) (v : Verdict) (s : Db)
        → (admit_judged env cal clk judge local_id action_id d v s).0 ≡ ok true
        → IsStored d.origin_server_id d.origin_post_id
            (admit_judged env cal clk judge local_id action_id d v s).1
    unfolding admit_judged store_post
    judged-IsStored local_id action_id d (reject reason) s h = ground arith
    judged-IsStored local_id action_id d allow s h = store-IsStored local_id d _ h

    judged_again :
        (local_id action_id : Bytes) (d : PostEventFields) (v : Verdict) (s : Db)
        → IsStored d.origin_server_id d.origin_post_id s
        → (admit_judged env cal clk judge local_id action_id d v s).1.posts ≡ s.posts
    unfolding admit_judged store_post log_reject
    judged_again local_id action_id d (reject reason) s h = refl
    judged_again local_id action_id d allow s h =
        let e =
          ensure-posts d.thread_id d.board_id d.thread_title d.created_at d.thread_origin_server_id
            clk.today s in
        ap (λ (t : Db). t.posts)
          (store_again local_id d _ (
            subst (λ ps. any (has_origin d.origin_server_id d.origin_post_id) ps ≡ true) (sym e) h))
        ∙ e

    post-IsStored :
        (local_id action_id : Bytes) (d : PostEventFields) (s : Db)
        → (admit_post env cal clk judge local_id action_id d s).0 ≡ ok true
        → IsStored d.origin_server_id d.origin_post_id
            (admit_post env cal clk judge local_id action_id d s).1
    unfolding admit_post
    post-IsStored local_id action_id d s h =
        let judged =
          judged-IsStored local_id action_id d (evaluate judge clk.now_ts d.board_id d.body s) s in
        ground arith

    post_again :
        (local_id action_id : Bytes) (d : PostEventFields) (s : Db)
        → IsStored d.origin_server_id d.origin_post_id s
        → (admit_post env cal clk judge local_id action_id d s).1.posts ≡ s.posts
    unfolding admit_post
    post_again local_id action_id d s h =
        let judged =
          judged_again local_id action_id d (evaluate judge clk.now_ts d.board_id d.body s) s h in
        ground arith

    verified-IsStored :
        (local_id action_id : Bytes) (r : Result DecodeError PostEventFields) (s : Db)
        → (admit_verified env cal clk judge local_id action_id r s).0 ≡ ok true
        → (d : PostEventFields) × ((r ≡ ok d)
            × IsStored d.origin_server_id d.origin_post_id
                (admit_verified env cal clk judge local_id action_id r s).1)
    verified-IsStored local_id action_id (ok d) s h =
        (d, (refl, post-IsStored local_id action_id d s h))
    verified-IsStored local_id action_id (err e) s h = ground arith

    verified_again :
        (local_id action_id : Bytes) (r : Result DecodeError PostEventFields) (d : PostEventFields)
        (s : Db)
        → r ≡ ok d
        → IsStored d.origin_server_id d.origin_post_id s
        → (admit_verified env cal clk judge local_id action_id r s).1.posts ≡ s.posts
    verified_again local_id action_id r d s h k = rw h (post_again local_id action_id d s k)

    claimed-IsStored :
        (local_id action_id : Bytes) (e : PostEvent) (signer self : Bytes)
        (c : Result IngestError Bytes) (s : Db)
        → (admit_claimed env cal clk judge local_id action_id e signer self c s).0 ≡ ok true
        → (d : PostEventFields) × ((verify_post_event env cal e signer ≡ ok d)
            × IsStored d.origin_server_id d.origin_post_id
                (admit_claimed env cal clk judge local_id action_id e signer self c s).1)
    unfolding admit_claimed
    claimed-IsStored local_id action_id e signer self (err x) s h = ground arith
    claimed-IsStored local_id action_id e signer self (ok c) s h = elim (Bool-cases (same c self)) [
      | inl t ↦ absurd (ground arith)
      | inr t ↦ rw t (
          verified-IsStored local_id action_id (verify_post_event env cal e signer) s
            (ground arith))
    ]

    claimed_again :
        (local_id action_id : Bytes) (e : PostEvent) (signer self : Bytes)
        (c : Result IngestError Bytes) (d : PostEventFields) (s : Db)
        → verify_post_event env cal e signer ≡ ok d
        → IsStored d.origin_server_id d.origin_post_id s
        → (admit_claimed env cal clk judge local_id action_id e signer self c s).1.posts ≡ s.posts
    unfolding admit_claimed
    claimed_again local_id action_id e signer self (err x) d s h k = refl
    claimed_again local_id action_id e signer self (ok c) d s h k =
        let v = verified_again local_id action_id (verify_post_event env cal e signer) d s h k in
        ground arith

  module _ (clk clk' : Clock) (judge judge' : Judge) where
    -- A post event that was accepted changes no post when it is applied again, whatever the ids, the clock and the
    -- moderation of the second time.
    pub apply_post_event-again :
        (e : PostEvent) (signer self local_id action_id local_id' action_id' : Bytes) (s : Db)
        → (apply_post_event env cal clk judge local_id action_id e signer self s).0 ≡ ok true
        → (apply_post_event env cal clk' judge' local_id' action_id' e signer self
            (apply_post_event env cal clk judge local_id action_id e signer self s).1).1.posts
          ≡ (apply_post_event env cal clk judge local_id action_id e signer self s).1.posts
    unfolding apply_post_event
    apply_post_event-again e signer self local_id action_id local_id' action_id' s h =
        let (d, (v, stored)) = claimed-IsStored clk judge local_id action_id e signer self _ s h in
        claimed_again clk' judge' local_id' action_id' e signer self _ d _ v stored
