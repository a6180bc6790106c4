-- ===== src/Server/Moves/Writing.antt =====
-- `create_post` and `create_thread` of crates/lethe-server/src/logic/posts.rs, and the tables that they leave alone.
use lethe_project.Prelude.{
  ℕ, ◌≡◌, refl, subst, sym, is_some, arith, Bytes, Text, Option, none, some,
}
use lethe_project.Error.{
  Result, ok, err, DbError, bad_request, database, row_not_found, column_decode, protocol,
}
use lethe_project.Action.{guard, modify, pure, fail, ◌>>◌}
use lethe_project.Action.Keeps.{Keeps, Keeps-bind, Keeps-guard, Keeps-pure, Keeps-fail, Keeps-gets}
use lethe_project.Checks.Keeps.{check_rules}
use lethe_project.Env.{Env, Clock}
use lethe_project.Db.{Db, Date}
use lethe_project.Threads
use lethe_project.Moderation.{Verdict, allow, reject, log_reject}
use lethe_project.Posts.Requests.{CreateThreadReq, CreatePostReq}
use lethe_project.Posts.Writing.{
  Posting, reason_static, moderate, first_seq, decode_thread_id, expiry, create_error, create_post,
  create_thread,
}
use lethe_project.Server.Moves.{Aside, Aside-trans}
use lethe_project.Posts.Writing.Keeps.{signature-Keeps, check_vouch-Keeps}
use lethe_project.Server.Moves.Posting.{onward, insert-Keeps, first_seq-Keeps}

module _ (s : Db) (env : Env) (clk : Clock) (io : Posting) where
  verdict-Keeps :
      (board : Text) (body : Text) (v : Verdict)
      → Keeps (Aside s) (elim v [
        | allow ↦ pure tt
        | reject reason ↦
            modify (λ s. (tt, log_reject env clk io.action_id (some board) body reason s))
            >> fail (bad_request (reason_static reason))
      ])
  verdict-Keeps board body allow = search check_rules
  verdict-Keeps board body (reject reason) =
      Keeps-bind _ _
        (onward s (λ t. (tt, log_reject env clk io.action_id (some board) body reason t))
          λ t.
            unfold log_reject in
            record {
              tables = record { rooms = refl; members = refl; rosters = refl };
              nonces = refl;
            })
        λ u. Keeps-fail _

  moderate-Keeps : (board body : Text) → Keeps (Aside s) (moderate env clk io board body)
  unfolding moderate
  moderate-Keeps board body = Keeps-bind _ _ (Keeps-gets _) λ v. verdict-Keeps board body v

  seq-Keeps :
      (thread : Bytes) (pk : Option Bytes) → Keeps (Aside s) (first_seq env clk io thread pk)
  unfolding first_seq
  seq-Keeps thread none = search check_rules
  seq-Keeps thread (some pk) = first_seq-Keeps s thread pk

  pub create_post-Keeps :
      (thread : Text) (req : CreatePostReq) → Keeps (Aside s) (create_post env clk io thread req)
  unfolding create_post
  create_post-Keeps thread req =
      let claim = Keeps-pure {P = Aside s} tt in
      let signed = λ (t : Bytes).
        signature-Keeps env clk io (pure tt) t req.body req.pubkey req.signature claim in
      let vouched =
        λ (t : Bytes). check_vouch-Keeps env clk io (pure tt) req.vouch t req.body claim in
      search (check_rules, moderate-Keeps, signed, vouched, insert-Keeps s, seq-Keeps) depth 60

  thread_id-Keeps : (t : Option Text) → Keeps (Aside s) (decode_thread_id env clk io t)
  unfolding decode_thread_id
  thread_id-Keeps none = search check_rules
  thread_id-Keeps (some t) = search check_rules

  expiry-Keeps : (d : Option ℕ) → Keeps (Aside s) (expiry env clk io d)
  unfolding expiry
  expiry-Keeps none = search check_rules
  expiry-Keeps (some d) = search check_rules

  create_error-snd : (r : Result DbError (Unit {0}) × Db) → (create_error env clk io r).1 ≡ r.1
  unfolding create_error
  create_error-snd (ok u, t) = refl
  create_error-snd (err (database c), t) = refl
  create_error-snd (err row_not_found, t) = refl
  create_error-snd (err column_decode, t) = refl
  create_error-snd (err (protocol m), t) = refl

  threads-Keeps :
      (id : Bytes) (board title : Text) (day : Date) (e : Option Date) (origin : Bytes)
      (today : Date)
      → Keeps
          (Aside s)
          (λ t. create_error env clk io (Threads.create id board title day e origin today t))
  unfolding Threads.create
  threads-Keeps id board title day e origin today = record {
    at = λ t h.
        subst (Aside s)
          (sym (create_error-snd (Threads.create id board title day e origin today t)))
          (Aside-trans h (record {
            tables = record {
              rooms = ground arith;
              members = ground arith;
              rosters = ground arith;
            };
            nonces = ground arith;
          }));
  }

  pub create_thread-Keeps : (req : CreateThreadReq) → Keeps (Aside s) (create_thread env clk io req)
  unfolding create_thread
  create_thread-Keeps req =
      let signed = λ (t : Bytes).
        signature-Keeps {P = Aside s} env clk io
          (guard (is_some req.thread_id)
            (bad_request "thread_id required when claiming OP identity"))
          t req.body req.pubkey req.signature (Keeps-guard _ _) in
      let vouched = λ (t : Bytes).
        check_vouch-Keeps {P = Aside s} env clk io
          (guard (is_some req.thread_id) (bad_request "thread_id required when vouching")) req.vouch
          t req.body (Keeps-guard _ _) in
      search
        (
          check_rules,
          moderate-Keeps,
          thread_id-Keeps,
          signed,
          vouched,
          expiry-Keeps,
          threads-Keeps,
          insert-Keeps s,
        )
        depth 60
