-- ===== src/Posts/Writing/Stored.antt =====
-- What `create_post` of crates/lethe-server/src/logic/posts.rs stores.
use lethe_project.Prelude.{
  ℕ, ◌≡◌, refl, ◌∙◌, ap, sym, subst, true, Bool, Option, none, some, [], ◌∷◌, ◌++◌, Bytes, Text,
  arith, String,
}
use lethe_project.Table.{any}
use lethe_project.Action.{Action, pure, fail, gets, modify, ◌>>=◌, ◌>>◌}
use lethe_project.Action.Keeps.{
  Keeps, Keeps-bind, Keeps-guard, Keeps-gets, Keeps-or_fail, Keeps-pure, Keeps-fail, Keeps-modify,
}
use lethe_project.Action.Steps.{Runs, Runs-bind, bind-ok, guard-ok, or_fail-ok, pure-ok}
use lethe_project.Checks.{checked, decode, statement}
use lethe_project.Checks.Keeps.{Keeps-decode}
use lethe_project.Crypto.{Checked, verify_post_signature}
use lethe_project.Error.{ok, err, bad_request}
use lethe_project.Env.{Env, Clock}
use lethe_project.Db.{Db, Post}
use lethe_project.Moderation.{Verdict, allow, reject, log_reject}
use lethe_project.Pow
use lethe_project.Threads
use lethe_project.Posts.Queries.{NewPost, insert, post_row, signer_first_seq}
use lethe_project.Posts.Requests.{CreatePostReq, CreatePostResp}
use lethe_project.Posts.Writing.{
  Posting, is_within, max_body, reason_static, moderate, check_signature, check_vouch, first_seq,
  create_post,
}
use lethe_project.Posts.Writing.Keeps.{signature-Keeps, check_vouch-Keeps}

-- A row that any reader can check again: no key and no signature, or both and the signature of its thread and body
-- verifies.
pub data IsAuthentic (env : Env) (thread_id : Bytes) (body : Text)
    : Option Bytes → Option Bytes → Type 0 where
  anonymous : IsAuthentic env thread_id body none none
  keyed :
      (pk sig : Bytes)
      → verify_post_signature env pk sig thread_id body ≡ ok tt
      → IsAuthentic env thread_id body (some pk) (some sig)

-- The posts after a post was created, with its row at the end
pub record IsCreated (env : Env) (clk : Clock) (io : Posting) (thread : Text) (req : CreatePostReq)
    (s : Db) (resp : CreatePostResp) (s' : Db) : Type 0 where
  pub row : Post
  pub posts : s'.posts ≡ s.posts ++ row ∷ []
  pub there : Threads.exists row.thread_id s ≡ true
  pub bounded : is_within max_body row.body ≡ true
  pub work : Pow.verify env row.thread_id row.body row.pow_nonce io.pow_bits ≡ true
  pub authentic : IsAuthentic env row.thread_id row.body row.pubkey row.signature
  pub named : env.unb64 thread ≡ some row.thread_id
  pub body : row.body ≡ req.body
  pub day : row.created_at ≡ clk.today
  pub number : resp.seq ≡ row.seq
  pub id : resp.post_id ≡ env.b64 row.id

checked-ok : (c : Checked) (s t : Db) (u : Unit {0}) → checked c s ≡ (ok u, t) → c ≡ ok tt
unfolding checked
checked-ok (ok u) s t v h = refl
checked-ok (err e) s t v h = ground arith

module _ (env : Env) (clk : Clock) (io : Posting) (s : Db) where
  -- What the checks of a post leave alone
  record SamePosts (t : Db) : Type 0 where
    posts : t.posts ≡ s.posts
    threads : t.threads ≡ s.threads

  abbrev IsSigned : Bytes → Text → Option Bytes × Option Bytes → Type 0
  IsSigned thread_id body signed = IsAuthentic env thread_id body (signed.0) (signed.1)

  signature-IsSigned :
      (thread_id : Bytes) (body : Text) (pk_b64 sig_b64 : Option Text) (x t : Db)
      (out : Option Bytes × Option Bytes)
      → check_signature env clk io (pure tt) thread_id body pk_b64 sig_b64 x ≡ (ok out, t)
      → IsSigned thread_id body out
  unfolding check_signature fail
  signature-IsSigned thread_id body none none x t out h =
      subst (IsSigned thread_id body) (pure-ok (none, none) out x t h) anonymous
  signature-IsSigned thread_id body (some a) (some b) x t out h =
      let (u, t1, e1, k1) = bind-ok (pure tt) _ x out t h in
      let (pk, t2, e2, k2) = bind-ok (decode env a _) _ t1 out t k1 in
      let (sig, t3, e3, k3) = bind-ok (decode env b _) _ t2 out t k2 in
      let (v, t4, e4, k4) =
        bind-ok (checked (verify_post_signature env pk sig thread_id body)) _ t3 out t k3 in
      subst (IsSigned thread_id body) (pure-ok (some pk, some sig) out t4 t k4)
        (keyed pk sig (checked-ok (verify_post_signature env pk sig thread_id body) t3 t4 v e4))
  signature-IsSigned thread_id body (some a) none x t out h = ground arith
  signature-IsSigned thread_id body none (some b) x t out h = ground arith

  verdict-Keeps :
      (board : Text) (body : Text) (v : Verdict)
      → Keeps SamePosts (elim v [
        | allow ↦ pure tt
        | reject reason ↦
            modify (λ s. (tt, log_reject env clk io.action_id (some board) body reason s))
            >> fail (bad_request (reason_static reason))
      ])
  verdict-Keeps board body allow = Keeps-pure _
  verdict-Keeps board body (reject reason) =
      Keeps-bind _ _
        (Keeps-modify (λ t. (tt, log_reject env clk io.action_id (some board) body reason t))
          λ t h. unfold log_reject in record { posts = h.posts; threads = h.threads })
        λ u. Keeps-fail _

  moderate-Keeps : (board body : Text) → Keeps SamePosts (moderate env clk io board body)
  unfolding moderate
  moderate-Keeps board body = Keeps-bind _ _ (Keeps-gets _) λ v. verdict-Keeps board body v

  insert-ok :
      (new : NewPost) (ins : Bytes × ℕ) (x t : Db)
      → statement (insert io.post_id new) x ≡ (ok ins, t)
      → (t.posts ≡ x.posts ++ post_row io.post_id (ins.1) new ∷ []) × (ins.0 ≡ io.post_id)
  unfolding statement insert
  insert-ok new ins x t h = ground arith

  first_seq-state :
      (thread_id : Bytes) (pk : Option Bytes) (f : Option ℕ) (x t : Db)
      → first_seq env clk io thread_id pk x ≡ (ok f, t)
      → t ≡ x
  unfolding first_seq statement signer_first_seq pure
  first_seq-state thread_id none f x t h = ground arith
  first_seq-state thread_id (some pk) f x t h = ground arith

  decode-ok :
      (t : Text) (label : String) (v : Bytes) (x y : Db)
      → decode env t label x ≡ (ok v, y)
      → env.unb64 t ≡ some v
  unfolding decode
  decode-ok t label v x y h = let (p, e) = or_fail-ok _ _ v x y h in e

  gets-exists :
      (thread_id : Bytes) (b : Bool) (x t : Db)
      → SamePosts x
      → gets (Threads.exists thread_id) x ≡ (ok b, t)
      → Threads.exists thread_id s ≡ b
  unfolding gets Threads.exists
  gets-exists thread_id b x t p h =
      ap (any (Threads.is_thread thread_id)) (sym p.threads) ∙ ground arith

  module _ (thread : Text) (req : CreatePostReq) where
    -- The checks that a row has passed, before it is written
    record IsChecked (new : NewPost) : Type 0 where
      named : env.unb64 thread ≡ some new.thread_id
      there : Threads.exists new.thread_id s ≡ true
      bounded : is_within max_body new.body ≡ true
      work : Pow.verify env new.thread_id new.body new.pow_nonce io.pow_bits ≡ true
      authentic : IsAuthentic env new.thread_id new.body new.pubkey new.signature
      body : new.body ≡ req.body
      day : new.created_at ≡ clk.today

    abbrev write : NewPost → Action Db CreatePostResp
    write new = do
      inserted ← statement (insert io.post_id new)
      first ← first_seq env clk io new.thread_id new.pubkey
      pure (record { post_id = env.b64 inserted.0; seq = inserted.1; signer_first_seq = first })

    write-Runs :
        (new : NewPost)
        → IsChecked new
        → Runs SamePosts (IsCreated env clk io thread req s) (write new)
    unfolding post_row pure
    write-Runs new ch = record {
      at = λ x resp t p h.
          (let (ins, t1, e1, k1) = bind-ok (statement (insert io.post_id new)) _ x resp t h in
            let (seq, t2, e2, k2) =
              bind-ok (first_seq env clk io new.thread_id new.pubkey) _ t1 resp t k1 in
            let (posts, is_id) = insert-ok new ins x t1 e1 in
            let same_state = first_seq-state new.thread_id new.pubkey seq t1 t2 e2 in
            let answer = pure-ok _ resp t2 t k2 in
            let last : t ≡ t2 = sym (ap (λ r. r.1) k2) in
            record {
              row = post_row io.post_id (ins.1) new;
              posts =
                  ap (λ (d : Db). d.posts) (last ∙ same_state)
                  ∙ posts
                  ∙ ap (λ ps. ps ++ post_row io.post_id (ins.1) new ∷ []) p.posts;
              named = ch.named;
              there = ch.there;
              bounded = ch.bounded;
              work = ch.work;
              authentic = ch.authentic;
              body = ch.body;
              day = ch.day;
              number = sym (ap (λ (r : CreatePostResp). r.seq) answer);
              id = sym (ap (λ (r : CreatePostResp). r.post_id) answer) ∙ ap env.b64 is_id;
            });
    }

    abbrev new_post : Bytes → Bytes → Option Bytes × Option Bytes → Option (Text × Bytes) → NewPost
    new_post id nonce author vouch = record {
      thread_id = id;
      body = req.body;
      pow_nonce = nonce;
      pubkey = author.0;
      signature = author.1;
      created_at = clk.today;
      origin_server_id = io.server_pubkey;
      vouch = vouch;
    }

    -- What `create_post` does after the test of the work
    abbrev judged : Bytes → Bytes → Text → Action Db CreatePostResp
    judged id nonce board = do
      moderate env clk io board req.body
      author ← check_signature env clk io (pure tt) id req.body req.pubkey req.signature
      vouch ← check_vouch env clk io (pure tt) req.vouch id req.body
      write (new_post id nonce author vouch)

    checked-Runs :
        (id nonce : Bytes) (board : Text)
        → env.unb64 thread ≡ some id
        → Threads.exists id s ≡ true
        → is_within max_body req.body ≡ true
        → Pow.verify env id req.body nonce io.pow_bits ≡ true
        → Runs SamePosts (IsCreated env clk io thread req s) (judged id nonce board)
    checked-Runs id nonce board is_id there bounded work =
        Runs-bind (λ u. Unit {0}) _ _ (moderate-Keeps board req.body) (λ x u t p h. tt)
          λ u v1.
            Runs-bind (IsSigned id req.body) _ _
              (signature-Keeps env clk io (pure tt) id req.body req.pubkey req.signature
                (Keeps-pure tt))
              (λ x out t p. signature-IsSigned id req.body req.pubkey req.signature x t out)
              λ out authentic.
                Runs-bind (λ v. Unit {0}) _ _
                  (check_vouch-Keeps env clk io (pure tt) req.vouch id req.body (Keeps-pure tt))
                  (λ x v t p h. tt)
                  λ vouch v2. write-Runs (new_post id nonce out vouch) (record {
                    named = is_id;
                    there = there;
                    bounded = bounded;
                    work = work;
                    authentic = authentic;
                    body = refl;
                    day = refl;
                  })

    create_post-Runs :
        Runs SamePosts (IsCreated env clk io thread req s) (create_post env clk io thread req)
    unfolding create_post
    create_post-Runs =
        Runs-bind (λ u. is_within max_body req.body ≡ true) _ _ (Keeps-guard _ _)
          (λ x u t p. guard-ok _ _ x u t)
          λ u1 bounded.
            Runs-bind (λ id. env.unb64 thread ≡ some id) _ _ (Keeps-decode env thread _)
              (λ x id t p. decode-ok thread _ id x t)
              λ id is_id.
                Runs-bind (λ b. Threads.exists id s ≡ b) _ _ (Keeps-gets _)
                  (λ x b t. gets-exists id b x t)
                  λ b is_b.
                    Runs-bind (λ u. b ≡ true) _ _ (Keeps-guard _ _) (λ x u t p. guard-ok _ _ x u t)
                      λ u2 is_there.
                        Runs-bind (λ n. Unit {0}) _ _ (Keeps-decode env req.pow_nonce _)
                          (λ x n t p h. tt)
                          λ nonce v1.
                            Runs-bind (λ u. Pow.verify env id req.body nonce io.pow_bits ≡ true) _ _
                              (Keeps-guard _ _) (λ x u t p. guard-ok _ _ x u t)
                              λ u3 work.
                                Runs-bind (λ f. Unit {0}) _ _ (Keeps-gets _) (λ x f t p h. tt)
                                  λ found v2.
                                    Runs-bind (λ f. Unit {0}) _ _ (Keeps-or_fail found _)
                                      (λ x f t p h. tt)
                                      λ board v3.
                                        checked-Runs id nonce board is_id (is_b ∙ is_there) bounded
                                          work

module _ (env : Env) (clk : Clock) (io : Posting) (thread : Text) (req : CreatePostReq) where
  -- Where `create_post` succeeds, the posts are the earlier ones and then one row. It is in the thread that the
  -- request names, which exists, has the body of the request, within its bound, a nonce with the work that is asked
  -- for over that thread and body, and either no key and no signature or a key under which its signature of that
  -- thread and body verifies; its day is the day of the clock, and the answer has its number and its id.
  pub create_post_stores :
      (resp : CreatePostResp) (s s' : Db)
      → create_post env clk io thread req s ≡ (ok resp, s')
      → IsCreated env clk io thread req s resp s'
  create_post_stores resp s s' h =
      (create_post-Runs env clk io s thread req).at s resp s'
        (record { posts = refl; threads = refl }) h
