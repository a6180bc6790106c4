-- ===== src/Rooms/Membership/Restricted.antt =====
-- What a restricted invite asks of a newcomer.
use lethe_project.Prelude.{ℕ, ◌≡◌, true, some, Option, String, List, Bytes, Text, arith, same}
use lethe_project.Action.{gets, or_fail, ◌>>=◌}
use lethe_project.Action.Steps.{bind-ok, or_fail-ok}
use lethe_project.Table.{any}
use lethe_project.Error.{ok, not_found}
use lethe_project.Env.{Env, Clock}
use lethe_project.Db.{Db, Room}
use lethe_project.Checks.{decode, decode_pubkey, decode_sig, check_window, checked}
use lethe_project.Crypto.{verify_join_proof}
use lethe_project.Nonces.{in_window}
use lethe_project.Rooms.Requests.{JoinRoomReq, JoinRoomResp}
use lethe_project.Rooms.Queries.{meta_by_invite}
use lethe_project.Rooms.Membership.{check_allowlist, join}

decode_pubkey-ok :
    (env : Env) (text : Text) (label : String) (v : Bytes) (s t : Db)
    → decode_pubkey env text label s ≡ (ok v, t)
    → (t ≡ s) × (env.unb64 text ≡ some v)
unfolding decode_pubkey ◌>>=◌
decode_pubkey-ok env text label v s t h = ground arith

decode_sig-ok :
    (env : Env) (text : Text) (label label' : String) (v : Bytes) (s t : Db)
    → decode_sig env text label label' s ≡ (ok v, t)
    → env.unb64 text ≡ some v
unfolding decode_sig decode ◌>>=◌
decode_sig-ok env text label label' v s t h = ground arith

module _ (env : Env) (clk : Clock) (invite_code : Text) (req : JoinRoomReq) where
  -- The proof that a request carries for a restricted invite, and that holds for the box key that joins
  pub record IsProved (allowlist : List Bytes) (box : Bytes) : Type 0 where
    pub key_b64 : Text
    pub sig_b64 : Text
    pub ts : ℕ
    pub key : Bytes
    pub sig : Bytes
    pub names_key : req.proof_thread_pubkey ≡ some key_b64
    pub has_sig : req.proof_sig ≡ some sig_b64
    pub has_ts : req.proof_ts ≡ some ts
    pub key_read : env.unb64 key_b64 ≡ some key
    pub sig_read : env.unb64 sig_b64 ≡ some sig
    pub listed : any (λ k. same k key) allowlist ≡ true
    pub fresh : in_window clk.now_ts ts ≡ true
    pub valid : verify_join_proof env key sig invite_code box ts ≡ ok tt

  -- Where the test of a restricted invite passes, the database is as before, the thread key that the
  -- request names is on the allowlist, its timestamp is in the window, and the signature of the
  -- invite code, the joining box key and the timestamp verifies under that thread key.
  check_allowlist_proves :
      (allowlist : List Bytes) (box key sig : Bytes) (key_b64 sig_b64 : Text) (ts : ℕ) (s s' : Db)
      → req.proof_thread_pubkey ≡ some key_b64
      → req.proof_sig ≡ some sig_b64
      → req.proof_ts ≡ some ts
      → env.unb64 key_b64 ≡ some key
      → env.unb64 sig_b64 ≡ some sig
      → check_allowlist env clk (some allowlist) invite_code box req s ≡ (ok tt, s')
      → (s' ≡ s)
        × (any (λ k. same k key) allowlist ≡ true)
        × (in_window clk.now_ts ts ≡ true)
        × (verify_join_proof env key sig invite_code box ts ≡ ok tt)
  unfolding check_allowlist decode decode_pubkey decode_sig check_window checked ◌>>=◌
  check_allowlist_proves allowlist box key sig key_b64 sig_b64 ts s s' h1 h2 h3 h4 h5 h =
      ground arith

  -- The step of `join` that tests the allowlist ran with the values of the invite and the request.
  join_passes :
      (meta meta' : Room) (allowlist : List Bytes) (box box' : Bytes) (found : Option Room)
      (t1 t2 t3 t4 t5 s : Db)
      → meta_by_invite invite_code s ≡ some meta
      → meta.allowlist_thread_pubkeys ≡ some allowlist
      → env.unb64 req.box_pubkey ≡ some box
      → t1 ≡ s
      → env.unb64 req.box_pubkey ≡ some box'
      → t2 ≡ t1
      → gets (meta_by_invite invite_code) t2 ≡ (ok found, t3)
      → t4 ≡ t3
      → found ≡ some meta'
      → check_allowlist env clk meta'.allowlist_thread_pubkeys invite_code box' req t4 ≡ (ok tt, t5)
      → check_allowlist env clk (some allowlist) invite_code box req t4 ≡ (ok tt, t5)
  unfolding gets
  join_passes meta meta' allowlist box box' found t1 t2 t3 t4 t5 s hm ha hb p1 q1 p2 e3 p4 q4 e5 =
      cc

  check_allowlist-IsProved :
      (allowlist : List Bytes) (box : Bytes) (s s' : Db)
      → check_allowlist env clk (some allowlist) invite_code box req s ≡ (ok tt, s')
      → IsProved allowlist box
  unfolding check_allowlist
  check_allowlist-IsProved allowlist box s s' h =
      let (key_b64, t1, e1, k1) = bind-ok (or_fail req.proof_thread_pubkey _) _ s tt s' h in
      let (ts, t2, e2, k2) = bind-ok (or_fail req.proof_ts _) _ t1 tt s' k1 in
      let (sig_b64, t3, e3, k3) = bind-ok (or_fail req.proof_sig _) _ t2 tt s' k2 in
      let (key, t4, e4, k4) = bind-ok (decode_pubkey env key_b64 _) _ t3 tt s' k3 in
      let (sig, t5, e5, k5) = bind-ok (decode_sig env sig_b64 _ _) _ t4 tt s' k4 in
      let (p1, q1) = or_fail-ok req.proof_thread_pubkey _ key_b64 s t1 e1 in
      let (p2, q2) = or_fail-ok req.proof_ts _ ts t1 t2 e2 in
      let (p3, q3) = or_fail-ok req.proof_sig _ sig_b64 t2 t3 e3 in
      let (p4, q4) = decode_pubkey-ok env key_b64 _ key t3 t4 e4 in
      let q5 = decode_sig-ok env sig_b64 _ _ sig t4 t5 e5 in
      let (kept, listed, fresh, valid) =
        check_allowlist_proves allowlist box key sig key_b64 sig_b64 ts s s' q1 q3 q2 q4 q5 h in
      record {
        key_b64 = key_b64;
        sig_b64 = sig_b64;
        ts = ts;
        key = key;
        sig = sig;
        names_key = q1;
        has_sig = q3;
        has_ts = q2;
        key_read = q4;
        sig_read = q5;
        listed = listed;
        fresh = fresh;
        valid = valid;
      }

  -- Where `join` succeeds by a restricted invite, the request carries a thread key, a timestamp and a signature that
  -- can be read, the thread key is on the allowlist of the invite, the timestamp is in the window, and the signature
  -- of the invite code, the joining box key and the timestamp verifies under that thread key.
  pub join_proves :
      (meta : Room) (allowlist : List Bytes) (box : Bytes) (resp : JoinRoomResp) (s s' : Db)
      → meta_by_invite invite_code s ≡ some meta
      → meta.allowlist_thread_pubkeys ≡ some allowlist
      → env.unb64 req.box_pubkey ≡ some box
      → join env clk invite_code req s ≡ (ok resp, s')
      → IsProved allowlist box
  unfolding join gets
  join_proves meta allowlist box resp s s' hm ha hb h =
      let (box', t1, e1, k1) =
        bind-ok (decode_pubkey env req.box_pubkey "box_pubkey") _ s resp s' h in
      let (sig', t2, e2, k2) =
        bind-ok (decode_pubkey env req.sig_pubkey "sig_pubkey") _ t1 resp s' k1 in
      let (found, t3, e3, k3) = bind-ok (gets (meta_by_invite invite_code)) _ t2 resp s' k2 in
      let (meta', t4, e4, k4) = bind-ok (or_fail found not_found) _ t3 resp s' k3 in
      let (u, t5, e5, k5) =
        bind-ok (check_allowlist env clk meta'.allowlist_thread_pubkeys invite_code box' req) _ t4
          resp s' k4 in
      let (p1, q1) = decode_pubkey-ok env req.box_pubkey "box_pubkey" box' s t1 e1 in
      let (p2, q2) = decode_pubkey-ok env req.sig_pubkey "sig_pubkey" sig' t1 t2 e2 in
      let (p4, q4) = or_fail-ok found not_found meta' t3 t4 e4 in
      check_allowlist-IsProved allowlist box t4 t5 (
        join_passes meta meta' allowlist box box' found t1 t2 t3 t4 t5 s hm ha hb p1 q1 p2 e3 p4 q4
          e5)
