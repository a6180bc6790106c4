-- ===== src/Server/Replay/Known.antt =====
-- The nonces of accepted requests under the moves of the server: db/nonces.rs of crates/lethe-server/src.
use lethe_project.Prelude.{
  ℕ, ◌-◌, ◌≤◌, ◌≡◌, refl, false, sym, subst, arith, Bool-cases, inl, inr, Bytes, Text, List, ◌&&◌,
}
use lethe_project.Table.{any}
use lethe_project.Env.{Env, Clock}
use lethe_project.Db.{Db, Date, Nonce}
use lethe_project.Nonces.{record_nonce, is_nonce, prune_older_than}
use lethe_project.Nonces.Replay.Requests.{
  Accepted, IsKnown, IsKnown-tick, IsKnown-prune, IsKnown-append,
}
use lethe_project.Retention
use lethe_project.Retention.Sweep.{run_once-blocked}
use lethe_project.Retention.{is_thread_due, is_referenced}
use lethe_project.Rooms.Queries
use lethe_project.Rooms.Queries.{NewRoom, add_member, soft_remove_by_sig, grant_wrap, insert_roster}
use lethe_project.Rooms.Rekey
use lethe_project.Rooms.Rekey.{Wrap}
use lethe_project.Rooms.Messages.{NewMessage, insert_message}
use lethe_project.Rooms.Calls.Stable.{Stable}
use lethe_project.Server.Invariants.{Steady, move-kept}
use lethe_project.Rooms.Invariants.Frames.{rekey-cases}
use lethe_project.Server.Moves.{Aside}
use lethe_project.Server.Replay.{Course, here, next}

module _ (s : Db) where
  nonces-create :
      (id : Bytes) (r : NewRoom) → (Queries.create id r s).1.request_nonces ≡ s.request_nonces
  unfolding Queries.create
  nonces-create id r = ground arith

  nonces-add :
      (r b sig : Bytes) (today : Date)
      → (add_member r b sig today s).1.request_nonces ≡ s.request_nonces
  unfolding add_member
  nonces-add r b sig today = ground arith

  nonces-leave :
      (r sig : Bytes) (today : Date)
      → (soft_remove_by_sig r sig today s).1.request_nonces ≡ s.request_nonces
  unfolding soft_remove_by_sig
  nonces-leave r sig today = refl

  nonces-grant : (r b w i : Bytes) → (grant_wrap r b w i s).1.request_nonces ≡ s.request_nonces
  unfolding grant_wrap
  nonces-grant r b w i = ground arith

  nonces-roster :
      (r : Bytes) (e : ℕ) (ring : List Bytes) (sig : Bytes) (today : Date)
      → (insert_roster r e ring sig today s).1.request_nonces ≡ s.request_nonces
  unfolding insert_roster
  nonces-roster r e ring sig today = ground arith

  nonces-rekey :
      (r b : Bytes) (wraps : List Wrap) (today : Date)
      → (Rekey.remove_and_rekey r b wraps today s).1.request_nonces ≡ s.request_nonces
  nonces-rekey r b wraps today =
      rekey-cases r b wraps today s (λ t. t.request_nonces ≡ s.request_nonces) refl refl

  nonces-message :
      (id : Bytes) (m : NewMessage) → (insert_message id m s).1.request_nonces ≡ s.request_nonces
  unfolding insert_message
  nonces-message id m = ground arith

module _ (a : Accepted) (now : ℕ) where
  abbrev pub Known : Db → Type 0
  Known s = IsKnown now s.request_nonces a

  same_nonces : {rows rows' : List Nonce} → rows' ≡ rows → IsKnown now rows a → IsKnown now rows' a
  same_nonces e k = subst (λ rs. IsKnown now rs a) (sym e) k

  nonce-Known :
      (at : ℕ) (kind : Text) (pk : Bytes) (ts : ℕ) (s : Db)
      → Known s
      → Known (record_nonce at kind pk ts s).1
  unfolding record_nonce
  nonce-Known at kind pk ts s k = elim (Bool-cases (any (is_nonce kind pk ts) s.request_nonces)) [
    | inl t ↦ rw t k
    | inr f ↦
        let row : Nonce = record { kind = kind; sig_pubkey = pk; ts = ts; seen_at = at } in
        rw f (IsKnown-append now s.request_nonces row a k)
  ]

  pub Known-stable : Stable Known
  Known-stable = record {
    on_nonce = nonce-Known;
    on_create = λ id r s k. same_nonces (nonces-create s id r) k;
    on_add = λ r b sig today s _ k. same_nonces (nonces-add s r b sig today) k;
    on_leave = λ r sig today s k. same_nonces (nonces-leave s r sig today) k;
    on_grant = λ r b w i s k. same_nonces (nonces-grant s r b w i) k;
    on_roster = λ r e ring sig today s k. same_nonces (nonces-roster s r e ring sig today) k;
    on_rekey = λ r b wraps today s k. same_nonces (nonces-rekey s r b wraps today) k;
    on_message = λ id m s k. same_nonces (nonces-message s id m) k;
  }

  pub Known-others : (s t : Db) → Aside s t → Known s → Known t
  Known-others s t h k = same_nonces h.nonces k

-- The sweep prunes by the clock of its move.
module _ (a : Accepted) (clk : Clock) where
  pruned :
      (s : Db)
      → any (λ t. is_thread_due clk.today s.boards t && is_referenced s t) s.threads ≡ false
      → (Retention.run_once clk.now_ts clk.today s).1.request_nonces
        ≡ (prune_older_than clk.now_ts 600 s).1.request_nonces
  unfolding Retention.run_once Retention.delete_threads Retention.sweep_rest
      Retention.delete_messages prune_older_than
  pruned s h = ground arith

  sweep-Known :
      (s : Db)
      → Known a clk.now_ts s
      → Known a clk.now_ts (Retention.run_once clk.now_ts clk.today s).1
  unfolding prune_older_than
  sweep-Known s k =
      elim (Bool-cases
        (any (λ t. is_thread_due clk.today s.boards t && is_referenced s t) s.threads)) [
          | inl t ↦ rw (run_once-blocked clk.now_ts clk.today s t) k
          | inr f ↦
              same_nonces a clk.now_ts (pruned s f) (IsKnown-prune clk.now_ts s.request_nonces a k)
        ]

  Known-steady : Steady clk (Known a clk.now_ts)
  Known-steady = record {
    calls = Known-stable a clk.now_ts;
    others = Known-others a clk.now_ts;
    on_sweep = sweep-Known;
  }

  pub later-Known : (n : ℕ) (s : Db) → n ≤ clk.now_ts → Known a n s → Known a clk.now_ts s
  later-Known n s h k =
      subst (λ x. IsKnown x s.request_nonces a) (omega arith)
        (IsKnown-tick n (clk.now_ts - n) s.request_nonces a k)

-- Where a request is known, it is known after any further moves.
pub Course-Known :
    (a : Accepted) (env : Env) (start : ℕ) (s : Db) (n : ℕ) (t : Db)
    → Course env start s n t
    → Known a start s
    → Known a n t
Course-Known a env start s n t here k = k
Course-Known a env start s _ _ (next {n = n} {t = t} c clk m h) k =
    move-kept env clk (Known-steady a clk) m t
      (later-Known a clk n t h (Course-Known a env start s n t c k))
