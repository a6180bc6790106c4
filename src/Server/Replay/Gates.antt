-- ===== src/Server/Replay/Gates.antt =====
-- The two gates of a signed request, its window and its nonce, in a handler that goes on to other steps.
use lethe_project.Prelude.{
  ℕ, ◌≤◌, ◌<◌, ◌^◌, ◌≡◌, ◌≢◌, subst, true, some, Bool-cases, inl, inr, Bytes, Text, String, [], ◌∷◌,
  ◌++◌, arith,
}
use lethe_project.Table.{any}
use lethe_project.Error.{Result, ok, err, AppError}
use lethe_project.Action.{Action, ◌>>=◌, continue}
use lethe_project.Action.Ensures.{Ensures}
use lethe_project.Action.Keeps.{Keeps}
use lethe_project.Env.{Env, Clock}
use lethe_project.Db.{Db, Nonce}
use lethe_project.Checks.{decode, decode_pubkey, check_window, check_nonce}
use lethe_project.Nonces.{i64_mod, in_window, is_nonce, record_nonce}
use lethe_project.Nonces.Replay.Requests.{Accepted, IsKnown, IsKnown-accepted, IsKnown-window}
use lethe_project.Server.Replay.Known.{Known}

-- From a state where `P` holds `m` never succeeds.
pub record Bars {S A : Type 0} (P : S → Type 0) (m : Action S A) : Type 0 where
  pub at : (s : S) → P s → (a : A) → (m s).0 ≢ ok a

module _ {S A B : Type 0} {P : S → Type 0} where
  continue-Bars :
      (f : A → Action S B) (r : Result AppError A) (s : S)
      → ((a : A) → Bars P (f a))
      → P s
      → (b : B) → (continue f r s).0 ≢ ok b
  continue-Bars f (ok a) s k h b e = (k a).at s h b e
  continue-Bars f (err x) s k h b e = ground arith

  pub Bars-bind :
      (m : Action S A) (f : A → Action S B)
      → Keeps P m
      → ((a : A) → Bars P (f a))
      → Bars P (m >>= f)
  unfolding ◌>>=◌
  Bars-bind m f kept k = record {
    at = λ s h b e. let (r, t) = m s in continue-Bars f r t k (kept.at s h) b e;
  }

module _ {B : Type 0} {P : Db → Type 0} (env : Env) (t : Text) (v : Bytes) where
  pub Bars-decode :
      (l : String) (f : Bytes → Action Db B)
      → env.unb64 t ≡ some v
      → Bars P (f v)
      → Bars P (decode env t l >>= f)
  unfolding decode ◌>>=◌
  Bars-decode l f h k = record { at = λ s p b e. k.at s p b (ground arith) }

  pub Bars-decode_pubkey :
      (l : String) (f : Bytes → Action Db B)
      → env.unb64 t ≡ some v
      → Bars P (f v)
      → Bars P (decode_pubkey env t l >>= f)
  unfolding decode_pubkey ◌>>=◌
  Bars-decode_pubkey l f h k = record { at = λ s p b e. k.at s p b (ground arith) }

module _ {B : Type 0} (clk : Clock) (kind : Text) (pk : Bytes) (ts : ℕ) where
  pub Ensures-window :
      {Q : B → Db → Type 0} (l : String) (f : Unit {0} → Action Db B)
      → (in_window clk.now_ts ts ≡ true → Ensures Q (f tt))
      → Ensures Q (check_window clk ts l >>= f)
  unfolding check_window ◌>>=◌
  Ensures-window l f k = elim (Bool-cases (in_window clk.now_ts ts)) [
    | inl t ↦ record { at = λ s b s' h. (k t).at s b s' (ground arith) }
    | inr t ↦ record { at = λ s b s' h. ground arith }
  ]

  pub Bars-window :
      {P : Db → Type 0} (l : String) (f : Unit {0} → Action Db B)
      → (in_window clk.now_ts ts ≡ true → Bars P (f tt))
      → Bars P (check_window clk ts l >>= f)
  unfolding check_window ◌>>=◌
  Bars-window l f k = elim (Bool-cases (in_window clk.now_ts ts)) [
    | inl t ↦ record { at = λ s p b e. (k t).at s p b (ground arith) }
    | inr t ↦ record { at = λ s p b e. ground arith }
  ]

  -- A request that gets past its nonce is known, and what follows keeps it so.
  pub Ensures-nonce :
      (f : Unit {0} → Action Db B)
      → 60 ≤ clk.now_ts
      → clk.now_ts < 2 ^ 62
      → ts < i64_mod
      → in_window clk.now_ts ts ≡ true
      → Keeps
          (Known (record { kind = kind; sig_pubkey = pk; ts = ts; at = clk.now_ts }) clk.now_ts)
          (f tt)
      → Ensures
          (λ b s.
            Known (record { kind = kind; sig_pubkey = pk; ts = ts; at = clk.now_ts }) clk.now_ts s)
          (check_nonce clk kind pk ts >>= f)
  unfolding check_nonce record_nonce ◌>>=◌
  Ensures-nonce f lo hi r w kept = record {
    at = λ s b s' h. elim (Bool-cases (any (is_nonce kind pk ts) s.request_nonces)) [
      | inl t ↦ ground arith
      | inr t ↦
          let row : Nonce = record {
            kind = kind;
            sig_pubkey = pk;
            ts = ts;
            seen_at = clk.now_ts;
          } in
          let grown : Db = record s { request_nonces = s.request_nonces ++ row ∷ [] } in
          let done : f tt grown ≡ (ok b, s') = ground arith in
          let there =
            kept.at grown (IsKnown-accepted kind pk ts clk.now_ts s.request_nonces lo hi r w) in
          subst
            (λ (x : Result AppError B × Db).
              IsKnown clk.now_ts x.1.request_nonces
                (record { kind = kind; sig_pubkey = pk; ts = ts; at = clk.now_ts }))
            done there
    ];
  }

  -- A known request does not get past its nonce.
  pub Bars-nonce :
      (a : Accepted) (f : Unit {0} → Action Db B)
      → kind ≡ a.kind
      → pk ≡ a.sig_pubkey
      → ts ≡ a.ts
      → clk.now_ts < 2 ^ 62
      → in_window clk.now_ts ts ≡ true
      → Bars (Known a clk.now_ts) (check_nonce clk kind pk ts >>= f)
  unfolding check_nonce record_nonce ◌>>=◌
  Bars-nonce a f ek ep et hi w = record {
    at = λ s k b e.
        let there =
          IsKnown-window clk.now_ts s.request_nonces a hi
            (subst (λ x. in_window clk.now_ts x ≡ true) et w) k in
        let found : any (is_nonce kind pk ts) s.request_nonces ≡ true = rw (ek, ep, et) there in
        ground arith;
  }
