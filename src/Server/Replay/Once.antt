-- ===== src/Server/Replay/Once.antt =====
-- A request with a recorded nonce that comes again: crates/lethe-server/src/lib.rs, the endpoints and the workers together.
use lethe_project.Prelude.{ℕ, ◌≤◌, ◌<◌, ◌^◌, ◌≡◌, ◌≢◌, refl, true, false, some, Bytes, arith}
use lethe_project.Error.{Result, ok, err, AppError}
use lethe_project.Action.{Action}
use lethe_project.Action.Ensures.{Ensures}
use lethe_project.Env.{Env, Clock}
use lethe_project.Db.{Db}
use lethe_project.Nonces.{i64_mod}
use lethe_project.Nonces.Replay.Requests.{Accepted}
use lethe_project.Server.Replay.{
  Course, here, next, Nonced, create, leave, wrap, members, list_messages, remove, delete_post,
  kind, signer, timestamp, verdict, accept,
}
use lethe_project.Server.Replay.Known.{Known, Course-Known, later-Known}
use lethe_project.Server.Replay.Gates.{Bars}
use lethe_project.Server.Replay.Handlers.{
  taken, leave-Known, leave-Bars, wrap-Known, wrap-Bars, members-Known, members-Bars, list-Known,
  list-Bars,
}
use lethe_project.Server.Replay.Handlers.Writers.{
  remove-Known, remove-Bars, create-Known, create-Bars, delete-Known, delete-Bars,
}

verdict-ok :
    {A : Type 0} (x : Result AppError A × Db)
    → (verdict x).0 ≡ true
    → (a : A) × (x ≡ (ok a, (verdict x).1))
verdict-ok (ok a, s) h = (a, refl)
verdict-ok (err e, s) h = ground arith

module _ {A : Type 0} {P : Db → Type 0} (m : Action Db A) where
  verdict-holds : Ensures (λ a s. P s) m → (s : Db) → (verdict (m s)).0 ≡ true → P (verdict (m s)).1
  verdict-holds q s h = let (a, e) = verdict-ok (m s) h in q.at s a (verdict (m s)).1 e

  verdict-barred : Bars P m → (s : Db) → P s → (verdict (m s)).0 ≡ false
  verdict-barred b s p = refused (m s) (b.at s p)
    where
      refused : (x : Result AppError A × Db) → ((a : A) → x.0 ≢ ok a) → (verdict x).0 ≡ false
      refused (ok a, t) k = absurd (k a refl)
      refused (err e, t) k = refl

module _ (env : Env) (clk : Clock) (pk : Bytes) (hi : clk.now_ts < 2 ^ 62) where
  accept-Known :
      (r : Nonced) (s : Db)
      → 60 ≤ clk.now_ts
      → env.unb64 (signer r) ≡ some pk
      → timestamp r < i64_mod
      → (accept env clk r s).0 ≡ true
      → Known (taken env clk pk hi (kind r) (timestamp r)) clk.now_ts (accept env clk r s).1
  unfolding accept kind signer timestamp
  accept-Known (create id code req) s lo k b h =
      verdict-holds _ (create-Known env clk pk hi lo id code req k b) s h
  accept-Known (leave room req) s lo k b h =
      verdict-holds _ (leave-Known env clk pk hi lo room req k b) s h
  accept-Known (wrap room req) s lo k b h =
      verdict-holds _ (wrap-Known env clk pk hi lo room req k b) s h
  accept-Known (members room req) s lo k b h =
      verdict-holds _ (members-Known env clk pk hi lo room req k b) s h
  accept-Known (list_messages room req) s lo k b h =
      verdict-holds _ (list-Known env clk pk hi lo room req k b) s h
  accept-Known (remove room req) s lo k b h =
      verdict-holds _ (remove-Known env clk pk hi lo room req k b) s h
  accept-Known (delete_post id req) s lo k b h =
      verdict-holds _ (delete-Known env clk pk hi lo id req k b) s h

  accept-barred :
      (a : Accepted) (r : Nonced) (s : Db)
      → env.unb64 (signer r) ≡ some pk
      → kind r ≡ a.kind
      → pk ≡ a.sig_pubkey
      → timestamp r ≡ a.ts
      → Known a clk.now_ts s
      → (accept env clk r s).0 ≡ false
  unfolding accept kind signer timestamp
  accept-barred a (create id code req) s k e f g h =
      verdict-barred _ (create-Bars env clk pk hi a id code req k e f g) s h
  accept-barred a (leave room req) s k e f g h =
      verdict-barred _ (leave-Bars env clk pk hi a room req k e f g) s h
  accept-barred a (wrap room req) s k e f g h =
      verdict-barred _ (wrap-Bars env clk pk hi a room req k e f g) s h
  accept-barred a (members room req) s k e f g h =
      verdict-barred _ (members-Bars env clk pk hi a room req k e f g) s h
  accept-barred a (list_messages room req) s k e f g h =
      verdict-barred _ (list-Bars env clk pk hi a room req k e f g) s h
  accept-barred a (remove room req) s k e f g h =
      verdict-barred _ (remove-Bars env clk pk hi a room req k e f g) s h
  accept-barred a (delete_post id req) s k e f g h =
      verdict-barred _ (delete-Bars env clk pk hi a id req k e f g) s h

Course-forward :
    (env : Env) (start : ℕ) (s : Db) (n : ℕ) (t : Db) → Course env start s n t → start ≤ n
Course-forward env start s _ _ here = omega arith
Course-forward env start s _ _ (next {n = n} {t = t} c clk m h) =
    omega (arith, Course-forward env start s n t c)

-- Where an endpoint accepts a request to create or leave a room, to wrap a key, to list the members or the messages,
-- to remove a member or to delete a post, no request of the same kind, by the same key and with the same
-- timestamp is accepted afterwards, whatever the endpoints, the workers, the retention of the nonces among them, and
-- the starts do in between, under a clock that does not go back and that stays between 60 and 2 ^ 62 seconds after
-- 1970.
pub signed_once :
    (env : Env) (clk clk' : Clock) (r r' : Nonced) (pk : Bytes) (s t : Db) (n : ℕ)
    → env.unb64 (signer r) ≡ some pk
    → env.unb64 (signer r') ≡ some pk
    → kind r' ≡ kind r
    → timestamp r' ≡ timestamp r
    → timestamp r < i64_mod
    → 60 ≤ clk.now_ts
    → clk'.now_ts < 2 ^ 62
    → (accept env clk r s).0 ≡ true
    → Course env clk.now_ts (accept env clk r s).1 n t
    → n ≤ clk'.now_ts
    → (accept env clk' r' t).0 ≡ false
signed_once env clk clk' r r' pk s t n d d' ek et b lo hi' won c late =
    let mono = Course-forward env clk.now_ts (accept env clk r s).1 n t c in
    let hi : clk.now_ts < 2 ^ 62 = omega (arith, mono) in
    let a = taken env clk pk hi (kind r) (timestamp r) in
    let known = accept-Known env clk pk hi r s lo d b won in
    let later = later-Known a clk' n t late (Course-Known a env clk.now_ts _ n t c known) in
    accept-barred env clk' pk hi' a r' t d' ek refl et later
