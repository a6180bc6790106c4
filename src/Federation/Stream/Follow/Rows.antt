-- ===== src/Federation/Stream/Follow/Rows.antt =====
-- The rows of `list_outgoing_posts` (crates/lethe-server/src/db/federation.rs) for posts that can be
-- served.
use lethe_project.Prelude.{
  ◌<◌, ◌≡◌, refl, Bool, true, Bool-cases, inl, inr, some, List, [], ◌∷◌, length, last, last-cons,
  All, Bytes, arith,
}
use lethe_project.Table.{first, any}
use lethe_project.Error.{ok}
use lethe_project.Env.{Env}
use lethe_project.Db.{Post, Thread}
use lethe_project.Threads.{is_thread}
use lethe_project.Paging.{ℤ, pos}
use lethe_project.Federation.Stream.{PostStreamRow, stream_rows, stream_row}

-- The rows are those of the posts, in the same order.
pub data Matching : List Post → List PostStreamRow → Type 0 where
  end : Matching [] []
  pair :
      {p : Post} {r : PostStreamRow} {ps : List Post} {rs : List PostStreamRow}
      → r.origin_post_id ≡ p.id
      → r.created_at ≡ p.created_at
      → Matching ps rs
      → Matching (p ∷ ps) (r ∷ rs)

last-tail :
    {A : Type 0} (p q x : A) (ps : List A) → last (p ∷ q ∷ ps) ≡ some x → last (q ∷ ps) ≡ some x
unfolding last
last-tail p q x ps h = ground arith

pub Matching-last :
    {ps : List Post} {rs : List PostStreamRow} (x : Post)
    → Matching ps rs
    → last ps ≡ some x
    → (r : PostStreamRow) × ((last rs ≡ some r)
        × ((r.origin_post_id ≡ x.id) × (r.created_at ≡ x.created_at)))
unfolding last
Matching-last x end h = absurd (ground arith)
Matching-last x (pair {p = p} {r = r} i d end) h = (r, (refl, (ground arith, ground arith)))
Matching-last x (pair {p = p} {r = r} i d (pair {p = q} {r = r'} {ps = ps} {rs = rs} i' d' m)) h =
    let (z, (l, k)) = Matching-last x (pair {r = r'} i' d' m) (last-tail p q x ps h) in
    (z, (last-cons r z (r' ∷ rs) l, k))

pub any-first :
    {A : Type 0} (p : A → Bool) (xs : List A) → any p xs ≡ true → (a : A) × (first p xs ≡ some a)
unfolding any first
any-first p [] h = absurd (ground arith)
any-first p (x ∷ xs) h = elim (Bool-cases (p x)) [
  | inl t ↦ (x, rw t refl)
  | inr t ↦ let (a, e) = any-first p xs (ground arith) in (a, rw t e)
]

module _ (env : Env) (is_day : ℤ → Bool) where
  -- What the statements that store a post see to: its id is stamped, and it and the day can be sent.
  pub record IsServed (p : Post) : Type 0 where
    pub stamped : p.origin_post_id ≡ some p.id
    pub size : length p.id ≡ 16
    pub day : p.created_at < 2147483648
    pub dated : is_day (pos p.created_at) ≡ true
    pub encoded : env.unb64 (env.b64 p.id) ≡ some p.id

  -- A post that the stream can serve
  unfoldable pub Ready : List Thread → Post → Type 0
  Ready threads p = IsServed p × ((t : Thread) × (first (is_thread p.thread_id) threads ≡ some t))

  pub rows-Matching :
      (origin : Bytes) (threads : List Thread) (ps : List Post)
      → All (Ready threads) ps
      → (rs : List PostStreamRow) × ((stream_rows origin threads ps ≡ ok rs) × Matching ps rs)
  unfolding stream_rows stream_row Ready
  rows-Matching origin threads [] h = ([], (refl, end))
  rows-Matching origin threads (p ∷ ps) ((k, (t, e)), h) =
      let (rs, (o, m)) = rows-Matching origin threads ps h in
      (
        stream_row origin t p p.id ∷ rs,
        (rw (o, e, k.stamped) refl, pair {r = stream_row origin t p p.id} refl refl m),
      )
