-- ===== src/Nonces/Replay/Requests.antt =====
-- Accepted requests and the rows that record them, as db/nonces.rs of crates/lethe-server/src keeps and prunes them.
use lethe_project.Prelude.{
  ℕ, ◌+◌, ◌^◌, ◌≤◌, ◌<◌, ◌≡◌, refl, Bool, true, false, ◌&&◌, ◌⊎◌, inl, inr, List, [], ◌∷◌, ◌++◌,
  Bytes, Text, arith, same, same-eq, same_refl, ◌==◌, ltb, All, Bool-cases,
}
use lethe_project.Table.{any, delete}
use lethe_project.Table.Rows.{any-append, any-append_mono}
use lethe_project.Db.{Nonce}
use lethe_project.Nonces.{i64_mod, in_window, is_nonce}
use lethe_project.Nonces.Window.{in_window_iff}

-- An accepted request by the key of its nonce, with the time at which it was accepted.
pub record Accepted : Type 0 where
  pub kind : Text
  pub sig_pubkey : Bytes
  pub ts : ℕ
  pub at : ℕ

abbrev pub same_request : Text → Bytes → ℕ → Accepted → Bool
same_request kind pk ts a = same a.kind kind && (same a.sig_pubkey pk && a.ts == ts)

is_entry : Accepted → Nonce → Bool
is_entry a n = is_nonce a.kind a.sig_pubkey a.ts n && n.seen_at == a.at

-- An accepted request was in the window, and its row is there or it is long past.
pub record IsKnown (now : ℕ) (rows : List Nonce) (a : Accepted) : Type 0 where
  early : 60 ≤ a.at
  past : a.at ≤ now
  small : a.at < 2 ^ 62
  range : a.ts < i64_mod
  fresh : in_window a.at a.ts ≡ true
  row : (any (is_entry a) rows ≡ true) ⊎ (a.at + 600 < now)

pub IsKnown-tick :
    (now n : ℕ) (rows : List Nonce) (a : Accepted) → IsKnown now rows a → IsKnown (now + n) rows a
IsKnown-tick now n rows a k = record {
  early = k.early;
  past = omega arith;
  small = k.small;
  range = k.range;
  fresh = k.fresh;
  row = elim k.row [ inl r ↦ inl r | inr o ↦ inr (omega arith) ];
}

any-prune :
    (now : ℕ) (a : Accepted) (rows : List Nonce)
    → now ≤ a.at + 600
    → any (is_entry a) rows ≡ true
    → any (is_entry a) (delete (λ n. ltb (n.seen_at + 600) now) rows) ≡ true
unfolding any delete is_entry
any-prune now a [] h e = ground arith
any-prune now a (n ∷ rows) h e = ground (arith, any-prune now a rows h)

pub IsKnown-prune :
    (now : ℕ) (rows : List Nonce) (a : Accepted)
    → IsKnown now rows a
    → IsKnown now (delete (λ n. ltb (n.seen_at + 600) now) rows) a
IsKnown-prune now rows a k = record {
  early = k.early;
  past = k.past;
  small = k.small;
  range = k.range;
  fresh = k.fresh;
  row = elim k.row [
    | inr o ↦ inr o
    | inl r ↦ elim (Bool-cases (ltb (a.at + 600) now)) [
      | inl t ↦ inr (ground arith)
      | inr f ↦ inl (any-prune now a rows (ground arith) r)
    ]
  ];
}

pub IsKnown-append :
    (now : ℕ) (rows : List Nonce) (m : Nonce) (a : Accepted)
    → IsKnown now rows a
    → IsKnown now (rows ++ m ∷ []) a
IsKnown-append now rows m a k = record {
  early = k.early;
  past = k.past;
  small = k.small;
  range = k.range;
  fresh = k.fresh;
  row = elim k.row [ inl r ↦ inl (any-append_mono (is_entry a) rows m r) | inr o ↦ inr o ];
}

any-key :
    (a : Accepted) (rows : List Nonce)
    → any (is_entry a) rows ≡ true
    → any (is_nonce a.kind a.sig_pubkey a.ts) rows ≡ true
unfolding any is_entry
any-key a [] h = ground arith
any-key a (n ∷ rows) h = ground (arith, any-key a rows)

-- A request that is in the window is known once its row is inserted.
pub IsKnown-accepted :
    (kind : Text) (pk : Bytes) (ts now : ℕ) (rows : List Nonce)
    → 60 ≤ now
    → now < 2 ^ 62
    → ts < i64_mod
    → in_window now ts ≡ true
    → IsKnown now
        (rows ++ record { kind = kind; sig_pubkey = pk; ts = ts; seen_at = now } ∷ [])
        (record { kind = kind; sig_pubkey = pk; ts = ts; at = now })
unfolding is_entry is_nonce
IsKnown-accepted kind pk ts now rows lo hi r w = record {
  early = lo;
  past = omega arith;
  small = hi;
  range = r;
  fresh = w;
  row = inl (any-append _ rows _ (ground (arith, same_refl kind, same_refl pk)));
}

-- 600 seconds later no timestamp is in the window again.
not-both :
    (at now ts : ℕ)
    → 60 ≤ at
    → now < 2 ^ 62
    → ts < i64_mod
    → in_window at ts ≡ true
    → in_window now ts ≡ true
    → at + 600 < now
    → ⊥
not-both at now ts lo hi r w v late =
    let a = (in_window_iff at ts lo (omega arith) r).0 w in
    let b = (in_window_iff now ts (omega arith) hi r).0 v in omega arith

-- In its window, a known request has its row.
pub IsKnown-window :
    (now : ℕ) (rows : List Nonce) (a : Accepted)
    → now < 2 ^ 62
    → in_window now a.ts ≡ true
    → IsKnown now rows a
    → any (is_nonce a.kind a.sig_pubkey a.ts) rows ≡ true
IsKnown-window now rows a hi w k = elim k.row [
  | inl r ↦ any-key a rows r
  | inr o ↦ absurd (not-both a.at now a.ts k.early hi k.range k.fresh w o)
]

same-parts :
    (kind : Text) (pk : Bytes) (ts : ℕ) (a : Accepted)
    → same_request kind pk ts a ≡ true
    → (a.kind ≡ kind) × (a.sig_pubkey ≡ pk) × (a.ts ≡ ts)
same-parts kind pk ts a h = ground (arith, same-eq a.kind kind, same-eq a.sig_pubkey pk)

-- A request that is in the window and has no row was not accepted before.
pub not-accepted :
    (now : ℕ) (rows : List Nonce) (kind : Text) (pk : Bytes) (ts : ℕ) (log : List Accepted)
    → 60 ≤ now
    → now < 2 ^ 62
    → in_window now ts ≡ true
    → any (is_nonce kind pk ts) rows ≡ false
    → All (IsKnown now rows) log
    → any (same_request kind pk ts) log ≡ false
unfolding any
not-accepted now rows kind pk ts [] lo hi w h k = refl
not-accepted now rows kind pk ts (a ∷ log) lo hi w h (ka, k) =
    elim (Bool-cases (same_request kind pk ts a)) [
      | inr f ↦ rw f (not-accepted now rows kind pk ts log lo hi w h k)
      | inl t ↦
          let (ek, ep, et) = same-parts kind pk ts a t in
          elim ka.row [
            | inl r ↦ absurd (clash (any-key a rows r) h ek ep et)
            | inr o ↦ absurd (not-both a.at now a.ts ka.early hi ka.range ka.fresh (rw et w) o)
          ]
    ]
  where
    clash :
        any (is_nonce a.kind a.sig_pubkey a.ts) rows ≡ true
        → any (is_nonce kind pk ts) rows ≡ false
        → a.kind ≡ kind
        → a.sig_pubkey ≡ pk
        → a.ts ≡ ts
        → ⊥
    clash r h ek ep et = cc
