-- ===== src/Nonces.antt =====
-- crates/lethe-server/src/db/nonces.rs, and the window test of the handlers in
-- crates/lethe-server/src/logic.
pub mod Window
pub mod Replay
use lethe_project.Prelude.{
  ℕ, ◌+◌, ◌-◌, ◌%◌, ◌^◌, Bool, true, false, not, ◌&&◌, [], ◌∷◌, ◌++◌, Bytes, Text, same, ltb, ◌==◌,
  if◌then◌else◌,
}
use lethe_project.Table.{any, count, delete}
use lethe_project.Db.{Db, Nonce}

abbrev pub i64_mod : ℕ
i64_mod = 2 ^ 64

-- `a - b` on i64 as bit patterns; a release build wraps.
unfoldable pub sub_i64 : ℕ → ℕ → ℕ
sub_i64 a b = (a + i64_mod - b) % i64_mod

-- `i64::abs`; a release build leaves the least number as it is.
unfoldable pub abs_i64 : ℕ → ℕ
abs_i64 a = if ltb a (2 ^ 63) then a else (i64_mod - a) % i64_mod

-- `a > b` on i64, for `b` not negative
unfoldable pub gt_i64 : ℕ → ℕ → Bool
gt_i64 a b = ltb a (2 ^ 63) && ltb b a

-- `!((now_ts - ts).abs() > 60)`
unfoldable pub in_window : ℕ → ℕ → Bool
unfolding sub_i64 abs_i64 gt_i64
in_window now_ts ts = not (gt_i64 (abs_i64 (sub_i64 now_ts ts)) 60)

-- The primary key of request_nonces.
unfoldable pub is_nonce : Text → Bytes → ℕ → Nonce → Bool
is_nonce kind sig_pubkey ts n = same n.kind kind && (same n.sig_pubkey sig_pubkey && n.ts == ts)

-- `now` is the database's clock, the default of `seen_at`.
unfoldable pub record_nonce : ℕ → Text → Bytes → ℕ → Db → Bool × Db
record_nonce now kind sig_pubkey ts s =
    if any (is_nonce kind sig_pubkey ts) s.request_nonces then (false, s) else (
      true,
      record s {
        request_nonces =
            s.request_nonces
            ++ record { kind = kind; sig_pubkey = sig_pubkey; ts = ts; seen_at = now } ∷ [];
      },
    )

unfoldable pub prune_older_than : ℕ → ℕ → Db → ℕ × Db
prune_older_than now age s =
    let stale = λ (n : Nonce). ltb (n.seen_at + age) now in
    (count stale s.request_nonces, record s { request_nonces = delete stale s.request_nonces })
