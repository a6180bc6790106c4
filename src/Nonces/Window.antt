-- ===== src/Nonces/Window.antt =====
-- Which timestamps the window test lets through.
use lethe_project.Prelude.{ℕ, ◌+◌, ◌^◌, ◌≤◌, ◌<◌, ◌≡◌, ◌↔◌, ◌⊎◌, true, arith}
use lethe_project.Nonces.{i64_mod, in_window}

-- For a clock between 60 seconds and 2 ^ 62 seconds after 1970 and any i64 timestamp, the test
-- passes exactly if the two are at most 60 seconds apart, or the timestamp is the one 2 ^ 63
-- seconds before the clock, where the subtraction and `abs` both wrap.
pub in_window_iff :
    (now ts : ℕ)
    → 60 ≤ now
    → now < 2 ^ 62
    → ts < i64_mod
    → (in_window now ts ≡ true) ↔ (((now ≤ ts + 60) × (ts ≤ now + 60)) ⊎ (ts ≡ now + 2 ^ 63))
unfolding in_window
in_window_iff now ts lo hi r = ground arith
