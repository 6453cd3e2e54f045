-- ===== src/Round.antt =====
-- lib/round.h on size_t, which has 32 bits: the sum wraps, and what follows cannot.
use pithread.Common.{ℕ, ◌+◌, ◌-◌, ◌*◌, ◌/◌, ◌%◌, ◌^◌}

abbrev pub u32 : ℕ → ℕ
u32 n = n % 2 ^ 32

unfoldable pub div_round_up : ℕ → ℕ → ℕ
div_round_up x step = u32 (x + step - 1) / step

unfoldable pub round_up : ℕ → ℕ → ℕ
unfolding div_round_up
round_up x step = div_round_up x step * step

unfoldable pub round_down : ℕ → ℕ → ℕ
round_down x step = x / step * step
