-- ===== src/Rand/Tests.antt =====
-- Concrete runs of `rand`.
use pithread.Common.{◌^◌, ◌-◌, ◌≡◌, refl, [], ◌∷◌}
use pithread.Rand.{rand, draw, undefined}

all_numbers : rand (2 ^ 24 ∷ []) 5 0 (2 ^ 32 - 1) ≡ undefined
unfolding rand draw
all_numbers = refl
