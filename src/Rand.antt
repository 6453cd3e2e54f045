-- ===== src/Rand.antt =====
-- rand.c. What the random number generator of the board answers is a parameter: the status that
-- each round of the wait reads, and the data read at its end.
pub mod Range
mod Tests
use pithread.Common.{ℕ, ◌+◌, ◌-◌, ◌/◌, ◌%◌, ◌^◌, Bool, true, false, List, [], ◌∷◌, ◌==◌}
use pithread.Round.{u32}
use pithread.Words.{word_or}
use pithread.Mmio.{Device, Bus, mmio_write, mmio_read}

-- What a call comes to: a number, a division by 0, or a wait that goes on behind the last status.
pub data Drawn : Type 0 where
  number : ℕ → Drawn
  undefined : Drawn
  waiting : Drawn

-- `mmio_read(RAND_DATA) % (max - min + 1) + min`
unfoldable pub draw : ℕ → ℕ → ℕ → Drawn
draw data_read min max = elim (u32 (max + 2 ^ 32 + 1 - min) == 0) [
  | true ↦ undefined
  | false ↦ number (u32 (data_read % u32 (max + 2 ^ 32 + 1 - min) + min))
]

-- `while (!(mmio_read(RAND_STATUS) >> 24));`
unfoldable pub rand : List ℕ → ℕ → ℕ → ℕ → Drawn
rand [] data_read min max = waiting
rand (status ∷ more) data_read min max = elim (status / 2 ^ 24 == 0) [
  | true ↦ rand more data_read min max
  | false ↦ draw data_read min max
]

abbrev rand_base : ℕ
rand_base = 0x3F000000 + 0x104000

abbrev pub rand_ctrl : ℕ
rand_ctrl = rand_base + 0x00

abbrev pub rand_status : ℕ
rand_status = rand_base + 0x04

abbrev pub rand_int_mask : ℕ
rand_int_mask = rand_base + 0x10

-- `mmio_write(reg, mmio_read(reg) | 1)`
abbrev pub set_low : Device → ℕ → Bus → Bus
set_low d reg b = let (old, b1) = mmio_read d reg b in mmio_write reg (word_or old 1) b1

unfoldable pub rand_init : Device → Bus → Bus
rand_init d b = set_low d rand_ctrl (set_low d rand_int_mask (mmio_write rand_status 0x40000 b))
