-- ===== src/Spin/Tests.antt =====
-- A thread that runs `safe` with the lock 9, which nobody holds.
use pithread.Common.{refl, arith}
use pithread.Thread.Tests.{plain_lists, small, small-Inv}
use pithread.Thread.Safe.{Safe, Guarantee-refl}
use pithread.Spin.{safe}
use pithread.Spin.Locked.{Returns, Turn, safe-Safe}

safe-Safe_example :
    Turn 9 100 small (safe 4 9 100 small) × Safe 1 3 small.holder (Returns 9 1) (safe 4 9 100 small)
safe-Safe_example =
    safe-Safe 3 4 9 100 1 small.holder small (omega arith) (λ e. omega arith)
      (small-Inv, refl, λ e. omega arith) (Guarantee-refl 1 small.holder) (omega arith)
