-- ===== src/Spin.antt =====
-- spin_test.c: threads that count, without a lock and with one. The counter is a word of byte memory.
pub mod Count
pub mod Turn
pub mod Locked
mod Tests
use pithread.Common.{ℕ, zero, suc, ◌+◌, ◌*◌, ◌%◌, ◌^◌, Bool, ◌==◌}
use pithread.Memory.{Memory}
use pithread.Thread.ListLib.{ListLib}
use pithread.Thread.State.{M, ◌>>=◌, ◌>>◌, pure, modify}
use pithread.Thread.Create.{store_word}
use pithread.Thread.Sync.{lock_acquire, lock_release}
use pithread.Malloc.{load_word}

-- NBUMP and NUM_THREADS.
abbrev pub bump_cnt : ℕ
bump_cnt = 30000

abbrev pub num_threads : ℕ
num_threads = 5

-- `*ip = *ip + 1`
abbrev pub bump : ℕ → Memory → Memory
bump ip m = store_word m ip ((load_word m ip + 1) % 2 ^ 32)

-- The loop of `unsafe`, by the rounds that are left. It gives up the processor nowhere.
unfoldable pub bump_loop : ℕ → ℕ → Memory → Memory
bump_loop zero ip m = m
bump_loop (suc left) ip m = bump_loop left ip (bump ip m)

abbrev pub unsafe : ℕ → Memory → Memory
unsafe ip m = bump_loop bump_cnt ip m

-- The threads of the first half of `spin_test`, one after another, which all do the same.
unfoldable pub run_unsafe : ℕ → ℕ → Memory → Memory
run_unsafe zero ip m = m
run_unsafe (suc left) ip m = run_unsafe left ip (unsafe ip m)

-- The test of `n` in the first half of `spin_test`.
unfoldable pub unsafe_passes : ℕ → Memory → Bool
unsafe_passes ip m = load_word (run_unsafe num_threads ip m) ip == bump_cnt * num_threads

module _ ⦃l : ListLib⦄ where
  -- The loop of `safe`, by the rounds that are left.
  unfoldable pub safe_loop : ℕ → ℕ → ℕ → ℕ → M (Unit {0})
  safe_loop zero fuel lock ip = pure tt
  safe_loop (suc left) fuel lock ip = do
    lock_acquire fuel lock
    modify (λ s. record s { mem = bump ip s.mem })
    lock_release lock
    safe_loop left fuel lock ip

  unfoldable pub safe : ℕ → ℕ → ℕ → M ℕ
  safe fuel lock ip = do safe_loop bump_cnt fuel lock ip; pure 0
