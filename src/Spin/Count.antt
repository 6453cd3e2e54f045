-- ===== src/Spin/Count.antt =====
-- spin_test.c: what the threads without a lock count.
use pithread.Common.{ℕ, zero, suc, ◌+◌, ◌*◌, ◌%◌, ◌^◌, ◌<◌, ◌≡◌, ap, ◌∙◌, true, arith, ◌==◌}
use pithread.Memory.{Memory}
use pithread.Malloc.{load_word}
use pithread.Malloc.Header.{word_here}
use pithread.Spin.{bump, bump_cnt, num_threads, bump_loop, unsafe, run_unsafe, unsafe_passes}

pub bump_lem :
    (ip : ℕ) (m : Memory)
    → load_word m ip + 1 < 2 ^ 32
    → load_word (bump ip m) ip ≡ load_word m ip + 1
bump_lem ip m lt = word_here m ip ((load_word m ip + 1) % 2 ^ 32) (omega arith) ∙ omega arith

bump_loop_lem :
    (left ip : ℕ) (m : Memory)
    → load_word m ip + left < 2 ^ 32
    → load_word (bump_loop left ip m) ip ≡ load_word m ip + left
unfolding bump_loop
bump_loop_lem zero ip m lt = omega arith
bump_loop_lem (suc left) ip m lt =
    let one = bump_lem ip m (omega arith) in
    bump_loop_lem left ip (bump ip m) (omega arith) ∙ omega arith

run_unsafe_lem :
    (left ip : ℕ) (m : Memory)
    → load_word m ip + bump_cnt * left < 2 ^ 32
    → load_word (run_unsafe left ip m) ip ≡ load_word m ip + bump_cnt * left
unfolding run_unsafe
run_unsafe_lem zero ip m lt = omega arith
run_unsafe_lem (suc left) ip m lt =
    let one = bump_loop_lem bump_cnt ip m (omega arith) in
    run_unsafe_lem left ip (unsafe ip m) (omega arith) ∙ omega arith

-- The first half of `spin_test` passes when the counter is 0 at its start.
unsafe_passes_lem : (ip : ℕ) (m : Memory) → load_word m ip ≡ 0 → unsafe_passes ip m ≡ true
unfolding unsafe_passes
unsafe_passes_lem ip m z =
    let counted = run_unsafe_lem num_threads ip m (omega arith) in
    ap (λ (x : ℕ). x == bump_cnt * num_threads)
      (counted ∙ ap (λ (x : ℕ). x + bump_cnt * num_threads) z)
