-- ===== src/Thread/Tests/Life.antt =====
-- The theorems about the life of a thread, at the small state.
use pithread.Common.{ℕ, false, ◌≡◌, refl, inl, none, List, [], ◌∷◌, arith}
use pithread.Thread.State.{ready_list, joiners, ListRef-discrete, State, ok}
use pithread.Thread.Sched.Init.{Fresh, thread_init_lem}
use pithread.Thread.Sched.{thread_init, thread_join, thread_exit, run}
use pithread.Thread.Sched.Life.{SleepsOn, Joined, thread_join-Safe, push_all}
use pithread.Thread.Sched.Exit.{Exited, thread_exit_lem}
use pithread.Thread.Inv.{Inv}
use pithread.Thread.Safe.{Safe}
use pithread.Thread.Tests.{plain_lists, small, small-Inv}

thread_join-Safe_example :
    SleepsOn (joiners 3) small (thread_join 3 small)
    × Safe 1 3 small.holder (Joined 1) (thread_join 3 small)
thread_join-Safe_example =
    thread_join-Safe 3 3 small (λ e. omega arith) (λ e. omega arith) refl small-Inv

thread_exit_example :
    (t : State plain_lists) × Exited 1 6 2 (record small { freed = 4 ∷ [] }) t
    × (thread_exit 6 small ≡ run t)
unfolding ListRef-discrete push_all
thread_exit_example = thread_exit_lem 6 small (λ e. omega arith) (inl refl) small-Inv

-- The memory before `thread_init`.
abbrev blank : State plain_lists
blank = record small {
  current = 0;
  num_thrs = 0;
  threads = λ _. record { sp = 0; handle = 0; in_list = none; code = 0; magic = 0 };
  lists = λ r. elim (ListRef-discrete r ready_list) [ yes e ↦ 9 ∷ 9 ∷ [] | no ne ↦ [] ];
  values = λ _. 0;
  holder = λ _. 0;
}

blank-Fresh : Fresh blank
blank-Fresh = record {
  empty = λ r n1 n2 n3 n4.
      elim (ListRef-discrete r ready_list)
        as (λ d. elim d as (λ _. List ℕ) [ yes e ↦ 9 ∷ 9 ∷ [] | no ne ↦ [] ] ≡ []) [
          | yes e ↦ absurd (n1 e)
          | no ne ↦ refl
        ];
  current = refl;
  root = λ e. omega arith;
  unlisted = refl;
  locks = λ k. omega arith;
}

thread_init_example :
    (s' : State plain_lists) × (thread_init false blank ≡ ok 1 s')
    × Inv s'
    × (s'.current ≡ 2)
    × ((s'.threads 2).handle ≡ 2)
    × (s'.num_thrs ≡ 1)
thread_init_example = thread_init_lem blank blank-Fresh
