-- ===== src/Thread/Create.antt =====
-- thread.c, lines 100 to 161: `thread_new`, which lays out the stack of a new thread.
pub mod Layout
use pithread.Common.{ℕ, ◌+◌, ◌-◌, ◌*◌, ◌/◌, ◌%◌, not, ltb, ◌==◌, if◌then◌else◌, none, some, Option}
use pithread.Round.{u32, round_up, round_down}
use pithread.Memory.{Memory, store, memcpy, memset}
use pithread.Thread.ListLib.{ListLib}
use pithread.Thread.State.{ready_list, joiners, failed, ok, M, ◌>>=◌, ◌>>◌, pure, modify, assert}
use pithread.Thread.Sched.{assert_current, release, set_list, set_thread, thread_magic, put}

-- A 32-bit word, the least byte first.
abbrev pub store_word : Memory → ℕ → ℕ → Memory
store_word m a w =
    store (store (store (store m a (w % 256)) (a + 1) (w / 256 % 256)) (a + 2) (w / 65536 % 256))
      (a + 3) (w / 16777216 % 256)

-- `sizeof *frame`: nine registers.
abbrev pub frame_size : ℕ
frame_size = 36

-- The block of a new thread: its size, for `sizeof *thr` and the bytes of arguments.
unfoldable pub stack_size : ℕ → ℕ → ℕ
unfolding round_up
stack_size thread_size nbytes = round_up (u32 (16 * 1024 + thread_size + nbytes)) 8

-- `thr->sp` before the arguments, and below them.
unfoldable pub stack_top : ℕ → ℕ → ℕ
unfolding round_down
stack_top thr stack_sz = round_down (thr + stack_sz) 8

unfoldable pub args_sp : ℕ → ℕ → ℕ
unfolding round_up
args_sp sp nbytes = if ltb 0 nbytes then sp - round_up nbytes 8 else sp

module _ ⦃l : ListLib⦄ where
  -- A library call of string.c on the memory of the state.
  abbrev pub on_memory : (Memory → Option (ℕ × Memory)) → M (Unit {0})
  on_memory f s = elim (f s.mem) [ none ↦ failed | some (_, m) ↦ ok tt (record s { mem = m }) ]

  -- `malloc` is lib/malloc.c's; `thread_size` is `sizeof (struct thread)`, which depends on
  -- <list.h>; `thread_start` is the address of swtch.S's entry.
  unfoldable pub thread_new : (ℕ → M ℕ) → ℕ → ℕ → ℕ → ℕ → ℕ → M ℕ
  unfolding stack_size stack_top args_sp
  thread_new malloc thread_size thread_start apply args nbytes_ = do
    assert_current
    assert (λ _. not (apply == 0))
    let nbytes = if args == 0 then 0 else nbytes_
    let stack_sz = stack_size thread_size nbytes
    release
    thr ← malloc stack_sz
    if thr == 0 then pure 0 else (do
      on_memory (λ m. memset m thr 0 stack_sz)
      modify (
          set_thread thr
            (record { sp = 0; handle = 0; in_list = none; code = 0; magic = thread_magic }))
      modify (set_list (joiners thr) l.list_init)
      let top = stack_top thr stack_sz
      let sp = args_sp top nbytes
      on_memory (λ m. if ltb 0 nbytes then memcpy m sp args nbytes else some (sp, m))
      let args' = if ltb 0 nbytes then sp else args
      let frame = sp - frame_size
      modify (λ s. set_thread thr (record (s.threads thr) { sp = frame; handle = thr }) s)
      modify (λ s. record s {
        mem =
            store_word (store_word (store_word s.mem (frame + 20) args') (frame + 24) apply)
              (frame + 32) thread_start;
      })
      modify (λ s. record s { num_thrs = u32 (s.num_thrs + 1) })
      put thr ready_list
      pure thr)
