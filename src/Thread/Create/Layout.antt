-- ===== src/Thread/Create/Layout.antt =====
-- Where `thread_new` puts the arguments and the first frame of a new thread.
use pithread.Common.{ℕ, ◌+◌, ◌-◌, ◌*◌, ◌%◌, ◌^◌, ◌≤◌, ◌<◌, ◌≡◌, dec_lt, arith}
use pithread.Round.{round_up, div_round_up, round_down}
use pithread.Thread.Create.{frame_size, stack_size, stack_top, args_sp}

-- In a block of the size that `thread_new` asks for, the stack pointer below the arguments is a multiple
-- of 8, the arguments end before the block does, and the first frame starts past the
-- `struct thread` at the start of the block, with 16 KB less 50 bytes between them.
stack_layout :
    (thr thread_size nbytes : ℕ)
    → thread_size ≤ 4096
    → nbytes < 2 ^ 31
    → thr + stack_size thread_size nbytes < 2 ^ 32
    → let block_end = thr + stack_size thread_size nbytes in
      let sp = args_sp (stack_top thr (stack_size thread_size nbytes)) nbytes in
      (sp % 8 ≡ 0)
      × (sp + nbytes ≤ block_end)
      × (thr + thread_size + (16 * 1024 - 50) + frame_size ≤ sp)
unfolding stack_size stack_top args_sp round_up round_down div_round_up
stack_layout thr thread_size nbytes small few fits = elim (dec_lt 0 nbytes) [
  | yes l ↦ (ground arith, ground arith, ground arith)
  | no l ↦ (ground arith, ground arith, ground arith)
]
