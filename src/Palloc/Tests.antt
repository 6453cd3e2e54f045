-- ===== src/Palloc/Tests.antt =====
-- A pool of 40 pages, and the theorems of the page allocator at it.
use pithread.Common.{◌+◌, ◌*◌, ◌≤◌, ◌≡◌, refl, ◌==◌, if◌then◌else◌, false, arith}
use pithread.Words.{bitwise}
use pithread.Round.{div_round_up}
use pithread.Bitmap.{bitmap_buf_size, byte_cnt, elem_cnt}
use pithread.Bitmap.Scan.{Group}
use pithread.Thread.State.{State, ok, in_lock}
use pithread.Thread.Inv.{Inv}
use pithread.Thread.Safe.{Safe}
use pithread.Thread.Tests.{plain_lists, small, small-Inv}
use pithread.Palloc.{
  PoolVars, pgsize, pg_ofs, has_flag, used_map, palloc_get_multiple, palloc_free_multiple,
  init_pool,
}
use pithread.Palloc.Get.{Answer, palloc_get_multiple-Safe}
use pithread.Palloc.Free.{Freed, palloc_free_multiple_lem}
use pithread.Palloc.Init.{init_pool_lem}

abbrev forty_pages : PoolVars
forty_pages = record { lock = 9; used_cnt = 40; base = 8192 }

-- Every page below 32 is in use.
abbrev filled_up : State plain_lists
filled_up = record small { used = λ k. if k == 0 then 0xFFFFFFFF else 0 }

filled_up-Inv : Inv filled_up
filled_up-Inv = record {
  lists = small-Inv.lists;
  running = small-Inv.running;
  locks = small-Inv.locks;
}

palloc_get_multiple-Safe_example :
    Safe 1 3 filled_up.holder
      (λ pages s'.
        (t : State plain_lists) × Inv t × (t.holder 9 ≡ 1) × Answer forty_pages 2 4 1 t pages s')
      (palloc_get_multiple forty_pages 4 2 4 filled_up)
unfolding has_flag bitwise
palloc_get_multiple-Safe_example =
    palloc_get_multiple-Safe forty_pages 2 4 3 4 filled_up (omega arith) (λ e. omega arith) refl
      (λ e. omega arith, omega arith, λ e. omega arith) (λ e. omega arith) filled_up-Inv

palloc_free_multiple_example :
    Freed forty_pages 3 4 20480 filled_up (palloc_free_multiple forty_pages 20480 4 filled_up)
unfolding pg_ofs bitwise
palloc_free_multiple_example =
    palloc_free_multiple_lem forty_pages 3 4 filled_up (λ e. omega arith) (λ e. omega arith)
      (omega arith) (omega arith) refl filled_up-Inv

init_pool_example :
    (p : PoolVars) × (s' : State plain_lists) × (init_pool 9 4096 41 small ≡ ok p s')
    × (p.lock ≡ 9)
    × (p.base + pgsize * p.used_cnt ≡ 172032)
    × (4096 + bitmap_buf_size p.used_cnt ≤ p.base)
    × Group (used_map p s') 0 p.used_cnt false
    × (s'.holder 9 ≡ 0)
    × (s'.values (in_lock 9) ≡ 1)
unfolding div_round_up bitmap_buf_size byte_cnt elem_cnt
init_pool_example =
    init_pool_lem 9 4096 41 small (λ e. omega arith) (omega arith) (omega arith) (omega arith)
