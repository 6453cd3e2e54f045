-- ===== src/Palloc.antt =====
-- lib/palloc.c: the page allocator, over the thread component, whose lock it takes, and the
-- bitmap; and page.h.
pub mod Get
pub mod Free
pub mod Init
pub mod Boot
mod Tests
use pithread.Common.{
  ℕ, ◌+◌, ◌-◌, ◌*◌, ◌/◌, ◌^◌, Bool, true, false, not, ◌&&◌, ◌||◌, Option, none, some, ltb, leb,
  ◌==◌, if◌then◌else◌,
}
use pithread.Round.{u32, div_round_up}
use pithread.Words.{word_and}
use pithread.Memory.{memset}
use pithread.Bitmap.{
  Bitmap, bitmap_error, bitmap_scan_and_flip, bitmap_set_multiple, bitmap_all, bitmap_buf_size,
  bitmap_create_in_buf,
}
use pithread.Thread.ListLib.{ListLib}
use pithread.Thread.State.{State, ok, failed, M, ◌>>=◌, ◌>>◌, pure, ask, assert, when}
use pithread.Thread.Create.{on_memory}
use pithread.Thread.Sync.{lock_init, lock_acquire, lock_release}

abbrev pub pgsize : ℕ
pgsize = 4096

-- `va & PGMASK`, `va >> PGBITS`, and the roundings of page.h.
unfoldable pub pg_ofs : ℕ → ℕ
pg_ofs va = word_and va (pgsize - 1)

unfoldable pub pg_no : ℕ → ℕ
pg_no va = va / pgsize

-- The static `pool`: the address of its lock, `used_map->bit_cnt` and `base`. Once `init_pool` has
-- set them they do not change. The words of the map are in the state.
pub record PoolVars : Type 0 where
  pub lock : ℕ
  pub used_cnt : ℕ
  pub base : ℕ

abbrev pub pal_assert : ℕ
pal_assert = 1

abbrev pub pal_zero : ℕ
pal_zero = 2

unfoldable pub has_flag : ℕ → ℕ → Bool
has_flag flags flag = not (word_and flags flag == 0)

-- The start and the size of the memory in the tag, adjusted for the kernel, which lies from
-- `kernel_start` to `kernel_end`. The size is computed from the start that was just written.
unfoldable pub adjust_mem : ℕ → ℕ → ℕ → ℕ → ℕ × ℕ
adjust_mem kernel_start kernel_end start size =
    if leb start kernel_start && ltb kernel_start (u32 (start + size))
    then (kernel_end, u32 (u32 (kernel_end + size) + 2 ^ 32 - kernel_end))
    else (start, size)

module _ ⦃l : ListLib⦄ where
  abbrev pub used_map : PoolVars → State l → Bitmap
  used_map p s = record { bit_cnt = p.used_cnt; bits = s.used }

  abbrev pub set_used : (ℕ → ℕ) → State l → State l
  set_used bits s = record s { used = bits }

  unfoldable pub scan_used : PoolVars → ℕ → M ℕ
  scan_used p page_cnt s = elim (bitmap_scan_and_flip (used_map p s) 0 page_cnt false) [
    | none ↦ failed
    | some (idx, b) ↦ ok idx (set_used b.bits s)
  ]

  -- `palloc_get_multiple` when it knows `pages`. PANIC is `failed`.
  unfoldable pub hand_out : ℕ → ℕ → ℕ → M ℕ
  hand_out flags page_cnt pages = do
    when (not (pages == 0) && has_flag flags pal_zero)
        (on_memory (λ m. memset m pages 0 (u32 (pgsize * page_cnt))))
    when (pages == 0 && has_flag flags pal_assert) (λ s. failed)
    pure pages

  unfoldable pub palloc_get_multiple : PoolVars → ℕ → ℕ → ℕ → M ℕ
  palloc_get_multiple p fuel flags page_cnt = if page_cnt == 0 then pure 0 else (do
    lock_acquire fuel p.lock
    page_idx ← scan_used p page_cnt
    lock_release p.lock
    hand_out flags page_cnt
        (if page_idx == bitmap_error then 0 else u32 (p.base + pgsize * page_idx)))

  unfoldable pub palloc_get_page : PoolVars → ℕ → ℕ → M ℕ
  palloc_get_page p fuel flags = palloc_get_multiple p fuel flags 1

  -- `ASSERT(bitmap_all(...))`, and the call of `bitmap_set_multiple`.
  unfoldable pub all_used : PoolVars → ℕ → ℕ → M (Unit {0})
  all_used p page_idx page_cnt s = elim (bitmap_all (used_map p s) page_idx page_cnt) [
    | none ↦ failed
    | some all ↦ if all then ok tt s else failed
  ]

  unfoldable pub reset_used : PoolVars → ℕ → ℕ → M (Unit {0})
  reset_used p page_idx page_cnt s =
      elim (bitmap_set_multiple (used_map p s) page_idx page_cnt false) [
        | none ↦ failed
        | some b ↦ ok tt (set_used b.bits s)
      ]

  unfoldable pub palloc_free_multiple : PoolVars → ℕ → ℕ → M (Unit {0})
  palloc_free_multiple p pages page_cnt = do
    assert (λ _. pg_ofs pages == 0)
    if pages == 0 || page_cnt == 0 then pure tt else (do
      let page_idx = u32 (pg_no pages + 2 ^ 32 - pg_no p.base)
      on_memory (λ m. memset m pages 0xcc (u32 (pgsize * page_cnt)))
      all_used p page_idx page_cnt
      reset_used p page_idx page_cnt)

  unfoldable pub palloc_free_page : PoolVars → ℕ → M (Unit {0})
  palloc_free_page p page = palloc_free_multiple p page 1

  -- The last two lines of `init_pool`.
  unfoldable pub make_map : ℕ → ℕ → ℕ → ℕ → M PoolVars
  make_map lock base left map_bytes s = elim (bitmap_create_in_buf left s.used map_bytes) [
    | none ↦ failed
    | some b ↦
        ok (record { lock = lock; used_cnt = left; base = u32 (base + map_bytes) })
          (set_used b.bits s)
  ]

  -- `lock` is the address of `pool.lock`. The line that it prints is left out.
  unfoldable pub init_pool : ℕ → ℕ → ℕ → M PoolVars
  init_pool lock base page_cnt = do
    let bm_pages = div_round_up (bitmap_buf_size page_cnt) pgsize
    let left = page_cnt - bm_pages
    assert (λ _. leb bm_pages page_cnt)
    lock_init lock
    make_map lock base left (u32 (bm_pages * pgsize))

  -- `(free_end - free_start) / PGSIZE`, a quotient of two ints, as a size_t.
  unfoldable pub page_diff : ℕ → ℕ
  page_diff d = if ltb d (2 ^ 31) then d / pgsize else u32 (2 ^ 32 - (2 ^ 32 - d) / pgsize)

  -- `tag` is what `get_atag(ATAG_MEM, NULL)` finds: the start and the size.
  unfoldable pub palloc_init : Option (ℕ × ℕ) → ℕ → ℕ → ℕ → M PoolVars
  palloc_init none kernel_start kernel_end lock = λ s. failed
  palloc_init (some (start, size)) kernel_start kernel_end lock = do
    let mem = adjust_mem kernel_start kernel_end start size
    assert (λ _. leb pgsize mem.1)
    let free_end = u32 (mem.0 + mem.1)
    init_pool lock mem.0 (page_diff (u32 (free_end + 2 ^ 32 - mem.0)))
