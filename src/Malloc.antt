-- ===== src/Malloc.antt =====
-- lib/malloc.c: blocks out of pages, over the page allocator, the locks of the thread component and
-- byte memory, which holds the arenas' headers. A pointer is 4 bytes. What the links of <list.h> write
-- into a free block is not in the memory.
pub mod Pages
pub mod Calls
pub mod Bitmaps
pub mod Cleared
pub mod Header
pub mod Arena
pub mod Take
pub mod Request
mod Tests
use pithread.Common.{
  ℕ, zero, suc, ◌+◌, ◌-◌, ◌*◌, ◌/◌, ◌%◌, ◌^◌, Bool, true, false, not, ◌&&◌, ◌||◌, Option, none,
  some, List, [], ◌∷◌, ltb, leb, ◌==◌, if◌then◌else◌, ℕ_discrete,
}
use pithread.Round.{u32, div_round_up}
use pithread.Words.{word_and, word_not}
use pithread.Memory.{Memory, memset, memcpy}
use pithread.Thread.ListLib.{ListLib}
use pithread.Thread.State.{
  State, ok, failed, out_of_fuel, M, ◌>>=◌, ◌>>◌, pure, ask, modify, assert, when, update,
}
use pithread.Thread.Create.{on_memory, store_word}
use pithread.Thread.Sync.{lock_init, lock_acquire, lock_release}
use pithread.Palloc.{
  PoolVars, pgsize, pg_ofs, palloc_get_multiple, palloc_get_page, palloc_free_multiple,
  palloc_free_page,
}

-- A descriptor: its address, its sizes, and the address of its lock. `malloc_init` sets them and they
-- do not change. Its list is in the state.
pub record Desc : Type 0 where
  pub here : ℕ
  pub block_size : ℕ
  pub blocks_per_arena : ℕ
  pub lock : ℕ

abbrev pub arena_magic : ℕ
arena_magic = 0x9a548eed

-- `sizeof (struct arena)`: three words.
abbrev pub arena_size : ℕ
arena_size = 12

abbrev pub load_word : Memory → ℕ → ℕ
load_word m a = m a + 256 * m (a + 1) + 65536 * m (a + 2) + 16777216 * m (a + 3)

-- The header at the start of an arena: `magic`, `desc`, `free_cnt`.
abbrev pub magic_of : Memory → ℕ → ℕ
magic_of m a = load_word m a

abbrev pub desc_of : Memory → ℕ → ℕ
desc_of m a = load_word m (a + 4)

abbrev pub free_cnt_of : Memory → ℕ → ℕ
free_cnt_of m a = load_word m (a + 8)

abbrev pub set_arena : ℕ → ℕ → ℕ → ℕ → Memory → Memory
set_arena a magic desc free_cnt m =
    store_word (store_word (store_word m a magic) (a + 4) desc) (a + 8) free_cnt

unfoldable pub pg_round_down : ℕ → ℕ
pg_round_down va = word_and va (word_not (pgsize - 1))

-- The descriptor at an address.
unfoldable pub desc_at : List Desc → ℕ → Option Desc
desc_at [] p = none
desc_at (d ∷ ds) p = if p == d.here then some d else desc_at ds p

-- `block_to_arena`, by the arena that the block lies in; `none` is a failed ASSERT. A header that points
-- to no descriptor, which C would follow, counts as one.
unfoldable pub block_in : List Desc → Memory → ℕ → ℕ → Option ℕ
block_in ds m b a =
    if a == 0 || not (magic_of m a == arena_magic)
    then none
    else (if desc_of m a == 0
        then (if pg_ofs b == arena_size then some a else none)
        else (elim (desc_at ds (desc_of m a)) [
          | none ↦ none
          | some d ↦
              if u32 (pg_ofs b + 2 ^ 32 - arena_size) % d.block_size == 0 then some a else none
        ]))

unfoldable pub block_to_arena : List Desc → Memory → ℕ → Option ℕ
block_to_arena ds m b = block_in ds m b (pg_round_down b)

unfoldable pub arena_to_block : List Desc → Memory → ℕ → ℕ → Option ℕ
arena_to_block ds m a idx = elim (desc_at ds (desc_of m a)) [
  | none ↦ none
  | some d ↦
      if not (a == 0) && magic_of m a == arena_magic && ltb idx d.blocks_per_arena
      then some (u32 (a + arena_size + idx * d.block_size))
      else none
]

-- The smallest descriptor for `size` bytes: the first in the array that is large enough.
unfoldable pub find_desc : List Desc → ℕ → Option Desc
find_desc [] size = none
find_desc (d ∷ ds) size = if leb size d.block_size then some d else find_desc ds size

-- The pages of a big block and its header.
unfoldable pub big_pages : ℕ → ℕ
big_pages size = div_round_up (u32 (size + arena_size)) pgsize

-- The size that `block_size` returns, from the arena of the block.
unfoldable pub size_in : List Desc → Memory → ℕ → ℕ → ℕ
size_in ds m block a = elim (desc_at ds (desc_of m a)) [
  | some d ↦ d.block_size
  | none ↦ u32 (pgsize * free_cnt_of m a + 2 ^ 32 - pg_ofs block)
]

unfoldable pub block_size : List Desc → Memory → ℕ → Option ℕ
block_size ds m block = elim (block_to_arena ds m block) [
  | none ↦ none
  | some a ↦ some (size_in ds m block a)
]

-- The product that `calloc` asks for; `none` when its test finds an overflow.
unfoldable pub calloc_size : ℕ → ℕ → Option ℕ
calloc_size a b = if ltb (u32 (a * b)) a || ltb (u32 (a * b)) b then none else some (u32 (a * b))
