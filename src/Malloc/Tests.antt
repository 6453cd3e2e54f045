-- ===== src/Malloc/Tests.antt =====
-- An arena, and runs of lib/malloc.c from a small state.
use pithread.Common.{
  ℕ, ◌+◌, ◌*◌, ◌^◌, ◌≤◌, ◌<◌, ◌≡◌, ◌≢◌, ◌⊎◌, inl, true, refl, none, some, [], ◌∷◌, arith, ◌==◌,
  if◌then◌else◌,
}
use pithread.Memory.{Memory, store}
use pithread.Thread.State.{State, ok}
use pithread.Thread.Tests.{plain_lists, small, small-Inv}
use pithread.Palloc.{pgsize}
use pithread.Malloc.{
  Desc, arena_magic, arena_size, set_arena, desc_of, desc_at, big_pages, calloc_size,
  arena_to_block, block_to_arena, free_cnt_of,
}
use pithread.Malloc.Calls.{take_block}
use pithread.Malloc.Arena.{IsArena, InArena, block_to_arena_to_block}
use pithread.Malloc.Take.{Given, take_block_lem}
use pithread.Bitmap.{elem_cnt}
use pithread.Round.{div_round_up}
use pithread.Malloc.Bitmaps.{set_all_at}
use pithread.Malloc.Cleared.{SetAt, set_all_at_lem}
use pithread.Thread.Inv.{Inv}
use pithread.Malloc.Request.{big_pages_lem}

abbrev sixteen : Desc
sixteen = record { here = 512; block_size = 16; blocks_per_arena = 255; lock = 9 }

-- The page at 8192 is an arena of it.
abbrev one_arena : Memory
one_arena = set_arena 8192 arena_magic 512 255 (λ a. 0)

one_arena-IsArena : IsArena (sixteen ∷ []) one_arena sixteen 8192
unfolding desc_at store
one_arena-IsArena = record {
  aligned = refl;
  not_null = λ e. omega arith;
  below = omega arith;
  magic = refl;
  owned = λ e. let five : desc_of one_arena 8192 ≡ 512 = refl in omega arith;
  owner = refl;
  some_bytes = λ e. omega arith;
  fits = omega arith;
}

block_to_arena_to_block_example :
    (b : ℕ) × (arena_to_block (sixteen ∷ []) one_arena 8192 254 ≡ some b)
    × InArena sixteen 8192 b
    × (block_to_arena (sixteen ∷ []) one_arena b ≡ some 8192)
block_to_arena_to_block_example =
    block_to_arena_to_block (sixteen ∷ []) one_arena sixteen 8192 254 one_arena-IsArena
      (omega arith)

big_pages_example :
    ((5000 + arena_size + pgsize ≤ 2 ^ 32)
      → (5000 + arena_size ≤ pgsize * big_pages 5000)
        × (pgsize * big_pages 5000 < 5000 + arena_size + pgsize))
    × (2 ^ 32 < 5000 + arena_size → big_pages 5000 ≡ 1)
big_pages_example = big_pages_lem 5000 (omega arith)

-- The product of 0x10001 with itself passes the test of `calloc`, without its highest bit.
wrapped_product : calloc_size 0x10001 0x10001 ≡ some 0x20001
unfolding calloc_size
wrapped_product = refl

-- The same descriptor with the lock 7, which the thread that runs holds.
abbrev locked : Desc
locked = record sixteen { lock = 7 }

-- The first and the second block of the arena are on its list.
abbrev two_blocks : State plain_lists
two_blocks = record small {
  mem = one_arena;
  free_blocks = λ k. if k == 512 then 8204 ∷ 8220 ∷ [] else [];
}

two_blocks-Inv : Inv two_blocks
two_blocks-Inv = record {
  lists = small-Inv.lists;
  running = small-Inv.running;
  locks = small-Inv.locks;
}

one_arena-locked : IsArena (locked ∷ []) one_arena locked 8192
unfolding desc_at store
one_arena-locked = record {
  aligned = refl;
  not_null = λ e. omega arith;
  below = omega arith;
  magic = refl;
  owned = λ e. let five : desc_of one_arena 8192 ≡ 512 = refl in omega arith;
  owner = refl;
  some_bytes = λ e. omega arith;
  fits = omega arith;
}

first_block : arena_to_block (locked ∷ []) one_arena 8192 0 ≡ some 8204
unfolding arena_to_block desc_at store
first_block = refl

all_free : free_cnt_of one_arena 8192 ≡ 255
unfolding store
all_free = refl

take_block_example :
    (t : State plain_lists) × (take_block (locked ∷ []) locked two_blocks ≡ ok 8204 t)
    × Given (locked ∷ []) locked 8192 (free_cnt_of one_arena 8192) (8220 ∷ []) t
take_block_example =
    take_block_lem (locked ∷ []) locked two_blocks 8192 8204 0 (8220 ∷ []) (λ e. omega arith) refl
      two_blocks-Inv refl one_arena-locked (omega arith) first_block
      (λ e. let c = all_free in omega arith) (let c = all_free in omega arith)

-- A bitmap of 40 bits at 100, with its words at 200.
abbrev bitmap_memory : Memory
bitmap_memory a = if a == 100 then 40 else (if a == 104 then 200 else 0)

abbrev bitmap_place : ℕ
bitmap_place = 100

set_all_at_example :
    ((bitmap_place ≡ 0) × (set_all_at bitmap_place true bitmap_memory ≡ none))
    ⊎ ((bitmap_place ≢ 0)
        × ((m' : Memory) × (set_all_at bitmap_place true bitmap_memory ≡ some (bitmap_place, m'))
            × SetAt bitmap_memory bitmap_place true m'))
unfolding elem_cnt div_round_up
set_all_at_example =
    set_all_at_lem bitmap_memory bitmap_place true (omega arith) (inl (omega arith))
