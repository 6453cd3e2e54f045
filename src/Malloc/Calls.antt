-- ===== src/Malloc/Calls.antt =====
-- lib/malloc.c: malloc_init, malloc, calloc, realloc and free.
use pithread.Common.{
  ℕ, zero, suc, ◌+◌, ◌-◌, ◌*◌, ◌/◌, ◌^◌, Bool, true, false, not, ◌&&◌, Option, none, some, List, [],
  ◌∷◌, ltb, leb, ◌==◌, if◌then◌else◌, ℕ_discrete,
}
use pithread.Round.{u32}
use pithread.Memory.{Memory, memset, memcpy}
use pithread.Thread.ListLib.{ListLib}
use pithread.Thread.State.{
  ok, failed, out_of_fuel, M, ◌>>=◌, ◌>>◌, pure, ask, modify, assert, when, update,
}
use pithread.Thread.Create.{on_memory, store_word}
use pithread.Thread.Sync.{lock_init, lock_acquire, lock_release}
use pithread.Palloc.{
  PoolVars, pgsize, palloc_get_multiple, palloc_get_page, palloc_free_multiple, palloc_free_page,
}
use pithread.Malloc.{
  Desc, arena_magic, arena_size, desc_of, free_cnt_of, set_arena, desc_at, block_to_arena,
  arena_to_block, find_desc, big_pages, block_size, calloc_size,
}

module _ ⦃l : ListLib⦄ where
  abbrev pub checked : {A : Type 0} → (Memory → Option A) → M A
  checked f s = elim (f s.mem) [ none ↦ failed | some a ↦ ok a s ]

  abbrev change_memory : (Memory → Memory) → M (Unit {0})
  change_memory f = modify (λ s. record s { mem = f s.mem })

  abbrev change_list : Desc → (l.T → l.T) → M (Unit {0})
  change_list d f = modify (λ s. record s {
    free_blocks = update ℕ_discrete s.free_blocks d.here (f (s.free_blocks d.here));
  })

  -- The loop of `malloc_init`: the addresses of the descriptors and of their locks, the rounds that it
  -- may make, `desc_cnt`, and the block size.
  unfoldable pub init_loop : (ℕ → ℕ) → (ℕ → ℕ) → ℕ → ℕ → ℕ → M (List Desc)
  init_loop descs locks zero desc_cnt block_size = λ s. out_of_fuel
  init_loop descs locks (suc fuel) desc_cnt block_size =
      if leb block_size (pgsize / 2)
      then (do
        let d : Desc = record {
          here = descs desc_cnt;
          block_size = block_size;
          blocks_per_arena = (pgsize - arena_size) / block_size;
          lock = locks desc_cnt;
        }
        assert (λ _. leb (desc_cnt + 1) 10)
        change_list d (λ _. l.list_init)
        lock_init d.lock
        ds ← init_loop descs locks fuel (desc_cnt + 1) (u32 (block_size * 2))
        pure (d ∷ ds))
      else pure []

  unfoldable pub malloc_init : (ℕ → ℕ) → (ℕ → ℕ) → M (List Desc)
  malloc_init descs locks = init_loop descs locks 9 0 16

  -- `for (i = 0; i < d->blocks_per_arena; i++)` of `malloc`, by the blocks that are left.
  unfoldable pub add_blocks : List Desc → Desc → ℕ → ℕ → ℕ → M (Unit {0})
  add_blocks ds d a zero i = pure tt
  add_blocks ds d a (suc left) i = do
    b ← checked (λ m. arena_to_block ds m a i)
    change_list d (λ q. l.list_push_back q b)
    add_blocks ds d a left (i + 1)

  -- A new arena; it returns whether there was a page.
  unfoldable pub new_arena : List Desc → PoolVars → ℕ → Desc → M Bool
  new_arena ds p fuel d = do
    a ← palloc_get_page p fuel 0
    if a == 0 then pure false else (do
      change_memory (set_arena a arena_magic d.here d.blocks_per_arena)
      add_blocks ds d a d.blocks_per_arena 0
      pure true)

  -- A pop of an empty list, which has no block to give, counts as failed.
  unfoldable pub pop_block : Desc → M ℕ
  pop_block d s = elim (l.list_pop_front (s.free_blocks d.here)) [
    | none ↦ failed
    | some (b, q) ↦ ok b (record s { free_blocks = update ℕ_discrete s.free_blocks d.here q })
  ]

  abbrev set_free_cnt : ℕ → ℕ → Memory → Memory
  set_free_cnt a n m = store_word m (a + 8) n

  unfoldable pub take_block : List Desc → Desc → M ℕ
  take_block ds d = do
    b ← pop_block d
    a ← checked (λ m. block_to_arena ds m b)
    change_memory (λ m. set_free_cnt a (u32 (free_cnt_of m a + 2 ^ 32 - 1)) m)
    lock_release d.lock
    pure b

  unfoldable pub big_block : PoolVars → ℕ → ℕ → M ℕ
  big_block p fuel page_cnt = do
    a ← palloc_get_multiple p fuel 0 page_cnt
    if a == 0
        then pure 0
        else (do change_memory (set_arena a arena_magic 0 page_cnt); pure (u32 (a + arena_size)))

  unfoldable pub small_block : List Desc → PoolVars → ℕ → Desc → M ℕ
  small_block ds p fuel d = do
    lock_acquire fuel d.lock
    empty ← ask (λ s. l.list_empty (s.free_blocks d.here))
    filled ← if empty then new_arena ds p fuel d else pure true
    if filled then take_block ds d else (do lock_release d.lock; pure 0)

  unfoldable pub malloc : List Desc → PoolVars → ℕ → ℕ → M ℕ
  malloc ds p fuel size = if size == 0 then pure 0 else (elim (find_desc ds size) [
    | none ↦ big_block p fuel (big_pages size)
    | some d ↦ small_block ds p fuel d
  ])

  unfoldable pub calloc : List Desc → PoolVars → ℕ → ℕ → ℕ → M ℕ
  calloc ds p fuel a b = elim (calloc_size a b) [
    | none ↦ pure 0
    | some size ↦ (do
      block ← malloc ds p fuel size
      when (not (block == 0)) (on_memory (λ m. memset m block 0 size))
      pure block)
  ]

  -- The loop of `free` that takes the blocks of an arena off the list.
  unfoldable pub remove_blocks : List Desc → Desc → ℕ → ℕ → ℕ → M (Unit {0})
  remove_blocks ds d a zero i = pure tt
  remove_blocks ds d a (suc left) i = do
    b ← checked (λ m. arena_to_block ds m a i)
    change_list d (λ q. l.list_remove q b)
    remove_blocks ds d a left (i + 1)

  unfoldable pub free_arena : List Desc → PoolVars → Desc → ℕ → M (Unit {0})
  free_arena ds p d a = do
    assert (λ s. free_cnt_of s.mem a == d.blocks_per_arena)
    remove_blocks ds d a d.blocks_per_arena 0
    palloc_free_page p a

  unfoldable pub free_small : List Desc → PoolVars → ℕ → Desc → ℕ → ℕ → M (Unit {0})
  free_small ds p fuel d a b = do
    on_memory (λ m. memset m b 0xcc d.block_size)
    lock_acquire fuel d.lock
    change_list d (λ q. l.list_push_front q b)
    change_memory (λ m. set_free_cnt a (u32 (free_cnt_of m a + 1)) m)
    full ← ask (λ s. leb d.blocks_per_arena (free_cnt_of s.mem a))
    when full (free_arena ds p d a)
    lock_release d.lock

  unfoldable pub free : List Desc → PoolVars → ℕ → ℕ → M (Unit {0})
  free ds p fuel b = if b == 0 then pure tt else (do
    a ← checked (λ m. block_to_arena ds m b)
    desc ← ask (λ s. desc_at ds (desc_of s.mem a))
    pages ← ask (λ s. free_cnt_of s.mem a)
    elim desc [ some d ↦ free_small ds p fuel d a b | none ↦ palloc_free_multiple p a pages ])

  unfoldable pub realloc : List Desc → PoolVars → ℕ → ℕ → ℕ → M ℕ
  realloc ds p fuel old_block new_size =
      if new_size == 0 then (do free ds p fuel old_block; pure 0) else (do
        new_block ← malloc ds p fuel new_size
        when (not (old_block == 0) && not (new_block == 0)) (do
          old_size ← checked (λ m. block_size ds m old_block)
          on_memory (λ m.
              memcpy m new_block old_block (if ltb new_size old_size then new_size else old_size))
          free ds p fuel old_block)
        pure new_block)
