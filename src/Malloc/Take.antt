-- ===== src/Malloc/Take.antt =====
-- A block that `malloc` takes off the list of its descriptor.
use pithread.Common.{
  ℕ, ◌+◌, ◌-◌, ◌^◌, ◌<◌, ◌≡◌, ◌≢◌, sym, ap, subst, ◌∙◌, Option, none, some, List, ◌∷◌, arith,
  ℕ_discrete,
}
use pithread.Round.{u32}
use pithread.Thread.ListLib.{ListLib}
use pithread.Thread.State.{State, Res, ok, failed, in_lock, update, update_self}
use pithread.Thread.Create.{store_word}
use pithread.Thread.Inv.{Inv}
use pithread.Thread.Sync.{set_holder}
use pithread.Thread.Sync.Semaphore.{Woken-SameRest}
use pithread.Thread.Sync.Lock.{lock_release_lem}
use pithread.Memory.{Memory}
use pithread.Malloc.{Desc, free_cnt_of, block_to_arena, arena_to_block}
use pithread.Malloc.Calls.{checked, pop_block, take_block}
use pithread.Malloc.Arena.{IsArena, block_to_arena_to_block}
use pithread.Malloc.Header.{free_cnt-IsArena}

module _ ⦃l : ListLib⦄ (ds : List Desc) (d : Desc) where
  -- The block `b` of the arena `a` is given out: it is off the list, the arena has one free block less
  -- than `n`, and the lock of the descriptor is free.
  pub record Given (a n : ℕ) (rest : List ℕ) (t : State l) : Type 0 where
    pub invariant : Inv t
    pub unlocked : t.holder d.lock ≡ 0
    pub list : l.elems (t.free_blocks d.here) ≡ rest
    pub arena : IsArena ds t.mem d a
    pub count : free_cnt_of t.mem a + 1 ≡ n

  abbrev popped : State l → l.T → State l
  popped s q = record s { free_blocks = update ℕ_discrete s.free_blocks d.here q }

  pop_block-ok :
      (s : State l) (b : ℕ) (q : l.T)
      → l.list_pop_front (s.free_blocks d.here) ≡ some (b, q)
      → pop_block d s ≡ ok b (popped s q)
  unfolding pop_block
  pop_block-ok s b q e = rw (e, pop_block)

  checked-ok :
      (s : State l) (a b : ℕ)
      → block_to_arena ds s.mem b ≡ some a
      → checked (λ m. block_to_arena ds m b) s ≡ ok a s
  checked-ok s a b e =
      ap (λ (o : Option ℕ). elim o as (λ _. Res l ℕ) [ none ↦ failed | some x ↦ ok x s ]) e

  take_block-at :
      (s : State l) (a b : ℕ) (rest : List ℕ)
      → d.lock ≢ 0
      → s.holder d.lock ≡ s.current
      → Inv s
      → l.elems (s.free_blocks d.here) ≡ b ∷ rest
      → IsArena ds s.mem d a
      → block_to_arena ds s.mem b ≡ some a
      → free_cnt_of s.mem a ≢ 0
      → free_cnt_of s.mem a < 2 ^ 32
      → (t : State l) × (take_block ds d s ≡ ok b t) × Given a (free_cnt_of s.mem a) rest t
  unfolding take_block
  take_block-at s a b rest ne own v listed h back some_free word =
      let (q, e, after_pop) = l.pop_front-cons (s.free_blocks d.here) b rest listed in
      let n = u32 (free_cnt_of s.mem a + 2 ^ 32 - 1) in
      let (arena, count) = free_cnt-IsArena ds s.mem d a n (omega arith) h in
      let s1 : State l = record s {
        free_blocks = update ℕ_discrete s.free_blocks d.here q;
        mem = store_word s.mem (a + 8) n;
      } in
      let (t, e2, v', free, _, _, _, w) =
        lock_release_lem d.lock s1 ne own
          (record { lists = v.lists; running = v.running; locks = v.locks }) in
      let same = Woken-SameRest (in_lock d.lock) (set_holder d.lock 0 s1) t w in
      (
        t,
        rw (pop_block-ok s b q e, checked-ok (popped s q) a b back, e2),
        record {
          invariant = v';
          unlocked = free;
          list =
              ap (λ f. l.elems (f d.here)) same.free_blocks
              ∙ ap l.elems (update_self ℕ_discrete s.free_blocks d.here q)
              ∙ after_pop;
          arena = subst (λ m. IsArena ds m d a) (sym same.mem) arena;
          count = ap (λ m. free_cnt_of m a + 1) same.mem ∙ ap (λ x. x + 1) count ∙ omega arith;
        },
      )

  -- The block at an index of an arena leads back to the arena.
  back_to :
      (m : Memory) (a b idx : ℕ)
      → IsArena ds m d a
      → idx < d.blocks_per_arena
      → arena_to_block ds m a idx ≡ some b
      → block_to_arena ds m b ≡ some a
  back_to m a b idx h lt at =
      let (b', e, inside, back) = block_to_arena_to_block ds m d a idx h lt in
      let same : b' ≡ b = cc in subst (λ (x : ℕ). block_to_arena ds m x ≡ some a) same back

  -- The holder of the lock of a descriptor, whose list begins with a block of one of its arenas, by
  -- `arena_to_block`, and whose count there is not 0, takes that block: no ASSERT fails, the block is off the list, its arena has one
  -- free block less, and the lock is given back with the invariant of the threads.
  pub take_block_lem :
      (s : State l) (a b idx : ℕ) (rest : List ℕ)
      → d.lock ≢ 0
      → s.holder d.lock ≡ s.current
      → Inv s
      → l.elems (s.free_blocks d.here) ≡ b ∷ rest
      → IsArena ds s.mem d a
      → idx < d.blocks_per_arena
      → arena_to_block ds s.mem a idx ≡ some b
      → free_cnt_of s.mem a ≢ 0
      → free_cnt_of s.mem a < 2 ^ 32
      → (t : State l) × (take_block ds d s ≡ ok b t) × Given a (free_cnt_of s.mem a) rest t
  take_block_lem s a b idx rest ne own v listed h lt at some_free word =
      take_block-at s a b rest ne own v listed h (back_to s.mem a b idx h lt at) some_free word
