-- ===== src/Malloc/Arena.antt =====
-- The blocks of an arena: where they lie, and the way back from a block to its arena.
use pithread.Common.{
  ℕ, zero, suc, ◌+◌, ◌-◌, ◌*◌, ◌%◌, ◌^◌, ◌<◌, ◌≤◌, ◌≡◌, ◌≢◌, ap, ◌∙◌, true, false, not, ◌&&◌, ◌||◌,
  some, List, ltb, ◌==◌, ==_ne, arith,
}
use native.Mathlib.Nat.{mul-mod_left}
use pithread.Memory.{Memory}
use pithread.Round.{u32}
use pithread.Palloc.{pgsize, pg_ofs}
use pithread.Malloc.{
  Desc, arena_magic, arena_size, magic_of, desc_of, desc_at, block_in, block_to_arena,
  arena_to_block, pg_round_down,
}
use pithread.Malloc.Pages.{pg_ofs_lem, pg_round_down_lem}

-- An arena of a descriptor: a page that is not the last of the address space, with its header; the
-- blocks of the descriptor fit into a page behind the header.
pub record IsArena (ds : List Desc) (m : Memory) (d : Desc) (a : ℕ) : Type 0 where
  pub aligned : a % pgsize ≡ 0
  pub not_null : a ≢ 0
  pub below : a + pgsize < 2 ^ 32
  pub magic : magic_of m a ≡ arena_magic
  pub owned : desc_of m a ≢ 0
  pub owner : desc_at ds (desc_of m a) ≡ some d
  pub some_bytes : d.block_size ≢ 0
  pub fits : arena_size + d.blocks_per_arena * d.block_size ≤ pgsize

-- Block `idx` ends where block `idx + 1` begins, and not behind the last one.
block_end : (idx n size : ℕ) → idx < n → idx * size + size ≤ n * size
block_end zero zero size lt = absurd (omega arith)
block_end (suc idx) zero size lt = absurd (omega arith)
block_end zero (suc n) size lt = omega arith
block_end (suc idx) (suc n) size lt = let rest = block_end idx n size (omega arith) in omega arith

-- Where block `idx` begins.
abbrev pub block_at : Desc → ℕ → ℕ → ℕ
block_at d a idx = a + arena_size + idx * d.block_size

-- A block lies in its arena, behind the header and whole.
pub record InArena (d : Desc) (a b : ℕ) : Type 0 where
  pub behind : a + arena_size ≤ b
  pub whole : b + d.block_size ≤ a + pgsize

-- A place in a page leads to the start of the page.
in_page :
    (a o : ℕ)
    → a % pgsize ≡ 0
    → o < pgsize
    → a + pgsize < 2 ^ 32
    → (pg_ofs (a + o) ≡ o) × (pg_round_down (a + o) ≡ a)
in_page a o aligned lt below =
    let ofs : pg_ofs (a + o) ≡ o = pg_ofs_lem (a + o) ∙ omega arith in
    let down = pg_round_down_lem (a + o) (omega arith) in (ofs, omega arith)

-- The ASSERTs of the two functions.
to_block :
    (ds : List Desc) (m : Memory) (d : Desc) (a idx : ℕ)
    → IsArena ds m d a
    → idx < d.blocks_per_arena
    → arena_to_block ds m a idx ≡ some (u32 (block_at d a idx))
unfolding arena_to_block
to_block ds m d a idx h lt =
    let magic = h.magic in
    let not_null = h.not_null in
    let tests : (not (a == 0) && magic_of m a == arena_magic && ltb idx d.blocks_per_arena) ≡ true =
      ground arith in
    rw (h.owner, arena_to_block) (rw tests)

to_arena :
    (ds : List Desc) (m : Memory) (d : Desc) (a b : ℕ)
    → IsArena ds m d a
    → u32 (pg_ofs b + 2 ^ 32 - arena_size) % d.block_size ≡ 0
    → block_in ds m b a ≡ some a
unfolding block_in
to_arena ds m d a b h e =
    let magic = h.magic in
    let not_null = h.not_null in
    let tests : (a == 0 || not (magic_of m a == arena_magic)) ≡ false = ground arith in
    rw tests (rw (==_ne (desc_of m a) 0 h.owned) (rw h.owner (rw e)))

-- `arena_to_block` of every block of an arena fails no ASSERT, the block lies in the arena behind the
-- header, and `block_to_arena` leads from it back to the arena.
pub block_to_arena_to_block :
    (ds : List Desc) (m : Memory) (d : Desc) (a idx : ℕ)
    → IsArena ds m d a
    → idx < d.blocks_per_arena
    → (b : ℕ) × (arena_to_block ds m a idx ≡ some b)
      × InArena d a b
      × (block_to_arena ds m b ≡ some a)
unfolding block_to_arena
block_to_arena_to_block ds m d a idx h lt =
    let offset = idx * d.block_size in
    let last = block_end idx d.blocks_per_arena d.block_size lt in
    let some_bytes = h.some_bytes in
    let fits = h.fits in
    let below = h.below in
    let b = a + (arena_size + offset) in
    let (ofs, down) = in_page a (arena_size + offset) h.aligned (omega arith) below in
    let whole : u32 (block_at d a idx) ≡ b = omega arith in
    let place : u32 (pg_ofs b + 2 ^ 32 - arena_size) % d.block_size ≡ 0 =
      ap (λ (x : ℕ). u32 (x + 2 ^ 32 - arena_size) % d.block_size) ofs
      ∙ ap (λ (x : ℕ). x % d.block_size)
          (let z : u32 (arena_size + offset + 2 ^ 32 - arena_size) ≡ offset = omega arith in z)
      ∙ mul-mod_left idx d.block_size in
    (
      b,
      to_block ds m d a idx h lt ∙ ap some whole,
      record { behind = omega arith; whole = omega arith },
      ap (block_in ds m b) down ∙ to_arena ds m d a b h place,
    )
