-- ===== src/Malloc/Request.antt =====
-- Which descriptor serves a request, and how many pages a big block takes.
use pithread.Common.{
  ℕ, zero, suc, ◌+◌, ◌-◌, ◌*◌, ◌/◌, ◌^◌, ◌<◌, ◌≤◌, ◌≡◌, ◌⊎◌, true, false, Option, none, some, List,
  [], ◌∷◌, leb, arith,
}
use pithread.Round.{u32, div_round_up}
use pithread.Palloc.{pgsize}
use pithread.Thread.ListLib.{ListLib}
use pithread.Thread.State.{State}
use pithread.Malloc.{Desc, arena_size, big_pages}

-- The descriptor that a round of `malloc_init` makes.
abbrev made : (ℕ → ℕ) → (ℕ → ℕ) → ℕ → ℕ → Desc
made descs locks cnt size = record {
  here = descs cnt;
  block_size = size;
  blocks_per_arena = (pgsize - arena_size) / size;
  lock = locks cnt;
}

abbrev table : (ℕ → ℕ) → (ℕ → ℕ) → ℕ → ℕ → ℕ → List Desc
table descs locks zero cnt size = []
table descs locks (suc left) cnt size =
    made descs locks cnt size ∷ table descs locks left (cnt + 1) (u32 (size * 2))

-- The size of the last one.
abbrev largest : ℕ → ℕ → ℕ
largest zero size = 0
largest (suc zero) size = size
largest (suc (suc left)) size = largest (suc left) (u32 (size * 2))

-- The loop makes so many rounds.
abbrev Rounds : ℕ → ℕ → Type 0
Rounds zero size = leb size (pgsize / 2) ≡ false
Rounds (suc left) size = (leb size (pgsize / 2) ≡ true) × Rounds left (u32 (size * 2))

-- A descriptor that serves a request: its blocks are large enough, and twice too large only when they
-- are the smallest; all its blocks fit into an arena.
pub record Serves (smallest size : ℕ) (d : Desc) : Type 0 where
  pub enough : size ≤ d.block_size
  pub tight : (d.block_size ≡ smallest) ⊎ (d.block_size < 2 * size)
  pub room : arena_size + d.blocks_per_arena * d.block_size ≤ pgsize

abbrev Answer : ℕ → ℕ → ℕ → Option Desc → Type 0
Answer smallest last size r =
    ((d : Desc) × (r ≡ some d) × Serves smallest size d) ⊎ ((r ≡ none) × (last < size))

-- The blocks of all descriptors are smaller than a request.
abbrev AllBelow : ℕ → ℕ → ℕ → Type 0
AllBelow zero bs size = Unit {0}
AllBelow (suc left) bs size = (bs < size) × AllBelow left (u32 (bs * 2)) size

-- A big block has the pages for its header and its size, and not one more, when the sum can be
-- rounded up within a size_t; a request of the last 11 sizes gets one page.
pub big_pages_lem :
    (size : ℕ)
    → size < 2 ^ 32
    → ((size + arena_size + pgsize ≤ 2 ^ 32)
        → (size + arena_size ≤ pgsize * big_pages size)
          × (pgsize * big_pages size < size + arena_size + pgsize))
      × (2 ^ 32 < size + arena_size → big_pages size ≡ 1)
unfolding big_pages div_round_up
big_pages_lem size lt = ((λ fits. (omega arith, omega arith)), λ wraps. omega arith)
