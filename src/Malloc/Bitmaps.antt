-- ===== src/Malloc/Bitmaps.antt =====
-- lib/bitmap.c: bitmaps in blocks of malloc. A `struct bitmap` is two words in byte memory, its size
-- and the address of its words.
use pithread.Common.{
  ℕ, zero, suc, ◌+◌, ◌*◌, Bool, false, not, ◌||◌, ◌&&◌, ltb, Option, none, some, List, ◌==◌,
  if◌then◌else◌,
}
use pithread.Memory.{Memory}
use pithread.Round.{u32}
use pithread.Words.{word_or, word_and, word_not}
use pithread.Bitmap.{Bitmap, elem_idx, bit_mask, byte_cnt, in_range}
use pithread.Thread.ListLib.{ListLib}
use pithread.Thread.State.{M, ◌>>=◌, ◌>>◌, pure, ask, modify}
use pithread.Thread.Create.{on_memory, store_word}
use pithread.Palloc.{PoolVars}
use pithread.Malloc.{Desc, load_word}
use pithread.Malloc.Calls.{malloc, free}

-- The bitmap at an address.
abbrev pub bitmap_at : Memory → ℕ → Bitmap
bitmap_at m b = record {
  bit_cnt = load_word m b;
  bits = λ k. load_word m (load_word m (b + 4) + 4 * k);
}

-- `bitmap_set(b, idx, value)` of a bitmap in memory.
unfoldable pub bitmap_set_at : ℕ → ℕ → Bool → Memory → Option Memory
bitmap_set_at b idx value m =
    if not (b == 0) && ltb idx (load_word m b)
    then (let word = load_word m (b + 4) + 4 * elem_idx idx in
        some (
          store_word m word (
            if value
            then word_or (load_word m word) (bit_mask idx)
            else word_and (load_word m word) (word_not (bit_mask idx)))))
    else none

-- The loop `for (; i < cnt; i++)` of `bitmap_set_multiple`, by the rounds that are left.
unfoldable pub set_loop_at : ℕ → ℕ → ℕ → ℕ → Bool → Memory → Option Memory
set_loop_at zero b start i value m = some m
set_loop_at (suc n) b start i value m = elim (bitmap_set_at b (u32 (start + i)) value m) [
  | none ↦ none
  | some m' ↦ set_loop_at n b start (i + 1) value m'
]

unfoldable pub set_multiple_at : ℕ → ℕ → ℕ → Bool → Memory → Option Memory
set_multiple_at b start cnt value m =
    if not (b == 0) && in_range (bitmap_at m b) start cnt
    then set_loop_at cnt b start 0 value m
    else none

-- `bitmap_set_all(b, value)` of a bitmap in memory, with `b` beside what it leaves.
unfoldable pub set_all_at : ℕ → Bool → Memory → Option (ℕ × Memory)
set_all_at b value m =
    if b == 0
    then none
    else elim (set_multiple_at b 0 (load_word m b) value m) [ none ↦ none | some m' ↦ some (b, m') ]

module _ ⦃l : ListLib⦄ where
  abbrev store_at : ℕ → ℕ → M (Unit {0})
  store_at a w = modify (λ s. record s { mem = store_word s.mem a w })

  unfoldable pub bitmap_create : List Desc → PoolVars → ℕ → ℕ → M ℕ
  bitmap_create ds p fuel bit_cnt = do
    b ← malloc ds p fuel 8
    if b == 0 then pure 0 else (do
      store_at b bit_cnt
      bits ← malloc ds p fuel (byte_cnt bit_cnt)
      store_at (b + 4) bits
      if not (bits == 0) || bit_cnt == 0
          then (do on_memory (set_all_at b false); pure b)
          else (do free ds p fuel b; pure 0))

  unfoldable pub bitmap_destroy : List Desc → PoolVars → ℕ → ℕ → M (Unit {0})
  bitmap_destroy ds p fuel b =
      if b == 0
      then pure tt
      else (do bits ← ask (λ s. load_word s.mem (b + 4)); free ds p fuel bits; free ds p fuel b)
