-- ===== src/Str/Move.antt =====
-- `memmove`.
use pithread.Common.{
  ℕ, zero, suc, ◌+◌, ◌-◌, ◌≤◌, ◌<◌, ◌≡◌, ◌≢◌, ◌⊎◌, inl, inr, refl, ap, ◌∙◌, ltb, if◌then◌else◌,
  ==_ne, dec_lt, ℕ_discrete, arith,
}
use pithread.Memory.{Memory, store, copy_up}
use pithread.Memory.Blocks.{InBlock, copy_up-outside, copy_up-inside}
use pithread.Str.{done, copy_down, memmove}

copy_down-outside :
    (n : ℕ) (m : Memory) (dst src a : ℕ) → (a < dst) ⊎ (dst + n ≤ a) → copy_down n m dst src a ≡ m a
unfolding copy_down store
copy_down-outside zero m dst src a out = refl
copy_down-outside (suc n) m dst src a out =
    copy_down-outside n (store m (dst + n) (m (src + n))) dst src a (omega arith) ∙ ground arith

-- Downwards, the blocks may overlap as long as the destination does not start below the source.
copy_down-inside :
    (n : ℕ) (m : Memory) (dst src a : ℕ)
    → src ≤ dst
    → InBlock dst n a
    → copy_down n m dst src a ≡ m (src + (a - dst))
unfolding copy_down store
copy_down-inside zero m dst src a le h = absurd (omega arith)
copy_down-inside (suc n) m dst src a le h = elim (ℕ_discrete a (dst + n)) [
  | yes e ↦
      copy_down-outside n (store m (dst + n) (m (src + n))) dst src a (inr (omega arith))
      ∙ ground (arith, ap m (let q : src + n ≡ src + (a - dst) = omega arith in q))
  | no ne ↦
      copy_down-inside n (store m (dst + n) (m (src + n))) dst src a le (omega arith, omega arith)
      ∙ ground arith
]

-- Where `memmove` leaves the blocks: the destination holds what the source held, also when they
-- overlap, and nothing else changes.
pub record Moved (m : Memory) (dst src size : ℕ) (m' : Memory) : Type 0 where
  pub inside : (a : ℕ) → InBlock dst size a → m' a ≡ m (src + (a - dst))
  pub outside : (a : ℕ) → (a < dst) ⊎ (dst + size ≤ a) → m' a ≡ m a

-- `memmove` moves the block, and returns the end of the destination when it lies below the
-- source, and its start otherwise.
pub memmove_lem :
    (m : Memory) (dst src size : ℕ)
    → dst ≢ 0
    → src ≢ 0
    → (m' : Memory) × (memmove m dst src size
        ≡ done ((if ltb dst src then dst + size else dst), m'))
      × Moved m dst src size m'
unfolding memmove
memmove_lem m dst src size nd ns = elim (dec_lt dst src) [
  | yes l ↦ (
    copy_up size m dst src,
    rw (==_ne dst 0 nd, ==_ne src 0 ns) (ground arith),
    record {
      inside = λ a h. copy_up-inside size m dst src a (inl l) h;
      outside = λ a h. copy_up-outside size m dst src a h;
    },
  )
  | no l ↦ (
    copy_down size m dst src,
    rw (==_ne dst 0 nd, ==_ne src 0 ns) (ground arith),
    record {
      inside = λ a h. copy_down-inside size m dst src a (omega arith) h;
      outside = λ a h. copy_down-outside size m dst src a h;
    },
  )
]
