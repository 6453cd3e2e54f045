-- ===== src/Memory/Blocks.antt =====
-- What the loops of `memcpy` and `memset` leave at each address.
use pithread.Common.{
  ℕ, zero, suc, ◌+◌, ◌-◌, ◌≤◌, ◌<◌, ◌≡◌, refl, ◌≢◌, ◌⊎◌, inl, inr, ◌==◌, Bool-cases, ap, ==_ne,
  arith, some,
}
use pithread.Memory.{Memory, store, copy_up, fill, memcpy}

-- `a` lies in the `n` bytes at `p`.
abbrev pub InBlock : ℕ → ℕ → ℕ → Type 0
InBlock p n a = (p ≤ a) × (a < p + n)

pub copy_up-outside :
    (n : ℕ) (m : Memory) (dst src a : ℕ) → (a < dst) ⊎ (dst + n ≤ a) → copy_up n m dst src a ≡ m a
unfolding copy_up store
copy_up-outside zero m dst src a out = refl
copy_up-outside (suc n) m dst src a out =
    ground (arith, copy_up-outside n (store m dst (m src)) (dst + 1) (src + 1) a)

-- Upwards, the blocks may overlap as long as the destination starts below the source.
pub copy_up-inside :
    (n : ℕ) (m : Memory) (dst src a : ℕ)
    → (dst < src) ⊎ (src + n ≤ dst)
    → InBlock dst n a
    → copy_up n m dst src a ≡ m (src + (a - dst))
unfolding copy_up store
copy_up-inside zero m dst src a apart h = absurd (omega arith)
copy_up-inside (suc n) m dst src a apart h = elim (Bool-cases (a == dst)) [
  | inl e ↦
      let here : a ≡ dst = ground arith in
      rw (copy_up-outside n (store m dst (m src)) (dst + 1) (src + 1) a (omega arith))
        (ground (arith, ap m (let q : src ≡ src + (a - dst) = omega arith in q)))
  | inr e ↦
      let far : src + 1 + (a - (dst + 1)) ≡ src + (a - dst) = ground arith in
      rw
        (
          copy_up-inside n (store m dst (m src)) (dst + 1) (src + 1) a (ground arith)
              (ground arith),
          far,
        )
        (ground arith)
]

pub fill-outside :
    (n : ℕ) (m : Memory) (dst v a : ℕ) → (a < dst) ⊎ (dst + n ≤ a) → fill n m dst v a ≡ m a
unfolding fill store
fill-outside zero m dst v a out = refl
fill-outside (suc n) m dst v a out = ground (arith, fill-outside n (store m dst v) (dst + 1) v a)

pub fill-inside : (n : ℕ) (m : Memory) (dst v a : ℕ) → InBlock dst n a → fill n m dst v a ≡ v
unfolding fill store
fill-inside zero m dst v a h = absurd (omega arith)
fill-inside (suc n) m dst v a h = elim (Bool-cases (a == dst)) [
  | inl e ↦ rw (fill-outside n (store m dst v) (dst + 1) v a (ground arith)) (ground arith)
  | inr e ↦ fill-inside n (store m dst v) (dst + 1) v a (ground arith)
]

pub memcpy-ok :
    (m : Memory) (dst src n : ℕ)
    → dst ≢ 0
    → src ≢ 0
    → memcpy m dst src n ≡ some (dst, copy_up n m dst src)
unfolding memcpy
memcpy-ok m dst src n nd ns = rw (==_ne dst 0 nd, ==_ne src 0 ns)
