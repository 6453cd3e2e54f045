-- ===== src/Sort/Swap.antt =====
-- What a swap does to the places of an array, and that it keeps how often each value occurs.
use pithread.Common.{
  ℕ, zero, suc, ◌+◌, ◌≤◌, ◌<◌, ◌≡◌, ◌≢◌, refl, ap, ◌∙◌, ◌==◌, ==_ne, if◌then◌else◌, ℕ_discrete,
  arith,
}
use pithread.Sort.{Ints, assign, swap}

-- How often `v` occurs in the first `n` places.
abbrev pub occurs : ℕ → Ints → ℕ → ℕ
occurs v nums zero = 0
occurs v nums (suc n) = (if nums n == v then 1 else 0) + occurs v nums n

-- The two arrays hold the same values, as often, in their first `n` places.
abbrev pub SameCounts : ℕ → Ints → Ints → Type 0
SameCounts n nums nums' = (v : ℕ) → occurs v nums' n ≡ occurs v nums n

pub SameCounts-trans :
    (n : ℕ) (a b c : Ints) → SameCounts n a b → SameCounts n b c → SameCounts n a c
SameCounts-trans n a b c p q v = q v ∙ p v

occurs-assign_above :
    (v : ℕ) (nums : Ints) (i w n : ℕ) → n ≤ i → occurs v (assign nums i w) n ≡ occurs v nums n
occurs-assign_above v nums i w zero le = refl
occurs-assign_above v nums i w (suc n) le =
    let rest = occurs-assign_above v nums i w n (omega arith) in
    let other = ==_ne n i (λ e. omega arith) in
    rw other (ap (λ (k : ℕ). (if nums n == v then 1 else 0) + k) rest)

-- A write trades the old value for the new one.
occurs-assign :
    (v : ℕ) (nums : Ints) (i w n : ℕ)
    → i < n
    → occurs v (assign nums i w) n + (if nums i == v then 1 else 0)
      ≡ occurs v nums n + (if w == v then 1 else 0)
occurs-assign v nums i w zero lt = absurd (omega arith)
occurs-assign v nums i w (suc n) lt = elim (ℕ_discrete n i) [
  | yes e ↦
      let above = occurs-assign_above v nums i w n (omega arith) in
      let new : assign nums i w n ≡ w = ground arith in
      let old : nums n ≡ nums i = ap nums e in rw (new, above, old) (omega arith)
  | no ne ↦
      let rest = occurs-assign v nums i w n (omega arith) in
      let other = ==_ne n i ne in rw other (omega arith)
]

pub swap-SameCounts : (nums : Ints) (x y n : ℕ) → x < n → y < n → SameCounts n nums (swap nums x y)
unfolding swap
swap-SameCounts nums x y n lx ly v =
    let first = occurs-assign v nums x (nums y) n lx in
    let second = occurs-assign v (assign nums x (nums y)) y (nums x) n ly in
    let kept : assign nums x (nums y) y ≡ nums y = ground arith in
    let traded = rw kept at second in omega arith

pub swap_left : (nums : Ints) (x y : ℕ) → swap nums x y x ≡ nums y
unfolding swap
swap_left nums x y = ground arith

pub swap_right : (nums : Ints) (x y : ℕ) → swap nums x y y ≡ nums x
unfolding swap
swap_right nums x y = ground arith

pub swap_other : (nums : Ints) (x y j : ℕ) → j ≢ x → j ≢ y → swap nums x y j ≡ nums j
unfolding swap
swap_other nums x y j nx ny = ground arith
