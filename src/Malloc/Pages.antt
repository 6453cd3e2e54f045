-- ===== src/Malloc/Pages.antt =====
-- page.h: the offset in a page and the start of a page, by the bit operations that compute them.
use pithread.Common.{
  ℕ, zero, suc, ◌+◌, ◌-◌, ◌*◌, ◌/◌, ◌%◌, ◌^◌, ◌<◌, ◌≤◌, ◌≡◌, refl, ap, ◌∙◌, Bool, true, false, not,
  ◌&&◌, arith,
}
use native.Mathlib.Nat.{mul_assoc}
use pithread.Words.{bit, digit, bitwise, digit_low, digit_high, and_zero}
use pithread.Palloc.{pgsize, pg_ofs}
use pithread.Malloc.{pg_round_down}

-- The `w` low bits of a number.
abbrev low : ℕ → ℕ → ℕ
low zero a = 0
low (suc w) a = digit (bit 0 a) + 2 * low w (a / 2)

low_all : (w a : ℕ) → a < 2 ^ w → low w a ≡ a
low_all zero a lt = omega arith
low_all (suc w) a lt =
    let rest = low_all w (a / 2) (omega arith) in
    ap (λ (x : ℕ). digit (bit 0 a) + 2 * x) rest ∙ ground arith

split_digit :
    (x y : Bool) (p q : ℕ)
    → digit (x && not y) + 2 * p + (digit (x && y) + 2 * q) ≡ digit x + 2 * (p + q)
split_digit x y p q = ground arith

-- What a mask takes and what its complement takes are together the number.
and_split :
    (w a m : ℕ)
    → bitwise (λ x y. x && y) w a (bitwise (λ x y. not x) w m 0) + bitwise (λ x y. x && y) w a m
      ≡ low w a
unfolding bitwise
and_split zero a m = refl
and_split (suc w) a m =
    let flip = bitwise (λ x y. not x) w (m / 2) 0 in
    rw (digit_low (not (bit 0 m)) flip, digit_high (not (bit 0 m)) flip)
      (split_digit (bit 0 a) (bit 0 m) _ _
        ∙ ap (λ (x : ℕ). digit (bit 0 a) + 2 * x) (and_split w (a / 2) (m / 2)))

pub pg_round_down_lem : (va : ℕ) → va < 2 ^ 32 → pg_round_down va + pg_ofs va ≡ va
unfolding pg_round_down pg_ofs
pg_round_down_lem va lt = and_split 32 va (pgsize - 1) ∙ low_all 32 va lt

abbrev ones : ℕ → ℕ
ones zero = 0
ones (suc k) = 2 * ones k + 1

and_true : (x : Bool) → (x && true) ≡ x
and_true true = refl
and_true false = refl

and_ones : (k w a : ℕ) → k ≤ w → bitwise (λ x y. x && y) w a (ones k) ≡ low k a
unfolding bitwise
and_ones zero w a le = and_zero w a
and_ones (suc k) zero a le = absurd (omega arith)
and_ones (suc k) (suc w) a le =
    let odd : bit 0 (2 * ones k + 1) ≡ true = ground arith in
    let half : (2 * ones k + 1) / 2 ≡ ones k = omega arith in
    rw (odd, half)
      (rw (and_true (bit 0 a))
        (ap (λ (x : ℕ). digit (bit 0 a) + 2 * x) (and_ones k w (a / 2) (omega arith))))

-- The bits above the low ones.
abbrev high : ℕ → ℕ → ℕ
high zero a = a
high (suc k) a = high k (a / 2)

low_small : (k a : ℕ) → low k a < 2 ^ k
low_small zero a = omega arith
low_small (suc k) a = let less = low_small k (a / 2) in ground arith

twice_pow : (k h : ℕ) → 2 ^ suc k * h ≡ 2 * (2 ^ k * h)
twice_pow k h =
    ap (λ (x : ℕ). x * h) (let z : 2 ^ suc k ≡ 2 * 2 ^ k = omega arith in z) ∙ mul_assoc 2 (2 ^ k) h

low-high : (k a : ℕ) → low k a + 2 ^ k * high k a ≡ a
low-high zero a = omega arith
low-high (suc k) a =
    let rest = low-high k (a / 2) in let twice = twice_pow k (high k (a / 2)) in ground arith

-- The offset is what is left of a division by the size of a page.
low_twelve : (a : ℕ) → low 12 a ≡ a % 4096
low_twelve a = low_mod (low 12 a) (high 12 a) (low_small 12 a) (low-high 12 a)
  where
    low_mod : (r q : ℕ) → r < 4096 → r + 4096 * q ≡ a → r ≡ a % 4096
    low_mod r q lt e = omega arith

pub pg_ofs_lem : (va : ℕ) → pg_ofs va ≡ va % pgsize
unfolding pg_ofs
pg_ofs_lem va = and_ones 12 32 va (omega arith) ∙ low_twelve va
