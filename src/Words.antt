-- ===== src/Words.antt =====
-- The bit operations of C on 32-bit words, and what they do to each bit.
use pithread.Common.{
  ℕ, zero, suc, ◌+◌, ◌*◌, ◌/◌, ◌%◌, ◌^◌, ◌<◌, ◌≡◌, refl, ap, ◌∙◌, Bool, true, false, not, ◌&&◌,
  ◌||◌, ◌==◌, if◌then◌else◌, arith,
}

-- Bit `i` of a number.
abbrev pub bit : ℕ → ℕ → Bool
bit zero a = a % 2 == 1
bit (suc i) a = bit i (a / 2)

abbrev pub digit : Bool → ℕ
digit b = if b then 1 else 0

-- The operation `f` on the `w` low bits.
unfoldable pub bitwise : (Bool → Bool → Bool) → ℕ → ℕ → ℕ → ℕ
bitwise f zero a b = 0
bitwise f (suc w) a b = digit (f (bit 0 a) (bit 0 b)) + 2 * bitwise f w (a / 2) (b / 2)

abbrev pub xor : Bool → Bool → Bool
xor true b = not b
xor false b = b

-- `a | b`, `a & b`, `a ^ b` and `~a`.
abbrev pub word_or : ℕ → ℕ → ℕ
word_or a b = bitwise (λ x y. x || y) 32 a b

abbrev pub word_and : ℕ → ℕ → ℕ
word_and a b = bitwise (λ x y. x && y) 32 a b

abbrev pub word_xor : ℕ → ℕ → ℕ
word_xor a b = bitwise xor 32 a b

abbrev pub word_not : ℕ → ℕ
word_not a = bitwise (λ x y. not x) 32 a 0

pub digit_low : (x : Bool) (y : ℕ) → bit 0 (digit x + 2 * y) ≡ x
digit_low true y = ground arith
digit_low false y = ground arith

pub digit_high : (x : Bool) (y : ℕ) → (digit x + 2 * y) / 2 ≡ y
digit_high true y = omega arith
digit_high false y = omega arith

pub bit-bitwise :
    (f : Bool → Bool → Bool) (w i a b : ℕ) → i < w → bit i (bitwise f w a b) ≡ f (bit i a) (bit i b)
unfolding bitwise
bit-bitwise f zero i a b lt = absurd (omega arith)
bit-bitwise f (suc w) zero a b lt = digit_low (f (bit 0 a) (bit 0 b)) (bitwise f w (a / 2) (b / 2))
bit-bitwise f (suc w) (suc i) a b lt =
    ap (bit i) (digit_high (f (bit 0 a) (bit 0 b)) (bitwise f w (a / 2) (b / 2)))
    ∙ bit-bitwise f w i (a / 2) (b / 2) (omega arith)

pub bitwise-below : (f : Bool → Bool → Bool) (w a b : ℕ) → bitwise f w a b < 2 ^ w
unfolding bitwise
bitwise-below f zero a b = omega arith
bitwise-below f (suc w) a b = below (f (bit 0 a) (bit 0 b)) (bitwise-below f w (a / 2) (b / 2))
  where
    below : (x : Bool) {n : ℕ} → n < 2 ^ w → digit x + 2 * n < 2 ^ suc w
    below true lt = omega arith
    below false lt = omega arith

pub bit_zero : (i : ℕ) → bit i 0 ≡ false
bit_zero zero = refl
bit_zero (suc i) = bit_zero i

half_pow : (k : ℕ) → 2 ^ suc k / 2 ≡ 2 ^ k
half_pow k = omega arith

even_pow : (k : ℕ) → bit 0 (2 ^ suc k) ≡ false
even_pow k = ground arith

pub bit-pow : (i k : ℕ) → bit i (2 ^ k) ≡ (i == k)
bit-pow zero zero = refl
bit-pow zero (suc k) = even_pow k ∙ ground arith
bit-pow (suc i) zero = bit_zero i ∙ ground arith
bit-pow (suc i) (suc k) = ap (bit i) (half_pow k) ∙ bit-pow i k ∙ ground arith

and_false : (x : Bool) → digit (x && false) ≡ 0
and_false true = refl
and_false false = refl

pub and_zero : (w a : ℕ) → bitwise (λ x y. x && y) w a 0 ≡ 0
unfolding bitwise
and_zero zero a = refl
and_zero (suc w) a = rw (and_false (bit 0 a), and_zero w (a / 2))

and_true : (x : Bool) (n : ℕ) → n ≡ 0 → (digit (x && true) + 2 * n == 0) ≡ not x
and_true true n e = ground arith
and_true false n e = ground arith

half_test : (x : Bool) (b : Bool) (n : ℕ) → b ≡ false → (digit (x && b) + 2 * n == 0) ≡ (n == 0)
half_test true b n e = ground arith
half_test false b n e = ground arith

-- The test of one bit by a mask.
pub and_pow : (w k a : ℕ) → k < w → (bitwise (λ x y. x && y) w a (2 ^ k) == 0) ≡ not (bit k a)
unfolding bitwise
and_pow zero k a lt = absurd (omega arith)
and_pow (suc w) zero a lt =
    and_true (bit 0 a) (bitwise (λ x y. x && y) w (a / 2) 0) (and_zero w (a / 2))
and_pow (suc w) (suc k) a lt =
    half_test (bit 0 a) (bit 0 (2 ^ suc k)) (bitwise (λ x y. x && y) w (a / 2) (2 ^ suc k / 2))
      (even_pow k)
    ∙ ap (λ (n : ℕ). bitwise (λ x y. x && y) w (a / 2) n == 0) (half_pow k)
    ∙ and_pow w k (a / 2) (omega arith)
