-- ===== src/Bitmap/Bits.antt =====
-- The bits of a bitmap, and what the operations on one bit do to them.
use pithread.Common.{
  ℕ, ◌/◌, ◌%◌, ◌^◌, ◌<◌, ◌≤◌, ◌≡◌, ◌≢◌, refl, ap, ◌∙◌, Bool, true, false, not, ◌&&◌, ◌||◌, ◌==◌,
  some, none, if◌then◌else◌, arith, subst, ==_ne, ==_refl, ℕ_discrete, if_pos, if_neg, ltb,
}
use pithread.Words.{bit, bitwise, bit-bitwise, bit-pow, and_pow, word_not, xor}
use pithread.Bitmap.{
  Bitmap, elem_idx, bit_mask, set_elem, bitmap_mark, bitmap_reset, bitmap_flip, bitmap_set,
  bitmap_test,
}

-- Bit `j` of the bitmap.
abbrev pub bit_at : Bitmap → ℕ → Bool
bit_at b j = bit (j % 32) (b.bits (j / 32))

-- An operation on the word of bit `i`.
op_bit :
    (f : Bool → Bool → Bool) (b : Bitmap) (i j w : ℕ)
    → bit_at (set_elem b (i / 32) (bitwise f 32 (b.bits (i / 32)) w)) j
      ≡ (if (j / 32) == (i / 32) then f (bit_at b j) (bit (j % 32) w) else bit_at b j)
op_bit f b i j w = elim (ℕ_discrete (j / 32) (i / 32)) [
  | yes e ↦ rw (
    if_pos (ℕ_discrete (j / 32) (i / 32)) e,
    bit-bitwise f 32 (j % 32) (b.bits (i / 32)) w (omega arith),
    e,
    ==_refl (i / 32),
  )
  | no ne ↦ rw (if_neg (ℕ_discrete (j / 32) (i / 32)) ne, ==_ne (j / 32) (i / 32) ne)
]

mask_bit : (i j : ℕ) → j / 32 ≡ i / 32 → bit (j % 32) (2 ^ (i % 32)) ≡ (j == i)
mask_bit i j e = bit-pow (j % 32) (i % 32) ∙ ground arith

pub not-not : (x : Bool) → not (not x) ≡ x
not-not true = refl
not-not false = refl

apart : (i j : ℕ) → (j / 32 ≡ i / 32 → ⊥) → (j == i) ≡ false
apart i j ne = ==_ne j i (λ e. ne (ap (λ (n : ℕ). n / 32) e))

-- An operation that leaves a bit alone where the mask has none.
masked :
    (f : Bool → Bool → Bool) (b : Bitmap) (i j w : ℕ) (v x : Bool)
    → (j / 32 ≡ i / 32 → f (bit_at b j) (bit (j % 32) w) ≡ (if j == i then v else bit_at b j))
    → bit_at (set_elem b (i / 32) (bitwise f 32 (b.bits (i / 32)) w)) j
      ≡ (if j == i then v else bit_at b j)
masked f b i j w v x same = op_bit f b i j w ∙ elim (ℕ_discrete (j / 32) (i / 32)) [
  | yes e ↦
      rw (e, ==_refl (i / 32))
        (subst
          (λ (n : ℕ).
            f (bit (j % 32) (b.bits n)) (bit (j % 32) w)
            ≡ (if j == i then v else bit (j % 32) (b.bits n)))
          e (same e))
  | no ne ↦ rw (==_ne (j / 32) (i / 32) ne, apart i j ne)
]

or_mask : (x c : Bool) → (x || c) ≡ (if c then true else x)
or_mask true true = refl
or_mask true false = refl
or_mask false true = refl
or_mask false false = refl

and_mask : (x c : Bool) → (x && not c) ≡ (if c then false else x)
and_mask true true = refl
and_mask true false = refl
and_mask false true = refl
and_mask false false = refl

xor_mask : (x c : Bool) → xor x c ≡ (if c then not x else x)
xor_mask true true = refl
xor_mask true false = refl
xor_mask false true = refl
xor_mask false false = refl

-- `bitmap_mark` and `bitmap_reset` change the one bit, and no other.
pub bitmap_mark_lem :
    (b : Bitmap) (i j : ℕ) → bit_at (bitmap_mark b i) j ≡ (if j == i then true else bit_at b j)
unfolding bitmap_mark elem_idx bit_mask
bitmap_mark_lem b i j =
    masked (λ x y. x || y) b i j (2 ^ (i % 32)) true true
      (λ e. rw (mask_bit i j e) (or_mask (bit_at b j) (j == i)))

pub bitmap_reset_lem :
    (b : Bitmap) (i j : ℕ) → bit_at (bitmap_reset b i) j ≡ (if j == i then false else bit_at b j)
unfolding bitmap_reset elem_idx bit_mask
bitmap_reset_lem b i j =
    masked (λ x y. x && y) b i j (word_not (2 ^ (i % 32))) false true
      (λ e.
        rw (bit-bitwise (λ x y. not x) 32 (j % 32) (2 ^ (i % 32)) 0 (omega arith), mask_bit i j e)
          (and_mask (bit_at b j) (j == i)))

-- `bitmap_flip` negates the one bit, and no other.
bitmap_flip_lem :
    (b : Bitmap) (i j : ℕ)
    → bit_at (bitmap_flip b i) j ≡ (if j == i then not (bit_at b j) else bit_at b j)
unfolding bitmap_flip elem_idx bit_mask
bitmap_flip_lem b i j =
    masked xor b i j (2 ^ (i % 32)) (not (bit_at b j)) true
      (λ e. rw (mask_bit i j e) (xor_mask (bit_at b j) (j == i)))

-- `bitmap_test` reads the bit; past the last bit it fails the ASSERT.
pub bitmap_test_lem :
    (b : Bitmap) (i : ℕ) → bitmap_test b i ≡ (if ltb i b.bit_cnt then some (bit_at b i) else none)
unfolding bitmap_test elem_idx bit_mask
bitmap_test_lem b i = rw (and_pow 32 (i % 32) (b.bits (i / 32)) (omega arith), not-not (bit_at b i))

-- The store of a bitmap outside the word of bit `i`.
pub same_words : (b : Bitmap) (i k w : ℕ) → k ≢ i / 32 → (set_elem b (i / 32) w).bits k ≡ b.bits k
same_words b i k w ne = rw (if_neg (ℕ_discrete k (i / 32)) ne)

-- One bit set, as `bitmap_set` does it: the size stays, and the words of other bits.
pub record OneSet (b : Bitmap) (i : ℕ) (value : Bool) (b' : Bitmap) : Type 0 where
  pub size : b'.bit_cnt ≡ b.bit_cnt
  pub at : (j : ℕ) → bit_at b' j ≡ (if j == i then value else bit_at b j)
  pub words : (k : ℕ) → k ≢ i / 32 → b'.bits k ≡ b.bits k

pub bitmap_set_lem :
    (b : Bitmap) (i : ℕ) (value : Bool)
    → i < b.bit_cnt
    → (b' : Bitmap) × (bitmap_set b i value ≡ some b') × OneSet b i value b'
unfolding bitmap_set bitmap_mark bitmap_reset elem_idx
bitmap_set_lem b i true lt = (
  bitmap_mark b i,
  ground arith,
  record { size = refl; at = bitmap_mark_lem b i; words = λ k ne. same_words b i k _ ne },
)
bitmap_set_lem b i false lt = (
  bitmap_reset b i,
  ground arith,
  record { size = refl; at = bitmap_reset_lem b i; words = λ k ne. same_words b i k _ ne },
)

pub bitmap_set_out :
    (b : Bitmap) (i : ℕ) (value : Bool) → b.bit_cnt ≤ i → bitmap_set b i value ≡ none
unfolding bitmap_set
bitmap_set_out b i value le = ground arith
