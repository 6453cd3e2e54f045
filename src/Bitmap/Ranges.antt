-- ===== src/Bitmap/Ranges.antt =====
-- The operations of a bitmap on a range of bits.
use pithread.Common.{
  ℕ, zero, suc, ◌+◌, ◌*◌, ◌^◌, ◌<◌, ◌≤◌, ◌≡◌, ◌⊎◌, inl, refl, ◌∙◌, Bool, true, false, Option, some,
  none, if◌then◌else◌, arith, dec_lt, subst,
}
use pithread.Round.{u32}
use pithread.Bitmap.{Bitmap, set_loop, bitmap_set_multiple, in_range}
use pithread.Bitmap.Bits.{bit_at, OneSet, bitmap_set_lem, bitmap_set_out}

-- `j` is one of the `n` bits from `lo` on.
abbrev pub InRange : ℕ → ℕ → ℕ → Type 0
InRange lo n j = (lo ≤ j) × (j < lo + n)

abbrev pub OutRange : ℕ → ℕ → ℕ → Type 0
OutRange lo n j = (j < lo) ⊎ (lo + n ≤ j)

-- The `n` bits from `lo` on have the value, the other bits and the words past the last bit are as
-- they were.
pub record RangeSet (b : Bitmap) (lo n : ℕ) (value : Bool) (b' : Bitmap) : Type 0 where
  pub size : b'.bit_cnt ≡ b.bit_cnt
  pub inside : (j : ℕ) → InRange lo n j → bit_at b' j ≡ value
  pub outside : (j : ℕ) → OutRange lo n j → bit_at b' j ≡ bit_at b j
  pub words : (k : ℕ) → b.bit_cnt ≤ 32 * k → b'.bits k ≡ b.bits k

pub no_wrap : (n : ℕ) → n < 2 ^ 32 → u32 n ≡ n
no_wrap n lt = omega arith

range_step :
    (b b1 b' : Bitmap) (lo n : ℕ) (value : Bool)
    → lo < b.bit_cnt
    → OneSet b lo value b1
    → RangeSet b1 (lo + 1) n value b'
    → RangeSet b lo (suc n) value b'
range_step b b1 b' lo n value lt one more = record {
  size = more.size ∙ one.size;
  inside = λ j h. elim (dec_lt lo j) [
    | yes l ↦ more.inside j (omega arith, omega arith)
    | no l ↦ more.outside j (inl (omega arith)) ∙ one.at j ∙ ground arith
  ];
  outside = λ j h. more.outside j (omega arith) ∙ one.at j ∙ ground arith;
  words = λ k h. more.words k (rw one.size h) ∙ one.words k (λ e. omega arith);
}

set_loop_lem :
    (n start i : ℕ) (b : Bitmap) (value : Bool)
    → b.bit_cnt < 2 ^ 32
    → start + i + n ≤ b.bit_cnt
    → (b' : Bitmap) × (set_loop n b start i value ≡ some b') × RangeSet b (start + i) n value b'
unfolding set_loop
set_loop_lem zero start i b value lt le = (
  b,
  refl,
  record {
    size = refl;
    inside = λ j h. absurd (omega arith);
    outside = λ j h. refl;
    words = λ k h. refl;
  },
)
set_loop_lem (suc n) start i b value lt le =
    let (b1, e1, one) = bitmap_set_lem b (start + i) value (omega arith) in
    let same : b1.bit_cnt ≡ b.bit_cnt = one.size in
    let (b', e, more) = set_loop_lem n start (i + 1) b1 value (omega arith) (omega arith) in
    (
      b',
      rw (no_wrap (start + i) (omega arith), e1, set_loop) e,
      range_step b b1 b' (start + i) n value (omega arith) one (
          subst (λ (k : ℕ). RangeSet b1 k n value b')
            (let q : start + (i + 1) ≡ start + i + 1 = omega arith in q) more),
    )

set_loop_out :
    (n start i : ℕ) (b : Bitmap) (value : Bool)
    → b.bit_cnt < 2 ^ 32
    → start + i ≤ b.bit_cnt
    → b.bit_cnt < start + i + n
    → set_loop n b start i value ≡ none
unfolding set_loop
set_loop_out zero start i b value lt le out = absurd (omega arith)
set_loop_out (suc n) start i b value lt le out = elim (dec_lt (start + i) b.bit_cnt) [
  | yes l ↦
      let (b1, e1, one) = bitmap_set_lem b (start + i) value l in
      let same : b1.bit_cnt ≡ b.bit_cnt = one.size in
      rw (no_wrap (start + i) (omega arith), e1, set_loop)
        (set_loop_out n start (i + 1) b1 value (omega arith) (omega arith) (omega arith))
  | no l ↦ rw (
    no_wrap (start + i) (omega arith),
    bitmap_set_out b (start + i) value (omega arith),
    set_loop,
  )
]

pub in_range-ok :
    (b : Bitmap) (start cnt : ℕ)
    → b.bit_cnt < 2 ^ 32
    → start + cnt ≤ b.bit_cnt
    → in_range b start cnt ≡ true
in_range-ok b start cnt lt le = ground arith

-- A range within the bitmap is set, and nothing else is changed.
pub bitmap_set_multiple_lem :
    (b : Bitmap) (start cnt : ℕ) (value : Bool)
    → b.bit_cnt < 2 ^ 32
    → start + cnt ≤ b.bit_cnt
    → (b' : Bitmap) × (bitmap_set_multiple b start cnt value ≡ some b')
      × RangeSet b start cnt value b'
unfolding bitmap_set_multiple
bitmap_set_multiple_lem b start cnt value lt le =
    let (b', e, s) = set_loop_lem cnt start 0 b value lt (omega arith) in
    (
      b',
      rw (in_range-ok b start cnt lt le) e,
      subst (λ (k : ℕ). RangeSet b k cnt value b') (let q : start + 0 ≡ start = omega arith in q) s,
    )

if_none : (c : Bool) (r : Option Bitmap) → r ≡ none → (if c then r else none) ≡ none
if_none true r e = e
if_none false r e = refl

-- A range that passes the last bit fails an ASSERT, also when the sum in the code's own test
-- wraps.
bitmap_set_multiple_out :
    (b : Bitmap) (start cnt : ℕ) (value : Bool)
    → b.bit_cnt < 2 ^ 32
    → b.bit_cnt < start + cnt
    → bitmap_set_multiple b start cnt value ≡ none
unfolding bitmap_set_multiple
bitmap_set_multiple_out b start cnt value lt out = elim (dec_lt b.bit_cnt start) [
  | yes l ↦ ground arith
  | no l ↦
      if_none (in_range b start cnt) (set_loop cnt b start 0 value)
        (set_loop_out cnt start 0 b value lt (omega arith) (omega arith))
]
