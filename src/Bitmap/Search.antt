-- ===== src/Bitmap/Search.antt =====
-- The searches of a bitmap for a bit in a range, and the count.
use pithread.Common.{
  ℕ, zero, suc, ◌+◌, ◌^◌, ◌<◌, ◌≤◌, ◌≡◌, ◌⊎◌, inl, inr, refl, ap, ◌∙◌, Bool, true, false, not,
  Option, some, if◌then◌else◌, arith, Bool-cases, dec_lt, subst,
}
use pithread.Round.{u32}
use pithread.Bitmap.{
  Bitmap, bitmap_test, contains_loop, bitmap_contains, count_loop, bitmap_count, eqb,
}
use pithread.Bitmap.Bits.{bit_at, bitmap_test_lem}
use pithread.Bitmap.Ranges.{InRange, no_wrap, in_range-ok}

pub test_in :
    (b : Bitmap) (i : ℕ)
    → i < b.bit_cnt
    → b.bit_cnt < 2 ^ 32
    → bitmap_test b (u32 i) ≡ some (bit_at b i)
test_in b i lt small = rw (no_wrap i (omega arith), bitmap_test_lem b i) (ground arith)

pub eqb-true : (x y : Bool) → eqb x y ≡ true → x ≡ y
eqb-true true true e = refl
eqb-true true false e = cc
eqb-true false true e = cc
eqb-true false false e = refl

pub eqb-false : (x y : Bool) → eqb x y ≡ false → x ≡ not y
eqb-false true true e = cc
eqb-false true false e = refl
eqb-false false true e = refl
eqb-false false false e = cc

-- What `bitmap_contains` answers: a bit of the range has the value, or none has.
abbrev pub Search : Bitmap → ℕ → ℕ → Bool → Option Bool → Type 0
Search b lo n value r =
    ((r ≡ some true) × ((j : ℕ) × InRange lo n j × (bit_at b j ≡ value)))
    ⊎ ((r ≡ some false) × ((j : ℕ) → InRange lo n j → bit_at b j ≡ not value))

Search-next :
    (b : Bitmap) (lo n : ℕ) (value : Bool) (r : Option Bool)
    → bit_at b lo ≡ not value
    → Search b (lo + 1) n value r
    → Search b lo (suc n) value r
Search-next b lo n value r e (inl (f, (j, h, at))) = inl (f, (j, (omega arith, omega arith), at))
Search-next b lo n value r e (inr (f, all)) = inr (
  f,
  λ j h. elim (dec_lt lo j) [
    | yes l ↦ all j (omega arith, omega arith)
    | no l ↦ ap (bit_at b) (let q : j ≡ lo = omega arith in q) ∙ e
  ],
)

contains_loop_lem :
    (n start i : ℕ) (b : Bitmap) (value : Bool)
    → b.bit_cnt < 2 ^ 32
    → start + i + n ≤ b.bit_cnt
    → Search b (start + i) n value (contains_loop n b start i value)
unfolding contains_loop
contains_loop_lem zero start i b value lt le = inr (refl, λ j h. absurd (omega arith))
contains_loop_lem (suc n) start i b value lt le =
    rw (test_in b (start + i) (omega arith) lt, contains_loop)
      (elim (Bool-cases (eqb (bit_at b (start + i)) value)) [
        | inl e ↦ rw e (
            inl (
              refl,
              (start + i, (omega arith, omega arith), eqb-true (bit_at b (start + i)) value e),
            ))
        | inr e ↦ rw (e) (
            Search-next b (start + i) n value (contains_loop n b start (i + 1) value)
              (eqb-false (bit_at b (start + i)) value e)
              (subst (λ (k : ℕ). Search b k n value (contains_loop n b start (i + 1) value))
                (let q : start + (i + 1) ≡ start + i + 1 = omega arith in q)
                (contains_loop_lem n start (i + 1) b value lt (omega arith))))
      ])

-- `bitmap_contains` within the bitmap finds a bit with the value, or there is none.
pub bitmap_contains_lem :
    (b : Bitmap) (start cnt : ℕ) (value : Bool)
    → b.bit_cnt < 2 ^ 32
    → start + cnt ≤ b.bit_cnt
    → Search b start cnt value (bitmap_contains b start cnt value)
unfolding bitmap_contains
bitmap_contains_lem b start cnt value lt le = rw (in_range-ok b start cnt lt le) (
    subst (λ (k : ℕ). Search b k cnt value (contains_loop cnt b start 0 value))
      (let q : start + 0 ≡ start = omega arith in q)
      (contains_loop_lem cnt start 0 b value lt (omega arith)))

-- The number of bits with the value.
unfoldable pub number : Bitmap → ℕ → ℕ → Bool → ℕ
number b lo zero value = 0
number b lo (suc n) value = (if eqb (bit_at b lo) value then 1 else 0) + number b (lo + 1) n value

pub number-le : (b : Bitmap) (lo n : ℕ) (value : Bool) → number b lo n value ≤ n
unfolding number
number-le b lo zero value = omega arith
number-le b lo (suc n) value = ground (arith, number-le b (lo + 1) n value)

one_way : (x : Bool) → (if eqb x true then 1 else 0) + (if eqb x false then 1 else 0) ≡ 1
one_way true = refl
one_way false = refl

number_both : (b : Bitmap) (lo n : ℕ) → number b lo n true + number b lo n false ≡ n
unfolding number
number_both b lo zero = refl
number_both b lo (suc n) =
    let both = number_both b (lo + 1) n in let one = one_way (bit_at b lo) in omega arith

count_loop_lem :
    (n start i c : ℕ) (b : Bitmap) (value : Bool)
    → b.bit_cnt < 2 ^ 32
    → start + i + n ≤ b.bit_cnt
    → c ≤ i
    → count_loop n b start i value c ≡ some (c + number b (start + i) n value)
unfolding count_loop number
count_loop_lem zero start i c b value lt le small = ap some (let q : c ≡ c + 0 = omega arith in q)
count_loop_lem (suc n) start i c b value lt le small =
    let q : start + (i + 1) ≡ start + i + 1 = omega arith in
    rw (test_in b (start + i) (omega arith) lt, count_loop)
      (elim (Bool-cases (eqb (bit_at b (start + i)) value)) [
        | inl e ↦
            rw (e, no_wrap (c + 1) (omega arith))
              (count_loop_lem n start (i + 1) (c + 1) b value lt (omega arith) (omega arith)
                ∙ rw q (ap some (omega arith)))
        | inr e ↦ rw (e) (
            count_loop_lem n start (i + 1) c b value lt (omega arith) (omega arith)
            ∙ rw q (ap some (omega arith)))
      ])

-- `bitmap_count` within the bitmap is the number of its bits with the value, and what it gives
-- for true and for false makes up the range.
bitmap_count_lem :
    (b : Bitmap) (start cnt : ℕ)
    → b.bit_cnt < 2 ^ 32
    → start + cnt ≤ b.bit_cnt
    → (m k : ℕ) × (bitmap_count b start cnt true ≡ some m)
      × (bitmap_count b start cnt false ≡ some k)
      × (m + k ≡ cnt)
      × (m ≡ number b start cnt true)
unfolding bitmap_count
bitmap_count_lem b start cnt lt le =
    let z : start + 0 ≡ start = omega arith in
    (
      number b start cnt true,
      number b start cnt false,
      rw (in_range-ok b start cnt lt le) (
          count_loop_lem cnt start 0 0 b true lt (omega arith) (omega arith)
          ∙ rw z (ap some (omega arith))),
      rw (in_range-ok b start cnt lt le) (
          count_loop_lem cnt start 0 0 b false lt (omega arith) (omega arith)
          ∙ rw z (ap some (omega arith))),
      number_both b start cnt,
      refl,
    )
