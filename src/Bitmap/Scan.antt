-- ===== src/Bitmap/Scan.antt =====
-- `bitmap_scan` and `bitmap_scan_and_flip`.
use pithread.Common.{
  ℕ, zero, suc, ◌+◌, ◌-◌, ◌^◌, ◌<◌, ◌≤◌, ◌≡◌, ◌⊎◌, inl, inr, refl, ◌∙◌, Bool, not, Option, some,
  arith, ==_ne, leb-true, leb-false, dec_lt, dec_le, subst,
}
use pithread.Bitmap.{Bitmap, scan_loop, bitmap_scan, bitmap_scan_and_flip, bitmap_error}
use pithread.Bitmap.Bits.{bit_at, not-not}
use pithread.Bitmap.Ranges.{InRange, RangeSet, bitmap_set_multiple_lem}
use pithread.Bitmap.Search.{bitmap_contains_lem}

-- All of the `n` bits from `i` on have the value, or one has not.
abbrev pub Group : Bitmap → ℕ → ℕ → Bool → Type 0
Group b i n value = (j : ℕ) → InRange i n j → bit_at b j ≡ value

abbrev pub NoGroup : Bitmap → ℕ → ℕ → Bool → Type 0
NoGroup b i n value = (j : ℕ) × InRange i n j × (bit_at b j ≡ not value)

-- The first group at or after `start`.
pub record First (b : Bitmap) (start cnt : ℕ) (value : Bool) (idx : ℕ) : Type 0 where
  pub after : start ≤ idx
  pub fits : idx + cnt ≤ b.bit_cnt
  pub group : Group b idx cnt value
  pub earlier : (i : ℕ) → start ≤ i → i < idx → NoGroup b i cnt value

-- What a search comes to: the first group, or BITMAP_ERROR, and then there is no group.
abbrev pub Found : Bitmap → ℕ → ℕ → Bool → Option ℕ → Type 0
Found b start cnt value r =
    ((idx : ℕ) × (r ≡ some idx) × First b start cnt value idx)
    ⊎ ((r ≡ some bitmap_error)
        × ((i : ℕ) → start ≤ i → i + cnt ≤ b.bit_cnt → NoGroup b i cnt value))

Found-next :
    (b : Bitmap) (i cnt : ℕ) (value : Bool) (r : Option ℕ)
    → NoGroup b i cnt value
    → Found b (i + 1) cnt value r
    → Found b i cnt value r
Found-next b i cnt value r here (inl (idx, e, f)) = inl (
  idx,
  e,
  record {
    after = let a = f.after in omega arith;
    fits = f.fits;
    group = f.group;
    earlier = λ k le lt. elim (dec_lt i k) [
      | yes l ↦ f.earlier k (omega arith) lt
      | no l ↦ subst (λ (x : ℕ). NoGroup b x cnt value) (let q : i ≡ k = omega arith in q) here
    ];
  },
)
Found-next b i cnt value r here (inr (e, all)) = inr (
  e,
  λ k le fits. elim (dec_lt i k) [
    | yes l ↦ all k (omega arith) fits
    | no l ↦ subst (λ (x : ℕ). NoGroup b x cnt value) (let q : i ≡ k = omega arith in q) here
  ],
)

scan_loop_lem :
    (n : ℕ) (b : Bitmap) (i cnt : ℕ) (value : Bool)
    → b.bit_cnt < 2 ^ 32
    → b.bit_cnt < i + cnt + n
    → (n ≡ 0) ⊎ (i + cnt + n ≤ b.bit_cnt + 1)
    → Found b i cnt value (scan_loop n b i cnt value)
unfolding scan_loop
scan_loop_lem zero b i cnt value lt big fit = inr (refl, λ k le fits. absurd (omega arith))
scan_loop_lem (suc n) b i cnt value lt big fit =
    elim (bitmap_contains_lem b i cnt (not value) lt (omega arith)) [
      | inl (e, (j, h, at)) ↦
          rw (e, scan_loop)
            (Found-next b i cnt value (scan_loop n b (i + 1) cnt value) (j, h, at)
              (scan_loop_lem n b (i + 1) cnt value lt (omega arith) (omega arith)))
      | inr (e, all) ↦
          rw (e, scan_loop)
            (inl (
              i,
              refl,
              record {
                after = omega arith;
                fits = omega arith;
                group = λ j h. all j h ∙ not-not value;
                earlier = λ k le lt. absurd (omega arith);
              },
            ))
    ]

-- `bitmap_scan` returns where the first group starts, or BITMAP_ERROR when there is none. The
-- loop's bound is enough.
bitmap_scan_lem :
    (b : Bitmap) (start cnt : ℕ) (value : Bool)
    → b.bit_cnt < 2 ^ 32
    → start ≤ b.bit_cnt
    → Found b start cnt value (bitmap_scan b start cnt value)
unfolding bitmap_scan
bitmap_scan_lem b start cnt value lt le = elim (dec_le cnt b.bit_cnt) [
  | yes l ↦
      rw (leb-true start b.bit_cnt le, leb-true cnt b.bit_cnt l)
        (scan_loop_lem (b.bit_cnt - cnt + 1 - start) b start cnt value lt (omega arith)
          (omega arith))
  | no l ↦
      rw (leb-true start b.bit_cnt le, leb-false cnt b.bit_cnt l)
        (inr (refl, λ i h fits. absurd (omega arith)))
]

-- What `bitmap_scan_and_flip` comes to: the first group, which then has the other value, or
-- BITMAP_ERROR, and the bitmap as it was.
abbrev pub Flipped : Bitmap → ℕ → ℕ → Bool → Option (ℕ × Bitmap) → Type 0
Flipped b start cnt value r =
    ((idx : ℕ) × (b' : Bitmap) × (r ≡ some (idx, b'))
      × First b start cnt value idx
      × RangeSet b idx cnt (not value) b')
    ⊎ ((r ≡ some (bitmap_error, b))
        × ((i : ℕ) → start ≤ i → i + cnt ≤ b.bit_cnt → NoGroup b i cnt value))

-- `bitmap_scan_and_flip` from a start within the bitmap flips the first group of bits with the
-- value and returns where it starts, or returns BITMAP_ERROR and changes nothing when there is none.
pub bitmap_scan_and_flip_lem :
    (b : Bitmap) (start cnt : ℕ) (value : Bool)
    → b.bit_cnt < bitmap_error
    → start ≤ b.bit_cnt
    → Flipped b start cnt value (bitmap_scan_and_flip b start cnt value)
unfolding bitmap_scan_and_flip
bitmap_scan_and_flip_lem b start cnt value lt le =
    elim (bitmap_scan_lem b start cnt value (omega arith) le) [
      | inl (idx, e, f) ↦
          let fits = f.fits in
          let (b', set, s) = bitmap_set_multiple_lem b idx cnt (not value) (omega arith) fits in
          inl (
            idx,
            b',
            rw (e, ==_ne idx bitmap_error (λ q. omega arith), set, bitmap_scan_and_flip) refl,
            f,
            s,
          )
      | inr (e, all) ↦ inr (rw (e, bitmap_scan_and_flip) refl, all)
    ]
