-- ===== src/Sort/Pending.antt =====
-- What the array and the ranges that are yet to be sorted have to do with one another.
use pithread.Common.{
  ℕ, ◌+◌, ◌-◌, ◌≤◌, ◌<◌, ◌≡◌, ◌⊎◌, inl, inr, ap, ◌∙◌, ◌&&◌, List, [], ◌∷◌, ◌++◌, ltb, leb, dec_le,
  dec_lt, ℕ_discrete, if◌then◌else◌, arith,
}
use pithread.Sort.{Ints, Range}
use pithread.Sort.Partition.{Parted}

abbrev pub range : ℕ → ℕ → Range
range start stop = record { start = start; stop = stop }

abbrev pub holds : ℕ → Range → ℕ
holds i r = if leb r.start i && ltb i r.stop then 1 else 0

abbrev pub holds_both : ℕ → ℕ → Range → ℕ
holds_both i j r = if leb r.start i && ltb j r.stop then 1 else 0

-- How many of the ranges hold a place, and how many hold two.
abbrev pub owners : ℕ → List Range → ℕ
owners i [] = 0
owners i (r ∷ rs) = holds i r + owners i rs

abbrev pub common : ℕ → ℕ → List Range → ℕ
common i j [] = 0
common i j (r ∷ rs) = holds_both i j r + common i j rs

pub owners-append : (i : ℕ) (xs ys : List Range) → owners i (xs ++ ys) ≡ owners i xs + owners i ys
owners-append i [] ys = omega arith
owners-append i (r ∷ xs) ys = omega (arith, owners-append i xs ys)

pub common-append :
    (i j : ℕ) (xs ys : List Range) → common i j (xs ++ ys) ≡ common i j xs + common i j ys
common-append i j [] ys = omega arith
common-append i j (r ∷ xs) ys = omega (arith, common-append i j xs ys)

-- No two ranges share a place, all lie in the first `n` places, and two numbers out of order lie in one
-- range.
pub record IsPending (n : ℕ) (nums : Ints) (rs : List Range) : Type 0 where
  pub single : (i : ℕ) → owners i rs ≤ 1
  pub bounded : (i : ℕ) → n ≤ i → owners i rs ≡ 0
  pub ordered : (i j : ℕ) → i < j → j < n → (nums i ≤ nums j) ⊎ (0 < common i j rs)

-- Two lists of the same ranges.
pub record SameRanges (rs rs' : List Range) : Type 0 where
  pub owned : (i : ℕ) → owners i rs' ≡ owners i rs
  pub shared : (i j : ℕ) → common i j rs' ≡ common i j rs

pub IsPending-same :
    (n : ℕ) (nums : Ints) (rs rs' : List Range)
    → SameRanges rs rs'
    → IsPending n nums rs
    → IsPending n nums rs'
IsPending-same n nums rs rs' e p = record {
  single = λ i. let o = e.owned i in let b = p.single i in omega arith;
  bounded = λ i le. e.owned i ∙ p.bounded i le;
  ordered = λ i j lt ltn.
      let c = e.shared i j in
      elim (p.ordered i j lt ltn) [ inl le ↦ inl le | inr some_range ↦ inr (omega arith) ];
}

-- A range of at most one number is sorted.
holds_both_small : (i j : ℕ) (r : Range) → i < j → r.stop ≤ r.start + 1 → holds_both i j r ≡ 0
holds_both_small i j r lt small = ground arith

pub IsPending-small :
    (n : ℕ) (nums : Ints) (r : Range) (rs : List Range)
    → r.stop ≤ r.start + 1
    → IsPending n nums (r ∷ rs)
    → IsPending n nums rs
IsPending-small n nums r rs small p = record {
  single = λ i. let o = p.single i in omega arith;
  bounded = λ i le. let o = p.bounded i le in omega arith;
  ordered = λ i j lt ltn.
      let z = holds_both_small i j r lt small in
      elim (p.ordered i j lt ltn) [ inl le ↦ inl le | inr some_range ↦ inr (omega arith) ];
}

both_le_first : (i j : ℕ) (r : Range) → i < j → holds_both i j r ≤ holds i r
both_le_first i j r lt = ground arith

both_le_second : (i j : ℕ) (r : Range) → i < j → holds_both i j r ≤ holds j r
both_le_second i j r lt = ground arith

common-le_first : (i j : ℕ) (rs : List Range) → i < j → common i j rs ≤ owners i rs
common-le_first i j [] lt = omega arith
common-le_first i j (r ∷ rs) lt = omega (arith, both_le_first i j r lt, common-le_first i j rs lt)

common-le_second : (i j : ℕ) (rs : List Range) → i < j → common i j rs ≤ owners j rs
common-le_second i j [] lt = omega arith
common-le_second i j (r ∷ rs) lt =
    omega (arith, both_le_second i j r lt, common-le_second i j rs lt)

holds_inside : (i : ℕ) (r : Range) → r.start ≤ i → i < r.stop → holds i r ≡ 1
holds_inside i r le lt = ground arith

holds_parts :
    (i start stop pos : ℕ)
    → start ≤ pos
    → pos < stop
    → holds i (range start pos) + holds i (range (pos + 1) stop) ≤ holds i (range start stop)
holds_parts i start stop pos le lt = ground arith

module _ (n : ℕ) (nums nums' : Ints) (start stop pos : ℕ) (rs : List Range)
    (parted : Parted start stop pos nums nums') (p : IsPending n nums (range start stop ∷ rs)) where
  pub stop_inside : stop ≤ n
  stop_inside = elim (dec_le stop n) [
    | yes le ↦ le
    | no more ↦
        let lower = parted.lower in
        let upper = parted.upper in
        let owned = p.bounded (stop - 1) (omega arith) in
        let one = holds_inside (stop - 1) (range start stop) (omega arith) (omega arith) in
        absurd (omega arith)
  ]

  -- A place of the range has no other owner.
  no_other : (i : ℕ) → start ≤ i → i < stop → owners i rs ≡ 0
  no_other i le lt =
      let one = holds_inside i (range start stop) le lt in let o = p.single i in omega arith

  abbrev Outside : ℕ → Type 0
  Outside i = (i < start) ⊎ (stop ≤ i)

  not_both : (i j : ℕ) → i < j → Outside i ⊎ Outside j → holds_both i j (range start stop) ≡ 0
  not_both i j lt (inl (inl o)) = ground arith
  not_both i j lt (inl (inr o)) = ground arith
  not_both i j lt (inr (inl o)) = ground arith
  not_both i j lt (inr (inr o)) = ground arith

  abbrev pub two_parts : List Range
  two_parts = range start pos ∷ range (pos + 1) stop ∷ rs

  abbrev Sorted : ℕ → ℕ → Type 0
  Sorted i j = (nums' i ≤ nums' j) ⊎ (0 < common i j two_parts)

  both-Outside : (i j : ℕ) → i < j → j < n → Outside i → Outside j → Sorted i j
  both-Outside i j lt ltn oi oj =
      let same_i = parted.within.outside i oi in
      let same_j = parted.within.outside j oj in
      let none_here = not_both i j lt (inl oi) in
      elim (p.ordered i j lt ltn) [
        | inl le ↦ inl (omega arith)
        | inr some_range ↦ inr (omega arith)
      ]

  before_range : (i j : ℕ) → i < start → start ≤ j → j < stop → Sorted i j
  before_range i j li lj uj =
      let same = parted.within.outside i (inl li) in
      let (k, lk, uk, moved) = parted.within.from j lj uj in
      let none_here = not_both i k (omega arith) (inl (inl li)) in
      let none_else = no_other k lk uk in
      let few = common-le_second i k rs (omega arith) in
      let fits = stop_inside in
      elim (p.ordered i k (omega arith) (omega arith)) [
        | inl le ↦ inl (omega arith)
        | inr some_range ↦ absurd (omega arith)
      ]

  behind_range : (i j : ℕ) → start ≤ i → i < stop → stop ≤ j → j < n → Sorted i j
  behind_range i j li ui lj ltn =
      let same = parted.within.outside j (inr lj) in
      let (k, lk, uk, moved) = parted.within.from i li ui in
      let none_here = not_both k j (omega arith) (inr (inr lj)) in
      let none_else = no_other k lk uk in
      let few = common-le_first k j rs (omega arith) in
      elim (p.ordered k j (omega arith) ltn) [
        | inl le ↦ inl (omega arith)
        | inr some_range ↦ absurd (omega arith)
      ]

  to_pivot : (i : ℕ) → start ≤ i → i ≤ pos → nums' i ≤ nums' pos
  to_pivot i li le = elim (ℕ_discrete i pos) [
    | yes e ↦ let same = ap nums' e in omega arith
    | no ne ↦ let smaller = parted.less i li (omega arith) in omega arith
  ]

  from_pivot : (j : ℕ) → pos ≤ j → j < stop → nums' pos ≤ nums' j
  from_pivot j le uj = elim (ℕ_discrete j pos) [
    | yes e ↦ let same = ap nums' e in omega arith
    | no ne ↦ parted.more j (omega arith) uj
  ]

  inside_range : (i j : ℕ) → i < j → start ≤ i → j < stop → Sorted i j
  inside_range i j lt li uj = elim (dec_lt j pos) [
    | yes lj ↦ inr (let one : holds_both i j (range start pos) ≡ 1 = ground arith in omega arith)
    | no gj ↦ elim (dec_lt pos i) [
      | yes gi ↦
          inr (let one : holds_both i j (range (pos + 1) stop) ≡ 1 = ground arith in omega arith)
      | no li' ↦
          let lower = to_pivot i li (omega arith) in
          let upper = from_pivot j (omega arith) uj in inl (omega arith)
    ]
  ]

  ordered_parts : (i j : ℕ) → i < j → j < n → Sorted i j
  ordered_parts i j lt ltn = elim (dec_lt i start) [
    | yes bi ↦ elim (dec_lt j start) [
      | yes bj ↦ both-Outside i j lt ltn (inl bi) (inl bj)
      | no lj ↦ elim (dec_lt j stop) [
        | yes uj ↦ before_range i j bi (omega arith) uj
        | no aj ↦ both-Outside i j lt ltn (inl bi) (inr (omega arith))
      ]
    ]
    | no li ↦ elim (dec_lt i stop) [
      | yes ui ↦ elim (dec_lt j stop) [
        | yes uj ↦ inside_range i j lt (omega arith) uj
        | no aj ↦ behind_range i j (omega arith) ui (omega arith) ltn
      ]
      | no ai ↦ both-Outside i j lt ltn (inr (omega arith)) (inr (omega arith))
    ]
  ]

  -- A range that is partitioned leaves its two two_parts.
  pub IsPending-parted : IsPending n nums' two_parts
  IsPending-parted = record {
    single = λ i.
        let o = p.single i in
        let h = holds_parts i start stop pos parted.lower parted.upper in omega arith;
    bounded = λ i le.
        let o = p.bounded i le in
        let h = holds_parts i start stop pos parted.lower parted.upper in omega arith;
    ordered = ordered_parts;
  }
