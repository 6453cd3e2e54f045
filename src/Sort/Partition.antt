-- ===== src/Sort/Partition.antt =====
-- `partition` splits a range at its pivot.
use pithread.Common.{
  ℕ, zero, suc, ◌+◌, ◌-◌, ◌≤◌, ◌<◌, ◌≡◌, ◌≢◌, ◌⊎◌, inl, inr, refl, ap, ◌∙◌, ltb, Bool-cases,
  ℕ_discrete, arith,
}
use pithread.Sort.{Ints, swap, partition_loop, partition}
use pithread.Sort.Swap.{
  SameCounts, SameCounts-trans, swap-SameCounts, swap_left, swap_right, swap_other,
}

-- The values from `start` up to `stop` come from there, and the other places keep theirs.
pub record Within (start stop : ℕ) (nums nums' : Ints) : Type 0 where
  pub outside : (i : ℕ) → (i < start) ⊎ (stop ≤ i) → nums' i ≡ nums i
  pub from :
      (i : ℕ) → start ≤ i → i < stop → (k : ℕ) × (start ≤ k) × (k < stop) × (nums' i ≡ nums k)
  pub counts : (n : ℕ) → stop ≤ n → SameCounts n nums nums'

Within-refl : (start stop : ℕ) (nums : Ints) → Within start stop nums nums
Within-refl start stop nums = record {
  outside = λ i o. refl;
  from = λ i le lt. (i, le, lt, refl);
  counts = λ n le v. refl;
}

Within-trans :
    (start stop : ℕ) (a b c : Ints)
    → Within start stop a b
    → Within start stop b c
    → Within start stop a c
Within-trans start stop a b c p q = record {
  outside = λ i o. q.outside i o ∙ p.outside i o;
  from = λ i le lt.
      let (k, le', lt', e) = q.from i le lt in
      let (j, le2, lt2, e') = p.from k le' lt' in (j, le2, lt2, e ∙ e');
  counts = λ n le. SameCounts-trans n a b c (p.counts n le) (q.counts n le);
}

Within-wider :
    (start stop start' stop' : ℕ) (a b : Ints)
    → start' ≤ start
    → stop ≤ stop'
    → Within start stop a b
    → Within start' stop' a b
Within-wider start stop start' stop' a b les lee p = record {
  outside = λ i o. p.outside i (elim o [ inl l ↦ inl (omega arith) | inr l ↦ inr (omega arith) ]);
  from = λ i le lt. elim (inside i) [
    | inl (ge, less) ↦ let (k, le', lt', e) = p.from i ge less in (k, omega arith, omega arith, e)
    | inr o ↦ (i, le, lt, p.outside i o)
  ];
  counts = λ n le. p.counts n (omega arith);
}
  where
    inside : (i : ℕ) → ((start ≤ i) × (i < stop)) ⊎ ((i < start) ⊎ (stop ≤ i))
    inside i = ground arith

swap-Within :
    (start stop x y : ℕ) (nums : Ints)
    → start ≤ x
    → x < stop
    → start ≤ y
    → y < stop
    → Within start stop nums (swap nums x y)
swap-Within start stop x y nums lx ux ly uy = record {
  outside = λ i o. swap_other nums x y i (λ e. off i o x lx ux e) (λ e. off i o y ly uy e);
  from = λ i le lt. elim (ℕ_discrete i y) [
    | yes e ↦ (x, lx, ux, ap (swap nums x y) e ∙ swap_right nums x y)
    | no ny ↦ elim (ℕ_discrete i x) [
      | yes e ↦ (y, ly, uy, ap (swap nums x y) e ∙ swap_left nums x y)
      | no nx ↦ (i, le, lt, swap_other nums x y i nx ny)
    ]
  ];
  counts = λ n le. swap-SameCounts nums x y n (omega arith) (omega arith);
}
  where
    off : (i : ℕ) → (i < start) ⊎ (stop ≤ i) → (z : ℕ) → start ≤ z → z < stop → i ≢ z
    off i (inl l) z lz uz e = omega arith
    off i (inr l) z lz uz e = omega arith

-- What the loop comes to: the numbers below the pivot come first.
pub record SplitAt (pivot start stop pos : ℕ) (nums nums' : Ints) : Type 0 where
  pub lower : start ≤ pos
  pub upper : pos ≤ stop
  pub less : (i : ℕ) → start ≤ i → i < pos → nums' i < pivot
  pub more : (i : ℕ) → pos ≤ i → i < stop → pivot ≤ nums' i
  pub within : Within start stop nums nums'

-- A round that leaves the first number where it is.
split_less :
    (pivot start stop pos : ℕ) (nums nums' : Ints)
    → nums start < pivot
    → start < stop
    → SplitAt pivot (start + 1) stop pos nums nums'
    → SplitAt pivot start stop pos nums nums'
split_less pivot start stop pos nums nums' lt inside s = record {
  lower = let l = s.lower in omega arith;
  upper = s.upper;
  less = λ i le below. elim (ℕ_discrete start i) [
    | yes e ↦
        let kept = s.within.outside i (inl (omega arith)) in let same = ap nums e in omega arith
    | no ne ↦ s.less i (omega arith) below
  ];
  more = s.more;
  within = Within-wider (start + 1) stop start stop nums nums' (omega arith) (omega arith) s.within;
}

-- A round that changes the first number for the last.
split_more :
    (pivot start last pos : ℕ) (nums nums' : Ints)
    → pivot ≤ nums start
    → start ≤ last
    → SplitAt pivot start last pos (swap nums start last) nums'
    → SplitAt pivot start (last + 1) pos nums nums'
split_more pivot start last pos nums nums' le inside s = record {
  lower = s.lower;
  upper = let u = s.upper in omega arith;
  less = s.less;
  more = λ i from lt. elim (ℕ_discrete i last) [
    | yes e ↦
        let kept = s.within.outside i (inr (omega arith)) in
        let moved = swap_right nums start last in
        let same = ap (swap nums start last) e in omega arith
    | no ne ↦ s.more i from (omega arith)
  ];
  within =
      Within-trans start (last + 1) nums (swap nums start last) nums'
        (swap-Within start (last + 1) start last nums (omega arith) (omega arith) inside
          (omega arith))
        (Within-wider start last start (last + 1) (swap nums start last) nums' (omega arith)
          (omega arith) s.within);
}

partition_loop_lem :
    (left : ℕ) (nums : Ints) (pivot start stop : ℕ)
    → stop ≡ start + left
    → let r = partition_loop left nums pivot start in SplitAt pivot start stop r.1 nums r.0
unfolding partition_loop
partition_loop_lem zero nums pivot start stop at = record {
  lower = omega arith;
  upper = omega arith;
  less = λ i le lt. absurd (omega arith);
  more = λ i le lt. absurd (omega arith);
  within = Within-refl start stop nums;
}
partition_loop_lem (suc left) nums pivot start stop at =
    elim (Bool-cases (ltb (nums start) pivot)) [
      | inl e ↦
          rw (e, partition_loop)
            (split_less pivot start stop _ nums _ (ground arith) (omega arith)
              (partition_loop_lem left nums pivot (start + 1) stop (omega arith)))
      | inr e ↦
          let behind : stop ≡ start + left + 1 = omega arith in
          rw (e, partition_loop)
            (rw behind (
              split_more pivot start (start + left) _ nums _ (ground arith) (omega arith) (
                partition_loop_lem left (swap nums start (start + left)) pivot start (start + left)
                  refl)))
    ]

-- What `partition` comes to: the pivot stands at `pos`, smaller numbers before it, the others behind.
pub record Parted (start stop pos : ℕ) (nums nums' : Ints) : Type 0 where
  pub lower : start ≤ pos
  pub upper : pos < stop
  pub less : (i : ℕ) → start ≤ i → i < pos → nums' i < nums' pos
  pub more : (i : ℕ) → pos < i → i < stop → nums' pos ≤ nums' i
  pub within : Within start stop nums nums'

-- The last swap brings the pivot from the end to its place.
parted :
    (start end pos : ℕ) (nums nums' : Ints)
    → SplitAt (nums end) start end pos (swap nums end end) nums'
    → Parted start (end + 1) pos nums (swap nums' pos end)
parted start end pos nums nums' s =
    let lower = s.lower in
    let upper = s.upper in
    let pivot : swap nums' pos end pos ≡ nums end =
      swap_left nums' pos end ∙ s.within.outside end (inr (omega arith)) ∙ swap_left nums end end in
    record {
      lower = lower;
      upper = omega arith;
      less = λ i le lt.
          let kept = swap_other nums' pos end i (λ e. omega arith) (λ e. omega arith) in
          let small = s.less i le lt in omega arith;
      more = λ i gt lt. elim (ℕ_discrete i end) [
        | yes e ↦
            let moved = swap_right nums' pos end in
            let same = ap (swap nums' pos end) e in
            let large = s.more pos (omega arith) (omega arith) in omega arith
        | no ne ↦
            let kept = swap_other nums' pos end i (λ e. omega arith) ne in
            let large = s.more i (omega arith) (omega arith) in omega arith
      ];
      within =
          Within-trans start (end + 1) nums (swap nums end end) (swap nums' pos end)
            (swap-Within start (end + 1) end end nums (omega arith) (omega arith) (omega arith)
              (omega arith))
            (Within-trans start (end + 1) (swap nums end end) nums' (swap nums' pos end)
              (Within-wider start end start (end + 1) _ nums' (omega arith) (omega arith) s.within)
              (swap-Within start (end + 1) pos end nums' lower (omega arith) (omega arith)
                (omega arith)));
    }

-- `partition` with the last number of a range as its pivot puts the pivot at the place that it
-- returns, every smaller number of the range before it and the others behind; it only moves the numbers
-- of the range, and moves none in or out.
pub partition_lem :
    (nums : Ints) (start end : ℕ)
    → start ≤ end
    → let r = partition nums start end end in Parted start (end + 1) r.1 nums r.0
unfolding partition
partition_lem nums start end le =
    parted start end _ nums _
      (partition_loop_lem (end - start) (swap nums end end) (nums end) start end (omega arith))
