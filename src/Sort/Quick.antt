-- ===== src/Sort/Quick.antt =====
-- `quick`: it ends, it leaves fewer numbers to sort, and what it leaves out of order is left to threads.
use pithread.Common.{
  ℕ, zero, suc, ◌+◌, ◌-◌, ◌*◌, ◌≤◌, ◌<◌, ◌≡◌, refl, subst, Option, some, true, List, [], ◌∷◌, ◌++◌,
  append_assoc, ltb, Bool-cases, inl, inr, arith,
}
use pithread.Sort.{Range, Sorting, Launch, new_thread, launch, parts, quick, partition}
use pithread.Sort.Swap.{SameCounts, SameCounts-trans}
use pithread.Sort.Partition.{partition_lem}
use pithread.Sort.Pending.{
  range, owners-append, common-append, IsPending, SameRanges, IsPending-same, IsPending-small,
  IsPending-parted, stop_inside,
}

-- A measure of what is left to do.
abbrev pub weight : Range → ℕ
weight r = 2 * (r.stop - r.start) + 1

abbrev pub weights : List Range → ℕ
weights [] = 0
weights (r ∷ rs) = weight r + weights rs

pub weights-append : (xs ys : List Range) → weights (xs ++ ys) ≡ weights xs + weights ys
weights-append [] ys = omega arith
weights-append (r ∷ xs) ys = omega (arith, weights-append xs ys)

-- A range that moves behind others.
move_back :
    (x : Range) (xs rest : List Range) → SameRanges (x ∷ (xs ++ rest)) ((xs ++ x ∷ []) ++ rest)
move_back x xs rest = record {
  owned = λ i.
      rw (append_assoc xs (x ∷ []) rest)
        (omega (arith, owners-append i xs (x ∷ rest), owners-append i xs rest));
  shared = λ i j.
      rw (append_assoc xs (x ∷ []) rest)
        (omega (arith, common-append i j xs (x ∷ rest), common-append i j xs rest));
}

move_in :
    (x y : Range) (xs rest : List Range) → SameRanges (x ∷ y ∷ (xs ++ rest)) (x ∷ (xs ++ y ∷ rest))
move_in x y xs rest = record {
  owned = λ i. omega (arith, owners-append i xs (y ∷ rest), owners-append i xs rest);
  shared = λ i j. omega (arith, common-append i j xs (y ∷ rest), common-append i j xs rest);
}

move_front : (y : Range) (xs rest : List Range) → SameRanges (xs ++ y ∷ rest) (y ∷ (xs ++ rest))
move_front y xs rest = record {
  owned = λ i. omega (arith, owners-append i xs (y ∷ rest), owners-append i xs rest);
  shared = λ i j. omega (arith, common-append i j xs (y ∷ rest), common-append i j xs rest);
}

module _ (n : ℕ) (how : Launch) (all : (r : Range) → how.granted r ≡ true) where
  -- A call came from `s` to `t`, while the ranges `rest` were left to others: what is left to do is
  -- lighter by `k`.
  pub record Done (k : ℕ) (s : Sorting) (rest : List Range) (t : Sorting) : Type 0 where
    pub pending : IsPending n t.nums (t.threads ++ rest)
    pub counts : SameCounts n s.nums t.nums
    pub lighter : weights t.threads + k ≤ weight s.args + weights s.threads

  -- What `quick` does with the depth `depth`.
  abbrev Sorts : ℕ → (Sorting → Option Sorting) → Type 0
  Sorts depth call =
      (s : Sorting) (rest : List Range)
      → s.args.stop - s.args.start < depth
      → IsPending n s.nums (s.args ∷ (s.threads ++ rest))
      → (t : Sorting) × (call s ≡ some t) × Done 1 s rest t

  launch_lem :
      (depth : ℕ) (call : Sorting → Option Sorting) (size : ℕ) (s : Sorting) (rest : List Range)
      → Sorts depth call
      → s.args.stop - s.args.start < depth
      → IsPending n s.nums (s.args ∷ (s.threads ++ rest))
      → (t : Sorting) × (launch call how size s ≡ some t) × Done 0 s rest t
  unfolding new_thread
  launch_lem depth call size s rest sorts short p = elim (Bool-cases (ltb how.cutoff size)) [
    | inl e ↦ (
      record s { threads = s.threads ++ s.args ∷ [] },
      rw (e, launch) (rw (all s.args)),
      record {
        pending = IsPending-same n s.nums _ _ (move_back s.args s.threads rest) p;
        counts = λ v. refl;
        lighter = let w = weights-append s.threads (s.args ∷ []) in omega arith;
      },
    )
    | inr e ↦
        let (t, c, d) = sorts s rest short p in
        let lighter = d.lighter in
        (
          t,
          rw (e, launch) c,
          record { pending = d.pending; counts = d.counts; lighter = omega arith },
        )
  ]

  parts_lem :
      (depth : ℕ) (call : Sorting → Option Sorting) (end pos : ℕ) (s : Sorting) (rest : List Range)
      → Sorts depth call
      → s.args.start ≤ pos
      → pos ≤ end
      → end - s.args.start < depth
      → s.args.stop ≡ end + 1
      → s.args.start < end
      → IsPending n s.nums
          (range s.args.start pos ∷ range (pos + 1) (end + 1) ∷ (s.threads ++ rest))
      → (t : Sorting) × (parts call how end pos s ≡ some t) × Done 1 s rest t
  parts_lem depth call end pos s rest sorts lower upper short at some_range p =
      let left = range s.args.start pos in
      let right = range (pos + 1) (end + 1) in
      let s1 : Sorting = record s { args = left } in
      let (t1, c1, d1) =
        launch_lem depth call (pos - s.args.start) s1 (right ∷ rest) sorts (omega arith)
          (IsPending-same n s.nums _ _ (move_in left right s.threads rest) p) in
      let (t, c, d) =
        launch_lem depth call (end - pos) (record t1 { args = right }) rest sorts (omega arith)
          (IsPending-same n t1.nums _ _ (move_front right t1.threads rest) d1.pending) in
      let lighter1 = d1.lighter in
      let lighter2 = d.lighter in
      (
        t,
        rw c1 c,
        record {
          pending = d.pending;
          counts = SameCounts-trans n s.nums t1.nums t.nums d1.counts d.counts;
          lighter = omega arith;
        },
      )

  pub quick_lem : (depth : ℕ) → Sorts depth (quick depth how)
  unfolding quick
  quick_lem zero s rest short p = absurd (omega arith)
  quick_lem (suc depth) s rest short p = elim (Bool-cases (ltb (s.args.start + 1) s.args.stop)) [
    | inr e ↦ (
      s,
      rw (e, quick),
      record {
        pending = IsPending-small n s.nums s.args (s.threads ++ rest) (ground arith) p;
        counts = λ v. refl;
        lighter = omega arith;
      },
    )
    | inl e ↦
        let end = s.args.stop - 1 in
        let at : s.args.stop ≡ end + 1 = ground arith in
        let split = partition s.nums s.args.start end end in
        let parted = partition_lem s.nums s.args.start end (ground arith) in
        let whole =
          subst (λ (x : ℕ). IsPending n s.nums (range s.args.start x ∷ (s.threads ++ rest))) at p in
        let halves =
          IsPending-parted n s.nums split.0 s.args.start (end + 1) split.1 (s.threads ++ rest)
            parted whole in
        let fits =
          stop_inside n s.nums split.0 s.args.start (end + 1) split.1 (s.threads ++ rest) parted
            whole in
        let (t, c, d) =
          parts_lem depth (quick depth how) end split.1 (record s { nums = split.0 }) rest
            (quick_lem depth) parted.lower (let u = parted.upper in omega arith) (ground arith) at
            (ground arith) halves in
        (
          t,
          rw (e, quick) c,
          record {
            pending = d.pending;
            counts =
                SameCounts-trans n s.nums split.0 t.nums (parted.within.counts n fits) d.counts;
            lighter = d.lighter;
          },
        )
  ]
