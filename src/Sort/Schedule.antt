-- ===== src/Sort/Schedule.antt =====
-- The threads of the sort, in whatever order they run. A thread runs `quick` to its end: `quick` gives up
-- the processor nowhere, since the locks that `thread_new` takes in `malloc` are not held across a switch.
use mathlib.Core.List.{append-nil}
use pithread.Common.{
  ℕ, zero, suc, ◌≤◌, ◌<◌, ◌≡◌, inl, inr, refl, sym, ap, subst, some, List, [], ◌∷◌, ◌++◌, true,
  List-cases, arith,
}
use pithread.Sort.{Ints, Range, Sorting, Launch, thread}
use pithread.Sort.Swap.{SameCounts, SameCounts-trans}
use pithread.Sort.Pending.{
  range, common, owners-append, common-append, IsPending, SameRanges, IsPending-same,
}
use pithread.Sort.Quick.{weights, weights-append, quick_lem}

-- The array and the threads that are to run.
pub record System : Type 0 where
  pub nums : Ints
  pub threads : List Range

-- Any of the threads runs.
pub data Step (how : Launch) (s t : System) : Type 0 where
  runs :
      (xs ys : List Range) (r : Range) (u : Sorting)
      → s.threads ≡ xs ++ r ∷ ys
      → thread how s.nums (xs ++ ys) r ≡ some u
      → t ≡ record { nums = u.nums; threads = u.threads }
      → Step how s t

-- Whatever steps are made, `P` comes to hold: it holds now, or a step can be made and whatever step is
-- made, `P` comes to hold behind it.
pub data Inevitably (how : Launch) (P : System → Type 0) : System → Type 0 where
  now : {s : System} → P s → Inevitably how P s
  later :
      {s : System} (t : System)
      → Step how s t
      → ((u : System) → Step how s u → Inevitably how P u)
      → Inevitably how P s

abbrev pub IsSorted : ℕ → Ints → Type 0
IsSorted n nums = (i j : ℕ) → i < j → j < n → nums i ≤ nums j

-- No thread is left, and the array holds in order what it held first.
pub record IsSortOf (n : ℕ) (nums : Ints) (t : System) : Type 0 where
  pub none_left : t.threads ≡ []
  pub sorted : IsSorted n t.nums
  pub counts : SameCounts n nums t.nums

pub whole-IsPending : (n : ℕ) (nums : Ints) → IsPending n nums (range 0 n ∷ [])
whole-IsPending n nums = record {
  single = λ i. ground arith;
  bounded = λ i le. ground arith;
  ordered = λ i j lt ltn. inr (ground arith);
}

pick : (r : Range) (xs ys : List Range) → SameRanges (xs ++ r ∷ ys) (r ∷ ((xs ++ ys) ++ []))
pick r xs ys = record {
  owned = λ i.
      rw (append-nil (xs ++ ys))
        (omega (arith, owners-append i xs (r ∷ ys), owners-append i xs ys));
  shared = λ i j.
      rw (append-nil (xs ++ ys))
        (omega (arith, common-append i j xs (r ∷ ys), common-append i j xs ys));
}

-- What a thread does to what is left.
pub record Ran (n : ℕ) (nums : Ints) (w : ℕ) (t : System) : Type 0 where
  pub pending : IsPending n t.nums t.threads
  pub counts : SameCounts n nums t.nums
  pub lighter : weights t.threads < w

pub thread_lem :
    (n : ℕ) (how : Launch) (all : (r : Range) → how.granted r ≡ true) (nums : Ints)
    (xs ys : List Range) (r : Range)
    → IsPending n nums (xs ++ r ∷ ys)
    → (u : Sorting) × (thread how nums (xs ++ ys) r ≡ some u)
      × Ran n nums (weights (xs ++ r ∷ ys)) (record { nums = u.nums; threads = u.threads })
thread_lem n how all nums xs ys r p =
    let s : Sorting = record { nums = nums; args = r; threads = xs ++ ys } in
    let (u, c, d) =
      quick_lem n how all (suc r.stop) s [] (omega arith)
        (IsPending-same n nums (xs ++ r ∷ ys) (r ∷ ((xs ++ ys) ++ [])) (pick r xs ys) p) in
    let lighter = d.lighter in
    let all = weights-append xs (r ∷ ys) in
    let others = weights-append xs ys in
    (
      u,
      c,
      record {
        pending = subst (IsPending n u.nums) (append-nil u.threads) d.pending;
        counts = d.counts;
        lighter = omega arith;
      },
    )

pub pending_none :
    (n : ℕ) (nums : Ints) (rs : List Range) → rs ≡ [] → IsPending n nums rs → IsSorted n nums
pending_none n nums rs e p i j lt ltn =
    let z : common i j rs ≡ 0 = ap (common i j) e in
    elim (p.ordered i j lt ltn) [ inl le ↦ le | inr some_range ↦ absurd (omega arith) ]

-- A step is what `thread_lem` says.
step_lem :
    (n : ℕ) (how : Launch) (all : (r : Range) → how.granted r ≡ true) (s t : System)
    → IsPending n s.nums s.threads
    → Step how s t
    → Ran n s.nums (weights s.threads) t
step_lem n how all s t p (runs xs ys r u at ran to) =
    let (u', c, d) = thread_lem n how all s.nums xs ys r (subst (IsPending n s.nums) at p) in
    let same : u' ≡ u = cc in
    let made : System = record { nums = u.nums; threads = u.threads } in
    let ran_u : Ran n s.nums (weights (xs ++ r ∷ ys)) made =
      subst
        (λ (x : Sorting).
          Ran n s.nums (weights (xs ++ r ∷ ys)) (record { nums = x.nums; threads = x.threads }))
        same d in
    subst (Ran n s.nums (weights s.threads)) (sym to)
      (subst (λ (x : List Range). Ran n s.nums (weights x) made) (sym at) ran_u)

ends :
    (k n : ℕ) (how : Launch) (all : (r : Range) → how.granted r ≡ true) (nums : Ints) (s : System)
    → weights s.threads < k
    → IsPending n s.nums s.threads
    → SameCounts n nums s.nums
    → Inevitably how (IsSortOf n nums) s
ends zero n how all nums s lt p same = absurd (omega arith)
ends (suc k) n how all nums s lt p same = elim (List-cases s.threads) [
  | inl e ↦
      now (record { none_left = e; sorted = pending_none n s.nums s.threads e p; counts = same })
  | inr (r, rs, e) ↦
      let (u, c, d) = thread_lem n how all s.nums [] rs r (subst (IsPending n s.nums) e p) in
      later (record { nums = u.nums; threads = u.threads }) (runs [] rs r u e c refl)
        (λ t step.
          let ran = step_lem n how all s t p step in
          let lighter = ran.lighter in
          ends k n how all nums t (omega arith) ran.pending
            (SameCounts-trans n nums s.nums t.nums same ran.counts))
]

-- The sort of the first `n` numbers, when each new thread gets memory, for
-- any cutoff: in whatever order its threads run, they can go on
-- until none is left, they come to that, and then the numbers are in order and each occurs as often as
-- it did.
pub sort-Inevitably :
    (n : ℕ) (how : Launch) (all : (r : Range) → how.granted r ≡ true) (nums : Ints)
    → Inevitably how (IsSortOf n nums) (record { nums = nums; threads = range 0 n ∷ [] })
sort-Inevitably n how all nums =
    ends (suc (weights (range 0 n ∷ []))) n how all nums _ (omega arith) (whole-IsPending n nums)
      (λ v. refl)
