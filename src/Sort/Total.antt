-- ===== src/Sort/Total.antt =====
-- `sort` as the scheduler runs it, and `sort_test`.
use pithread.Common.{
  ℕ, zero, suc, ◌+◌, ◌-◌, ◌*◌, ◌≤◌, ◌<◌, ◌≡◌, refl, ap, Bool, true, false, some, List, [], ◌∷◌, ltb,
  arith,
}
use pithread.Sort.{Ints, Range, Launch, join_all, sort, count, thread_cutoff, check_loop, sort_test}
use pithread.Sort.Swap.{SameCounts, SameCounts-trans}
use pithread.Sort.Pending.{range, IsPending}
use pithread.Sort.Quick.{weights}
use pithread.Sort.Schedule.{IsSorted, thread_lem, pending_none, whole-IsPending}

join_all_lem :
    (fuel n : ℕ) (how : Launch) (all : (r : Range) → how.granted r ≡ true) (nums : Ints)
    (rs : List Range)
    → weights rs ≤ fuel
    → IsPending n nums rs
    → (b : Ints) × (join_all fuel how nums rs ≡ some b) × IsSorted n b × SameCounts n nums b
unfolding join_all
join_all_lem fuel n how all nums [] le p = (nums, refl, pending_none n nums [] refl p, λ v. refl)
join_all_lem zero n how all nums (r ∷ rs) le p = absurd (omega arith)
join_all_lem (suc fuel) n how all nums (r ∷ rs) le p =
    let (u, c, ran) = thread_lem n how all nums [] rs r p in
    let lighter = ran.lighter in
    let (b, e, sorted, counts) =
      join_all_lem fuel n how all u.nums u.threads (omega arith) ran.pending in
    (b, rw (c, join_all) e, sorted, SameCounts-trans n nums u.nums b ran.counts counts)

-- `sort` of the first `n` numbers, with fuel for 2 n + 1 threads, ends, puts them in order and keeps how
-- often each occurs.
pub sort_lem :
    (fuel n : ℕ) (how : Launch) (all : (r : Range) → how.granted r ≡ true) (nums : Ints)
    → 2 * n + 1 ≤ fuel
    → (b : Ints) × (sort fuel nums (range 0 n) how ≡ some b) × IsSorted n b × SameCounts n nums b
unfolding sort
sort_lem fuel n how all nums le =
    join_all_lem fuel n how all nums (range 0 n ∷ []) (omega arith) (whole-IsPending n nums)

check_loop_lem :
    (left : ℕ) (nums : Ints) (i n : ℕ)
    → i + left < n
    → IsSorted n nums
    → check_loop left nums i ≡ true
unfolding check_loop
check_loop_lem zero nums i n lt sorted = refl
check_loop_lem (suc left) nums i n lt sorted =
    let le = sorted i (i + 1) (omega arith) (omega arith) in
    let passed : ltb (nums (i + 1)) (nums i) ≡ false = ground arith in
    rw (passed, check_loop) (check_loop_lem left nums (i + 1) n (omega arith) sorted)

-- `sort_test` passes whatever numbers are drawn, when each new thread gets memory; it passes, too, when it
-- gets no memory for its array.
pub sort_test_lem :
    (fuel : ℕ) (allocated : Bool) (granted : Range → Bool) (draws : Ints)
    → 2 * count + 1 ≤ fuel
    → ((r : Range) → granted r ≡ true)
    → sort_test fuel allocated granted draws ≡ some true
unfolding sort_test
sort_test_lem fuel false granted draws le all = refl
sort_test_lem fuel true granted draws le all =
    let (b, e, sorted, _) =
      sort_lem fuel count (record { cutoff = thread_cutoff; granted = granted }) all draws le in
    rw (e, sort_test) (ap some (check_loop_lem (count - 1) b 0 count (omega arith) sorted))
