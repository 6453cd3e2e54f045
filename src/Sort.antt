-- ===== src/Sort.antt =====
-- sort_test.c: the parallel quicksort. `nums` is a function of the index, and its ints are not
-- negative. The end of a range is kept as `stop`, the place behind it, `end + 1` of the source, which
-- is never negative.
pub mod Swap
pub mod Partition
pub mod Pending
pub mod Quick
pub mod Schedule
pub mod Total
mod Tests
use pithread.Common.{
  ℕ, zero, suc, ◌+◌, ◌-◌, Bool, true, false, Option, none, some, List, [], ◌∷◌, ◌++◌, ltb, ◌==◌,
  if◌then◌else◌,
}

abbrev pub Ints : Type 0
Ints = ℕ → ℕ

-- `nums[i] = v`
abbrev pub assign : Ints → ℕ → ℕ → Ints
assign nums i v j = if j == i then v else nums j

-- `swap(&nums[x], &nums[y])`
unfoldable pub swap : Ints → ℕ → ℕ → Ints
swap nums x y = assign (assign nums x (nums y)) y (nums x)

-- `while (start <= end)`, by the places that are left, `end + 1 - start`, and `start` at its end.
unfoldable pub partition_loop : ℕ → Ints → ℕ → ℕ → Ints × ℕ
partition_loop zero nums pivot start = (nums, start)
partition_loop (suc left) nums pivot start = elim (ltb (nums start) pivot) [
  | true ↦ partition_loop left nums pivot (start + 1)
  | false ↦ partition_loop left (swap nums start (start + left)) pivot start
]

-- The array, and the place of the pivot; `start <= end`.
unfoldable pub partition : Ints → ℕ → ℕ → ℕ → Ints × ℕ
partition nums start end pos =
    let split = partition_loop (end - start) (swap nums pos end) (nums pos) start in
    (swap split.0 split.1 pos, split.1)

-- A range of the array, from `start` up to `stop`: what a thread gets with its copy of `args`.
pub record Range : Type 0 where
  pub start : ℕ
  pub stop : ℕ

-- The array, `*args`, which the calls of one thread share, and the threads that are to run.
pub record Sorting : Type 0 where
  pub nums : Ints
  pub args : Range
  pub threads : List Range

-- `cutoff`, and whether `thread_new` gets memory for the thread of a range. The ranges of one sort that
-- have numbers all differ, so any outcome of its calls is such a function.
pub record Launch : Type 0 where
  pub cutoff : ℕ
  pub granted : Range → Bool

-- `thread_new(quick, args, sizeof *args)`: the thread gets a copy of `*args` and comes last. Without memory
-- there is no thread, and `quick` does not look at the NULL that it gets.
unfoldable pub new_thread : (Range → Bool) → Sorting → Sorting
new_thread granted s = record s {
  threads = if granted s.args then s.threads ++ s.args ∷ [] else s.threads;
}

-- A part of more than `cutoff` numbers goes to a thread; `call` is `quick`.
abbrev pub launch : (Sorting → Option Sorting) → Launch → ℕ → Sorting → Option Sorting
launch call how size s = elim (ltb how.cutoff size) [
  | true ↦ some (new_thread how.granted s)
  | false ↦ call s
]

abbrev pub and_then : Option Sorting → (Sorting → Option Sorting) → Option Sorting
and_then none f = none
and_then (some s) f = f s

-- The part of `quick` behind the partition: `end` and `pos` are its variables, `end` the one of `stop`.
abbrev pub parts : (Sorting → Option Sorting) → Launch → ℕ → ℕ → Sorting → Option Sorting
parts call how end pos s =
    and_then
      (launch call how (pos - s.args.start) (record s { args = record s.args { stop = pos } }))
      (λ t.
        launch call how (end - pos)
          (record t { args = record { start = pos + 1; stop = end + 1 } }))

-- `quick`, with the depth that its calls may reach.
unfoldable pub quick : ℕ → Launch → Sorting → Option Sorting
quick zero how s = none
quick (suc depth) how s = elim (ltb (s.args.start + 1) s.args.stop) [
  | false ↦ some s
  | true ↦
      let end = s.args.stop - 1 in
      let split = partition s.nums s.args.start end end in
      parts (quick depth how) how end split.1 (record s { nums = split.0 })
]

-- The thread of a range, from its first call of `quick` to its end.
abbrev pub thread : Launch → Ints → List Range → Range → Option Sorting
thread how nums threads r =
    quick (suc r.stop) how (record { nums = nums; args = r; threads = threads })

-- `thread_join(NULL)`: the threads run in their order until none is left.
unfoldable pub join_all : ℕ → Launch → Ints → List Range → Option Ints
join_all fuel how nums [] = some nums
join_all zero how nums (r ∷ threads) = none
join_all (suc fuel) how nums (r ∷ threads) = elim (thread how nums threads r) [
  | none ↦ none
  | some t ↦ join_all fuel how t.nums t.threads
]

-- `sort`: the root's own call of `quick` comes before the threads.
unfoldable pub sort : ℕ → Ints → Range → Launch → Option Ints
sort fuel nums r how = join_all fuel how nums (r ∷ [])

-- N and CUTOFF.
abbrev pub count : ℕ
count = 100000

abbrev pub thread_cutoff : ℕ
thread_cutoff = 1000

-- The last loop of `sort_test`, from place `i`, by the rounds that are left: no number is above the next.
unfoldable pub check_loop : ℕ → Ints → ℕ → Bool
check_loop zero nums i = true
check_loop (suc left) nums i = elim (ltb (nums (i + 1)) (nums i)) [
  | true ↦ false
  | false ↦ check_loop left nums (i + 1)
]

-- `sort_test`, without what it prints: whether `malloc` gives memory, for the array and for each
-- thread, and the numbers that `rand` draws for
-- the places of the array.
unfoldable pub sort_test : ℕ → Bool → (Range → Bool) → Ints → Option Bool
sort_test fuel allocated granted draws =
    if allocated
    then (elim (sort fuel draws (record { start = 0; stop = count })
        (record { cutoff = thread_cutoff; granted = granted })) [
          | none ↦ none
          | some nums ↦ some (check_loop (count - 1) nums 0)
        ])
    else some true
