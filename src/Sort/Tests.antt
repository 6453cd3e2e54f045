-- ===== src/Sort/Tests.antt =====
-- Five numbers sorted.
use pithread.Common.{ℕ, ◌≡◌, refl, true, false, Option, none, some, List, [], ◌∷◌, get_or, arith}
use pithread.Sort.{
  Ints, Launch, new_thread, swap, partition_loop, partition, quick, join_all, sort, sort_test,
}
use pithread.Sort.Partition.{Parted, partition_lem}
use pithread.Sort.Pending.{range}
use pithread.Sort.Swap.{SameCounts}
use pithread.Sort.Schedule.{Inevitably, IsSortOf, IsSorted, sort-Inevitably}
use pithread.Sort.Total.{sort_lem, sort_test_lem}

abbrev five : Ints
five i = get_or (4 ∷ 1 ∷ 3 ∷ 5 ∷ 3 ∷ []) i 0

-- Every thread gets memory, and its part has more than one number.
abbrev small_parts : Launch
small_parts = record { cutoff = 1; granted = λ r. true }

-- No thread gets memory.
abbrev no_memory : Launch
no_memory = record { cutoff = 1; granted = λ r. false }

abbrev listed : Option Ints → List ℕ
listed none = []
listed (some b) = b 0 ∷ b 1 ∷ b 2 ∷ b 3 ∷ b 4 ∷ []

five_sorted : listed (sort 11 five (range 0 5) small_parts) ≡ 1 ∷ 3 ∷ 3 ∷ 4 ∷ 5 ∷ []
unfolding sort join_all quick new_thread partition partition_loop swap
five_sorted = refl

-- A part for which no thread can be made stays as it is.
five_unsorted : listed (sort 11 five (range 0 5) no_memory) ≡ 1 ∷ 3 ∷ 5 ∷ 4 ∷ 3 ∷ []
unfolding sort join_all quick new_thread partition partition_loop swap
five_unsorted = refl

partition_example : let r = partition five 0 4 4 in Parted 0 5 r.1 five r.0
partition_example = partition_lem five 0 4 (omega arith)

sort-Inevitably_example :
    Inevitably small_parts (IsSortOf 5 five) (record { nums = five; threads = range 0 5 ∷ [] })
sort-Inevitably_example = sort-Inevitably 5 small_parts (λ r. refl) five

sort_example :
    (b : Ints) × (sort 11 five (range 0 5) small_parts ≡ some b)
    × IsSorted 5 b
    × SameCounts 5 five b
sort_example = sort_lem 11 5 small_parts (λ r. refl) five (omega arith)

sort_test_example : sort_test 300000 true (λ r. true) five ≡ some true
sort_test_example = sort_test_lem 300000 true (λ r. true) five (omega arith) (λ r. refl)
