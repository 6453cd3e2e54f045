-- ===== src/Sieve.antt =====
-- sieve_test.c: the prime sieve, by the numbers that pass through its channels, in order. A channel hands
-- over every number that is sent; a sink that leaves its loop receives no more. `primes` is the list of
-- the numbers in the array up to the 0.
pub mod Stages
pub mod Divisors
pub mod Primes
mod Tests
use pithread.Common.{
  ℕ, zero, suc, ◌+◌, ◌%◌, true, false, Option, none, some, List, [], ◌∷◌, ◌++◌, Bool, ltb, ◌==◌,
  length,
}

-- N and LAST.
abbrev pub stage_size : ℕ
stage_size = 3

abbrev pub last : ℕ
last = 1000

-- What `source` sends, up to `left` numbers from `i` on.
unfoldable pub odd_numbers : ℕ → ℕ → List ℕ
odd_numbers zero i = []
odd_numbers (suc left) i = i ∷ odd_numbers left (i + 2)

unfoldable pub source : ℕ → List ℕ
source left = 2 ∷ odd_numbers left 3

-- `for (j = 0; primes[j] != 0 && x % primes[j] != 0; j++);` and then `primes[j] == 0`
unfoldable pub passes : List ℕ → ℕ → Bool
passes [] x = true
passes (p ∷ primes) x = elim (x % p == 0) [ true ↦ false | false ↦ passes primes x ]

-- What `filter` sends of the numbers that it receives.
unfoldable pub filter : List ℕ → List ℕ → List ℕ
filter primes [] = []
filter primes (x ∷ input) = elim (passes primes x) [
  | true ↦ x ∷ filter primes input
  | false ↦ filter primes input
]

abbrev pub recorded : ℕ → Option (List ℕ) → Option (List ℕ)
recorded x none = none
recorded x (some xs) = some (x ∷ xs)

-- What a sink and the sinks behind it record, from a sink that holds `primes`; `none` when it waits for
-- more than the input. `fuel` bounds the numbers that it receives.
unfoldable pub sink : ℕ → List ℕ → List ℕ → Option (List ℕ)
sink fuel primes [] = none
sink zero primes (x ∷ input) = none
sink (suc fuel) primes (x ∷ input) = elim (passes primes x) [
  | false ↦ sink fuel primes input
  | true ↦ elim (ltb last x) [
    | true ↦ some []
    | false ↦ elim (length primes + 1 == stage_size) [
      | true ↦ recorded x (sink fuel [] (filter (primes ++ x ∷ []) input))
      | false ↦ recorded x (sink fuel (primes ++ x ∷ []) input)
    ]
  ]
]

-- The table of `sieve_test`, up to its zeros.
abbrev pub expected : List ℕ
expected =
    2 ∷ 3 ∷ 5 ∷ 7 ∷ 11 ∷ 13 ∷ 17 ∷ 19 ∷ 23 ∷ 29 ∷ 31 ∷ 37 ∷ 41 ∷ 43 ∷ 47 ∷ 53 ∷ 59 ∷ 61 ∷ 67 ∷ 71
    ∷ 73 ∷ 79 ∷ 83 ∷ 89 ∷ 97 ∷ 101 ∷ 103 ∷ 107 ∷ 109 ∷ 113 ∷ 127 ∷ 131 ∷ 137 ∷ 139 ∷ 149 ∷ 151 ∷ 157
    ∷ 163 ∷ 167 ∷ 173 ∷ 179 ∷ 181 ∷ 191 ∷ 193 ∷ 197 ∷ 199 ∷ 211 ∷ 223 ∷ 227 ∷ 229 ∷ 233 ∷ 239 ∷ 241
    ∷ 251 ∷ 257 ∷ 263 ∷ 269 ∷ 271 ∷ 277 ∷ 281 ∷ 283 ∷ 293 ∷ 307 ∷ 311 ∷ 313 ∷ 317 ∷ 331 ∷ 337 ∷ 347
    ∷ 349 ∷ 353 ∷ 359 ∷ 367 ∷ 373 ∷ 379 ∷ 383 ∷ 389 ∷ 397 ∷ 401 ∷ 409 ∷ 419 ∷ 421 ∷ 431 ∷ 433 ∷ 439
    ∷ 443 ∷ 449 ∷ 457 ∷ 461 ∷ 463 ∷ 467 ∷ 479 ∷ 487 ∷ 491 ∷ 499 ∷ 503 ∷ 509 ∷ 521 ∷ 523 ∷ 541 ∷ 547
    ∷ 557 ∷ 563 ∷ 569 ∷ 571 ∷ 577 ∷ 587 ∷ 593 ∷ 599 ∷ 601 ∷ 607 ∷ 613 ∷ 617 ∷ 619 ∷ 631 ∷ 641 ∷ 643
    ∷ 647 ∷ 653 ∷ 659 ∷ 661 ∷ 673 ∷ 677 ∷ 683 ∷ 691 ∷ 701 ∷ 709 ∷ 719 ∷ 727 ∷ 733 ∷ 739 ∷ 743 ∷ 751
    ∷ 757 ∷ 761 ∷ 769 ∷ 773 ∷ 787 ∷ 797 ∷ 809 ∷ 811 ∷ 821 ∷ 823 ∷ 827 ∷ 829 ∷ 839 ∷ 853 ∷ 857 ∷ 859
    ∷ 863 ∷ 877 ∷ 881 ∷ 883 ∷ 887 ∷ 907 ∷ 911 ∷ 919 ∷ 929 ∷ 937 ∷ 941 ∷ 947 ∷ 953 ∷ 967 ∷ 971 ∷ 977
    ∷ 983 ∷ 991 ∷ 997 ∷ []

-- The last loop of `sieve_test`: `actual`, which is 0 behind the numbers recorded, against the table.
unfoldable pub compare_loop : List ℕ → List ℕ → Bool
compare_loop [] [] = true
compare_loop [] (y ∷ ys) = false
compare_loop (x ∷ xs) [] = false
compare_loop (x ∷ xs) (y ∷ ys) = elim (x == y) [ true ↦ compare_loop xs ys | false ↦ false ]

-- `sieve_test`, when `source` may send `left` odd numbers.
unfoldable pub sieve_test : ℕ → ℕ → Option Bool
sieve_test fuel left = elim (sink fuel [] (source left)) [
  | none ↦ none
  | some actual ↦ some (compare_loop actual expected)
]
