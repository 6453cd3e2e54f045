-- ===== src/Sieve/Tests.antt =====
-- Runs of the sieve.
use pithread.Common.{◌≡◌, refl, some, true, [], ◌∷◌, arith}
use pithread.Sieve.{recorded, passes, filter, sink, source, sieve_test, odd_numbers, compare_loop}
use pithread.Sieve.Primes.{primes_from, sieve_primes}

sieve_primes_example : sink 506 [] (source 504) ≡ recorded 2 (primes_from 504 3)
sieve_primes_example = sieve_primes 506 504 (omega arith)

-- The first of the numbers above 1000 that no prime divides ends the sieve.
small_input :
    sink 9 [] (2 ∷ 3 ∷ 5 ∷ 7 ∷ 9 ∷ 11 ∷ 25 ∷ 13 ∷ 1009 ∷ []) ≡ some (2 ∷ 3 ∷ 5 ∷ 7 ∷ 11 ∷ 13 ∷ [])
unfolding sink filter passes
small_input = refl

-- 504 odd numbers, up to 1009, are enough for the table.
passes_test : sieve_test 505 504 ≡ some true
unfolding sieve_test source odd_numbers sink filter passes compare_loop
passes_test = refl
