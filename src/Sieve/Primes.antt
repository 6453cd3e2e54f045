-- ===== src/Sieve/Primes.antt =====
-- sieve_test.c: the numbers that the sieve records are the primes.
use pithread.Common.{
  ℕ, zero, suc, ◌+◌, ◌%◌, ◌<◌, ◌≤◌, ◌≡◌, ◌≢◌, subst, refl, sym, ap, ◌∙◌, true, false, Option, none,
  some, List, [], ◌∷◌, ◌++◌, Bool-cases, inl, inr, ltb, ◌==◌, ==_ne, has, has-append, length, arith,
  ℕ_discrete, dec_lt,
}
use pithread.Sieve.{last, passes, recorded, sink, source, odd_numbers}
use pithread.Sieve.Stages.{trial, sink_lem}
use pithread.Sieve.Divisors.{IsPrime, is_prime, IsPrime-divisor, is_prime-cases}

-- The recorded numbers are the primes below `x`.
abbrev Known : List ℕ → ℕ → Type 0
Known earlier x =
    (p : ℕ)
    → (has p earlier ≡ true → IsPrime p × (p < x)) × (IsPrime p → p < x → has p earlier ≡ true)

passes-divisor :
    (earlier : List ℕ) (x p : ℕ) → passes earlier x ≡ true → has p earlier ≡ true → x % p ≢ 0
unfolding passes
passes-divisor [] x p e h = cc
passes-divisor (q ∷ earlier) x p e h = elim (ℕ_discrete (x % q) 0) [
  | yes z ↦
      let hit : (x % q == 0) ≡ true = ground arith in
      let bad : false ≡ true = rw (hit, passes) at e in cc
  | no ne ↦
      let rest : passes earlier x ≡ true = rw (==_ne (x % q) 0 ne, passes) at e in
      elim (ℕ_discrete p q) [
        | yes same ↦ λ z. ne (ap (λ (k : ℕ). x % k) (sym same) ∙ z)
        | no other ↦
            passes-divisor earlier x p rest (let r : has p earlier ≡ true = ground arith in r)
      ]
]

passes-none :
    (earlier : List ℕ) (x : ℕ)
    → ((p : ℕ) → has p earlier ≡ true → x % p ≢ 0)
    → passes earlier x ≡ true
unfolding passes
passes-none [] x h = refl
passes-none (q ∷ earlier) x h =
    rw (==_ne (x % q) 0 (h q (let r : has q (q ∷ earlier) ≡ true = ground arith in r)), passes)
      (passes-none earlier x (λ p e. h p (let r : has p (q ∷ earlier) ≡ true = ground arith in r)))

passes-is_prime :
    (earlier : List ℕ) (x : ℕ) → 2 ≤ x → Known earlier x → passes earlier x ≡ is_prime x
passes-is_prime earlier x le known = elim (is_prime-cases x le) [
  | inl (e, prime) ↦
      passes-none earlier x (λ p h. let (is_p, lt) = (known p).0 h in prime.1 p is_p.0 lt) ∙ sym e
  | inr (e, not_prime) ↦ elim (Bool-cases (passes earlier x)) [
    | inr f ↦ f ∙ sym e
    | inl f ↦ absurd (
        not_prime (
          le,
          λ d le2 lt z.
              let (p, prime, below, zp) = IsPrime-divisor (suc d) x d (omega arith) le2 z in
              passes-divisor earlier x p f ((known p).1 prime (omega arith)) zp,
        ))
  ]
]

-- An even number above 2 is not prime.
even : (x : ℕ) → 2 < x → x % 2 ≡ 0 → ¬ IsPrime x
even x lt z prime = prime.1 2 (omega arith) lt z

Known-skip :
    (earlier : List ℕ) (x : ℕ)
    → 3 ≤ x
    → x % 2 ≡ 1
    → ¬ IsPrime x
    → Known earlier x
    → Known earlier (x + 2)
Known-skip earlier x le odd not_prime known p = (
  λ h. let (prime, lt) = (known p).0 h in (prime, omega arith),
  λ prime lt. elim (dec_lt p x) [
    | yes less ↦ (known p).1 prime less
    | no more ↦ elim (ℕ_discrete p x) [
      | yes same ↦ absurd (not_prime (subst IsPrime same prime))
      | no other ↦ absurd (even p (omega arith) (omega arith) prime)
    ]
  ],
)

Known-snoc :
    (earlier : List ℕ) (x : ℕ)
    → 3 ≤ x
    → x % 2 ≡ 1
    → IsPrime x
    → Known earlier x
    → Known (earlier ++ x ∷ []) (x + 2)
Known-snoc earlier x le odd is_p known p =
    let both = has-append p earlier (x ∷ []) in
    (
      λ h. elim (ℕ_discrete p x) [
        | yes same ↦ (subst IsPrime (sym same) is_p, omega arith)
        | no other ↦
            let old : has p earlier ≡ true = ground arith in
            let (prime, lt) = (known p).0 old in (prime, omega arith)
      ],
      λ prime lt. elim (ℕ_discrete p x) [
        | yes same ↦ both ∙ ground arith
        | no other ↦ elim (dec_lt p x) [
          | yes less ↦ let old = (known p).1 prime less in both ∙ ground arith
          | no more ↦ absurd (even p (omega arith) (omega arith) prime)
        ]
      ],
    )

-- The primes among the numbers of the source, up to the first above LAST; `none` when there is none above.
unfoldable pub primes_from : ℕ → ℕ → Option (List ℕ)
primes_from zero x = none
primes_from (suc left) x = elim (is_prime x) [
  | false ↦ primes_from left (x + 2)
  | true ↦ elim (ltb last x) [ true ↦ some [] | false ↦ recorded x (primes_from left (x + 2)) ]
]

trial-primes_from :
    (left x : ℕ) (earlier : List ℕ)
    → 3 ≤ x
    → x % 2 ≡ 1
    → Known earlier x
    → trial earlier (odd_numbers left x) ≡ primes_from left x
unfolding trial odd_numbers primes_from
trial-primes_from zero x earlier le odd known = refl
trial-primes_from (suc left) x earlier le odd known =
    let same = passes-is_prime earlier x (omega arith) known in
    elim (is_prime-cases x (omega arith)) [
      | inr (e, not_prime) ↦
          rw (same ∙ e, trial)
            (trial-primes_from left (x + 2) earlier (omega arith) (omega arith)
                (Known-skip earlier x le odd not_prime known)
              ∙ sym (rw (e, primes_from)))
      | inl (e, prime) ↦ elim (Bool-cases (ltb last x)) [
        | inl big ↦ rw (same ∙ e, trial) (rw (e, primes_from) (rw big))
        | inr small ↦
            rw (same ∙ e, trial)
              (rw (e, primes_from)
                (rw small (
                  ap (recorded x) (
                    trial-primes_from left (x + 2) (earlier ++ x ∷ []) (omega arith) (omega arith)
                      (Known-snoc earlier x le odd prime known)))))
      ]
    ]

Known-two : Known (2 ∷ []) 3
Known-two p = (
  λ h.
      let same : 2 ≡ p = ground arith in
      (subst IsPrime same (omega arith, λ d le lt. absurd (omega arith)), omega arith),
  λ prime lt. let le = prime.0 in ground arith,
)

length-odd_numbers : (left i : ℕ) → length (odd_numbers left i) ≡ left
unfolding odd_numbers
length-odd_numbers zero i = refl
length-odd_numbers (suc left) i = ap suc (length-odd_numbers left (i + 2))

-- The sieve, with more fuel than the odd numbers that are sent to it, records 2 and the odd primes up to
-- LAST, in order and each once; it ends at the first prime above LAST, and waits when none is sent.
pub sieve_primes :
    (fuel left : ℕ) → left < fuel → sink fuel [] (source left) ≡ recorded 2 (primes_from left 3)
unfolding source trial passes
sieve_primes fuel left lt =
    let l = length-odd_numbers left 3 in
    sink_lem fuel (2 ∷ odd_numbers left 3) (omega arith)
    ∙ ap (recorded 2) (trial-primes_from left 3 (2 ∷ []) (omega arith) refl Known-two)
