-- ===== src/Sieve/Divisors.antt =====
-- Prime numbers, and a test for them.
use native.Mathlib.Nat.{mod-eq-zero_of_dvd, dvd_of_mod-eq-zero, dvd_trans}
use pithread.Common.{
  ℕ, zero, suc, ◌%◌, ◌<◌, ◌≤◌, ◌≡◌, ◌≢◌, ◌⊎◌, refl, sym, ap, ◌∙◌, true, false, not, ◌&&◌, ◌||◌,
  Bool, inl, inr, ltb, leb, ◌==◌, ==_ne, arith, ℕ_discrete, dec_lt,
}

abbrev pub IsPrime : ℕ → Type 0
IsPrime x = (2 ≤ x) × ((d : ℕ) → 2 ≤ d → d < x → x % d ≢ 0)

-- No number from 2 up to `n` divides `x`.
unfoldable pub indivisible : ℕ → ℕ → Bool
indivisible zero x = true
indivisible (suc n) x = indivisible n x && (ltb n 2 || not (x % n == 0))

abbrev pub is_prime : ℕ → Bool
is_prime x = leb 2 x && indivisible x x

indivisible_cases :
    (n x : ℕ)
    → ((indivisible n x ≡ true) × ((d : ℕ) → 2 ≤ d → d < n → x % d ≢ 0))
      ⊎ ((indivisible n x ≡ false) × ((d : ℕ) × (2 ≤ d) × (d < n) × (x % d ≡ 0)))
unfolding indivisible
indivisible_cases zero x = inl (refl, λ d le lt. absurd (omega arith))
indivisible_cases (suc n) x = elim (indivisible_cases n x) [
  | inr (e, (d, le, lt, z)) ↦ inr (rw (e, indivisible), (d, le, omega arith, z))
  | inl (e, none_below) ↦ elim (dec_lt n 2) [
    | yes small ↦ inl (
      (let s : ltb n 2 ≡ true = ground arith in rw (e, s, indivisible)),
      λ d le lt. absurd (omega arith),
    )
    | no big ↦ elim (ℕ_discrete (x % n) 0) [
      | yes z ↦ inr (
        (let s : ltb n 2 ≡ false = ground arith in
            let t : (x % n == 0) ≡ true = ground arith in rw (e, s, t, indivisible)),
        (n, omega arith, omega arith, z),
      )
      | no ne ↦ inl (
        (let s : ltb n 2 ≡ false = ground arith in rw (e, s, ==_ne (x % n) 0 ne, indivisible)),
        λ d le lt. elim (ℕ_discrete d n) [
          | yes q ↦ λ z. ne (ap (λ (k : ℕ). x % k) (sym q) ∙ z)
          | no other ↦ none_below d le (omega arith)
        ],
      )
    ]
  ]
]

-- A divisor has a prime divisor.
pub IsPrime-divisor :
    (k x d : ℕ) → d < k → 2 ≤ d → x % d ≡ 0 → (p : ℕ) × IsPrime p × (p ≤ d) × (x % p ≡ 0)
IsPrime-divisor zero x d lt le z = absurd (omega arith)
IsPrime-divisor (suc k) x d lt le z = elim (indivisible_cases d d) [
  | inl (_, prime) ↦ (d, (le, prime), omega arith, z)
  | inr (_, (e, le2, less, ze)) ↦
      let through =
        mod-eq-zero_of_dvd e (dvd_trans e (dvd_of_mod-eq-zero e ze) (dvd_of_mod-eq-zero d z)) in
      let (p, prime, below, zp) = IsPrime-divisor k x e (omega arith) le2 through in
      (p, prime, omega arith, zp)
]

pub is_prime-cases :
    (x : ℕ) → 2 ≤ x → ((is_prime x ≡ true) × IsPrime x) ⊎ ((is_prime x ≡ false) × ¬ IsPrime x)
is_prime-cases x le =
    let two : leb 2 x ≡ true = ground arith in
    elim (indivisible_cases x x) [
      | inl (e, prime) ↦ inl (rw (two, e), (le, prime))
      | inr (e, (d, le2, lt, z)) ↦ inr (rw (two, e), λ prime. prime.1 d le2 lt z)
    ]
