-- ===== src/Rand/Range.antt =====
-- The range of `rand`.
use pithread.Common.{
  ℕ, ◌+◌, ◌-◌, ◌/◌, ◌%◌, ◌^◌, ◌≤◌, ◌<◌, ◌≡◌, ◌≢◌, ◌⊎◌, inl, inr, refl, ap, true, List, [], ◌∷◌,
  ◌==◌, ==_ne, arith, ℕ_discrete,
}
use native.Mathlib.Nat.{mod-lt}
use pithread.Round.{u32}
use pithread.Rand.{Drawn, number, undefined, draw, rand}

-- Some round of the wait finds a word.
abbrev pub Ready : List ℕ → Type 0
Ready [] = ⊥
Ready (status ∷ more) = (status / 2 ^ 24 ≢ 0) ⊎ Ready more

-- Between the bounds, or undefined for the range of all numbers.
abbrev pub InRange : ℕ → ℕ → Drawn → Type 0
InRange min max r =
    ((n : ℕ) × (r ≡ number n) × (min ≤ n) × (n ≤ max))
    ⊎ ((r ≡ undefined) × (min ≡ 0) × (max ≡ 2 ^ 32 - 1))

draw_lem :
    (data_read min max : ℕ) → min ≤ max → max < 2 ^ 32 → InRange min max (draw data_read min max)
unfolding draw
draw_lem data_read min max le lt =
    let span = u32 (max + 2 ^ 32 + 1 - min) in
    elim (ℕ_discrete span 0) [
      | yes z ↦ rw (zero_span z, draw) (inr (refl, omega arith, omega arith))
      | no ne ↦
          let below = mod-lt data_read {m = span} (omega arith) in
          rw (==_ne span 0 ne, draw)
            (inl (u32 (data_read % span + min), refl, omega arith, omega arith))
    ]
  where
    zero_span : u32 (max + 2 ^ 32 + 1 - min) ≡ 0 → (u32 (max + 2 ^ 32 + 1 - min) == 0) ≡ true
    zero_span z = ap (λ (x : ℕ). x == 0) z

-- `rand` with bounds in order, once a word is at hand, returns a number between them, both included;
-- the range of all numbers makes it divide by 0.
rand_lem :
    (statuses : List ℕ) (data_read min max : ℕ)
    → Ready statuses
    → min ≤ max
    → max < 2 ^ 32
    → InRange min max (rand statuses data_read min max)
unfolding rand
rand_lem [] data_read min max r le lt = absurd r
rand_lem (status ∷ more) data_read min max r le lt = elim (ℕ_discrete (status / 2 ^ 24) 0) [
  | yes z ↦ elim r [
    | inl now ↦ absurd (now z)
    | inr later ↦ rw (z, rand) (rand_lem more data_read min max later le lt)
  ]
  | no ne ↦ rw (==_ne (status / 2 ^ 24) 0 ne, rand) (draw_lem data_read min max le lt)
]
