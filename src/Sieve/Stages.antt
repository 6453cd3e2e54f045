-- ===== src/Sieve/Stages.antt =====
-- sieve_test.c: the chain of sinks against one trial division.
use pithread.Common.{
  ℕ, zero, suc, ◌+◌, ◌%◌, ◌≤◌, ◌≡◌, refl, sym, ap, ◌∙◌, true, false, ◌&&◌, Option, none, some, List,
  [], ◌∷◌, ◌++◌, append_assoc, append-nil, Bool-cases, inl, inr, ltb, ◌==◌, length, arith,
}
use pithread.Sieve.{stage_size, last, passes, filter, recorded, sink}

-- One list of all numbers that are recorded, and each number tried against all before it.
unfoldable pub trial : List ℕ → List ℕ → Option (List ℕ)
trial earlier [] = none
trial earlier (x ∷ input) = elim (passes earlier x) [
  | false ↦ trial earlier input
  | true ↦ elim (ltb last x) [
    | true ↦ some []
    | false ↦ recorded x (trial (earlier ++ x ∷ []) input)
  ]
]

passes-append : (a b : List ℕ) (x : ℕ) → passes (a ++ b) x ≡ (passes a x && passes b x)
unfolding passes
passes-append [] b x = refl
passes-append (p ∷ a) b x = elim (Bool-cases (x % p == 0)) [
  | inl e ↦ rw (e, passes)
  | inr e ↦ rw (e, passes) (passes-append a b x)
]

filter-filter : (a b input : List ℕ) → filter b (filter a input) ≡ filter (a ++ b) input
unfolding filter
filter-filter a b [] = refl
filter-filter a b (x ∷ input) =
    let both = passes-append a b x in
    elim (Bool-cases (passes a x)) [
      | inr e ↦
          let out : passes (a ++ b) x ≡ false = both ∙ rw e in
          rw (e, out, filter) (filter-filter a b input)
      | inl e ↦ elim (Bool-cases (passes b x)) [
        | inl f ↦
            let out : passes (a ++ b) x ≡ true = both ∙ rw (e, f) in
            rw (e, f, out, filter) (ap (λ (s : List ℕ). x ∷ s) (filter-filter a b input))
        | inr f ↦
            let out : passes (a ++ b) x ≡ false = both ∙ rw (e, f) in
            rw (e, f, out, filter) (filter-filter a b input)
      ]
    ]

-- A sink that holds `primes` behind stages that hold `old`.
sink-trial :
    (fuel : ℕ) (old primes input : List ℕ)
    → length input ≤ fuel
    → sink fuel primes (filter old input) ≡ trial (old ++ primes) input
unfolding sink filter trial
sink-trial fuel old primes [] le = refl
sink-trial zero old primes (x ∷ input) le = absurd (omega arith)
sink-trial (suc fuel) old primes (x ∷ input) le =
    let both = passes-append old primes x in
    elim (Bool-cases (passes old x)) [
      | inr e ↦
          let out : passes (old ++ primes) x ≡ false = both ∙ rw e in
          rw (e, out, filter, trial) (sink-trial (suc fuel) old primes input (omega arith))
      | inl e ↦ elim (Bool-cases (passes primes x)) [
        | inr f ↦
            let out : passes (old ++ primes) x ≡ false = both ∙ rw (e, f) in
            rw (e, out, filter, trial)
              (rw (f, sink) (sink-trial fuel old primes input (omega arith)))
        | inl f ↦
            let out : passes (old ++ primes) x ≡ true = both ∙ rw (e, f) in
            let more = append_assoc old primes (x ∷ []) in
            elim (Bool-cases (ltb last x)) [
              | inl big ↦ rw (e, out, filter, trial) (rw (f, sink) (rw big))
              | inr small ↦ elim (Bool-cases (length primes + 1 == stage_size)) [
                | inl full ↦
                    rw (e, out, filter, trial)
                      (rw (f, sink)
                        (rw (small, full)
                          (ap (recorded x) (
                            ap (sink fuel []) (filter-filter old (primes ++ x ∷ []) input)
                            ∙ sink-trial fuel (old ++ (primes ++ x ∷ [])) [] input (omega arith)
                            ∙ ap (λ (ps : List ℕ). trial ps input)
                                (append-nil (old ++ (primes ++ x ∷ [])) ∙ sym more)))))
                | inr room ↦
                    rw (e, out, filter, trial)
                      (rw (f, sink)
                        (rw (small, room)
                          (ap (recorded x) (
                            sink-trial fuel old (primes ++ x ∷ []) input (omega arith)
                            ∙ ap (λ (ps : List ℕ). trial ps input) (sym more)))))
              ]
            ]
      ]
    ]

filter-nothing : (input : List ℕ) → filter [] input ≡ input
unfolding filter passes
filter-nothing [] = refl
filter-nothing (x ∷ input) = ap (λ (s : List ℕ). x ∷ s) (filter-nothing input)

-- The chain of sinks, each of which holds three numbers and filters what it passes on, records what one
-- trial division by all earlier recorded numbers would, whatever is sent to it.
pub sink_lem :
    (fuel : ℕ) (input : List ℕ) → length input ≤ fuel → sink fuel [] input ≡ trial [] input
sink_lem fuel input le =
    ap (sink fuel []) (sym (filter-nothing input)) ∙ sink-trial fuel [] [] input le
