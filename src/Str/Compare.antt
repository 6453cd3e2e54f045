-- ===== src/Str/Compare.antt =====
-- `memcmp` and `strcmp`.
use pithread.Common.{
  ℕ, zero, suc, ◌+◌, ◌≤◌, ◌<◌, ◌≡◌, ◌≢◌, ◌⊎◌, inl, inr, refl, sym, ap, subst, ◌∙◌, ◌==◌, ==_ne,
  ==_refl, ltb, dec_lt, ℕ_discrete, if◌then◌else◌, true, arith,
}
use pithread.Memory.{Memory}
use pithread.Str.{Sign, equal, plus, minus, done, memcmp_loop, memcmp, strcmp_loop, strcmp}
use pithread.Str.Find.{IsString, tail-IsString}

-- The blocks agree in their first `k` bytes.
abbrev pub Agree : Memory → ℕ → ℕ → ℕ → Type 0
Agree m a b k = (i : ℕ) → i < k → m (a + i) ≡ m (b + i)

-- The sign tells which byte is greater.
abbrev pub Tells : Sign → ℕ → ℕ → Type 0
Tells sign x y = ((sign ≡ plus) × (y < x)) ⊎ ((sign ≡ minus) × (x < y))

-- What a comparison of `n` bytes comes to: the blocks agree, or the first bytes that differ
-- decide.
abbrev pub Compared : Memory → ℕ → ℕ → ℕ → Sign → Type 0
Compared m a b n sign =
    ((sign ≡ equal) × Agree m a b n)
    ⊎ ((k : ℕ) × (k < n) × Agree m a b k × Tells sign (m (a + k)) (m (b + k)))

Agree-next : (m : Memory) (a b k : ℕ) → m a ≡ m b → Agree m (a + 1) (b + 1) k → Agree m a b (suc k)
Agree-next m a b k e all zero lt =
    ap m (let z : a + 0 ≡ a = omega arith in z) ∙ e ∙ ap m (let z : b ≡ b + 0 = omega arith in z)
Agree-next m a b k e all (suc i) lt =
    ap m (let z : a + suc i ≡ a + 1 + i = omega arith in z)
    ∙ all i (omega arith)
    ∙ ap m (let z : b + 1 + i ≡ b + suc i = omega arith in z)

Compared-next :
    (m : Memory) (a b n : ℕ) (sign : Sign)
    → m a ≡ m b
    → Compared m (a + 1) (b + 1) n sign
    → Compared m a b (suc n) sign
Compared-next m a b n sign e (inl (s, all)) = inl (s, Agree-next m a b n e all)
Compared-next m a b n sign e (inr (k, lt, all, t)) =
    let at : a + 1 + k ≡ a + suc k = omega arith in
    let bt : b + 1 + k ≡ b + suc k = omega arith in
    inr (
      suc k,
      omega arith,
      Agree-next m a b k e all,
      subst (λ (x : ℕ). Tells sign (m x) (m (b + suc k))) at
          (subst (λ (x : ℕ). Tells sign (m (a + 1 + k)) (m x)) bt t),
    )

decide : (x y : ℕ) → x ≢ y → Tells (if ltb y x then plus else minus) x y
decide x y ne = elim (dec_lt y x) [
  | yes l ↦ inl (ground arith, l)
  | no l ↦ inr (ground arith, omega arith)
]

Compared-here :
    (m : Memory) (a b n : ℕ) (sign : Sign) → Tells sign (m a) (m b) → Compared m a b (suc n) sign
Compared-here m a b n sign t =
    let at : a ≡ a + 0 = omega arith in
    let bt : b ≡ b + 0 = omega arith in
    inr (
      0,
      omega arith,
      λ i lt. absurd (omega arith),
      subst (λ (x : ℕ). Tells sign (m x) (m (b + 0))) at
          (subst (λ (x : ℕ). Tells sign (m a) (m x)) bt t),
    )

memcmp_loop_lem : (n : ℕ) (m : Memory) (a b : ℕ) → Compared m a b n (memcmp_loop n m a b)
unfolding memcmp_loop
memcmp_loop_lem zero m a b = inl (refl, λ i lt. absurd (omega arith))
memcmp_loop_lem (suc n) m a b = elim (ℕ_discrete (m a) (m b)) [
  | yes e ↦
      rw (e, ==_refl (m b), memcmp_loop)
        (Compared-next m a b n (memcmp_loop n m (a + 1) (b + 1)) e
          (memcmp_loop_lem n m (a + 1) (b + 1)))
  | no ne ↦
      rw (==_ne (m a) (m b) ne, memcmp_loop)
        (Compared-here m a b n (if ltb (m b) (m a) then plus else minus) (decide (m a) (m b) ne))
]

-- `memcmp` finds the blocks equal, or its sign tells which of the first bytes that differ is
-- greater.
pub memcmp_lem :
    (m : Memory) (a b n : ℕ)
    → a ≢ 0
    → b ≢ 0
    → (sign : Sign) × (memcmp m a b n ≡ done sign) × Compared m a b n sign
unfolding memcmp
memcmp_lem m a b n na nb =
    (memcmp_loop n m a b, rw (==_ne a 0 na, ==_ne b 0 nb), memcmp_loop_lem n m a b)

-- What a comparison of strings comes to when the first has `n` characters: both end after the
-- same characters, or the first bytes that differ, an end included, decide.
abbrev pub StringsCompared : Memory → ℕ → ℕ → ℕ → Sign → Type 0
StringsCompared m a b n sign =
    ((sign ≡ equal) × Agree m a b n × (m (a + n) ≡ 0) × (m (b + n) ≡ 0))
    ⊎ ((k : ℕ) × (k ≤ n) × Agree m a b k × Tells sign (m (a + k)) (m (b + k)))

strings_next :
    (m : Memory) (a b n : ℕ) (sign : Sign)
    → m a ≡ m b
    → StringsCompared m (a + 1) (b + 1) n sign
    → StringsCompared m a b (suc n) sign
strings_next m a b n sign e (inl (s, all, x, y)) = inl (
  s,
  Agree-next m a b n e all,
  ap m (let z : a + suc n ≡ a + 1 + n = omega arith in z) ∙ x,
  ap m (let z : b + suc n ≡ b + 1 + n = omega arith in z) ∙ y,
)
strings_next m a b n sign e (inr (k, le, all, t)) =
    let at : a + 1 + k ≡ a + suc k = omega arith in
    let bt : b + 1 + k ≡ b + suc k = omega arith in
    inr (
      suc k,
      omega arith,
      Agree-next m a b k e all,
      subst (λ (x : ℕ). Tells sign (m x) (m (b + suc k))) at
          (subst (λ (x : ℕ). Tells sign (m (a + 1 + k)) (m x)) bt t),
    )

last_sign : ℕ → ℕ → Sign
last_sign x y = if ltb x y then minus else (if ltb y x then plus else equal)

last-Tells : (x y : ℕ) → x ≢ y → Tells (last_sign x y) x y
unfolding last_sign
last-Tells x y ne = elim (dec_lt y x) [
  | yes l ↦ inl (ground arith, l)
  | no l ↦ inr (ground arith, omega arith)
]

last_same : (x y : ℕ) → x ≡ y → last_sign x y ≡ equal
unfolding last_sign
last_same x y e = ground arith

strings_differ :
    (m : Memory) (a b n : ℕ) → m a ≢ m b → StringsCompared m a b n (last_sign (m a) (m b))
strings_differ m a b n ne =
    let at : a ≡ a + 0 = omega arith in
    let bt : b ≡ b + 0 = omega arith in
    let sign = last_sign (m a) (m b) in
    inr (
      0,
      omega arith,
      λ i lt. absurd (omega arith),
      subst (λ (x : ℕ). Tells sign (m x) (m (b + 0))) at
          (subst (λ (x : ℕ). Tells sign (m a) (m x)) bt (last-Tells (m a) (m b) ne)),
    )

same_test : (m : Memory) (a b : ℕ) → m a ≡ m b → (m a == m b) ≡ true
same_test m a b e = ground arith

strcmp_loop_lem :
    (n fuel : ℕ) (m : Memory) (a b : ℕ)
    → IsString m a n
    → n < fuel
    → (sign : Sign) × (strcmp_loop fuel m a b ≡ done sign) × StringsCompared m a b n sign
unfolding strcmp_loop last_sign
strcmp_loop_lem n zero m a b s lt = absurd (omega arith)
strcmp_loop_lem zero (suc fuel) m a b s lt =
    let end : m a ≡ 0 = ap m (let z : a ≡ a + 0 = omega arith in z) ∙ s.end in
    let stop : (m a == 0) ≡ true = ground (arith, end) in
    (
      last_sign (m a) (m b),
      rw (stop, strcmp_loop),
      elim (ℕ_discrete (m a) (m b)) [
        | yes e ↦ inl (
          last_same (m a) (m b) e,
          λ i lt. absurd (omega arith),
          s.end,
          ap m (let z : b + 0 ≡ b = omega arith in z) ∙ sym e ∙ end,
        )
        | no ne ↦ strings_differ m a b 0 ne
      ],
    )
strcmp_loop_lem (suc n) (suc fuel) m a b s lt =
    let more : m a ≢ 0 =
      λ q. s.char 0 (omega arith) (ap m (let z : a + 0 ≡ a = omega arith in z) ∙ q) in
    elim (ℕ_discrete (m a) (m b)) [
      | yes e ↦
          let (sign, r, c) =
            strcmp_loop_lem n fuel m (a + 1) (b + 1) (tail-IsString m a n s) (omega arith) in
          (
            sign,
            rw (==_ne (m a) 0 more, strcmp_loop, same_test m a b e) r,
            strings_next m a b n sign e c,
          )
      | no ne ↦ (
        last_sign (m a) (m b),
        rw (==_ne (m a) 0 more, ==_ne (m a) (m b) ne, strcmp_loop),
        strings_differ m a b (suc n) ne,
      )
    ]

-- `strcmp` of a string, with more fuel than its length, finds both equal to their ends, or its sign
-- tells which of the first bytes that differ is greater.
strcmp_lem :
    (fuel : ℕ) (m : Memory) (a b n : ℕ)
    → a ≢ 0
    → b ≢ 0
    → IsString m a n
    → n < fuel
    → (sign : Sign) × (strcmp fuel m a b ≡ done sign) × StringsCompared m a b n sign
unfolding strcmp
strcmp_lem fuel m a b n na nb s lt =
    let (sign, r, c) = strcmp_loop_lem n fuel m a b s lt in
    (sign, rw (==_ne a 0 na, ==_ne b 0 nb) r, c)
