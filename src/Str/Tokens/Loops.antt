-- ===== src/Str/Tokens/Loops.antt =====
-- The two loops of `strtok_r`.
use pithread.Common.{
  ℕ, zero, suc, ◌+◌, ◌-◌, ◌≤◌, ◌<◌, ◌≡◌, ◌≢◌, ◌⊎◌, inl, inr, refl, sym, ap, subst, ◌∙◌, true, false,
  ◌==◌, ==_ne, arith,
}
use pithread.Memory.{Memory}
use pithread.Str.{done, strchr}
use pithread.Str.Find.{IsString, CharFound, strchr_lem}
use pithread.Str.Tokens.{skip_loop, token_loop, at_end, at_token}
use pithread.Str.Spans.{Span, Span-nothing, Span-next, Span-tail}

-- The string of the `k` delimiters at `d`, which `strchr` gets through with the bound `fuel`.
pub record Delimiters (m : Memory) (d k fuel : ℕ) : Type 0 where
  pub here : d ≢ 0
  pub string : IsString m d k
  pub bound : k < fuel

abbrev pub Delimits : Memory → ℕ → ℕ → ℕ → Type 0
Delimits m d k b = (i : ℕ) × (i < k) × (m (d + i) ≡ m b)

abbrev pub Plain : Memory → ℕ → ℕ → ℕ → Type 0
Plain m d k b = (i : ℕ) → i < k → m (d + i) ≢ m b

-- A character of a string.
abbrev pub Char : Memory → ℕ → Type 0
Char m b = (m b ≢ 0) × (m b < 256)

-- What `strchr` says of a character: it is a delimiter when the result is not NULL.
abbrev Answer : Memory → ℕ → ℕ → ℕ → ℕ → Type 0
Answer m d k b p = (((p == 0) ≡ false) × Delimits m d k b) ⊎ (((p == 0) ≡ true) × Plain m d k b)

answer :
    (m : Memory) (d k fuel b : ℕ)
    → Delimiters m d k fuel
    → Char m b
    → (p : ℕ) × (strchr fuel m d (m b) ≡ done p) × Answer m d k b p
answer m d k fuel b h (ne, byte) = found (strchr_lem fuel m d k (m b) h.here h.string h.bound byte)
  where
    found :
        CharFound m d k (m b) (strchr fuel m d (m b))
        → (p : ℕ) × (strchr fuel m d (m b) ≡ done p) × Answer m d k b p
    found (inr (e, none_is)) = (0, e, inr (refl, λ i lt. none_is i (omega arith)))
    found (inl (a, e, le, f)) =
        let after = f.after in
        let i = a - d in
        let at : d + i ≡ a = omega arith in
        let here : m (d + i) ≡ m b = ap m at ∙ f.here in
        let inside : i ≢ k = λ q. ne (sym here ∙ ap (λ (x : ℕ). m (d + x)) q ∙ h.string.end) in
        (a, e, inl (==_ne a 0 (λ z. h.here (omega arith)), (i, omega arith, here)))

answer_end :
    (m : Memory) (d k fuel b : ℕ)
    → Delimiters m d k fuel
    → m b ≡ 0
    → (p : ℕ) × (strchr fuel m d (m b) ≡ done p) × ((p == 0) ≡ false)
answer_end m d k fuel b h z =
    found (strchr_lem fuel m d k (m b) h.here h.string h.bound (omega arith))
  where
    found :
        CharFound m d k (m b) (strchr fuel m d (m b))
        → (p : ℕ) × (strchr fuel m d (m b) ≡ done p) × ((p == 0) ≡ false)
    found (inr (e, none_is)) = absurd (none_is k (omega arith) (h.string.end ∙ sym z))
    found (inl (a, e, le, f)) = let after = f.after in (a, e, ==_ne a 0 (λ q. h.here (omega arith)))

-- The string from `s` to its end at `e`.
pub record Text (m : Memory) (s e : ℕ) : Type 0 where
  pub order : s ≤ e
  pub chars : Span (Char m) s e
  pub end : m e ≡ 0

Text-tail : (m : Memory) (s e : ℕ) → s < e → Text m s e → Text m (s + 1) e
Text-tail m s e lt t = record {
  order = omega arith;
  chars = Span-tail (Char m) s e t.chars;
  end = t.end;
}

pub skip_loop_lem :
    (m : Memory) (d k inner : ℕ) (n fuel s e : ℕ)
    → Delimiters m d k inner
    → Text m s e
    → s + n ≡ e
    → n < fuel
    → ((skip_loop fuel inner m d s ≡ done (at_end e)) × Span (Delimits m d k) s e)
      ⊎ ((t : ℕ) × (skip_loop fuel inner m d s ≡ done (at_token t))
          × (s ≤ t)
          × (t < e)
          × Span (Delimits m d k) s t
          × Plain m d k t)
unfolding skip_loop
skip_loop_lem m d k inner n zero s e h x q lt = absurd (omega arith)
skip_loop_lem m d k inner zero (suc fuel) s e h x q lt =
    let same : s ≡ e = omega arith in
    let z : m s ≡ 0 = ap m same ∙ x.end in
    let (p, a, yes_one) = answer_end m d k inner s h z in
    inl (
      rw (a, yes_one, skip_loop) (rw z (ap (λ (b : ℕ). done (at_end b)) same)),
      subst (Span (Delimits m d k) s) same (Span-nothing (Delimits m d k) s),
    )
skip_loop_lem m d k inner (suc n) (suc fuel) s e h x q lt =
    let c = x.chars s (omega arith) (omega arith) in
    let (p, a, r) = answer m d k inner s h c in
    elim r [
      | inr (no_one, plain) ↦ inr (
        s,
        rw (a, no_one, skip_loop),
        omega arith,
        omega arith,
        Span-nothing (Delimits m d k) s,
        plain,
      )
      | inl (yes_one, delimits) ↦
          let next =
            skip_loop_lem m d k inner n fuel (s + 1) e h (Text-tail m s e (omega arith) x)
              (omega arith) (omega arith) in
          elim next [
            | inl (w, all) ↦ inl (
              rw (a, yes_one, skip_loop) (rw (==_ne (m s) 0 c.0) w),
              Span-next (Delimits m d k) s e delimits all,
            )
            | inr (t, w, le, lt', all, plain) ↦ inr (
              t,
              rw (a, yes_one, skip_loop) (rw (==_ne (m s) 0 c.0) w),
              omega arith,
              lt',
              Span-next (Delimits m d k) s t delimits all,
              plain,
            )
          ]
    ]

-- Where a token ends: at the end of the string or at a delimiter.
abbrev pub Stop : Memory → ℕ → ℕ → ℕ → ℕ → Type 0
Stop m d k e u = (u ≡ e) ⊎ ((u < e) × Delimits m d k u)

pub token_loop_lem :
    (m : Memory) (d k inner : ℕ) (n fuel s e : ℕ)
    → Delimiters m d k inner
    → Text m s e
    → s + n ≡ e
    → n < fuel
    → (u : ℕ) × (token_loop fuel inner m d s ≡ done u)
      × (s ≤ u)
      × (u ≤ e)
      × Span (Plain m d k) s u
      × Stop m d k e u
unfolding token_loop
token_loop_lem m d k inner n zero s e h x q lt = absurd (omega arith)
token_loop_lem m d k inner zero (suc fuel) s e h x q lt =
    let same : s ≡ e = omega arith in
    let (p, a, yes_one) = answer_end m d k inner s h (ap m same ∙ x.end) in
    (
      s,
      rw (a, yes_one, token_loop),
      omega arith,
      omega arith,
      Span-nothing (Plain m d k) s,
      inl same,
    )
token_loop_lem m d k inner (suc n) (suc fuel) s e h x q lt =
    let (p, a, r) = answer m d k inner s h (x.chars s (omega arith) (omega arith)) in
    elim r [
      | inl (yes_one, delimits) ↦ (
        s,
        rw (a, yes_one, token_loop),
        omega arith,
        omega arith,
        Span-nothing (Plain m d k) s,
        inr (omega arith, delimits),
      )
      | inr (no_one, plain) ↦
          let (u, w, le, le', all, stop) =
            token_loop_lem m d k inner n fuel (s + 1) e h (Text-tail m s e (omega arith) x)
              (omega arith) (omega arith) in
          (
            u,
            rw (a, no_one, token_loop) w,
            omega arith,
            le',
            Span-next (Plain m d k) s u plain all,
            stop,
          )
    ]
