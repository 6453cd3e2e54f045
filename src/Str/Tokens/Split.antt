-- ===== src/Str/Tokens/Split.antt =====
-- How `strtok_r` splits a string.
use pithread.Common.{
  ℕ, ◌+◌, ◌-◌, ◌≤◌, ◌<◌, ◌≡◌, ◌≢◌, ◌⊎◌, inl, inr, refl, sym, ap, ◌∙◌, true, false, ◌==◌, ==_ne,
  if◌then◌else◌, arith,
}
use pithread.Memory.{Memory, store}
use pithread.Str.{Run, done}
use pithread.Str.Tokens.{Token, strtok_r}
use pithread.Str.Spans.{Span}
use pithread.Str.Tokens.Loops.{
  Delimiters, Delimits, Plain, Text, Stop, skip_loop_lem, token_loop_lem,
}

-- What a call gives for the token from `t` to `u`: at the end of the string it saves the end, at a
-- delimiter it ends the token with a null byte and saves the place behind it.
abbrev pub Ended : Memory → ℕ → ℕ → ℕ → ℕ → ℕ → Token → Type 0
Ended m d k t u e r =
    ((u ≡ e) × (r ≡ record { token = t; save = u; memory = m }))
    ⊎ ((u < e) × Delimits m d k u × (r ≡ record { token = t; save = u + 1; memory = store m u 0 }))

-- The string has no token, or its first token runs from `t` to `u`, behind delimiters alone and
-- without a delimiter in it.
abbrev pub Splits : Memory → ℕ → ℕ → ℕ → ℕ → Token → Type 0
Splits m d k s e r =
    (Span (Delimits m d k) s e × (r ≡ record { token = 0; save = e; memory = m }))
    ⊎ ((t u : ℕ) × (s ≤ t)
        × (t < u)
        × (u ≤ e)
        × Span (Delimits m d k) s t
        × Span (Plain m d k) t u
        × Ended m d k t u e r)

-- The string that a call starts from: `s`, or the saved place when `s` is NULL.
abbrev pub starts : ℕ → ℕ → ℕ
starts s save = if s == 0 then save else s

-- `strtok_r` of the string from its start to its end at `e`, with a bound above the lengths of both
-- strings, finds the first token, as long as it can be, and ends it, or finds that there is none.
pub strtok_r_lem :
    (fuel : ℕ) (m : Memory) (s d save k e : ℕ)
    → Delimiters m d k fuel
    → starts s save ≢ 0
    → Text m (starts s save) e
    → e < starts s save + fuel
    → (r : Token) × (strtok_r fuel m s d save ≡ done r) × Splits m d k (starts s save) e r
unfolding strtok_r
strtok_r_lem fuel m s d save k e h here x lt =
    let start = starts s save in
    let order = x.order in
    elim (skip_loop_lem m d k fuel (e - start) fuel start e h x (omega arith) (omega arith)) [
      | inl (w, all) ↦ (
        record { token = 0; save = e; memory = m },
        rw (==_ne d 0 h.here, ==_ne start 0 here) (rw w),
        inl (all, refl),
      )
      | inr (t, w, le, lt', all, plain) ↦
          let rest : Text m t e = record {
            order = omega arith;
            chars = λ b l. x.chars b (omega arith);
            end = x.end;
          } in
          let (u, w', le1, le2, inside, stop) =
            token_loop_lem m d k fuel (e - t) fuel t e h rest (omega arith) (omega arith) in
          let longer : t ≢ u = λ q. not_empty t u plain lt' q stop in
          let (r, v, ended) = ended_token t u le2 stop in
          (
            r,
            rw (==_ne d 0 h.here, ==_ne start 0 here) (rw w (rw w' v)),
            inr (t, u, le, omega arith, le2, all, inside, ended),
          )
    ]
  where
    not_empty : (t u : ℕ) → Plain m d k t → t < e → t ≡ u → Stop m d k e u → ⊥
    not_empty t u plain lt' q (inl z) = absurd (omega arith)
    not_empty t u plain lt' q (inr (_, (i, l, same))) = plain i l (same ∙ ap m (sym q))

    ended_token :
        (t u : ℕ)
        → u ≤ e
        → Stop m d k e u
        → (r : Token) × ((elim (m u == 0) as (λ _. Run Token) [
          | true ↦ done (record { token = t; save = u; memory = m })
          | false ↦ done (record { token = t; save = u + 1; memory = store m u 0 })
        ])
            ≡ done r)
          × Ended m d k t u e r
    ended_token t u le (inl z) =
        (record { token = t; save = u; memory = m }, rw (ap m z ∙ x.end), inl (z, refl))
    ended_token t u le (inr (l, (i, il, same))) = (
      record { token = t; save = u + 1; memory = store m u 0 },
      rw (==_ne (m u) 0 (λ z. h.string.char i il (same ∙ z))),
      inr (l, (i, il, same), refl),
    )
