-- ===== src/Str/Spans.antt =====
-- Stretches of memory.
use pithread.Common.{ℕ, ◌+◌, ◌≤◌, ◌<◌, subst, ℕ_discrete, arith}

-- What holds at every address from `s` up to `e`.
abbrev pub Span : (ℕ → Type 0) → ℕ → ℕ → Type 0
Span P s e = (b : ℕ) → s ≤ b → b < e → P b

pub Span-nothing : (P : ℕ → Type 0) (s : ℕ) → Span P s s
Span-nothing P s b le lt = absurd (omega arith)

pub Span-next : (P : ℕ → Type 0) (s e : ℕ) → P s → Span P (s + 1) e → Span P s e
Span-next P s e p more b le lt = elim (ℕ_discrete s b) [
  | yes q ↦ subst P q p
  | no ne ↦ more b (omega arith) lt
]

pub Span-tail : (P : ℕ → Type 0) (s e : ℕ) → Span P s e → Span P (s + 1) e
Span-tail P s e all b le lt = all b (omega arith) lt
