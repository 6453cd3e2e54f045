-- ===== src/Str/Substring.antt =====
-- `strstr` finds the first place of a string.
use pithread.Common.{
  ℕ, zero, suc, ◌+◌, ◌-◌, ◌≤◌, ◌<◌, ◌≡◌, ◌≢◌, ◌⊎◌, inl, inr, refl, sym, subst, true, false, leb,
  dec_le, arith,
}
use pithread.Memory.{Memory}
use pithread.Str.{Run, done, Sign, equal, plus, minus}
use pithread.Str.Find.{IsString, strlen_lem}
use pithread.Str.Compare.{Agree, Tells, Compared, memcmp_lem}
use pithread.Str.Spans.{Span, Span-nothing, Span-next}
use pithread.Str.Tokens.{strstr_loop, strstr}

-- The blocks differ in one of their first `n` bytes.
abbrev pub Differ : Memory → ℕ → ℕ → ℕ → Type 0
Differ m b n a = (k : ℕ) × (k < n) × (m (a + k) ≢ m (b + k))

Tells-Differ :
    (m : Memory) (a b n k : ℕ) (sign : Sign)
    → k < n
    → Tells sign (m (a + k)) (m (b + k))
    → Differ m b n a
Tells-Differ m a b n k sign lt (inl (_, less)) = (k, lt, λ e. omega arith)
Tells-Differ m a b n k sign lt (inr (_, less)) = (k, lt, λ e. omega arith)

-- What the search of `left` places comes to: the first at which the needle stands, or NULL.
abbrev pub PlaceFound : Memory → ℕ → ℕ → ℕ → ℕ → Run ℕ → Type 0
PlaceFound m place left needle n r =
    ((a : ℕ) × (r ≡ done a)
      × (place ≤ a)
      × (a < place + left)
      × Agree m a needle n
      × Span (Differ m needle n) place a)
    ⊎ ((r ≡ done 0) × Span (Differ m needle n) place (place + left))

place_next :
    (m : Memory) (place left needle n : ℕ) (r : Run ℕ)
    → Differ m needle n place
    → PlaceFound m (place + 1) left needle n r
    → PlaceFound m place (suc left) needle n r
place_next m place left needle n r d (inl (a, e, le, lt, same, before)) =
    inl (a, e, omega arith, omega arith, same, Span-next (Differ m needle n) place a d before)
place_next m place left needle n r d (inr (e, all)) = inr (
  e,
  Span-next (Differ m needle n) place (place + suc left) d (λ b le lt. all b le (omega arith)),
)

strstr_loop_lem :
    (left : ℕ) (m : Memory) (place needle n : ℕ)
    → place ≢ 0
    → needle ≢ 0
    → PlaceFound m place left needle n (strstr_loop left m place needle n)
unfolding strstr_loop
strstr_loop_lem zero m place needle n np nn = inr (refl, λ b le lt. absurd (omega arith))
strstr_loop_lem (suc left) m place needle n np nn =
    let (sign, e, c) = memcmp_lem m place needle n np nn in
    rw (e, strstr_loop)
      (by_sign sign c (strstr_loop_lem left m (place + 1) needle n (λ z. omega arith) nn))
  where
    by_sign :
        (sign : Sign)
        → Compared m place needle n sign
        → PlaceFound m (place + 1) left needle n (strstr_loop left m (place + 1) needle n)
        → PlaceFound m place (suc left) needle n (elim sign as (λ _. Run ℕ) [
          | equal ↦ done place
          | minus ↦ strstr_loop left m (place + 1) needle n
          | plus ↦ strstr_loop left m (place + 1) needle n
        ])
    by_sign equal (inl (_, same)) next =
        inl (place, refl, omega arith, omega arith, same, Span-nothing (Differ m needle n) place)
    by_sign equal (inr (k, lt, same, inl (e, _))) next = absurd (cc e)
    by_sign equal (inr (k, lt, same, inr (e, _))) next = absurd (cc e)
    by_sign minus (inl (e, same)) next = absurd (cc e)
    by_sign minus (inr (k, lt, same, t)) next =
        place_next m place left needle n _ (Tells-Differ m place needle n k minus lt t) next
    by_sign plus (inl (e, same)) next = absurd (cc e)
    by_sign plus (inr (k, lt, same, t)) next =
        place_next m place left needle n _ (Tells-Differ m place needle n k plus lt t) next

-- `strstr` of two strings, with more fuel than their lengths, returns the first place of the haystack
-- at which the whole needle stands, or NULL when it stands at none.
pub strstr_lem :
    (fuel : ℕ) (m : Memory) (haystack needle h n : ℕ)
    → haystack ≢ 0
    → needle ≢ 0
    → IsString m haystack h
    → IsString m needle n
    → h < fuel
    → n < fuel
    → PlaceFound m haystack (h + 1 - n) needle n (strstr fuel m haystack needle)
unfolding strstr
strstr_lem fuel m haystack needle h n nh nn sh sn lh ln =
    let eh = strlen_lem fuel m haystack h nh sh lh in
    let en = strlen_lem fuel m needle n nn sn ln in
    elim (dec_le n h) [
      | yes le ↦
          let fits : leb n h ≡ true = ground arith in
          let left : h + 1 - n ≡ h - n + 1 = omega arith in
          let run : strstr fuel m haystack needle ≡ strstr_loop (h - n + 1) m haystack needle n =
            rw (eh, strstr) (rw en (rw fits)) in
          subst (PlaceFound m haystack (h + 1 - n) needle n) (sym run)
            (rw left (strstr_loop_lem (h - n + 1) m haystack needle n nh nn))
      | no more ↦
          let short : leb n h ≡ false = ground arith in
          inr (rw (eh, strstr) (rw en (rw short)), λ b le lt. absurd (omega arith))
    ]
