-- ===== src/Atags/Walk.antt =====
-- The walk finds the tags of a value, one after another.
use pithread.Common.{
  ℕ, zero, suc, ltb, ◌<◌, ◌≡◌, ◌≢◌, ◌⊎◌, inl, inr, refl, sym, ap, subst, ◌∙◌, Bool, true, false,
  Option, none, some, List, [], ◌∷◌, ◌==◌, ==_ne, ==_refl, if◌then◌else◌, length, ℕ_discrete, arith,
}
use pithread.Stdio.Print.{Printed, wrote, undefined, out_of_fuel, then_print}
use pithread.Stdio.Literal.{Ends, vprintf-Ends}
use pithread.Atags.{
  Tags, tag_next, found, not_ended, Walked, advance, get_loop, start, get_atag, print_tag,
  print_atags,
}

-- The tags from `p` on, up to one with the value ATAG_NONE.
abbrev pub Chain : Tags → ℕ → List ℕ → Type 0
Chain l p [] = l.value p ≡ l.atag_none
Chain l p (t ∷ ts) = (t ≡ p) × (p ≢ 0) × (l.value p ≢ l.atag_none) × Chain l (tag_next l p) ts

-- The tags of a value, in order.
unfoldable pub tags_of : Tags → ℕ → List ℕ → List ℕ
tags_of l value [] = []
tags_of l value (t ∷ ts) = if value == l.value t then t ∷ tags_of l value ts else tags_of l value ts

abbrev before : ℕ → Option (List ℕ) → Option (List ℕ)
before t none = none
before t (some ts) = some (t ∷ ts)

-- What calls return until one returns NULL, each from where the last one left `*next`, as a caller makes
-- them; `none` when none of the calls returns NULL or one does not end.
unfoldable pub get_all : ℕ → ℕ → Tags → ℕ → ℕ → Option ℕ → Option (List ℕ)
get_all zero fuel l atags value next = none
get_all (suc calls) fuel l atags value next = elim (get_atag fuel l atags value next) [
  | not_ended ↦ none
  | found t next' ↦ elim (t == 0) [
    | true ↦ some []
    | false ↦ before t (get_all calls fuel l atags value next')
  ]
]

-- The first tag of a value, and the tags behind it.
record Hit (l : Tags) (value : ℕ) (ts : List ℕ) (t : ℕ) (rest : List ℕ) : Type 0 where
  first : tags_of l value ts ≡ t ∷ tags_of l value rest
  here : t ≢ 0
  chain : Chain l (tag_next l t) rest
  shorter : length rest < length ts

abbrev Search : Tags → ℕ → Option ℕ → List ℕ → Walked → Type 0
Search l value next ts w =
    ((w ≡ found 0 next) × (tags_of l value ts ≡ []))
    ⊎ ((t : ℕ) × (rest : List ℕ) × (w ≡ found t (advance next (tag_next l t)))
        × Hit l value ts t rest)

Search-next :
    (l : Tags) (value : ℕ) (next : Option ℕ) (t : ℕ) (ts : List ℕ) (w : Walked)
    → (value == l.value t) ≡ false
    → Search l value next ts w
    → Search l value next (t ∷ ts) w
unfolding tags_of
Search-next l value next t ts w other (inl (e, nothing)) = inl (e, rw (other, tags_of) nothing)
Search-next l value next t ts w other (inr (u, rest, e, h)) =
    let shorter = h.shorter in
    inr (
      u,
      rest,
      e,
      record {
        first = rw (other, tags_of) h.first;
        here = h.here;
        chain = h.chain;
        shorter = omega arith;
      },
    )

get_loop_lem :
    (fuel : ℕ) (l : Tags) (value : ℕ) (next : Option ℕ) (p : ℕ) (ts : List ℕ)
    → Chain l p ts
    → length ts < fuel
    → Search l value next ts (get_loop fuel l value next p)
unfolding get_loop tags_of
get_loop_lem zero l value next p ts c lt = absurd (omega arith)
get_loop_lem (suc fuel) l value next p [] c lt =
    rw (c, ==_refl l.atag_none, get_loop) (inl (refl, refl))
get_loop_lem (suc fuel) l value next p (t ∷ ts) (at, here, ne, more) lt =
    elim (ℕ_discrete value (l.value p)) [
      | yes e ↦
          let same : (value == l.value p) ≡ true = ground arith in
          let same_t : (value == l.value t) ≡ true = ap (λ (x : ℕ). value == l.value x) at ∙ same in
          inr (
            p,
            ts,
            rw (==_ne (l.value p) l.atag_none ne, get_loop) (rw same),
            record {
              first = rw (same_t, tags_of) (ap (λ (x : ℕ). x ∷ tags_of l value ts) at);
              here = here;
              chain = more;
              shorter = omega arith;
            },
          )
      | no other ↦
          let differs : (value == l.value p) ≡ false = ==_ne value (l.value p) other in
          rw (==_ne (l.value p) l.atag_none ne, get_loop)
            (rw differs (
              Search-next l value next t ts (get_loop fuel l value next (tag_next l p))
                (ap (λ (x : ℕ). value == l.value x) at ∙ differs)
                (get_loop_lem fuel l value next (tag_next l p) ts more (omega arith))))
    ]

-- Calls of `get_atag` with a pointer `next`, each with what the last one left in it, return every tag
-- of the value once, in order, and then NULL, with more calls and rounds than there are tags.
pub get_all_lem :
    (calls fuel : ℕ) (l : Tags) (atags value p : ℕ) (ts : List ℕ)
    → Chain l (start atags (some p)) ts
    → length ts < calls
    → length ts < fuel
    → get_all calls fuel l atags value (some p) ≡ some (tags_of l value ts)
unfolding get_all get_atag
get_all_lem zero fuel l atags value p ts c lc lf = absurd (omega arith)
get_all_lem (suc calls) fuel l atags value p ts c lc lf =
    elim (get_loop_lem fuel l value (some p) (start atags (some p)) ts c lf) [
      | inl (e, nothing) ↦ rw (e, get_all) (ap some (sym nothing))
      | inr (t, rest, e, h) ↦
          let shorter = h.shorter in
          let nonzero : tag_next l t ≢ 0 = λ z. h.here (omega arith) in
          let from : start atags (some (tag_next l t)) ≡ tag_next l t =
            rw (==_ne (tag_next l t) 0 nonzero) in
          rw (e, get_all)
            (rw (==_ne t 0 h.here) (
              ap (before t) (
                get_all_lem calls fuel l atags value (tag_next l t) rest
                  (subst (λ (x : ℕ). Chain l x rest) (sym from) h.chain) (omega arith)
                  (omega arith))
              ∙ ap some (sym h.first)))
    ]

then-Ends : (p r : Printed) → Ends p → Ends r → Ends (then_print p r)
then-Ends (wrote s) (wrote t) e f = tt
then-Ends (wrote s) undefined e f = tt
then-Ends (wrote s) out_of_fuel e f = f
then-Ends undefined r e f = tt
then-Ends out_of_fuel r e f = e

Ends-if : (b : Bool) (p r : Printed) → Ends p → Ends r → Ends (if b then p else r)
Ends-if true p r e f = e
Ends-if false p r e f = f

print_tag-Ends : (l : Tags) (t : ℕ) → Ends (print_tag l t)
unfolding print_tag
print_tag-Ends l t =
    Ends-if (l.value t == l.atag_core) _ _
      (then-Ends _ _ (vprintf-Ends _ _) (Ends-if (ltb 2 (l.size t)) _ _ (vprintf-Ends _ _) tt))
      (Ends-if (l.value t == l.atag_mem) _ _ (then-Ends _ _ (vprintf-Ends _ _) (vprintf-Ends _ _)) (
        Ends-if (l.value t == l.atag_cmdline) _ _
          (then-Ends _ _ (vprintf-Ends _ _) (Ends-if (ltb 2 (l.size t)) _ _ (vprintf-Ends _ _) tt))
          (vprintf-Ends _ _)))

-- `print_atags` ends on every list of tags, with more rounds than there are tags.
print_atags-Ends :
    (fuel : ℕ) (l : Tags) (p : ℕ) (ts : List ℕ)
    → Chain l p ts
    → length ts < fuel
    → Ends (print_atags fuel l p)
unfolding print_atags
print_atags-Ends zero l p ts c lt = absurd (omega arith)
print_atags-Ends (suc fuel) l p [] c lt =
    rw (c, ==_refl l.atag_none, print_atags) (vprintf-Ends _ _)
print_atags-Ends (suc fuel) l p (t ∷ ts) (at, here, ne, more) lt =
    rw (==_ne (l.value p) l.atag_none ne, print_atags)
      (then-Ends (print_tag l p) (print_atags fuel l (tag_next l p)) (print_tag-Ends l p)
        (print_atags-Ends fuel l (tag_next l p) ts more (omega arith)))
