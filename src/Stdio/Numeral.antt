-- ===== src/Stdio/Numeral.antt =====
-- The flags and the numbers of a conversion: they parse back from their text.
use pithread.Common.{
  ℕ, ◌+◌, ◌^◌, ◌≤◌, ◌<◌, ◌≡◌, refl, ap, ◌∙◌, Bool, true, false, none, some, List, [], ◌∷◌, ◌++◌,
  ◌==◌, arith, ℕ_discrete,
}
use pithread.Stdio.{
  Flags, no_flags, Arg, flag_switch, isdigit, parse_flags, parse_digits, parse_width,
  precision_after, parse_precision,
}
use pithread.Stdio.Spec.{opt, flags_text, decimal, decimal-Decimal}

-- A byte that ends the flags and a number, and is no star.
pub record Stop (c : ℕ) : Type 0 where
  pub flag : (f : Flags) → flag_switch c f ≡ none
  pub digit : isdigit c ≡ false
  pub star : (c == b'*') ≡ false
  pub percent : (c == b'%') ≡ false

-- The text begins with such a byte.
abbrev pub Stops : List ℕ → Type 0
Stops [] = ⊥
Stops (c ∷ s) = Stop c

flags_stop : (s : List ℕ) (f : Flags) → Stops s → parse_flags s f ≡ (f, s)
unfolding parse_flags
flags_stop [] f p = absurd p
flags_stop (c ∷ s) f p = rw (p.flag f, parse_flags)

digits_stop : (s : List ℕ) (n : ℕ) → Stops s → parse_digits s n ≡ some (n, s)
unfolding parse_digits
digits_stop [] n p = absurd p
digits_stop (c ∷ s) n p = rw (p.digit, parse_digits)

-- The flags that are set up to one of them.
abbrev flags_of : (minus plus space pound zero_pad group : Bool) → Flags
flags_of minus plus space pound zero_pad group = record {
  minus = minus;
  plus = plus;
  space = space;
  pound = pound;
  zero_pad = zero_pad;
  group = group;
}

flag_step :
    (b : Bool) (c : ℕ) (t : List ℕ) (f : Bool → Flags)
    → flag_switch c (f false) ≡ some (f true)
    → parse_flags (opt b c t) (f false) ≡ parse_flags t (f b)
unfolding parse_flags
flag_step true c t f e = rw (e, parse_flags)
flag_step false c t f e = refl

pub flags_lem :
    (f : Flags) (s : List ℕ)
    → parse_flags s f ≡ (f, s)
    → parse_flags (flags_text f s) no_flags ≡ (f, s)
unfolding flag_switch
flags_lem f s p =
    flag_step f.minus b'-' _ (λ b. flags_of b false false false false false) refl
    ∙ flag_step f.plus b'+' _ (λ b. flags_of f.minus b false false false false) refl
    ∙ flag_step f.space b' ' _ (λ b. flags_of f.minus f.plus b false false false) refl
    ∙ flag_step f.pound b'#' _ (λ b. flags_of f.minus f.plus f.space b false false) refl
    ∙ flag_step f.zero_pad b'0' _ (λ b. flags_of f.minus f.plus f.space f.pound b false) refl
    ∙ flag_step f.group b'\'' _ (λ b. flags_of f.minus f.plus f.space f.pound f.zero_pad b) refl
    ∙ p

-- A digit but '0' is no flag.
nonzero_digit : (c : ℕ) → b'1' ≤ c → c ≤ b'9' → (f : Flags) → flag_switch c f ≡ none
unfolding flag_switch
nonzero_digit c lo hi f = ground arith

-- The two ways a number is printed: not at all, or from a digit that is not '0'.
pub record Numeral (n : ℕ) (s t : List ℕ) : Type 0 where
  pub digits : parse_digits t 0 ≡ some (n, s)
  pub stops : (f : Flags) → parse_flags t f ≡ (f, t)
  pub first : (c : ℕ) × (r : List ℕ) × (t ≡ c ∷ r) × ((c == b'*') ≡ false) × ((c == b'%') ≡ false)

pub Numeral-decimal :
    (n : ℕ) (s : List ℕ) → n + 48 < 2 ^ 31 → Stops s → Numeral n s (decimal n ++ s)
unfolding parse_flags
Numeral-decimal n [] small p = absurd p
Numeral-decimal n (c ∷ s) small p =
    let d = decimal-Decimal n small in
    record {
      digits = d.parses (c ∷ s) ∙ digits_stop (c ∷ s) n p;
      stops = elim (ℕ_discrete n 0) [
        | yes z ↦ λ f. rw (d.nothing z) (flags_stop (c ∷ s) f p)
        | no ne ↦
            let (a, r, e, lo, hi) = d.head ne in
            λ f. rw e (rw (nonzero_digit a lo hi f, parse_flags))
      ];
      first = elim (ℕ_discrete n 0) [
        | yes z ↦ (c, s, ap (λ (x : List ℕ). x ++ (c ∷ s)) (d.nothing z), p.star, p.percent)
        | no ne ↦
            let (a, r, e, lo, hi) = d.head ne in
            (a, r ++ (c ∷ s), ap (λ (x : List ℕ). x ++ (c ∷ s)) e, ground arith, ground arith)
      ];
    }

pub width_lem :
    (n : ℕ) (s t : List ℕ) (f : Flags) (args : List Arg)
    → Numeral n s t
    → parse_width t f args ≡ some (n, f, s, args)
unfolding parse_width
width_lem n s t f args m =
    let (c, r, e, star, _) = m.first in
    let d : parse_digits (c ∷ r) 0 ≡ some (n, s) = rw e at m.digits in rw e (rw (star, d))

pub precision_lem :
    (n : ℕ) (s t : List ℕ) (args : List Arg)
    → Numeral n s t
    → parse_precision (b'.' ∷ t) args ≡ some (some n, s, args)
unfolding parse_precision precision_after
precision_lem n s t args m =
    let (c, r, e, star, _) = m.first in
    let d : parse_digits (c ∷ r) 0 ≡ some (n, s) = rw e at m.digits in rw e (rw (star, d))
