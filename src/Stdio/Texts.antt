-- ===== src/Stdio/Texts.antt =====
-- lib/stdio.c: the strings that a format prints.
use pithread.Common.{
  ℕ, zero, suc, ◌+◌, ◌-◌, ◌^◌, ◌<◌, ◌≤◌, ◌≡◌, refl, sym, ap, ◌∙◌, Bool, true, false, not, ◌&&◌,
  Option, none, some, List, [], ◌∷◌, ◌++◌, ltb, length, replicate, if◌then◌else◌, arith,
}
use pithread.Stdio.{Arg, text, Conversion, va_text, override, precise}
use pithread.Stdio.Format.{out_if, format_string}
use pithread.Stdio.Print.{after, conversion_of, text_or_null, limited, take, print_text, __vprintf}
use pithread.Stdio.Spec.{conversion_text}
use pithread.Stdio.Parse.{Small}
use pithread.Stdio.Numbers.{parsed, printed}

-- A string between the spaces that fill a width: after it with MINUS set, before it otherwise.
abbrev pub justified : Bool → ℕ → List ℕ → List ℕ
justified minus width s =
    if minus then s ++ replicate (width - length s) b' ' else replicate (width - length s) b' ' ++ s

append_nothing : (s : List ℕ) → s ++ [] ≡ s
append_nothing [] = refl
append_nothing (c ∷ s) = ap (λ (t : List ℕ). c ∷ t) (append_nothing s)

format_string_lem :
    (s : List ℕ) (c : Conversion) → format_string s c ≡ justified c.flags.minus c.width s
unfolding format_string
format_string_lem s c =
    sides c.flags.minus (ltb (length s) c.width) (c.width - length s) (λ h. ground arith)
  where
    sides :
        (minus wide : Bool) (k : ℕ)
        → ((wide ≡ false) → k ≡ 0)
        → out_if (wide && not minus) (replicate k b' ')
            ++ (s ++ out_if (wide && minus) (replicate k b' '))
          ≡ (if minus then s ++ replicate k b' ' else replicate k b' ' ++ s)
    sides true true k h = refl
    sides false true k h = ap (λ (t : List ℕ). replicate k b' ' ++ t) (append_nothing s)
    sides true false k h = rw (h refl)
    sides false false k h = rw (h refl) (append_nothing s)

-- The characters of a string that a precision lets through: its first ones, as many as it asks for.
pub record IsCut (p : Option ℕ) (full s : List ℕ) : Type 0 where
  pub behind : List ℕ
  pub first : full ≡ s ++ behind
  pub all : p ≡ none → behind ≡ []
  pub some_of : (n : ℕ) → p ≡ some n → (length s ≤ n) × (length s < n → behind ≡ [])

-- What is shown of the string that an argument points to.
abbrev pub name_of : Option (List ℕ) → List ℕ
name_of (some s) = s
name_of none = b'(' ∷ b'n' ∷ b'u' ∷ b'l' ∷ b'l' ∷ b')' ∷ []

record TakeCut (n : ℕ) (full : List ℕ) : Type 0 where
  behind : List ℕ
  first : full ≡ take n full ++ behind
  short : length (take n full) ≤ n
  whole : length (take n full) < n → behind ≡ []

take_lem : (n : ℕ) (full : List ℕ) → TakeCut n full
unfolding take
take_lem zero full = record {
  behind = full;
  first = refl;
  short = omega arith;
  whole = λ lt. absurd (omega arith);
}
take_lem (suc n) [] = record { behind = []; first = refl; short = omega arith; whole = λ lt. refl }
take_lem (suc n) (c ∷ full) =
    let t = take_lem n full in
    let short = t.short in
    record {
      behind = t.behind;
      first = ap (λ (s : List ℕ). c ∷ s) t.first;
      short = omega arith;
      whole = λ lt. t.whole (omega arith);
    }

cut : (p : Option ℕ) (full : List ℕ) → IsCut p full (limited p full)
cut none full = record {
  behind = [];
  first = sym (append_nothing full);
  all = λ e. refl;
  some_of = λ n e. cc;
}
cut (some k) full =
    let t = take_lem k full in
    record {
      behind = t.behind;
      first = t.first;
      all = λ e. cc;
      some_of = λ n e.
          let same : k ≡ n = cc in
          let short = t.short in (omega arith, λ lt. t.whole (omega arith));
    }

limited-IsCut :
    (p : Option ℕ) (s : Option (List ℕ)) → IsCut p (name_of s) (limited p (text_or_null s))
limited-IsCut p none = cut p (name_of none)
limited-IsCut p (some s) = cut p s

print_limited :
    (c : Conversion) (s : Option (List ℕ)) (rest : List ℕ) (args : List Arg)
    → c.width + 48 < 2 ^ 31
    → Small c.precision
    → __vprintf (b'%' ∷ conversion_text c (b's' ∷ rest)) (text s ∷ args)
      ≡ after
          (justified c.flags.minus c.width (limited c.precision (text_or_null s)))
          (__vprintf rest args)
unfolding conversion_of print_text va_text override
print_limited c s rest args wide small =
    printed c b's' rest _ (text s ∷ args) args print_text wide small refl
      (ap (λ (out : List ℕ). some (out, args)) (shown ∙ same c.precision))
  where
    shown :
        format_string (limited c.precision (text_or_null s)) (parsed c)
        ≡ justified (parsed c).flags.minus c.width (limited c.precision (text_or_null s))
    shown = format_string_lem (limited c.precision (text_or_null s)) (parsed c)

    same :
        (p : Option ℕ)
        → justified
            (precise p (override c.flags)).minus
            c.width
            (limited c.precision (text_or_null s))
          ≡ justified c.flags.minus c.width (limited c.precision (text_or_null s))
    same none = refl
    same (some n) = refl

-- A string conversion, with any flags and a width and a precision below 2 ^ 31 - 48, prints the first
-- characters of its string, or of "(null)" for NULL, as many as the precision asks for, filled with
-- spaces up to the width on the right with the flag '-' and on the left otherwise, then the rest of the
-- format as it is alone.
pub vprintf_text :
    (c : Conversion) (s : Option (List ℕ)) (rest : List ℕ) (args : List Arg)
    → c.width + 48 < 2 ^ 31
    → Small c.precision
    → (shown : List ℕ) × IsCut c.precision (name_of s) shown
      × (__vprintf (b'%' ∷ conversion_text c (b's' ∷ rest)) (text s ∷ args)
          ≡ after (justified c.flags.minus c.width shown) (__vprintf rest args))
vprintf_text c s rest args wide small = (
  limited c.precision (text_or_null s),
  limited-IsCut c.precision s,
  print_limited c s rest args wide small,
)
