-- ===== src/Stdio/Parse.antt =====
-- `parse_conversion` reads what the printer of conversions writes.
use pithread.Common.{
  ℕ, ◌+◌, ◌-◌, ◌^◌, ◌≤◌, ◌<◌, ◌≡◌, ◌⊎◌, inl, inr, refl, ap, ◌∙◌, not, ◌&&◌, if◌then◌else◌, Bool,
  true, false, Option, none, some, List, ◌∷◌, ◌==◌, ltb, arith,
}
use pithread.Stdio.{
  Flags, no_flags, Arg, word, ArgType, char_type, short_type, int_type, intmax_type, long_type,
  longlong_type, ptrdiff_type, size_type, Conversion, va_word, flag_switch, isdigit, parse_flags,
  override, width_of, star_width, parse_width, parse_precision, doubled, parse_type, precise,
  parse_conversion,
}
use pithread.Stdio.Print.{conversion_of, doubled_percent, Output}
use pithread.Stdio.Spec.{meant, opt, precision_text, type_text, conversion_text}
use pithread.Stdio.Numeral.{
  Stop, Stops, flags_lem, Numeral, Numeral-decimal, width_lem, precision_lem,
}

-- A byte that ends the precision and the type too.
pub record Letter (c : ℕ) : Type 0 where
  pub stop : Stop c
  pub point : (c == b'.') ≡ false
  pub no_type : (s : List ℕ) → parse_type (c ∷ s) ≡ (int_type, c ∷ s)
  pub h : (c == b'h') ≡ false
  pub l : (c == b'l') ≡ false

pub conversion_of-Letter :
    (c : ℕ) (print : Conversion → List Arg → Output) → conversion_of c ≡ some print → Letter c
unfolding conversion_of flag_switch isdigit parse_type
conversion_of-Letter c print e = record {
  stop = record {
    flag = λ f. ground arith;
    digit = ground arith;
    star = ground arith;
    percent = ground arith;
  };
  point = ground arith;
  no_type = λ s. ground arith;
  h = ground arith;
  l = ground arith;
}

type_lem :
    (t : ArgType) (ch : ℕ) (rest : List ℕ)
    → Letter ch
    → parse_type (type_text t (ch ∷ rest)) ≡ (t, ch ∷ rest)
unfolding parse_type doubled
type_lem char_type ch rest l = refl
type_lem short_type ch rest l = rw l.h
type_lem int_type ch rest l = l.no_type rest
type_lem intmax_type ch rest l = refl
type_lem long_type ch rest l = rw l.l
type_lem longlong_type ch rest l = refl
type_lem ptrdiff_type ch rest l = refl
type_lem size_type ch rest l = refl

-- A type letter or the point stops the flags and the numbers.
letter-Stop : (c : ℕ) → (c ≡ b'.') ⊎ (b'h' ≤ c) → Stop c
unfolding flag_switch isdigit
letter-Stop c e = record {
  flag = λ f. ground arith;
  digit = ground arith;
  star = ground arith;
  percent = ground arith;
}

type-Stops : (t : ArgType) (ch : ℕ) (rest : List ℕ) → Letter ch → Stops (type_text t (ch ∷ rest))
type-Stops int_type ch rest l = l.stop
type-Stops char_type ch rest l = letter-Stop _ (inr (omega arith))
type-Stops short_type ch rest l = letter-Stop _ (inr (omega arith))
type-Stops intmax_type ch rest l = letter-Stop _ (inr (omega arith))
type-Stops long_type ch rest l = letter-Stop _ (inr (omega arith))
type-Stops longlong_type ch rest l = letter-Stop _ (inr (omega arith))
type-Stops ptrdiff_type ch rest l = letter-Stop _ (inr (omega arith))
type-Stops size_type ch rest l = letter-Stop _ (inr (omega arith))

no_precision :
    (t : ArgType) (ch : ℕ) (rest : List ℕ) (args : List Arg)
    → Letter ch
    → parse_precision (type_text t (ch ∷ rest)) args ≡ some (none, type_text t (ch ∷ rest), args)
unfolding parse_precision
no_precision int_type ch rest args l = rw l.point
no_precision char_type ch rest args l = refl
no_precision short_type ch rest args l = refl
no_precision intmax_type ch rest args l = refl
no_precision long_type ch rest args l = refl
no_precision longlong_type ch rest args l = refl
no_precision ptrdiff_type ch rest args l = refl
no_precision size_type ch rest args l = refl

-- A number that the parser can take up without overflow.
abbrev pub Small : Option ℕ → Type 0
Small none = Unit {0}
Small (some n) = n + 48 < 2 ^ 31

precision-Stops : (p : Option ℕ) (s : List ℕ) → Stops s → Stops (precision_text p s)
precision-Stops none s h = h
precision-Stops (some n) s h = letter-Stop b'.' (inl refl)

precision_text_lem :
    (p : Option ℕ) (t : ArgType) (ch : ℕ) (rest : List ℕ) (args : List Arg)
    → Small p
    → Letter ch
    → parse_precision (precision_text p (type_text t (ch ∷ rest))) args
      ≡ some (p, type_text t (ch ∷ rest), args)
precision_text_lem none t ch rest args small l = no_precision t ch rest args l
precision_text_lem (some n) t ch rest args small l =
    precision_lem n _ _ args (Numeral-decimal n _ small (type-Stops t ch rest l))

-- The text of a conversion does not begin with '%'.
plain_opt :
    (b : Bool) (c : ℕ) (t : List ℕ)
    → (c == b'%') ≡ false
    → doubled_percent t ≡ false
    → doubled_percent (opt b c t) ≡ false
plain_opt true c t e h = e
plain_opt false c t e h = h

Numeral-plain : (n : ℕ) (s t : List ℕ) → Numeral n s t → doubled_percent t ≡ false
Numeral-plain n s t m = let (c, r, e, _, percent) = m.first in rw e percent

pub conversion_text-plain :
    (c : Conversion) (ch : ℕ) (rest : List ℕ)
    → c.width + 48 < 2 ^ 31
    → Letter ch
    → doubled_percent (conversion_text c (ch ∷ rest)) ≡ false
conversion_text-plain c ch rest wide l =
    let stops = precision-Stops c.precision _ (type-Stops c.type ch rest l) in
    plain_opt c.flags.minus b'-' _ refl (
      plain_opt c.flags.plus b'+' _ refl (
        plain_opt c.flags.space b' ' _ refl (
          plain_opt c.flags.pound b'#' _ refl (
            plain_opt c.flags.zero_pad b'0' _ refl (
              plain_opt c.flags.group b'\'' _ refl
                (Numeral-plain c.width _ _ (Numeral-decimal c.width _ wide stops)))))))

-- The parser, part by part.
parse_parts :
    (format s1 s2 s3 s4 : List ℕ) (f g : Flags) (w : ℕ) (p : Option ℕ) (t : ArgType)
    (args args1 args2 : List Arg)
    → parse_flags format no_flags ≡ (f, s1)
    → parse_width s1 (override f) args ≡ some (w, g, s2, args1)
    → parse_precision s2 args1 ≡ some (p, s3, args2)
    → parse_type s3 ≡ (t, s4)
    → parse_conversion format args
      ≡ some (record { flags = precise p g; width = w; precision = p; type = t }, s4, args2)
unfolding parse_conversion
parse_parts format s1 s2 s3 s4 f g w p t args args1 args2 e1 e2 e3 e4 =
    rw e1 (rw e2 (rw e3 (rw e4)))

-- By the flags as the code overrides them.
pub parse_conversion-override :
    (c : Conversion) (ch : ℕ) (rest : List ℕ) (args : List Arg)
    (print : Conversion → List Arg → Output)
    → c.width + 48 < 2 ^ 31
    → Small c.precision
    → conversion_of ch ≡ some print
    → parse_conversion (conversion_text c (ch ∷ rest)) args
      ≡ some (record c { flags = precise c.precision (override c.flags) }, ch ∷ rest, args)
parse_conversion-override c ch rest args print wide small e =
    let l = conversion_of-Letter ch print e in
    let typed = type-Stops c.type ch rest l in
    let stops = precision-Stops c.precision (type_text c.type (ch ∷ rest)) typed in
    let w =
      Numeral-decimal c.width (precision_text c.precision (type_text c.type (ch ∷ rest))) wide
        stops in
    parse_parts _ _ _ _ _ c.flags (override c.flags) c.width c.precision c.type args args args
      (flags_lem c.flags _ (w.stops c.flags)) (width_lem c.width _ _ (override c.flags) args w)
      (precision_text_lem c.precision c.type ch rest args small l) (type_lem c.type ch rest l)

and-not : (x y : Bool) → (x && not y) ≡ (if y then false else x)
and-not true true = refl
and-not true false = refl
and-not false true = refl
and-not false false = refl

precise-meant : (p : Option ℕ) (f : Flags) → precise p (override f) ≡ meant p f
unfolding override
precise-meant none f = rw (and-not f.zero_pad f.minus, and-not f.space f.plus)
precise-meant (some n) f = rw (and-not f.space f.plus)

-- The text of a conversion, before its letter, parses back to the conversion: to its width, its
-- precision and its type, and to its flags, but that '0' is off with '-' or a precision and ' ' is off
-- with '+'. No argument is taken. The width and the precision are below 2 ^ 31 - 48, so that no step of
-- the parser overflows.
pub parse_conversion_text :
    (c : Conversion) (ch : ℕ) (rest : List ℕ) (args : List Arg)
    (print : Conversion → List Arg → Output)
    → c.width + 48 < 2 ^ 31
    → Small c.precision
    → conversion_of ch ≡ some print
    → parse_conversion (conversion_text c (ch ∷ rest)) args
      ≡ some (record c { flags = meant c.precision c.flags }, ch ∷ rest, args)
parse_conversion_text c ch rest args print wide small e =
    parse_conversion-override c ch rest args print wide small e
    ∙ ap (λ (f : Flags). some (record c { flags = f }, ch ∷ rest, args))
        (precise-meant c.precision c.flags)

-- A '0' flag and a width from an argument that is negative: the flags that are parsed have both MINUS
-- and ZERO, which the parser means to keep apart.
pub zero_flag_negative_width :
    (n ch : ℕ) (rest : List ℕ) (args : List Arg) (print : Conversion → List Arg → Output)
    → 2 ^ 31 < n
    → n < 2 ^ 32
    → conversion_of ch ≡ some print
    → parse_conversion (b'0' ∷ b'*' ∷ ch ∷ rest) (word n ∷ args)
      ≡ some (
        record {
          flags = record no_flags { minus = true; zero_pad = true };
          width = 2 ^ 32 - n;
          precision = none;
          type = int_type;
        },
        ch ∷ rest,
        args,
      )
unfolding parse_flags flag_switch override parse_width star_width width_of va_word
zero_flag_negative_width n ch rest args print lo hi e =
    let l = conversion_of-Letter ch print e in
    let over : ltb n (2 ^ 31) ≡ false = ground arith in
    let least : (n == 2 ^ 31) ≡ false = ground arith in
    parse_parts _ _ (ch ∷ rest) (ch ∷ rest) _ (record no_flags { zero_pad = true }) _ _ none
      int_type _ args args refl (rw (over, least)) (no_precision int_type ch rest args l)
      (l.no_type rest)
