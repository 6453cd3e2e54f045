-- ===== src/Stdio/Numbers.antt =====
-- The integers that a format prints: the loop of `__vprintf`, `parse_conversion` and
-- `format_integer` together.
use pithread.Common.{
  ℕ, ◌+◌, ◌-◌, ◌*◌, ◌^◌, ◌≤◌, ◌<◌, ◌≡◌, sym, ap, subst, ◌∙◌, Bool, true, false, ◌&&◌, Option, none,
  some, List, [], ◌∷◌, ==_ne, length, if◌then◌else◌, arith,
}
use pithread.Stdio.{Arg, Conversion, override, precise}
use pithread.Stdio.Print.{after, Output, conversion_of, signed_arg, print_signed, __vprintf}
use pithread.Stdio.Format.{IntegerBase, base_d, format_integer}
use pithread.Stdio.Reader.{read, is_negative}
use pithread.Stdio.Bases.{IsBase, base_d-IsBase}
use pithread.Stdio.RoundTrip.{format_integer_lem}
use pithread.Stdio.Width.{format_integer_width}
use pithread.Stdio.Spec.{conversion_text}
use pithread.Stdio.Parse.{
  Small, parse_conversion-override, conversion_of-Letter, conversion_text-plain,
}
use pithread.Stdio.Compose.{vprintf-conversion}

-- What stands in the output for a number.
pub record Shows (base value width : ℕ) (negative : Bool) (out : List ℕ) : Type 0 where
  pub reads : read base out ≡ value
  pub sign : is_negative out ≡ negative
  pub fills : width ≤ length out

some-inj : {A : Type 0} (d : A) {a b : A} → some a ≡ some b → a ≡ b
some-inj d e = ap (λ (o : Option _). elim o [ none ↦ d | some x ↦ x ]) e

padded : (t : Bool) (width plain : ℕ) → width ≤ plain + (if t then 2 else 1) * (width - plain)
padded true width plain = omega arith
padded false width plain = omega arith

pub format_integer-Shows :
    (value : ℕ) (is_signed negative : Bool) (b : IntegerBase) (c : Conversion)
    → IsBase b
    → value < 2 ^ 64
    → (out : List ℕ) × (format_integer value is_signed negative b c ≡ some out)
      × Shows b.base value c.width (is_signed && negative) out
format_integer-Shows value is_signed negative b c isb lt =
    let (out, e, reads, sign) = format_integer_lem value is_signed negative b c isb lt in
    let (out', plain, e', _, l) = format_integer_width value is_signed negative b c isb lt in
    let same : out' ≡ out = some-inj [] (sym e' ∙ e) in
    let fills = padded (c.flags.minus && c.flags.zero_pad) c.width (length plain) in
    (
      out,
      e,
      record {
        reads = reads;
        sign = sign;
        fills =
            subst (λ (s : List ℕ). c.width ≤ length s) same
              (subst (λ (k : ℕ). c.width ≤ k) (sym l) fills);
      },
    )

-- The conversion as it is parsed.
abbrev pub parsed : Conversion → Conversion
parsed c = record c { flags = precise c.precision (override c.flags) }

-- A letter that prints an integer, after the text of a conversion.
pub printed :
    (c : Conversion) (ch : ℕ) (rest out : List ℕ) (args args' : List Arg)
    (print : Conversion → List Arg → Output)
    → c.width + 48 < 2 ^ 31
    → Small c.precision
    → conversion_of ch ≡ some print
    → print (parsed c) args ≡ some (out, args')
    → __vprintf (b'%' ∷ conversion_text c (ch ∷ rest)) args ≡ after out (__vprintf rest args')
printed c ch rest out args args' print wide small letter e =
    vprintf-conversion _ rest out ch (parsed c) args args args' print
      (conversion_text-plain c ch rest wide (conversion_of-Letter ch print letter))
      (parse_conversion-override c ch rest args print wide small letter) letter e

pub print_signed_lem :
    (c : Conversion) (v : ℕ) (negative : Bool) (args args' : List Arg)
    → signed_arg c.type args ≡ some ((v, negative), args')
    → v < 2 ^ 63
    → (out : List ℕ) × (print_signed c args ≡ some (out, args')) × Shows 10 v c.width negative out
unfolding print_signed
print_signed_lem c v negative args args' e lt =
    let (out, f, s) = format_integer-Shows v true negative base_d c base_d-IsBase (omega arith) in
    (out, rw (e, print_signed) (rw (==_ne v (2 ^ 63) (λ z. omega arith)) (rw f)), s)
