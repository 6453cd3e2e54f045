-- ===== src/Stdio/Spec.antt =====
-- The text of a conversion: a printer for what `parse_conversion` reads.
use pithread.Common.{
  ℕ, zero, suc, ◌+◌, ◌*◌, ◌/◌, ◌%◌, ◌^◌, ◌≤◌, ◌<◌, ◌≡◌, ◌≢◌, refl, sym, ap, subst, ◌∙◌, Bool, true,
  false, Option, none, some, List, [], ◌∷◌, ◌++◌, ==_ne, ltb, if◌then◌else◌, get_or, arith,
  ℕ_discrete,
}
use pithread.Stdio.{
  Flags, ArgType, char_type, short_type, int_type, intmax_type, long_type, longlong_type,
  ptrdiff_type, size_type, Conversion, isdigit, parse_digits,
}
use pithread.Stdio.Format.{base_d, digit_loop}

abbrev pub opt : Bool → ℕ → List ℕ → List ℕ
opt b c s = if b then c ∷ s else s

-- The flags in the order of the source, and what follows.
abbrev pub flags_text : Flags → List ℕ → List ℕ
flags_text f s = opt f.minus b'-' (
    opt f.plus b'+'
      (opt f.space b' ' (opt f.pound b'#' (opt f.zero_pad b'0' (opt f.group b'\'' s)))))

-- The digits of a number.
abbrev digits_or_none : Option (List ℕ) → List ℕ
digits_or_none none = []
digits_or_none (some s) = s

unfoldable pub decimal : ℕ → List ℕ
decimal n = digits_or_none (digit_loop 64 base_d false n 0 [])

abbrev pub width_text : ℕ → List ℕ → List ℕ
width_text w s = decimal w ++ s

abbrev pub precision_text : Option ℕ → List ℕ → List ℕ
precision_text none s = s
precision_text (some n) s = b'.' ∷ (decimal n ++ s)

abbrev pub type_text : ArgType → List ℕ → List ℕ
type_text char_type s = b'h' ∷ b'h' ∷ s
type_text short_type s = b'h' ∷ s
type_text int_type s = s
type_text intmax_type s = b'j' ∷ s
type_text long_type s = b'l' ∷ s
type_text longlong_type s = b'l' ∷ b'l' ∷ s
type_text ptrdiff_type s = b't' ∷ s
type_text size_type s = b'z' ∷ s

abbrev pub conversion_text : Conversion → List ℕ → List ℕ
conversion_text c s =
    flags_text c.flags (width_text c.width (precision_text c.precision (type_text c.type s)))

-- The flags that the text of a conversion means: '-' or a precision turns '0' off, '+' turns ' ' off.
abbrev pub meant : Option ℕ → Flags → Flags
meant none f = record {
  minus = f.minus;
  plus = f.plus;
  space = if f.plus then false else f.space;
  pound = f.pound;
  zero_pad = if f.minus then false else f.zero_pad;
  group = f.group;
}
meant (some n) f = record {
  minus = f.minus;
  plus = f.plus;
  space = if f.plus then false else f.space;
  pound = f.pound;
  zero_pad = false;
  group = f.group;
}

-- The digits of a number as the digit loop writes them, the first of them no zero.
pub record Decimal (n : ℕ) (buf r : List ℕ) : Type 0 where
  pub parses : (rest : List ℕ) → parse_digits (r ++ rest) 0 ≡ parse_digits (buf ++ rest) n
  pub nothing : n ≡ 0 → r ≡ buf
  pub head : n ≢ 0 → (c : ℕ) × (s : List ℕ) × (r ≡ c ∷ s) × (b'1' ≤ c) × (c ≤ b'9')

digit_char : (d : ℕ) → d < 10 → get_or base_d.digits d 0 ≡ 48 + d
digit_char zero lt = refl
digit_char (suc zero) lt = refl
digit_char (suc (suc zero)) lt = refl
digit_char (suc (suc (suc zero))) lt = refl
digit_char (suc (suc (suc (suc zero)))) lt = refl
digit_char (suc (suc (suc (suc (suc zero))))) lt = refl
digit_char (suc (suc (suc (suc (suc (suc zero)))))) lt = refl
digit_char (suc (suc (suc (suc (suc (suc (suc zero))))))) lt = refl
digit_char (suc (suc (suc (suc (suc (suc (suc (suc zero)))))))) lt = refl
digit_char (suc (suc (suc (suc (suc (suc (suc (suc (suc zero))))))))) lt = refl
digit_char (suc (suc (suc (suc (suc (suc (suc (suc (suc (suc d)))))))))) lt = absurd (omega arith)

Decimal-zero : (n : ℕ) (buf : List ℕ) → n ≡ 0 → Decimal n buf buf
Decimal-zero n buf z = record {
  parses = λ rest. ap (parse_digits (buf ++ rest)) (sym z);
  nothing = λ e. refl;
  head = λ ne. absurd (ne z);
}

one_digit :
    (n c : ℕ) (s : List ℕ)
    → c ≡ 48 + n % 10
    → n + 48 < 2 ^ 31
    → parse_digits (c ∷ s) (n / 10) ≡ parse_digits s n
unfolding parse_digits isdigit
one_digit n c s e small =
    let digit : isdigit c ≡ true = ground arith in
    let fits : ltb (n / 10 * 10 + c) (2 ^ 31) ≡ true = ground arith in
    rw (digit, fits, parse_digits) (ap (parse_digits s) (omega arith))

Decimal-step :
    (n c : ℕ) (buf r : List ℕ)
    → n ≢ 0
    → c ≡ 48 + n % 10
    → n + 48 < 2 ^ 31
    → Decimal (n / 10) (c ∷ buf) r
    → Decimal n buf r
Decimal-step n c buf r ne e small d = record {
  parses = λ rest. d.parses rest ∙ one_digit n c (buf ++ rest) e small;
  nothing = λ z. absurd (ne z);
  head = λ _. elim (ℕ_discrete (n / 10) 0) [
    | yes z ↦ (c, buf, d.nothing z, omega arith, omega arith)
    | no more ↦ d.head more
  ];
}

Decimal-loop :
    (k fuel n cnt : ℕ) (buf : List ℕ)
    → n < 8 ^ k
    → k ≤ fuel
    → n + 48 < 2 ^ 31
    → (r : List ℕ) × (digit_loop fuel base_d false n cnt buf ≡ some r) × Decimal n buf r
unfolding digit_loop
Decimal-loop zero zero n cnt buf lt le small =
    let z : n ≡ 0 = omega arith in (buf, rw z, Decimal-zero n buf z)
Decimal-loop zero (suc fuel) n cnt buf lt le small =
    let z : n ≡ 0 = omega arith in (buf, rw (z, digit_loop), Decimal-zero n buf z)
Decimal-loop (suc k) zero n cnt buf lt le small = absurd (omega arith)
Decimal-loop (suc k) (suc fuel) n cnt buf lt le small = elim (ℕ_discrete n 0) [
  | yes z ↦ (buf, rw (z, digit_loop), Decimal-zero n buf z)
  | no ne ↦
      let c = get_or base_d.digits (n % 10) 0 in
      let (r, e, d) =
        Decimal-loop k fuel (n / 10) (cnt + 1) (c ∷ buf) (omega arith) (omega arith)
          (omega arith) in
      (
        r,
        rw (==_ne n 0 ne, digit_loop) e,
        Decimal-step n c buf r ne (digit_char (n % 10) (omega arith)) small d,
      )
]

pub decimal-Decimal : (n : ℕ) → n + 48 < 2 ^ 31 → Decimal n [] (decimal n)
unfolding decimal
decimal-Decimal n small =
    let (r, e, d) = Decimal-loop 22 64 n 0 [] (omega arith) (omega arith) small in
    subst (λ (o : Option (List ℕ)). Decimal n [] (digits_or_none o)) (sym e) d
