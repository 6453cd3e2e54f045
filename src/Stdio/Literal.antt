-- ===== src/Stdio/Literal.antt =====
-- The loop of `__vprintf`: it ends, and it copies what is no conversion.
use pithread.Common.{
  ℕ, zero, suc, ◌+◌, ◌%◌, ◌≤◌, ◌≡◌, inl, inr, refl, sym, ap, ◌∙◌, false, List, [], ◌∷◌, ◌++◌,
  append_assoc, ◌==◌, if◌then◌else◌, length, length-append, has, arith, Bool-cases, Option-cases,
}
use pithread.Stdio.Format.{format_string}
use pithread.Stdio.{
  Arg, Conversion, word, parse_conversion, parse_flags, flag_switch, parse_width, parse_digits,
  isdigit, parse_precision, parse_type, override, va_word,
}
use pithread.Stdio.Shorter.{parse_conversion_short}
use pithread.Stdio.Print.{
  print_char, unsupported, Printed, wrote, undefined, out_of_fuel, after, literal, doubled_percent,
  tail, percent, convert, complain, conversion_of, not_supported, no_conversion, vprintf_loop,
  message, __vprintf,
}

-- The call does not meet the model's bound.
abbrev pub Ends : Printed → Type 0
Ends (wrote out) = Unit {0}
Ends undefined = Unit {0}
Ends out_of_fuel = ⊥

Ends-after : (out : List ℕ) (r : Printed) → Ends r → Ends (after out r)
Ends-after out (wrote s) e = tt
Ends-after out undefined e = tt
Ends-after out out_of_fuel e = e

abbrev Rest : Type 0
Rest = List ℕ → List Arg → Printed

-- A rest of the loop that ends on formats of at most `n` bytes.
abbrev EndsUpTo : ℕ → Rest → Type 0
EndsUpTo n rest = (format : List ℕ) (args : List Arg) → length format ≤ n → Ends (rest format args)

-- A call of `__printf` that ends with any one letter.
abbrev Answers : Rest → Type 0
Answers nested = (ch : ℕ) → Ends (complain nested ch)

convert-Ends :
    (nested rest : Rest) (c : Conversion) (format : List ℕ) (args : List Arg) (n : ℕ)
    → Answers nested
    → EndsUpTo n rest
    → length format ≤ suc n
    → Ends (convert nested rest c format args)
unfolding convert
convert-Ends nested rest c [] args n a r le = null_end (complain nested 0) (a 0)
  where
    null_end :
        (p : Printed)
        → Ends p
        → Ends (elim p [ wrote s ↦ undefined | undefined ↦ undefined | out_of_fuel ↦ out_of_fuel ])
    null_end (wrote s) e = tt
    null_end undefined e = tt
    null_end out_of_fuel e = e
convert-Ends nested rest c (ch ∷ format) args n a r le = elim (Option-cases (conversion_of ch)) [
  | inl e ↦ rw (e, convert) (letter_end (complain nested ch) (a ch))
  | inr (print, e) ↦ elim (Option-cases (print c args)) [
    | inl d ↦ rw (e, d, convert) tt
    | inr ((out, args'), d) ↦
        rw (e, d, convert) (Ends-after out (rest format args') (r format args' (omega arith)))
  ]
]
  where
    letter_end :
        (p : Printed)
        → Ends p
        → Ends (elim p [
          | wrote s ↦ after s (rest format args)
          | undefined ↦ undefined
          | out_of_fuel ↦ out_of_fuel
        ])
    letter_end (wrote s) e = Ends-after s (rest format args) (r format args (omega arith))
    letter_end undefined e = tt
    letter_end out_of_fuel e = e

percent-Ends :
    (nested rest : Rest) (format : List ℕ) (args : List Arg) (n : ℕ)
    → Answers nested
    → EndsUpTo n rest
    → length format ≤ suc n
    → Ends (percent nested rest format args)
unfolding percent
percent-Ends nested rest format args n a r le =
    let s = parse_conversion_short format args in
    elim (Option-cases (parse_conversion format args)) [
      | inl e ↦ rw (e, percent) tt
      | inr ((c, format', args'), e) ↦
          let short : length format' ≤ length format = rw e at s in
          rw (e, percent) (convert-Ends nested rest c format' args' n a r (omega arith))
    ]

loop-Ends :
    (nested : Rest) (fuel : ℕ) → Answers nested → EndsUpTo fuel (vprintf_loop nested (suc fuel))
unfolding vprintf_loop
loop-Ends nested fuel a [] args le = tt
loop-Ends nested zero a (c ∷ format) args le = absurd (omega arith)
loop-Ends nested (suc fuel) a (c ∷ format) args le = elim (Bool-cases (c == b'%')) [
  | inr e ↦
      rw (e, vprintf_loop)
        (Ends-after (literal c) (vprintf_loop nested (suc fuel) format args)
          (loop-Ends nested fuel a format args (omega arith)))
  | inl e ↦ elim (Bool-cases (doubled_percent format)) [
    | inl d ↦
        rw (e, d, vprintf_loop)
          (Ends-after (b'%' ∷ []) (vprintf_loop nested (suc fuel) (tail format) args)
            (loop-Ends nested fuel a (tail format) args (tail_short format (omega arith))))
    | inr d ↦
        rw (e, d, vprintf_loop)
          (percent-Ends nested (vprintf_loop nested (suc fuel)) format args fuel a
            (λ s t l. loop-Ends nested fuel a s t l) (omega arith))
  ]
]
  where
    tail_short : (s : List ℕ) → length s ≤ suc fuel → length (tail s) ≤ fuel
    tail_short [] h = omega arith
    tail_short (x ∷ s) h = omega arith

-- What the two messages say of a letter.
pub message-not_supported :
    (ch : ℕ)
    → message not_supported (word ch ∷ [])
      ≡ wrote (
          b'%'
          ∷ ch % 256
          ∷ b' '
          ∷ b'n'
          ∷ b'o'
          ∷ b't'
          ∷ b' '
          ∷ b's'
          ∷ b'u'
          ∷ b'p'
          ∷ b'p'
          ∷ b'o'
          ∷ b'r'
          ∷ b't'
          ∷ b'e'
          ∷ b'd'
          ∷ [])
unfolding message vprintf_loop percent convert parse_conversion parse_flags flag_switch parse_width
    parse_digits isdigit parse_precision parse_type override conversion_of print_char va_word
    format_string
message-not_supported ch = refl

pub message-no_conversion :
    (ch : ℕ)
    → message no_conversion (word ch ∷ [])
      ≡ wrote (
          b'n'
          ∷ b'o'
          ∷ b' '
          ∷ b'%'
          ∷ ch % 256
          ∷ b' '
          ∷ b'c'
          ∷ b'o'
          ∷ b'n'
          ∷ b'v'
          ∷ b'e'
          ∷ b'r'
          ∷ b's'
          ∷ b'i'
          ∷ b'o'
          ∷ b'n'
          ∷ b'>'
          ∷ [])
unfolding message vprintf_loop percent convert parse_conversion parse_flags flag_switch parse_width
    parse_digits isdigit parse_precision parse_type override conversion_of print_char va_word
    format_string
message-no_conversion ch = refl

message-Answers : Answers message
unfolding complain
message-Answers ch = elim (Bool-cases (unsupported ch)) [
  | inl e ↦ rw (e, message-not_supported ch) tt
  | inr e ↦ rw (e, message-no_conversion ch) tt
]

-- `__vprintf` ends on every format and all arguments: the model's bounds on its loop and on the loop
-- of the call in it are enough.
pub vprintf-Ends : (format : List ℕ) (args : List Arg) → Ends (__vprintf format args)
unfolding __vprintf
vprintf-Ends format args =
    loop-Ends message (length format) message-Answers format args (omega arith)

-- A text with a carriage return before each newline.
unfoldable pub crlf : List ℕ → List ℕ
crlf [] = []
crlf (c ∷ s) = if c == b'\n' then b'\r' ∷ b'\n' ∷ crlf s else c ∷ crlf s

literal-crlf : (c : ℕ) (s : List ℕ) → literal c ++ crlf s ≡ crlf (c ∷ s)
unfolding crlf
literal-crlf c s = elim (Bool-cases (c == b'\n')) [
  | inl e ↦ let n : c ≡ b'\n' = ground arith in rw e (ap (λ (x : ℕ). b'\r' ∷ x ∷ crlf s) n)
  | inr e ↦ rw e
]

after-after : (s t : List ℕ) (r : Printed) → after s (after t r) ≡ after (s ++ t) r
after-after s t (wrote u) = ap wrote (sym (append_assoc s t u))
after-after s t undefined = refl
after-after s t out_of_fuel = refl

after-nothing : (r : Printed) → after [] r ≡ r
after-nothing (wrote s) = refl
after-nothing undefined = refl
after-nothing out_of_fuel = refl

loop-literal :
    (nested : Rest) (text rest : List ℕ) (args : List Arg) (fuel : ℕ)
    → has b'%' text ≡ false
    → vprintf_loop nested (length text + fuel) (text ++ rest) args
      ≡ after (crlf text) (vprintf_loop nested fuel rest args)
unfolding vprintf_loop crlf
loop-literal nested [] rest args fuel h =
    ap (λ (k : ℕ). vprintf_loop nested k rest args) (let z : 0 + fuel ≡ fuel = omega arith in z)
    ∙ sym (after-nothing (vprintf_loop nested fuel rest args))
loop-literal nested (c ∷ text) rest args fuel h =
    let other : (c == b'%') ≡ false = ground arith in
    let more : has b'%' text ≡ false = ground arith in
    let z : suc (length text) + fuel ≡ suc (length text + fuel) = omega arith in
    ap (λ (k : ℕ). vprintf_loop nested k (c ∷ (text ++ rest)) args) z
    ∙ rw (other, vprintf_loop)
        (ap (after (literal c)) (loop-literal nested text rest args fuel more)
          ∙ after-after (literal c) (crlf text) (vprintf_loop nested fuel rest args)
          ∙ ap (λ (s : List ℕ). after s (vprintf_loop nested fuel rest args)) (literal-crlf c text))

-- Text before the first conversion is copied, each newline with a carriage return before it,
-- and the rest of the format is printed as it is alone.
vprintf-literal :
    (text rest : List ℕ) (args : List Arg)
    → has b'%' text ≡ false
    → __vprintf (text ++ rest) args ≡ after (crlf text) (__vprintf rest args)
unfolding __vprintf
vprintf-literal text rest args h =
    ap (λ (k : ℕ). vprintf_loop message k (text ++ rest) args)
      (let e = length-append text rest in
        let z : suc (length (text ++ rest)) ≡ length text + suc (length rest) = omega arith in z)
    ∙ loop-literal message text rest args (suc (length rest)) h
