-- ===== src/Stdio/Print.antt =====
-- lib/stdio.c: `__vprintf`, `vprintf` and `printf`. What is written is a list of bytes, which the code
-- hands to `uart_putc` one by one.
use pithread.Common.{
  ℕ, zero, suc, ◌+◌, ◌-◌, ◌%◌, ◌^◌, Bool, true, false, Option, none, some, List, [], ◌∷◌, ◌++◌, ltb,
  ◌==◌, if◌then◌else◌, length,
}
use pithread.Stdio.{
  Conversion, Arg, word, va_word, va_long_word, va_text, no_flags, ◌>>=◌, ArgType, char_type,
  short_type, int_type, intmax_type, long_type, longlong_type, ptrdiff_type, size_type,
  parse_conversion,
}
use pithread.Stdio.Format.{
  IntegerBase, base_d, base_o, base_x, base_X, format_integer, format_string,
}

-- What a call comes to: the bytes it wrote, what C leaves undefined, or the model's bound.
pub data Printed : Type 0 where
  wrote : List ℕ → Printed
  undefined : Printed
  out_of_fuel : Printed

-- Bytes before those of the rest of the call.
abbrev pub after : List ℕ → Printed → Printed
after out (wrote s) = wrote (out ++ s)
after out undefined = undefined
after out out_of_fuel = out_of_fuel

-- One call after another.
abbrev pub then_print : Printed → Printed → Printed
then_print (wrote s) r = after s r
then_print undefined r = undefined
then_print out_of_fuel r = out_of_fuel

-- A number of `w` bits, two's complement, as its absolute value and whether it is negative.
abbrev pub signed : ℕ → ℕ → ℕ × Bool
signed w n = if ltb (n + n) (2 ^ w) then (n, false) else (2 ^ w - n, true)

abbrev with_rest : (ℕ → ℕ × Bool) → Option (ℕ × List Arg) → Option ((ℕ × Bool) × List Arg)
with_rest f none = none
with_rest f (some (n, args)) = some (f n, args)

-- The argument of a signed conversion, by its type; a size_t above SIZE_MAX / 2 counts as negative.
unfoldable pub signed_arg : ArgType → List Arg → Option ((ℕ × Bool) × List Arg)
signed_arg char_type args = with_rest (λ n. signed 8 (n % 2 ^ 8)) (va_word args)
signed_arg short_type args = with_rest (λ n. signed 16 (n % 2 ^ 16)) (va_word args)
signed_arg int_type args = with_rest (signed 32) (va_word args)
signed_arg intmax_type args = with_rest (signed 64) (va_long_word args)
signed_arg long_type args = with_rest (signed 32) (va_word args)
signed_arg longlong_type args = with_rest (signed 64) (va_long_word args)
signed_arg ptrdiff_type args = with_rest (signed 32) (va_word args)
signed_arg size_type args = with_rest (signed 32) (va_word args)

abbrev cut : (ℕ → ℕ) → Option (ℕ × List Arg) → Option (ℕ × List Arg)
cut f none = none
cut f (some (n, args)) = some (f n, args)

-- The argument of an unsigned conversion. A ptrdiff_t is masked back to its 32 bits.
unfoldable pub unsigned_arg : ArgType → List Arg → Option (ℕ × List Arg)
unsigned_arg char_type args = cut (λ n. n % 2 ^ 8) (va_word args)
unsigned_arg short_type args = cut (λ n. n % 2 ^ 16) (va_word args)
unsigned_arg int_type args = va_word args
unsigned_arg intmax_type args = va_long_word args
unsigned_arg long_type args = va_word args
unsigned_arg longlong_type args = va_long_word args
unsigned_arg ptrdiff_type args = va_word args
unsigned_arg size_type args = va_word args

-- The bytes that a conversion writes, and the arguments that are left.
abbrev pub Output : Type 0
Output = Option (List ℕ × List Arg)

abbrev pub ended : List Arg → Option (List ℕ) → Output
ended args none = none
ended args (some out) = some (out, args)

-- The absolute value of the least intmax_t overflows.
unfoldable pub print_signed : Conversion → List Arg → Output
print_signed c args = do
  (v, args') ← signed_arg c.type args
  if v.0 == 2 ^ 63 then none else ended args' (format_integer v.0 true v.1 base_d c)

unfoldable pub print_unsigned : IntegerBase → Conversion → List Arg → Output
print_unsigned b c args = do
  (value, args') ← unsigned_arg c.type args
  ended args' (format_integer value false false b c)

unfoldable pub print_char : Conversion → List Arg → Output
print_char c args = do (n, args') ← va_word args; some (format_string (n % 256 ∷ []) c, args')

-- "(null)".
abbrev pub null_text : List ℕ
null_text = b'(' ∷ b'n' ∷ b'u' ∷ b'l' ∷ b'l' ∷ b')' ∷ []

abbrev pub text_or_null : Option (List ℕ) → List ℕ
text_or_null none = null_text
text_or_null (some s) = s

-- The first `n` characters, as `strnlen` counts them.
unfoldable pub take : ℕ → List ℕ → List ℕ
take zero s = []
take (suc n) [] = []
take (suc n) (c ∷ s) = c ∷ take n s

abbrev pub limited : Option ℕ → List ℕ → List ℕ
limited none s = s
limited (some n) s = take n s

unfoldable pub print_text : Conversion → List Arg → Output
print_text c args = do
  (s, args') ← va_text args
  some (format_string (limited c.precision (text_or_null s)) c, args')

-- Pointers print as %#x, with the width and the precision of the conversion.
unfoldable pub print_pointer : Conversion → List Arg → Output
print_pointer c args = do
  (p, args') ← va_word args
  ended args'
      (format_integer p false false base_x (record c { flags = record no_flags { pound = true } }))

-- "%%%c not supported" and "no %%%c conversion>".
abbrev pub not_supported : List ℕ
not_supported =
    b'%' ∷ b'%' ∷ b'%' ∷ b'c' ∷ b' ' ∷ b'n' ∷ b'o' ∷ b't' ∷ b' ' ∷ b's' ∷ b'u' ∷ b'p' ∷ b'p' ∷ b'o'
    ∷ b'r' ∷ b't' ∷ b'e' ∷ b'd' ∷ []

abbrev pub no_conversion : List ℕ
no_conversion =
    b'n' ∷ b'o' ∷ b' ' ∷ b'%' ∷ b'%' ∷ b'%' ∷ b'c' ∷ b' ' ∷ b'c' ∷ b'o' ∷ b'n' ∷ b'v' ∷ b'e' ∷ b'r'
    ∷ b's' ∷ b'i' ∷ b'o' ∷ b'n' ∷ b'>' ∷ []

-- The conversions that print an argument; `none` for the other letters.
unfoldable pub conversion_of : ℕ → Option (Conversion → List Arg → Output)
conversion_of ch =
    if ch == b'd'
    then some print_signed
    else (if ch == b'i'
        then some print_signed
        else (if ch == b'o'
            then some (print_unsigned base_o)
            else (if ch == b'u'
                then some (print_unsigned base_d)
                else (if ch == b'x'
                    then some (print_unsigned base_x)
                    else (if ch == b'X'
                        then some (print_unsigned base_X)
                        else (if ch == b'c'
                            then some print_char
                            else (if ch == b's'
                                then some print_text
                                else (if ch == b'p' then some print_pointer else none))))))))

-- Floating point and %n.
abbrev pub unsupported : ℕ → Bool
unsupported ch =
    if ch == b'f'
    then true
    else (if ch == b'e'
        then true
        else (if ch == b'E'
            then true
            else (if ch == b'g' then true else (if ch == b'G' then true else ch == b'n'))))

-- The message for another letter, by the call of `__printf` that prints it.
unfoldable pub complain : (List ℕ → List Arg → Printed) → ℕ → Printed
complain nested ch = nested (if unsupported ch then not_supported else no_conversion) (word ch ∷ [])

-- How the rest of the loop goes on from a format and arguments.
abbrev Rest : Type 0
Rest = List ℕ → List Arg → Printed

-- The conversion at the end of the parsed specifiers. At the null byte the loop steps past the end of
-- the format.
unfoldable pub convert : Rest → Rest → Conversion → List ℕ → List Arg → Printed
convert nested rest c [] args = elim (complain nested 0) [
  | wrote s ↦ undefined
  | undefined ↦ undefined
  | out_of_fuel ↦ out_of_fuel
]
convert nested rest c (ch ∷ format) args = elim (conversion_of ch) [
  | none ↦ elim (complain nested ch) [
    | wrote s ↦ after s (rest format args)
    | undefined ↦ undefined
    | out_of_fuel ↦ out_of_fuel
  ]
  | some print ↦ elim (print c args) [
    | none ↦ undefined
    | some (out, args') ↦ after out (rest format args')
  ]
]

-- After a '%'.
unfoldable pub percent : Rest → Rest → List ℕ → List Arg → Printed
percent nested rest format args = elim (parse_conversion format args) [
  | none ↦ undefined
  | some (c, format', args') ↦ convert nested rest c format' args'
]

-- The byte after '%' is another '%'.
abbrev pub doubled_percent : List ℕ → Bool
doubled_percent [] = false
doubled_percent (c ∷ format) = c == b'%'

abbrev pub tail : List ℕ → List ℕ
tail [] = []
tail (c ∷ format) = format

-- A byte that is no conversion; a newline gets a carriage return before it.
abbrev pub literal : ℕ → List ℕ
literal c = if c == b'\n' then b'\r' ∷ c ∷ [] else c ∷ []

-- The loop of `__vprintf`; `nested` is the call of `__printf` in it.
unfoldable pub vprintf_loop : Rest → ℕ → Rest
vprintf_loop nested zero format args = out_of_fuel
vprintf_loop nested (suc fuel) [] args = wrote []
vprintf_loop nested (suc fuel) (c ∷ format) args = elim (c == b'%') [
  | false ↦ after (literal c) (vprintf_loop nested fuel format args)
  | true ↦ elim (doubled_percent format) [
    | true ↦ after (b'%' ∷ []) (vprintf_loop nested fuel (tail format) args)
    | false ↦ percent nested (vprintf_loop nested fuel) format args
  ]
]

-- The messages hold no letter that needs another message.
unfoldable pub message : Rest
message format args = vprintf_loop (λ f a. out_of_fuel) (suc (length format)) format args

unfoldable pub __vprintf : Rest
__vprintf format args = vprintf_loop message (suc (length format)) format args

-- The bytes that go to the UART, and `char_cnt`.
unfoldable pub vprintf : List ℕ → List Arg → Option (List ℕ × ℕ)
vprintf format args = elim (__vprintf format args) [
  | wrote out ↦ some (out, length out % 2 ^ 32)
  | _ ↦ none
]

unfoldable pub printf : List ℕ → List Arg → Option (List ℕ × ℕ)
printf format args = vprintf format args
