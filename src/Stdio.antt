-- ===== src/Stdio.antt =====
-- lib/stdio.c: `parse_conversion`. A format is the list of its bytes up to the null byte, which is
-- what a read at the end of the list gives. An `int` is its 32 bits where it comes from the caller.
-- `none` is what C leaves undefined: an int that overflows, an argument that is not there or has
-- another type, a step past the null byte.
pub mod Format
pub mod Print
pub mod Reader
pub mod Bases
pub mod Buffer
pub mod RoundTrip
pub mod Width
pub mod Shorter
pub mod Spec
pub mod Numeral
pub mod Parse
pub mod Compose
pub mod Numbers
pub mod Padding
pub mod Texts
pub mod Literal
mod Tests
use pithread.Common.{
  ℕ, ◌+◌, ◌-◌, ◌*◌, ◌^◌, Bool, true, false, not, ◌&&◌, Option, none, some, List, [], ◌∷◌, ltb, leb,
  ◌==◌, if◌then◌else◌,
}

-- The bits of `flags`.
pub record Flags : Type 0 where
  pub minus : Bool
  pub plus : Bool
  pub space : Bool
  pub pound : Bool
  pub zero_pad : Bool
  pub group : Bool

abbrev pub no_flags : Flags
no_flags = record {
  minus = false;
  plus = false;
  space = false;
  pound = false;
  zero_pad = false;
  group = false;
}

pub data ArgType : Type 0 where
  char_type short_type int_type intmax_type long_type longlong_type ptrdiff_type size_type : ArgType

-- A precision of -1 is `none`.
pub record Conversion : Type 0 where
  pub flags : Flags
  pub width : ℕ
  pub precision : Option ℕ
  pub type : ArgType

-- The arguments of a variadic call: a word of 32 bits, which holds an int, a long, a size_t, a
-- ptrdiff_t or a pointer; a word of 64 bits; and a pointer to a string, which may be NULL.
pub data Arg : Type 0 where
  word : ℕ → Arg
  long_word : ℕ → Arg
  text : Option (List ℕ) → Arg

-- `va_arg` of a type of 32 bits, of 64 bits, and of a string.
unfoldable pub va_word : List Arg → Option (ℕ × List Arg)
va_word (word n ∷ args) = some (n, args)
va_word _ = none

unfoldable pub va_long_word : List Arg → Option (ℕ × List Arg)
va_long_word (long_word n ∷ args) = some (n, args)
va_long_word _ = none

unfoldable pub va_text : List Arg → Option (Option (List ℕ) × List Arg)
va_text (text s ∷ args) = some (s, args)
va_text _ = none

infixl 5 ◌>>=◌
abbrev pub ◌>>=◌ {ℓ κ} : {A : Type ℓ} {B : Type κ} → Option A → (A → Option B) → Option B
none >>= f = none
some a >>= f = f a

unfoldable pub isdigit : ℕ → Bool
isdigit c = leb b'0' c && leb c b'9'

-- One round of the flag loop: `none` is its default case.
unfoldable pub flag_switch : ℕ → Flags → Option Flags
flag_switch c f =
    if c == b'-'
    then some (record f { minus = true })
    else (if c == b'+'
        then some (record f { plus = true })
        else (if c == b' '
            then some (record f { space = true })
            else (if c == b'#'
                then some (record f { pound = true })
                else (if c == b'0'
                    then some (record f { zero_pad = true })
                    else (if c == b'\'' then some (record f { group = true }) else none)))))

unfoldable pub parse_flags : List ℕ → Flags → Flags × List ℕ
parse_flags [] f = (f, [])
parse_flags (c ∷ format) f = elim (flag_switch c f) [
  | none ↦ (f, c ∷ format)
  | some f' ↦ parse_flags format f'
]

-- `if (flags & MINUS) flags &= ~ZERO; if (flags & PLUS) flags &= ~SPACE;`
unfoldable pub override : Flags → Flags
override f = record f { zero_pad = f.zero_pad && not f.minus; space = f.space && not f.plus }

-- `n = n * 10 + *format - '0'` while there are digits.
unfoldable pub parse_digits : List ℕ → ℕ → Option (ℕ × List ℕ)
parse_digits [] n = some (n, [])
parse_digits (c ∷ format) n = elim (isdigit c) [
  | false ↦ some (n, c ∷ format)
  | true ↦ elim (ltb (n * 10 + c) (2 ^ 31)) [
    | false ↦ none
    | true ↦ parse_digits format (n * 10 + c - b'0')
  ]
]

-- The width of an int argument, and whether it sets MINUS.
unfoldable pub width_of : ℕ → Option (ℕ × Bool)
width_of n =
    if ltb n (2 ^ 31)
    then some (n, false)
    else (if n == 2 ^ 31 then none else some (2 ^ 32 - n, true))

unfoldable pub star_width : List ℕ → Flags → List Arg → Option (ℕ × Flags × List ℕ × List Arg)
star_width format f args = do
  (n, args') ← va_word args
  (width, negative) ← width_of n
  some (width, (if negative then record f { minus = true } else f), format, args')

unfoldable pub parse_width : List ℕ → Flags → List Arg → Option (ℕ × Flags × List ℕ × List Arg)
parse_width [] f args = some (0, f, [], args)
parse_width (c ∷ format) f args =
    if c == b'*'
    then star_width format f args
    else (do (width, format') ← parse_digits (c ∷ format) 0; some (width, f, format', args))

-- The precision after the point.
unfoldable pub star_precision : List ℕ → List Arg → Option (Option ℕ × List ℕ × List Arg)
star_precision format args = do
  (n, args') ← va_word args
  some ((if ltb n (2 ^ 31) then some n else none), format, args')

unfoldable pub precision_after : List ℕ → List Arg → Option (Option ℕ × List ℕ × List Arg)
precision_after [] args = some (some 0, [], args)
precision_after (c ∷ format) args = if c == b'*' then star_precision format args else (do
  (precision, format') ← parse_digits (c ∷ format) 0
  some (some precision, format', args))

unfoldable pub parse_precision : List ℕ → List Arg → Option (Option ℕ × List ℕ × List Arg)
parse_precision [] args = some (none, [], args)
parse_precision (c ∷ format) args =
    if c == b'.' then precision_after format args else some (none, c ∷ format, args)

-- The second letter of `hh` and `ll`.
unfoldable pub doubled : ℕ → ArgType → ArgType → List ℕ → ArgType × List ℕ
doubled letter two one [] = (one, [])
doubled letter two one (c ∷ format) = if c == letter then (two, format) else (one, c ∷ format)

unfoldable pub parse_type : List ℕ → ArgType × List ℕ
parse_type [] = (int_type, [])
parse_type (c ∷ format) =
    if c == b'h'
    then doubled b'h' char_type short_type format
    else (if c == b'j'
        then (intmax_type, format)
        else (if c == b'l'
            then doubled b'l' longlong_type long_type format
            else (if c == b't'
                then (ptrdiff_type, format)
                else (if c == b'z' then (size_type, format) else (int_type, c ∷ format)))))

-- `if (precision >= 0) flags &= ~ZERO;`
abbrev pub precise : Option ℕ → Flags → Flags
precise none f = f
precise (some n) f = record f { zero_pad = false }

unfoldable pub parse_conversion : List ℕ → List Arg → Option (Conversion × List ℕ × List Arg)
parse_conversion format args = do
  let flagged = parse_flags format no_flags
  (width, f, format1, args1) ← parse_width flagged.1 (override flagged.0) args
  (precision, format2, args2) ← parse_precision format1 args1
  let typed = parse_type format2
  some (
    record { flags = precise precision f; width = width; precision = precision; type = typed.0 },
    typed.1,
    args2,
  )
