-- ===== src/Debug/Columns.antt =====
-- What a hex dump shows, column by column, and how the loops of a line print it.
use pithread.Common.{
  ℕ, zero, suc, ◌+◌, ◌*◌, ◌%◌, ◌^◌, ◌≤◌, ◌<◌, ◌≡◌, refl, sym, ap, ◌∙◌, Bool, false, true, ◌&&◌,
  List, [], ◌∷◌, ◌++◌, append_assoc, ◌==◌, ltb, leb, if◌then◌else◌, arith,
}
use pithread.Memory.{Memory}
use pithread.Stdio.{
  doubled, word, long_word, char_type, intmax_type, parse_conversion, parse_flags, flag_switch,
  override, parse_width, parse_digits, isdigit, parse_precision, parse_type, va_word, va_long_word,
}
use pithread.Stdio.Format.{base_x, format_string}
use pithread.Stdio.Print.{
  Printed, wrote, after, then_print, print_unsigned, unsigned_arg, print_char, conversion_of,
  vprintf_loop, percent, convert, __vprintf,
}
use pithread.Stdio.Compose.{vprintf-conversion}
use pithread.Debug.{
  offset_format, byte_format, char_format, blank, space, isprint, print_times, bytes_loop,
  chars_loop,
}
use pithread.Debug.Digits.{hex_text, padded, format_integer-hex_text}

-- What a function shows at the `n` places from `p` on.
abbrev pub columns : (ℕ → List ℕ) → ℕ → ℕ → List ℕ
columns f p zero = []
columns f p (suc n) = f p ++ columns f (p + 1) n

-- A place of a dump that shows the bytes `byte` of the places from `lo` up to `hi`.
abbrev pub inside : ℕ → ℕ → ℕ → Bool
inside lo hi p = leb lo p && ltb p hi

abbrev pub byte_text : ℕ → ℕ → List ℕ
byte_text p b = hex_text 2 b [] ++ (if p % 16 == 7 then b'-' else b' ') ∷ []

abbrev pub hex_cell : ℕ → ℕ → (ℕ → ℕ) → ℕ → List ℕ
hex_cell lo hi byte p = if inside lo hi p then byte_text p (byte p) else blank

abbrev pub char_text : ℕ → List ℕ
char_text b = (if isprint b then b else b'.') ∷ []

abbrev pub char_cell : ℕ → ℕ → (ℕ → ℕ) → ℕ → List ℕ
char_cell lo hi byte p = if inside lo hi p then char_text (byte p) else space

pub columns-append :
    (f : ℕ → List ℕ) (p a b : ℕ) → columns f p (a + b) ≡ columns f p a ++ columns f (p + a) b
columns-append f p zero b =
    ap (columns f p) (let z : 0 + b ≡ b = omega arith in z)
    ∙ ap (λ (q : ℕ). columns f q b) (let z : p ≡ p + 0 = omega arith in z)
columns-append f p (suc a) b =
    ap (columns f p) (let z : suc a + b ≡ suc (a + b) = omega arith in z)
    ∙ ap (λ (s : List ℕ). f p ++ s)
        (columns-append f (p + 1) a b
          ∙ ap (λ (q : ℕ). columns f (p + 1) a ++ columns f q b)
              (let z : p + 1 + a ≡ p + suc a = omega arith in z))
    ∙ sym (append_assoc (f p) (columns f (p + 1) a) (columns f (p + suc a) b))

-- A call that writes before a call that writes.
pub both :
    (p q : Printed) (s t : List ℕ) → p ≡ wrote s → q ≡ wrote t → then_print p q ≡ wrote (s ++ t)
both p q s t e d = ap (λ (x : Printed). then_print x q) e ∙ ap (after s) d

pub text_offset :
    (v : ℕ)
    → v < 2 ^ 32
    → __vprintf offset_format (long_word v ∷ []) ≡ wrote (hex_text 8 v [] ++ b' ' ∷ b' ' ∷ [])
unfolding __vprintf vprintf_loop parse_conversion parse_flags flag_switch override parse_width
    parse_digits isdigit parse_precision parse_type conversion_of print_unsigned unsigned_arg
    va_long_word
text_offset v lt =
    vprintf-conversion (b'0' ∷ b'8' ∷ b'j' ∷ b'x' ∷ b' ' ∷ b' ' ∷ []) (b' ' ∷ b' ' ∷ [])
      (hex_text 8 v []) b'x' (padded 8 intmax_type) (long_word v ∷ []) (long_word v ∷ []) []
      (print_unsigned base_x) refl refl refl
      (rw (format_integer-hex_text 8 v intmax_type (omega arith) (omega arith) (omega arith)))

pub char-format : (c : ℕ) → c < 256 → __vprintf char_format (word c ∷ []) ≡ wrote (c ∷ [])
unfolding __vprintf vprintf_loop percent convert parse_conversion parse_flags flag_switch override
    parse_width parse_digits isdigit parse_precision parse_type conversion_of print_char va_word
    format_string
char-format c lt = ap (λ (x : ℕ). wrote (x ∷ [])) (let z : c % 256 ≡ c = omega arith in z)

pub byte-format :
    (b c : ℕ)
    → b < 256
    → c < 256
    → __vprintf byte_format (word b ∷ word c ∷ []) ≡ wrote (hex_text 2 b [] ++ c ∷ [])
unfolding parse_conversion parse_flags flag_switch override parse_width parse_digits isdigit
    parse_precision parse_type conversion_of print_unsigned unsigned_arg va_word doubled
byte-format b c lb lc =
    let same : b % 2 ^ 8 ≡ b = omega arith in
    vprintf-conversion (b'0' ∷ b'2' ∷ b'h' ∷ b'h' ∷ b'x' ∷ b'%' ∷ b'c' ∷ []) (b'%' ∷ b'c' ∷ [])
      (hex_text 2 b []) b'x' (padded 2 char_type) (word b ∷ word c ∷ []) (word b ∷ word c ∷ [])
      (word c ∷ []) (print_unsigned base_x) refl refl refl
      (rw (same, format_integer-hex_text 2 b char_type (omega arith) (omega arith) (omega arith)))
    ∙ ap (after (hex_text 2 b [])) (char-format c lc)

-- The loops of a line print what a function of the place shows that agrees with them.
pub print_times-columns :
    (f : ℕ → List ℕ) (text : List ℕ) (n p : ℕ)
    → __vprintf text [] ≡ wrote text
    → ((q : ℕ) → p ≤ q → q < p + n → f q ≡ text)
    → print_times n text ≡ wrote (columns f p n)
unfolding print_times
print_times-columns f text zero p e h = refl
print_times-columns f text (suc n) p e h =
    both (__vprintf text []) (print_times n text) (f p) (columns f (p + 1) n)
      (e ∙ ap wrote (sym (h p (omega arith) (omega arith))))
      (print_times-columns f text n (p + 1) e (λ q le lt. h q (omega arith) (omega arith)))

separator : (i k p : ℕ) → p ≡ 16 * k + i → i < 16 → (i == 7) ≡ (p % 16 == 7)
separator i k p e lt = ap (λ (x : ℕ). x == 7) (let z : i ≡ p % 16 = omega arith in z)

small_separator : (b : Bool) → (if b then b'-' else b' ') < 256
small_separator true = omega arith
small_separator false = omega arith

pub bytes_loop-columns :
    (f : ℕ → List ℕ) (m : Memory) (n buf i k p : ℕ)
    → p ≡ 16 * k + i
    → i + n ≤ 16
    → ((q a : ℕ) → p ≤ q → q < p + n → a + p ≡ buf + q → f q ≡ byte_text q (m a % 256))
    → bytes_loop n m buf i ≡ wrote (columns f p n)
unfolding bytes_loop
bytes_loop-columns f m zero buf i k p e le h = refl
bytes_loop-columns f m (suc n) buf i k p e le h =
    let ch = if i == 7 then b'-' else b' ' in
    both (__vprintf byte_format (word (m buf % 256) ∷ word ch ∷ []))
      (bytes_loop n m (buf + 1) (i + 1)) (f p) (columns f (p + 1) n)
      (byte-format (m buf % 256) ch (omega arith) (small_separator (i == 7))
        ∙ ap (λ (b : Bool). wrote (hex_text 2 (m buf % 256) [] ++ (if b then b'-' else b' ') ∷ []))
            (separator i k p e (omega arith))
        ∙ ap wrote (sym (h p buf (omega arith) (omega arith) refl)))
      (bytes_loop-columns f m n (buf + 1) (i + 1) k (p + 1) (omega arith) (omega arith)
        (λ q a l u z. h q a (omega arith) (omega arith) (omega arith)))

small_char : (b : ℕ) → b < 256 → (if isprint b then b else b'.') < 256
small_char b lt = either (isprint b)
  where
    either : (t : Bool) → (if t then b else b'.') < 256
    either true = lt
    either false = omega arith

pub chars_loop-columns :
    (f : ℕ → List ℕ) (m : Memory) (n buf p : ℕ)
    → ((q a : ℕ) → p ≤ q → q < p + n → a + p ≡ buf + q → f q ≡ char_text (m a % 256))
    → chars_loop n m buf ≡ wrote (columns f p n)
unfolding chars_loop
chars_loop-columns f m zero buf p h = refl
chars_loop-columns f m (suc n) buf p h =
    let ch = if isprint (m buf % 256) then m buf % 256 else b'.' in
    both (__vprintf char_format (word ch ∷ [])) (chars_loop n m (buf + 1)) (f p)
      (columns f (p + 1) n)
      (char-format ch (small_char (m buf % 256) (omega arith))
        ∙ ap wrote (sym (h p buf (omega arith) (omega arith) refl)))
      (chars_loop-columns f m n (buf + 1) (p + 1)
        (λ q a l u z. h q a (omega arith) (omega arith) (omega arith)))
