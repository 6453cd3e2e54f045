-- ===== src/Stdio/Format.antt =====
-- lib/stdio.c: `format_integer` and `format_string`. What they write through `output` is a list of
-- bytes. `buf` is the list of the bytes that are written to it, the last one first.
use pithread.Common.{
  ℕ, zero, suc, ◌+◌, ◌-◌, ◌/◌, ◌%◌, Bool, true, false, not, ◌&&◌, Option, none, some, List, [], ◌∷◌,
  ◌++◌, ltb, ◌==◌, if◌then◌else◌, length, replicate, get_or,
}
use pithread.Stdio.{Flags, Conversion, ◌>>=◌}

-- `digits` is the string of the digits, `x` the character of the prefix or 0, `group` how many
-- digits the group flag takes together.
pub record IntegerBase : Type 0 where
  pub base : ℕ
  pub digits : List ℕ
  pub x : ℕ
  pub group : ℕ

abbrev ten_digits : List ℕ → List ℕ
ten_digits more = b'0' ∷ b'1' ∷ b'2' ∷ b'3' ∷ b'4' ∷ b'5' ∷ b'6' ∷ b'7' ∷ b'8' ∷ b'9' ∷ more

abbrev pub base_d : IntegerBase
base_d = record { base = 10; digits = ten_digits []; x = 0; group = 3 }

abbrev pub base_o : IntegerBase
base_o = record {
  base = 8;
  digits = b'0' ∷ b'1' ∷ b'2' ∷ b'3' ∷ b'4' ∷ b'5' ∷ b'6' ∷ b'7' ∷ [];
  x = 0;
  group = 3;
}

abbrev pub base_x : IntegerBase
base_x = record {
  base = 16;
  digits = ten_digits (b'a' ∷ b'b' ∷ b'c' ∷ b'd' ∷ b'e' ∷ b'f' ∷ []);
  x = b'x';
  group = 4;
}

abbrev pub base_X : IntegerBase
base_X = record {
  base = 16;
  digits = ten_digits (b'A' ∷ b'B' ∷ b'C' ∷ b'D' ∷ b'E' ∷ b'F' ∷ []);
  x = b'X';
  group = 4;
}

-- The sign character, or 0.
unfoldable pub sign_char : Flags → Bool → Bool → ℕ
sign_char f is_signed negative =
    if is_signed
    then (if f.plus
        then (if negative then b'-' else b'+')
        else (if f.space
            then (if negative then b'-' else b' ')
            else (if negative then b'-' else 0)))
    else 0

-- The character of the prefix, or 0.
unfoldable pub prefix_char : Flags → ℕ → IntegerBase → ℕ
prefix_char f value b = if f.pound && not (value == 0) then b.x else 0

abbrev pub with_comma : Bool → IntegerBase → ℕ → List ℕ → List ℕ
with_comma group b digit_cnt buf =
    if group && ltb 0 digit_cnt && digit_cnt % b.group == 0 then b',' ∷ buf else buf

-- `while (value > 0)`, with the rounds that it may make at most.
unfoldable pub digit_loop : ℕ → IntegerBase → Bool → ℕ → ℕ → List ℕ → Option (List ℕ)
digit_loop zero b group value digit_cnt buf = if value == 0 then some buf else none
digit_loop (suc fuel) b group value digit_cnt buf = elim (value == 0) [
  | true ↦ some buf
  | false ↦
      digit_loop fuel b group (value / b.base) (digit_cnt + 1)
        (get_or b.digits (value % b.base) 0 ∷ with_comma group b digit_cnt buf)
]

-- `while (cp - buf < precision && cp < buf + sizeof buf - 1) *cp++ = '0';`, by the places that are
-- left before the last.
unfoldable pub zero_loop : ℕ → ℕ → List ℕ → List ℕ
zero_loop zero precision buf = buf
zero_loop (suc left) precision buf = elim (ltb (length buf) precision) [
  | true ↦ zero_loop left precision (b'0' ∷ buf)
  | false ↦ buf
]

abbrev pub starts_zero : List ℕ → Bool
starts_zero [] = false
starts_zero (c ∷ buf) = c == b'0'

-- A base 8 conversion with the # flag begins with a zero.
unfoldable pub octal_zero : Flags → IntegerBase → List ℕ → List ℕ
octal_zero f b buf = if f.pound && b.base == 8 && not (starts_zero buf) then b'0' ∷ buf else buf

abbrev pub rendered : Option ℕ → ℕ
rendered none = 1
rendered (some n) = n

-- What `buf` holds when the output begins. Any value has at most 64 digits.
unfoldable pub fill_buf : ℕ → IntegerBase → Conversion → Option (List ℕ)
fill_buf value b c = do
  buf ← digit_loop 64 b c.flags.group value 0 []
  some (octal_zero c.flags b (zero_loop (63 - length buf) (rendered c.precision) buf))

abbrev pub two_if : ℕ → ℕ
two_if x = if x == 0 then 0 else 2

abbrev pub one_if : ℕ → ℕ
one_if sign = if sign == 0 then 0 else 1

unfoldable pub pad_cnt : ℕ → List ℕ → ℕ → ℕ → ℕ
pad_cnt width buf x sign = width - length buf - two_if x - one_if sign

abbrev pub out_if : Bool → List ℕ → List ℕ
out_if b out = if b then out else []

-- The output, from its parts.
unfoldable pub write_integer : Flags → ℕ → ℕ → ℕ → List ℕ → List ℕ
write_integer f pad sign x buf =
    out_if (not f.minus && not f.zero_pad) (replicate pad b' ')
    ++ (out_if (not (sign == 0)) (sign ∷ [])
        ++ (out_if (not (x == 0)) (b'0' ∷ x ∷ [])
            ++ (out_if f.zero_pad (replicate pad b'0')
                ++ (buf ++ out_if f.minus (replicate pad b' ')))))

unfoldable pub format_integer : ℕ → Bool → Bool → IntegerBase → Conversion → Option (List ℕ)
format_integer value is_signed negative b c = do
  buf ← fill_buf value b c
  let sign = sign_char c.flags is_signed negative
  let x = prefix_char c.flags value b
  some (write_integer c.flags (pad_cnt c.width buf x sign) sign x buf)

-- `string` holds the LENGTH characters.
unfoldable pub format_string : List ℕ → Conversion → List ℕ
format_string string c =
    out_if (ltb (length string) c.width && not c.flags.minus)
      (replicate (c.width - length string) b' ')
    ++ (string
        ++ out_if (ltb (length string) c.width && c.flags.minus)
            (replicate (c.width - length string) b' '))
