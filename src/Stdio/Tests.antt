-- ===== src/Stdio/Tests.antt =====
-- Concrete runs of lib/stdio.c.
use pithread.Common.{
  ℕ, ◌-◌, ◌^◌, ◌≤◌, ◌≡◌, refl, true, false, none, some, false, List, [], ◌∷◌, length, has, arith,
}
use pithread.Stdio.{
  no_flags, word, text, int_type, longlong_type, Conversion, parse_conversion, isdigit, parse_flags,
  flag_switch, parse_digits, parse_width, parse_precision, parse_type, override, va_word, va_text,
}
use pithread.Stdio.Format.{
  base_x, fill_buf, digit_loop, zero_loop, octal_zero, sign_char, prefix_char, pad_cnt,
  write_integer, format_integer, format_string,
}
use pithread.Stdio.Print.{
  after, conversion_of, signed_arg, unsigned_arg, print_signed, print_unsigned, print_char,
  print_text, complain, convert, percent, vprintf_loop, message, __vprintf, vprintf, printf,
}
use pithread.Stdio.Reader.{read_from}
use pithread.Stdio.Bases.{base_x-IsBase}
use pithread.Stdio.Buffer.{fill_buf_lem}
use pithread.Stdio.Spec.{conversion_text}
use pithread.Stdio.Parse.{parse_conversion_text}
use pithread.Stdio.Padding.{IsDecimal, padded_twice, double_padding}
use pithread.Stdio.Texts.{IsCut, name_of, justified, vprintf_text}

-- "%5d|%%|%-4s|%#x\n" of -42, "ab" and 255.
printed_line :
    printf
      (b'%' ∷ b'5' ∷ b'd' ∷ b'|' ∷ b'%' ∷ b'%' ∷ b'|' ∷ b'%' ∷ b'-' ∷ b'4' ∷ b's' ∷ b'|' ∷ b'%'
        ∷ b'#' ∷ b'x' ∷ b'\n' ∷ [])
      (word (2 ^ 32 - 42) ∷ text (some (b'a' ∷ b'b' ∷ [])) ∷ word 255 ∷ [])
    ≡ some (
      b' ' ∷ b' ' ∷ b'-' ∷ b'4' ∷ b'2' ∷ b'|' ∷ b'%' ∷ b'|' ∷ b'a' ∷ b'b' ∷ b' ' ∷ b' ' ∷ b'|'
          ∷ b'0' ∷ b'x' ∷ b'f' ∷ b'f' ∷ b'\r' ∷ b'\n' ∷ [],
      19,
    )
unfolding printf vprintf __vprintf vprintf_loop percent parse_conversion parse_flags flag_switch
    override parse_width parse_digits isdigit parse_precision parse_type convert conversion_of
    print_signed signed_arg va_word print_text va_text print_unsigned unsigned_arg format_integer
    format_string fill_buf digit_loop zero_loop octal_zero sign_char prefix_char pad_cnt
    write_integer
printed_line = refl

-- A '%' at the end of a format.
last_percent : vprintf (b'%' ∷ []) [] ≡ none
unfolding vprintf __vprintf vprintf_loop percent parse_conversion parse_flags override parse_width
    parse_precision parse_type convert complain message flag_switch isdigit parse_digits
    conversion_of print_char va_word format_string
last_percent = refl

-- "%+'.3lld".
abbrev long_conversion : Conversion
long_conversion = record {
  flags = record no_flags { plus = true; group = true };
  width = 12;
  precision = some 3;
  type = longlong_type;
}

-- "%-+ 07d".
abbrev cluttered : Conversion
cluttered = record {
  flags = record no_flags { minus = true; plus = true; space = true; zero_pad = true };
  width = 7;
  precision = none;
  type = int_type;
}

-- "%10.3s".
abbrev short_text : Conversion
short_text = record { flags = no_flags; width = 10; precision = some 3; type = int_type }

abbrev hex : Conversion
hex = record {
  flags = record no_flags { pound = true; zero_pad = true };
  width = 10;
  precision = none;
  type = int_type;
}

parse_conversion_text_example :
    parse_conversion (conversion_text cluttered (b'd' ∷ b'!' ∷ [])) []
    ≡ some (
      record cluttered { flags = record no_flags { minus = true; plus = true } },
      b'd' ∷ b'!' ∷ [],
      [],
    )
unfolding conversion_of
parse_conversion_text_example =
    parse_conversion_text cluttered b'd' (b'!' ∷ []) [] print_signed (omega arith) (omega arith)
      refl

fill_buf_example :
    (buf : List ℕ) × (fill_buf 255 base_x hex ≡ some buf)
    × (length buf ≤ 64)
    × (read_from 16 0 buf ≡ 255)
    × (has b'-' buf ≡ false)
fill_buf_example = fill_buf_lem 255 base_x hex base_x-IsBase (omega arith)

vprintf_text_example :
    (shown : List ℕ) × IsCut (some 3) (name_of none) shown
    × (__vprintf (b'%' ∷ conversion_text short_text (b's' ∷ [])) (text none ∷ [])
        ≡ after (justified false 10 shown) (__vprintf [] []))
vprintf_text_example = vprintf_text short_text none [] [] (omega arith) (omega arith)

double_padding_example :
    (digits : List ℕ) × IsDecimal 42 digits
    × (__vprintf (b'%' ∷ b'd' ∷ []) (word (2 ^ 32 - 42) ∷ [])
        ≡ after (b'-' ∷ digits) (__vprintf [] []))
    × (__vprintf (b'%' ∷ b'0' ∷ b'*' ∷ b'd' ∷ []) (word (2 ^ 32 - 6) ∷ word (2 ^ 32 - 42) ∷ [])
        ≡ after
            (padded_twice (2 ^ 32 - (2 ^ 32 - 6) - length (b'-' ∷ digits)) true digits)
            (__vprintf [] []))
double_padding_example =
    double_padding (2 ^ 32 - 6) (2 ^ 32 - 42) [] [] (omega arith) (omega arith) (omega arith)
