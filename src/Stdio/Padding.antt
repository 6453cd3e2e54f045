-- ===== src/Stdio/Padding.antt =====
-- lib/stdio.c: a `*` width that is negative after a `0` flag.
use pithread.Common.{
  ℕ, ◌-◌, ◌^◌, [], ◌++◌, append-nil, ap, replicate, has, false, ◌<◌, ◌≡◌, refl, Bool, true, none,
  some, List, ◌∷◌, ==_ne, length, arith,
}
use pithread.Stdio.{Flags, no_flags, Arg, word, int_type, Conversion, va_word, override}
use pithread.Stdio.Print.{after, conversion_of, signed, signed_arg, print_signed, __vprintf}
use pithread.Stdio.Format.{
  base_d, digit_loop, fill_buf, octal_zero, pad_cnt, format_integer, write_integer, sign_char,
  prefix_char,
}
use pithread.Stdio.Bases.{base_d-IsBase}
use pithread.Stdio.Buffer.{fill_buf_lem}
use pithread.Stdio.Reader.{read_from}
use pithread.Stdio.Spec.{decimal}
use pithread.Stdio.Parse.{zero_flag_negative_width}
use pithread.Stdio.Compose.{vprintf-conversion}
use pithread.Stdio.Numbers.{printed}

abbrev both : Flags
both = record no_flags { minus = true; zero_pad = true }

abbrev of_width : Flags → ℕ → Conversion
of_width f w = record { flags = f; width = w; precision = none; type = int_type }

-- What stands before the digits of a "%d".
abbrev pub minus_of : Bool → List ℕ
minus_of true = b'-' ∷ []
minus_of false = []

-- The digits of an int are `value` in base 10, with no sign among them.
abbrev pub IsDecimal : ℕ → List ℕ → Type 0
IsDecimal value digits = (read_from 10 0 digits ≡ value) × (has b'-' digits ≡ false)

-- The text of "%0*d" with a negative width of which `k` places are left.
abbrev pub padded_twice : ℕ → Bool → List ℕ → List ℕ
padded_twice k negative digits =
    minus_of negative ++ (replicate k b'0' ++ (digits ++ replicate k b' '))

no_pad : (buf : List ℕ) (sign : ℕ) → pad_cnt 0 buf 0 sign ≡ 0
unfolding pad_cnt
no_pad buf sign = omega arith

write_both :
    (w : ℕ) (negative : Bool) (buf : List ℕ)
    → write_integer both
        (pad_cnt w buf 0 (sign_char both true negative))
        (sign_char both true negative)
        0
        buf
      ≡ padded_twice (w - length (minus_of negative ++ buf)) negative buf
unfolding write_integer pad_cnt sign_char
write_both w true buf =
    ap (λ k. padded_twice k true buf)
      (let z : w - length buf - 0 - 1 ≡ w - length (b'-' ∷ buf) = omega arith in z)
write_both w false buf =
    ap (λ k. padded_twice k false buf)
      (let z : w - length buf - 0 - 0 ≡ w - length buf = omega arith in z)

write_bare :
    (negative : Bool) (k : ℕ) (buf : List ℕ)
    → k ≡ 0
    → write_integer no_flags k (sign_char no_flags true negative) 0 buf ≡ minus_of negative ++ buf
unfolding write_integer sign_char
write_bare true k buf z = rw z (ap (λ r. b'-' ∷ r) (append-nil buf))
write_bare false k buf z = rw z (append-nil buf)

same_fill :
    (value w : ℕ)
    → fill_buf value base_d (of_width both w) ≡ fill_buf value base_d (of_width no_flags 0)
unfolding fill_buf octal_zero
same_fill value w = refl

format_both :
    (value w : ℕ) (negative : Bool)
    → value < 2 ^ 64
    → (digits : List ℕ) × IsDecimal value digits
      × (format_integer value true negative base_d (of_width no_flags 0)
          ≡ some (minus_of negative ++ digits))
      × (format_integer value true negative base_d (of_width both w)
          ≡ some (padded_twice (w - length (minus_of negative ++ digits)) negative digits))
unfolding format_integer prefix_char
format_both value w negative lt =
    let (buf, e, _, reads, signs) =
      fill_buf_lem value base_d (of_width no_flags 0) base_d-IsBase lt in
    (
      buf,
      (reads, signs),
      rw e (ap some (write_bare negative _ buf (no_pad buf (sign_char no_flags true negative)))),
      rw (same_fill value w, e) (ap some (write_both w negative buf)),
    )

-- The absolute value of a word is one of 32 bits.
signed_word : (m : ℕ) → m < 2 ^ 32 → (signed 32 m).0 < 2 ^ 63
signed_word m lt = ground arith

print_word :
    (f : Flags) (w m : ℕ) (out : List ℕ) (args : List Arg)
    → m < 2 ^ 32
    → format_integer (signed 32 m).0 true (signed 32 m).1 base_d (of_width f w) ≡ some out
    → print_signed (of_width f w) (word m ∷ args) ≡ some (out, args)
unfolding print_signed signed_arg va_word
print_word f w m out args lt e =
    rw (==_ne (signed 32 m).0 (2 ^ 63) (λ z. let h = signed_word m lt in omega arith)) (rw e)

-- "%0*d" with a width that is negative, and "%d", print the same digits of an int, which read back
-- as it. For want of places up to the width, the first writes as many zeros on the left of the
-- digits, and as many spaces again on the right.
pub double_padding :
    (n m : ℕ) (rest : List ℕ) (args : List Arg)
    → 2 ^ 31 < n
    → n < 2 ^ 32
    → m < 2 ^ 32
    → (digits : List ℕ) × IsDecimal (signed 32 m).0 digits
      × (__vprintf (b'%' ∷ b'd' ∷ rest) (word m ∷ args)
          ≡ after (minus_of (signed 32 m).1 ++ digits) (__vprintf rest args))
      × (__vprintf (b'%' ∷ b'0' ∷ b'*' ∷ b'd' ∷ rest) (word n ∷ word m ∷ args)
          ≡ after
              (padded_twice
                (2 ^ 32 - n - length (minus_of (signed 32 m).1 ++ digits))
                (signed 32 m).1
                digits)
              (__vprintf rest args))
unfolding conversion_of override decimal digit_loop
double_padding n m rest args lo hi lt =
    let v = signed 32 m in
    let below = signed_word m lt in
    let w = 2 ^ 32 - n in
    let (digits, dec, p, e) = format_both v.0 w v.1 (omega arith) in
    let plain = minus_of v.1 ++ digits in
    let out = padded_twice (w - length plain) v.1 digits in
    (
      digits,
      dec,
      printed (of_width no_flags 0) b'd' rest plain (word m ∷ args) args print_signed (omega arith)
          tt refl (print_word no_flags 0 m plain args lt p),
      vprintf-conversion (b'0' ∷ b'*' ∷ b'd' ∷ rest) rest out b'd' (of_width both w)
          (word n ∷ word m ∷ args) (word m ∷ args) args print_signed refl
          (zero_flag_negative_width n b'd' rest (word m ∷ args) print_signed lo hi refl) refl
          (print_word both w m out args lt e),
    )
