-- ===== src/Debug/Digits.antt =====
-- The hexadecimal numbers of a dump, by their digits.
use pithread.Common.{
  ℕ, zero, suc, ◌+◌, ◌-◌, ◌/◌, ◌%◌, ◌^◌, ◌≤◌, ◌<◌, ◌≡◌, refl, sym, ap, ◌∙◌, false, true, none, some,
  List, [], ◌∷◌, ◌++◌, ==_ne, ltb, length, replicate, get_or, append-nil, arith, ℕ_discrete,
}
use pithread.Stdio.{Conversion, ArgType, no_flags}
use pithread.Stdio.Format.{
  base_x, digit_loop, zero_loop, octal_zero, fill_buf, sign_char, prefix_char, pad_cnt,
  write_integer, format_integer,
}

abbrev pub hex_digit : ℕ → ℕ
hex_digit d = get_or base_x.digits d 0

-- The last `w` digits of a number in base 16, before a text.
unfoldable pub hex_text : ℕ → ℕ → List ℕ → List ℕ
hex_text zero v rest = rest
hex_text (suc w) v rest = hex_text w (v / 16) (hex_digit (v % 16) ∷ rest)

replicate_last :
    (n c : ℕ) (rest : List ℕ) → replicate n c ++ (c ∷ rest) ≡ c ∷ (replicate n c ++ rest)
replicate_last zero c rest = refl
replicate_last (suc n) c rest = ap (λ (s : List ℕ). c ∷ s) (replicate_last n c rest)

hex_text_zero : (w : ℕ) (rest : List ℕ) → hex_text w 0 rest ≡ replicate w b'0' ++ rest
unfolding hex_text
hex_text_zero zero rest = refl
hex_text_zero (suc w) rest = hex_text_zero w (b'0' ∷ rest) ∙ replicate_last w b'0' rest

-- The digit loop leaves the number without its leading zeros.
digit_loop_hex :
    (w fuel v cnt : ℕ) (buf : List ℕ)
    → v < 16 ^ w
    → w ≤ fuel
    → (k : ℕ) × (r : List ℕ) × (digit_loop fuel base_x false v cnt buf ≡ some r)
      × (k + length r ≡ w + length buf)
      × (replicate k b'0' ++ r ≡ hex_text w v buf)
unfolding digit_loop hex_text
digit_loop_hex zero zero v cnt buf lt le = let z : v ≡ 0 = omega arith in (0, buf, rw z, refl, refl)
digit_loop_hex zero (suc fuel) v cnt buf lt le =
    let z : v ≡ 0 = omega arith in (0, buf, rw (z, digit_loop), refl, refl)
digit_loop_hex (suc w) zero v cnt buf lt le = absurd (omega arith)
digit_loop_hex (suc w) (suc fuel) v cnt buf lt le = elim (ℕ_discrete v 0) [
  | yes z ↦ (
    suc w,
    buf,
    rw (z, digit_loop),
    refl,
    sym (ap (λ (n : ℕ). hex_text (suc w) n buf) z ∙ hex_text_zero (suc w) buf),
  )
  | no ne ↦
      let (k, r, e, l, same) =
        digit_loop_hex w fuel (v / 16) (cnt + 1) (hex_digit (v % 16) ∷ buf) (omega arith)
          (omega arith) in
      (k, r, rw (==_ne v 0 ne, digit_loop) e, omega arith, same)
]

-- A conversion with the flag 0 and a width.
abbrev pub padded : ℕ → ArgType → Conversion
padded w t = record {
  flags = record no_flags { zero_pad = true };
  width = w;
  precision = none;
  type = t;
}

zero_loop_full : (left c : ℕ) (s : List ℕ) → zero_loop left 1 (c ∷ s) ≡ c ∷ s
unfolding zero_loop
zero_loop_full zero c s = refl
zero_loop_full (suc left) c s =
    let full : ltb (suc (length s)) 1 ≡ false = ground arith in rw (full, zero_loop)

-- The padding before the digits of the loop.
format_integer-digits :
    (w v k : ℕ) (t : ArgType) (r : List ℕ)
    → 1 ≤ w
    → digit_loop 64 base_x false v 0 [] ≡ some r
    → k + length r ≡ w + 0
    → format_integer v false false base_x (padded w t) ≡ some (replicate k b'0' ++ r)
unfolding format_integer fill_buf octal_zero sign_char prefix_char pad_cnt write_integer zero_loop
format_integer-digits zero v k t [] one e l = absurd (omega arith)
format_integer-digits (suc w) v k t [] one e l =
    let full : k ≡ suc w = omega arith in
    rw e (
      ap some (
        ap (λ (n : ℕ). replicate n b'0' ++ (b'0' ∷ []))
          (let z : suc w - 1 - 0 - 0 ≡ w = omega arith in z)
        ∙ replicate_last w b'0' []
        ∙ ap (λ (n : ℕ). replicate n b'0' ++ []) (sym full)))
format_integer-digits w v k t (c ∷ s) one e l =
    rw (e, zero_loop_full (63 - suc (length s)) c s)
      (ap some (
        ap (λ (n : ℕ). replicate n b'0' ++ (c ∷ (s ++ [])))
          (let z : w - suc (length s) - 0 - 0 ≡ k = omega arith in z)
        ∙ ap (λ (u : List ℕ). replicate k b'0' ++ (c ∷ u)) (append-nil s)))

-- A number that the width has room for prints with all its digits.
pub format_integer-hex_text :
    (w v : ℕ) (t : ArgType)
    → 1 ≤ w
    → w ≤ 64
    → v < 16 ^ w
    → format_integer v false false base_x (padded w t) ≡ some (hex_text w v [])
format_integer-hex_text w v t one le lt =
    let (k, r, e, l, same) = digit_loop_hex w 64 v 0 [] lt le in
    format_integer-digits w v k t r one e l ∙ ap some same
