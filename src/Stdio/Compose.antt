-- ===== src/Stdio/Compose.antt =====
-- A conversion in a format: the loop of `__vprintf` with `parse_conversion` and the printers.
use pithread.Common.{
  ℕ, zero, suc, ◌≤◌, ◌≡◌, refl, ap, false, some, List, [], ◌∷◌, ◌==◌, length, arith, Bool-cases,
  Option-cases, inl, inr,
}
use pithread.Stdio.{Arg, Conversion, parse_conversion}
use pithread.Stdio.Shorter.{parse_conversion_short}
use pithread.Stdio.Print.{
  Printed, wrote, undefined, out_of_fuel, after, Output, literal, doubled_percent, tail, percent,
  convert, complain, conversion_of, vprintf_loop, message, __vprintf,
}

abbrev Rest : Type 0
Rest = List ℕ → List Arg → Printed

-- Two rests of the loop that agree on formats of at most `n` bytes.
abbrev Agree : ℕ → Rest → Rest → Type 0
Agree n rest other =
    (format : List ℕ) (args : List Arg) → length format ≤ n → rest format args ≡ other format args

convert-Agree :
    (nested rest other : Rest) (c : Conversion) (format : List ℕ) (args : List Arg) (n : ℕ)
    → Agree n rest other
    → length format ≤ suc n
    → convert nested rest c format args ≡ convert nested other c format args
unfolding convert
convert-Agree nested rest other c [] args n h le = refl
convert-Agree nested rest other c (ch ∷ format) args n h le =
    elim (Option-cases (conversion_of ch)) [
      | inl e ↦ rw (e, convert) (letter_agree (complain nested ch))
      | inr (print, e) ↦ elim (Option-cases (print c args)) [
        | inl d ↦ rw (e, d, convert)
        | inr ((out, args'), d) ↦ rw (e, d, convert) (ap (after out) (h format args' (omega arith)))
      ]
    ]
  where
    letter_agree :
        (p : Printed)
        → elim p [
          | wrote s ↦ after s (rest format args)
          | undefined ↦ undefined
          | out_of_fuel ↦ out_of_fuel
        ]
          ≡ elim p [
            | wrote s ↦ after s (other format args)
            | undefined ↦ undefined
            | out_of_fuel ↦ out_of_fuel
          ]
    letter_agree (wrote s) = ap (after s) (h format args (omega arith))
    letter_agree undefined = refl
    letter_agree out_of_fuel = refl

percent-Agree :
    (nested rest other : Rest) (format : List ℕ) (args : List Arg) (n : ℕ)
    → Agree n rest other
    → length format ≤ suc n
    → percent nested rest format args ≡ percent nested other format args
unfolding percent
percent-Agree nested rest other format args n h le =
    let s = parse_conversion_short format args in
    elim (Option-cases (parse_conversion format args)) [
      | inl e ↦ rw (e, percent)
      | inr ((c, format', args'), e) ↦
          let short : length format' ≤ length format = rw e at s in
          rw (e, percent) (convert-Agree nested rest other c format' args' n h (omega arith))
    ]

-- More rounds than the format needs change nothing.
loop-Agree :
    (nested : Rest) (n a b : ℕ)
    → n ≤ a
    → n ≤ b
    → Agree n (vprintf_loop nested (suc a)) (vprintf_loop nested (suc b))
unfolding vprintf_loop
loop-Agree nested n a b la lb [] args le = refl
loop-Agree nested zero a b la lb (c ∷ format) args le = absurd (omega arith)
loop-Agree nested (suc n) zero b la lb (c ∷ format) args le = absurd (omega arith)
loop-Agree nested (suc n) (suc a) zero la lb (c ∷ format) args le = absurd (omega arith)
loop-Agree nested (suc n) (suc a) (suc b) la lb (c ∷ format) args le =
    let next = loop-Agree nested n a b (omega arith) (omega arith) in
    elim (Bool-cases (c == b'%')) [
      | inr e ↦ rw (e, vprintf_loop) (ap (after (literal c)) (next format args (omega arith)))
      | inl e ↦ elim (Bool-cases (doubled_percent format)) [
        | inl d ↦
            rw (e, d, vprintf_loop)
              (ap (after (b'%' ∷ [])) (next (tail format) args (tail_short format (omega arith))))
        | inr d ↦
            rw (e, d, vprintf_loop)
              (percent-Agree nested (vprintf_loop nested (suc a)) (vprintf_loop nested (suc b))
                format args n next (omega arith))
      ]
    ]
  where
    tail_short : (s : List ℕ) → length s ≤ suc n → length (tail s) ≤ n
    tail_short [] h = omega arith
    tail_short (x ∷ s) h = omega arith

-- A conversion that parses and prints: its output, then the rest of the format on its own.
pub vprintf-conversion :
    (format rest out : List ℕ) (ch : ℕ) (c : Conversion) (args args1 args2 : List Arg)
    (print : Conversion → List Arg → Output)
    → doubled_percent format ≡ false
    → parse_conversion format args ≡ some (c, ch ∷ rest, args1)
    → conversion_of ch ≡ some print
    → print c args1 ≡ some (out, args2)
    → __vprintf (b'%' ∷ format) args ≡ after out (__vprintf rest args2)
unfolding __vprintf vprintf_loop percent convert
vprintf-conversion format rest out ch c args args1 args2 print plain parsed letter printed =
    let s = parse_conversion_short format args in
    let short : suc (length rest) ≤ length format = rw parsed at s in
    rw (plain, vprintf_loop)
      (rw (parsed, percent)
        (rw (letter, printed, convert)
          (ap (after out) (
            loop-Agree message (length rest) (length format) (length rest) (omega arith)
              (omega arith) rest args2 (omega arith)))))
