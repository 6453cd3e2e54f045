-- ===== src/Stdio/Shorter.antt =====
-- What `parse_conversion` leaves of the format is no longer than the format.
use pithread.Common.{
  ℕ, ◌+◌, ◌*◌, ◌-◌, ◌^◌, ◌≤◌, ◌≡◌, Option, none, some, List, [], ◌∷◌, ◌==◌, ltb, length, arith,
  Bool-cases, Option-cases, inl, inr,
}
use pithread.Stdio.{
  Flags, no_flags, Arg, ArgType, char_type, short_type, longlong_type, long_type, Conversion,
  va_word, flag_switch, isdigit, parse_flags, override, parse_digits, width_of, star_width,
  parse_width, star_precision, precision_after, parse_precision, doubled, parse_type,
  parse_conversion,
}

-- The format that is left has at most `n` bytes.
abbrev Digits : ℕ → Option (ℕ × List ℕ) → Type 0
Digits n none = Unit {0}
Digits n (some (m, s)) = length s ≤ n

abbrev Widths : ℕ → Option (ℕ × Flags × List ℕ × List Arg) → Type 0
Widths n none = Unit {0}
Widths n (some (w, f, s, args)) = length s ≤ n

abbrev Precisions : ℕ → Option (Option ℕ × List ℕ × List Arg) → Type 0
Precisions n none = Unit {0}
Precisions n (some (p, s, args)) = length s ≤ n

abbrev pub Leaves : ℕ → Option (Conversion × List ℕ × List Arg) → Type 0
Leaves n none = Unit {0}
Leaves n (some (c, s, args)) = length s ≤ n

flags_short : (format : List ℕ) (f : Flags) → length (parse_flags format f).1 ≤ length format
unfolding parse_flags
flags_short [] f = omega arith
flags_short (c ∷ format) f = elim (Option-cases (flag_switch c f)) [
  | inl e ↦ rw (e, parse_flags) (omega arith)
  | inr (f', e) ↦ rw (e, parse_flags) (let h = flags_short format f' in omega arith)
]

Digits-short : (format : List ℕ) (n k : ℕ) → length format ≤ k → Digits k (parse_digits format n)
unfolding parse_digits
Digits-short [] n k le = le
Digits-short (c ∷ format) n k le = elim (Bool-cases (isdigit c)) [
  | inr e ↦ rw (e, parse_digits) le
  | inl e ↦ elim (Bool-cases (ltb (n * 10 + c) (2 ^ 31))) [
    | inr o ↦ rw (e, o, parse_digits) tt
    | inl o ↦ rw (e, o, parse_digits) (Digits-short format (n * 10 + c - b'0') k (omega arith))
  ]
]

star_width_short :
    (format : List ℕ) (f : Flags) (args : List Arg) (k : ℕ)
    → length format ≤ k
    → Widths k (star_width format f args)
unfolding star_width
star_width_short format f args k le = elim (Option-cases (va_word args)) [
  | inl e ↦ rw e tt
  | inr ((n, args'), e) ↦ elim (Option-cases (width_of n)) [
    | inl w ↦ rw (e, w) tt
    | inr ((width, negative), w) ↦ rw (e, w) le
  ]
]

digits_at : (t s : List ℕ) (n k : ℕ) → parse_digits t 0 ≡ some (n, s) → length t ≤ k → length s ≤ k
digits_at t s n k d le = rw d at (Digits-short t 0 k le)

width_short :
    (format : List ℕ) (f : Flags) (args : List Arg) (k : ℕ)
    → length format ≤ k
    → Widths k (parse_width format f args)
unfolding parse_width
width_short [] f args k le = le
width_short (c ∷ format) f args k le = elim (Bool-cases (c == b'*')) [
  | inl e ↦ rw e (star_width_short format f args k (omega arith))
  | inr e ↦ rw e (elim (Option-cases (parse_digits (c ∷ format) 0)) [
    | inl d ↦ rw d tt
    | inr ((n, s), d) ↦ rw d (digits_at (c ∷ format) s n k d le)
  ])
]

star_precision_short :
    (format : List ℕ) (args : List Arg) (k : ℕ)
    → length format ≤ k
    → Precisions k (star_precision format args)
unfolding star_precision
star_precision_short format args k le = elim (Option-cases (va_word args)) [
  | inl e ↦ rw e tt
  | inr ((n, args'), e) ↦ rw e le
]

after_short :
    (format : List ℕ) (args : List Arg) (k : ℕ)
    → length format ≤ k
    → Precisions k (precision_after format args)
unfolding precision_after
after_short [] args k le = le
after_short (c ∷ format) args k le = elim (Bool-cases (c == b'*')) [
  | inl e ↦ rw e (star_precision_short format args k (omega arith))
  | inr e ↦ rw e (elim (Option-cases (parse_digits (c ∷ format) 0)) [
    | inl d ↦ rw d tt
    | inr ((n, s), d) ↦ rw d (digits_at (c ∷ format) s n k d le)
  ])
]

precision_short :
    (format : List ℕ) (args : List Arg) (k : ℕ)
    → length format ≤ k
    → Precisions k (parse_precision format args)
unfolding parse_precision
precision_short [] args k le = le
precision_short (c ∷ format) args k le = elim (Bool-cases (c == b'.')) [
  | inl e ↦ rw e (after_short format args k (omega arith))
  | inr e ↦ rw e le
]

doubled_short :
    (letter : ℕ) (two one : ArgType) (format : List ℕ)
    → length (doubled letter two one format).1 ≤ length format
unfolding doubled
doubled_short letter two one [] = omega arith
doubled_short letter two one (c ∷ format) = ground arith

type_short : (format : List ℕ) → length (parse_type format).1 ≤ length format
unfolding parse_type
type_short [] = omega arith
type_short (c ∷ format) =
    let h = doubled_short b'h' char_type short_type format in
    let l = doubled_short b'l' longlong_type long_type format in ground arith

-- The specifiers that follow a '%' are read off the front of the format.
pub parse_conversion_short :
    (format : List ℕ) (args : List Arg) → Leaves (length format) (parse_conversion format args)
unfolding parse_conversion
parse_conversion_short format args =
    let flagged = parse_flags format no_flags in
    let w =
      width_short flagged.1 (override flagged.0) args (length format)
        (flags_short format no_flags) in
    elim (Option-cases (parse_width flagged.1 (override flagged.0) args)) [
      | inl e ↦ rw e tt
      | inr ((width, f, format1, args1), e) ↦
          let p = precision_short format1 args1 (length format) (rw e at w) in
          elim (Option-cases (parse_precision format1 args1)) [
            | inl d ↦ rw (e, d) tt
            | inr ((precision, format2, args2), d) ↦
                let short : length format2 ≤ length format = rw d at p in
                let t = type_short format2 in rw (e, d) (omega arith)
          ]
    ]
