-- ===== src/Debug/Line.antt =====
-- lib/debug.c: a line of `hex_dump`, in 16 columns.
use pithread.Common.{
  ℕ, zero, suc, ◌+◌, ◌-◌, ◌*◌, ◌/◌, ◌%◌, ◌^◌, ◌≤◌, ◌<◌, ◌≡◌, refl, sym, ap, ◌∙◌, Bool, false, true,
  List, [], ◌∷◌, ◌++◌, append_assoc, ltb, leb, if◌then◌else◌, arith, dec_lt, Bool-cases, inl, inr,
}
use pithread.Memory.{Memory}
use pithread.Round.{round_down}
use pithread.Stdio.{long_word}
use pithread.Stdio.Print.{wrote, vprintf_loop, __vprintf}
use pithread.Debug.{
  offset_format, blank, space, bar, newline, print_times, bytes_loop, chars_loop, ascii_part,
  dump_line,
}
use pithread.Debug.Digits.{hex_text}
use pithread.Debug.Columns.{
  columns, inside, byte_text, hex_cell, char_text, char_cell, columns-append, both, text_offset,
  print_times-columns, bytes_loop-columns, chars_loop-columns,
}

-- The columns of the line `q` of a dump that ends before the place `hi`.
abbrev pub line_cells : Bool → ℕ → ℕ → ℕ
line_cells true hi q = 16
line_cells false hi q = if ltb hi (16 * q + 16) then hi - 16 * q else 16

abbrev pub ascii_text : Bool → ℕ → ℕ → (ℕ → ℕ) → ℕ → List ℕ
ascii_text true lo hi byte q = bar ++ (columns (char_cell lo hi byte) (16 * q) 16 ++ bar)
ascii_text false lo hi byte q = []

-- The line `q`: the place of its first column with eight digits, the bytes of its columns that the dump
-- holds with two digits each, their characters between bars for `ascii`, and the end of the line.
unfoldable pub line_text : Bool → ℕ → ℕ → (ℕ → ℕ) → ℕ → List ℕ
line_text ascii lo hi byte q =
    (hex_text 8 (16 * q) [] ++ b' ' ∷ b' ' ∷ [])
    ++ (columns (hex_cell lo hi byte) (16 * q) (line_cells ascii hi q)
        ++ (ascii_text ascii lo hi byte q ++ b'\r' ∷ b'\n' ∷ []))

-- How many lines hold the places from `ofs` on.
abbrev pub line_cnt : ℕ → ℕ → ℕ
line_cnt ofs zero = 0
line_cnt ofs (suc k) = suc ((ofs + k) / 16 - ofs / 16)

inside_true : (lo hi p : ℕ) → lo ≤ p → p < hi → inside lo hi p ≡ true
inside_true lo hi p le lt = ground arith

inside_before : (lo hi p : ℕ) → p < lo → inside lo hi p ≡ false
inside_before lo hi p lt = ground arith

inside_behind : (lo hi p : ℕ) → hi ≤ p → inside lo hi p ≡ false
inside_behind lo hi p le = elim (Bool-cases (leb lo p)) [
  | inl e ↦ ground arith
  | inr e ↦ ground arith
]

print_blank : __vprintf blank [] ≡ wrote blank
unfolding __vprintf vprintf_loop
print_blank = refl

print_space : __vprintf space [] ≡ wrote space
unfolding __vprintf vprintf_loop
print_space = refl

print_bar : __vprintf bar [] ≡ wrote bar
unfolding __vprintf vprintf_loop
print_bar = refl

print_newline : __vprintf newline [] ≡ wrote (b'\r' ∷ b'\n' ∷ [])
unfolding __vprintf vprintf_loop
print_newline = refl

-- The columns of a line in three parts.
three_parts :
    (f : ℕ → List ℕ) (p start end : ℕ)
    → start ≤ end
    → end ≤ 16
    → columns f p 16
      ≡ columns f p start ++ (columns f (p + start) (end - start) ++ columns f (p + end) (16 - end))
three_parts f p start end l1 l2 =
    ap (columns f p) (let z : 16 ≡ start + (end - start + (16 - end)) = omega arith in z)
    ∙ columns-append f p start (end - start + (16 - end))
    ∙ ap (λ (s : List ℕ). columns f p start ++ s)
        (columns-append f (p + start) (end - start) (16 - end)
          ∙ ap (λ (q : ℕ). columns f (p + start) (end - start) ++ columns f q (16 - end))
              (let z : p + start + (end - start) ≡ p + end = omega arith in z))

two_parts :
    (f : ℕ → List ℕ) (p start end : ℕ)
    → start ≤ end
    → columns f p end ≡ columns f p start ++ columns f (p + start) (end - start)
two_parts f p start end le =
    ap (columns f p) (let z : end ≡ start + (end - start) = omega arith in z)
    ∙ columns-append f p start (end - start)

regroup : (a b c d e : List ℕ) → a ++ (b ++ ((c ++ d) ++ e)) ≡ (a ++ (b ++ c)) ++ (d ++ e)
regroup a b c d e = simp append_assoc refl

-- One line: the places from `ofs`, which is `start` columns behind the first place of the line `q`, up
-- to `end` columns behind it; what lies before them in the line lies before the dump, and what lies
-- behind them behind the dump.
module _ (m : Memory) (lo hi ofs buf q start end : ℕ) (byte : ℕ → ℕ) (place : ofs ≡ 16 * q + start)
    (some_bytes : start < end) (fits : end ≤ 16) (low : ofs < 2 ^ 32)
    (first : (p : ℕ) → p < start → 16 * q + p < lo) (from : lo ≤ ofs) (to : 16 * q + end ≤ hi)
    (last : (p : ℕ) → end ≤ p → p < 16 → hi ≤ 16 * q + p)
    (same : (p a : ℕ) → ofs ≤ p → a + ofs ≡ buf + p → byte p ≡ m a % 256) where
  before : (p : ℕ) → 16 * q ≤ p → p < 16 * q + start → p < lo
  before p le lt = let h = first (p - 16 * q) (omega arith) in omega arith

  behind : (p : ℕ) → 16 * q + end ≤ p → p < 16 * q + end + (16 - end) → hi ≤ p
  behind p le lt = let h = last (p - 16 * q) (omega arith) (omega arith) in omega arith

  abbrev hex : ℕ → List ℕ
  hex = hex_cell lo hi byte

  abbrev char : ℕ → List ℕ
  char = char_cell lo hi byte

  hex_blanks : print_times start blank ≡ wrote (columns hex (16 * q) start)
  hex_blanks =
      print_times-columns hex blank start (16 * q) print_blank
        (λ p le lt. rw (inside_before lo hi p (before p le lt)))

  hex_bytes :
      bytes_loop (end - start) m buf start ≡ wrote (columns hex (16 * q + start) (end - start))
  hex_bytes =
      bytes_loop-columns hex m (end - start) buf start q (16 * q + start) refl (omega arith)
        (λ p a le lt e.
          rw (inside_true lo hi p (omega arith) (omega arith))
            (ap (byte_text p) (same p a (omega arith) (omega arith))))

  hex_rest : print_times (16 - end) blank ≡ wrote (columns hex (16 * q + end) (16 - end))
  hex_rest =
      print_times-columns hex blank (16 - end) (16 * q + end) print_blank
        (λ p le lt. rw (inside_behind lo hi p (behind p le lt)))

  char_blanks : print_times start space ≡ wrote (columns char (16 * q) start)
  char_blanks =
      print_times-columns char space start (16 * q) print_space
        (λ p le lt. rw (inside_before lo hi p (before p le lt)))

  char_bytes : chars_loop (end - start) m buf ≡ wrote (columns char (16 * q + start) (end - start))
  char_bytes = chars_loop-columns char m (end - start) buf (16 * q + start) (λ p a le lt e.
      rw (inside_true lo hi p (omega arith) (omega arith))
        (ap char_text (same p a (omega arith) (omega arith))))

  char_rest : print_times (16 - end) space ≡ wrote (columns char (16 * q + end) (16 - end))
  char_rest =
      print_times-columns char space (16 - end) (16 * q + end) print_space
        (λ p le lt. rw (inside_behind lo hi p (behind p le lt)))

  char_line :
      ascii_part m buf start end
      ≡ wrote (columns hex (16 * q + end) (16 - end) ++ (bar ++ (columns char (16 * q) 16 ++ bar)))
  unfolding ascii_part
  char_line =
      both _ _ _ _ hex_rest (
        both _ _ _ _ print_bar
          (both _ _ _ _ char_blanks (both _ _ _ _ char_bytes (both _ _ _ _ char_rest print_bar))))
      ∙ ap (λ (s : List ℕ). wrote (columns hex (16 * q + end) (16 - end) ++ (bar ++ s)))
          (simp append_assoc (refl)
            ∙ ap (λ (s : List ℕ). s ++ bar)
                (sym (three_parts char (16 * q) start end (omega arith) fits)))

  offset :
      __vprintf offset_format (long_word (round_down ofs 16) ∷ [])
      ≡ wrote (hex_text 8 (16 * q) [] ++ b' ' ∷ b' ' ∷ [])
  unfolding round_down
  offset =
      ap (λ (v : ℕ). __vprintf offset_format (long_word v ∷ []))
        (let z : ofs / 16 * 16 ≡ 16 * q = omega arith in z)
      ∙ text_offset (16 * q) (omega arith)

  cells_end : line_cells false hi q ≡ end
  cells_end = elim (Bool-cases (ltb hi (16 * q + 16))) [
    | inl e ↦ rw e (elim (dec_lt end 16) [
      | yes lt ↦ let h = last end (omega arith) lt in omega arith
      | no ge ↦ let short : hi < 16 * q + 16 = ground arith in omega arith
    ])
    | inr e ↦ rw e (elim (dec_lt end 16) [
      | yes lt ↦ let h = last end (omega arith) lt in absurd (ground arith)
      | no ge ↦ omega arith
    ])
  ]

  pub dump_line_lem :
      (ascii : Bool) → dump_line m ofs buf start end ascii ≡ wrote (line_text ascii lo hi byte q)
  unfolding dump_line line_text
  dump_line_lem true =
      let chars = bar ++ (columns char (16 * q) 16 ++ bar) in
      both _ _ _ _ offset
        (both _ _ _ _ hex_blanks (both _ _ _ _ hex_bytes (both _ _ _ _ char_line print_newline)))
      ∙ ap (λ (s : List ℕ). wrote ((hex_text 8 (16 * q) [] ++ b' ' ∷ b' ' ∷ []) ++ s))
          (regroup (columns hex (16 * q) start) (columns hex (16 * q + start) (end - start))
              (columns hex (16 * q + end) (16 - end)) chars (b'\r' ∷ b'\n' ∷ [])
            ∙ ap (λ (s : List ℕ). s ++ (chars ++ b'\r' ∷ b'\n' ∷ []))
                (sym (three_parts hex (16 * q) start end (omega arith) fits)))
  dump_line_lem false =
      both _ _ _ _ offset (
        both _ _ _ _ hex_blanks
          (both _ _ _ _ hex_bytes (both (wrote []) _ [] _ refl print_newline)))
      ∙ ap (λ (s : List ℕ). wrote ((hex_text 8 (16 * q) [] ++ b' ' ∷ b' ' ∷ []) ++ s))
          (sym (
              append_assoc (columns hex (16 * q) start) (columns hex (16 * q + start) (end - start))
                (b'\r' ∷ b'\n' ∷ []))
            ∙ ap (λ (s : List ℕ). s ++ b'\r' ∷ b'\n' ∷ [])
                (sym (two_parts hex (16 * q) start end (omega arith))
                  ∙ ap (columns hex (16 * q)) (sym cells_end)))
