-- ===== src/Debug/Trace.antt =====
-- lib/debug.c: `debug_backtrace` and the chain of stack frames.
use pithread.Common.{
  ℕ, zero, suc, ◌-◌, ◌^◌, ◌<◌, ◌≡◌, ◌≢◌, refl, ap, ◌∙◌, false, true, none, List, [], ◌∷◌, ◌++◌,
  ==_ne, length, arith,
}
use pithread.Stdio.{
  word, no_flags, int_type, Conversion, parse_conversion, parse_flags, flag_switch, override,
  parse_width, parse_digits, isdigit, parse_precision, parse_type, va_word,
}
use pithread.Stdio.Format.{base_x}
use pithread.Stdio.Print.{wrote, print_pointer, conversion_of, vprintf_loop, __vprintf}
use pithread.Stdio.Bases.{base_x-IsBase}
use pithread.Stdio.Compose.{vprintf-conversion}
use pithread.Stdio.Numbers.{Shows, format_integer-Shows}
use pithread.Debug.{space, newline, backtrace_text, frame_format, frame_loop, debug_backtrace}
use pithread.Debug.Columns.{both}

-- The frames from a pointer on, up to NULL, by the word before each.
abbrev pub Frames : (ℕ → ℕ) → ℕ → List ℕ → Type 0
Frames words frame [] = frame ≡ 0
Frames words frame (f ∷ fs) = (frame ≡ f) × (f ≢ 0) × Frames words (words (f - 4)) fs

-- A text that shows the word of each frame in base 16, with a space behind it.
abbrev pub ShowsFrames : (ℕ → ℕ) → List ℕ → List ℕ → Type 0
ShowsFrames words [] out = out ≡ []
ShowsFrames words (f ∷ fs) out =
    (text rest : List ℕ) × (out ≡ (text ++ space) ++ rest)
    × Shows 16 (words f) 0 false text
    × ShowsFrames words fs rest

abbrev pointer : Conversion
pointer = record { flags = no_flags; width = 0; precision = none; type = int_type }

print_frame :
    (v : ℕ)
    → v < 2 ^ 32
    → (text : List ℕ) × (__vprintf frame_format (word v ∷ []) ≡ wrote (text ++ space))
      × Shows 16 v 0 false text
unfolding __vprintf vprintf_loop parse_conversion parse_flags flag_switch override parse_width
    parse_digits isdigit parse_precision parse_type conversion_of print_pointer va_word
print_frame v lt =
    let (text, e, shows) =
      format_integer-Shows v false false base_x
        (record pointer { flags = record no_flags { pound = true } }) base_x-IsBase (omega arith) in
    (
      text,
      vprintf-conversion (b'p' ∷ b' ' ∷ []) space text b'p' pointer (word v ∷ []) (word v ∷ []) []
          print_pointer refl refl refl (rw e),
      shows,
    )

frame_loop_lem :
    (fuel : ℕ) (words : ℕ → ℕ) (frame : ℕ) (fs : List ℕ)
    → length fs < fuel
    → ((a : ℕ) → words a < 2 ^ 32)
    → Frames words frame fs
    → (out : List ℕ) × (frame_loop fuel words frame ≡ wrote out) × ShowsFrames words fs out
unfolding frame_loop
frame_loop_lem zero words frame fs lt w c = absurd (omega arith)
frame_loop_lem (suc fuel) words frame [] lt w c = ([], rw (c, frame_loop), refl)
frame_loop_lem (suc fuel) words frame (f ∷ fs) lt w (here, ne, more) =
    let (text, e, shows) = print_frame (words f) (w f) in
    let (rest, d, others) = frame_loop_lem fuel words (words (f - 4)) fs (omega arith) w more in
    (
      (text ++ space) ++ rest,
      ap (frame_loop (suc fuel) words) here
          ∙ rw (==_ne f 0 ne, frame_loop) (both _ _ (text ++ space) rest e d),
      (text, rest, refl, shows, others),
    )

-- `debug_backtrace` of a chain of frames that ends with NULL, with fuel above their number, ends and
-- prints the word of each frame once, in order, so that it reads back in base 16, in one line.
pub debug_backtrace_lem :
    (fuel : ℕ) (words : ℕ → ℕ) (frame : ℕ) (fs : List ℕ)
    → length fs < fuel
    → ((a : ℕ) → words a < 2 ^ 32)
    → Frames words frame fs
    → (out : List ℕ) × (debug_backtrace fuel words frame
        ≡ wrote (backtrace_text ++ (out ++ b'\r' ∷ b'\n' ∷ [])))
      × ShowsFrames words fs out
unfolding debug_backtrace __vprintf vprintf_loop
debug_backtrace_lem fuel words frame fs lt w c =
    let (out, e, shown) = frame_loop_lem fuel words frame fs lt w c in
    (
      out,
      both (__vprintf backtrace_text []) _ backtrace_text _ refl
          (both _ (__vprintf newline []) out _ e refl),
      shown,
    )
