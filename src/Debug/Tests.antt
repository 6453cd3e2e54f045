-- ===== src/Debug/Tests.antt =====
-- A dump and a backtrace.
use pithread.Common.{
  ℕ, ◌^◌, ◌<◌, ◌≡◌, refl, false, true, List, [], ◌∷◌, ◌++◌, ◌==◌, if◌then◌else◌, arith,
}
use pithread.Memory.{Memory}
use pithread.Stdio.Print.{wrote}
use pithread.Debug.{hex_dump, debug_backtrace, backtrace_text}
use pithread.Debug.Digits.{hex_text}
use pithread.Debug.Line.{line_text}
use pithread.Debug.Dump.{dump_text, hex_dump_lem}
use pithread.Debug.Trace.{ShowsFrames, debug_backtrace_lem}

-- "Hi" in a memory of small numbers.
abbrev greeting : Memory
greeting a = if a == 100 then b'H' else (if a == 101 then b'i' else 7)

hex_dump_example : hex_dump 3 greeting 14 100 3 true ≡ wrote (dump_text greeting 14 100 3 true)
hex_dump_example = hex_dump_lem 3 greeting 14 100 3 true (omega arith) (omega arith)

-- The bytes from column 6 on, without characters.
two_bytes :
    dump_text greeting 6 100 2 false
    ≡ b'0' ∷ b'0' ∷ b'0' ∷ b'0' ∷ b'0' ∷ b'0' ∷ b'0' ∷ b'0' ∷ b' ' ∷ b' ' ∷ b' ' ∷ b' ' ∷ b' '
      ∷ b' ' ∷ b' ' ∷ b' ' ∷ b' ' ∷ b' ' ∷ b' ' ∷ b' ' ∷ b' ' ∷ b' ' ∷ b' ' ∷ b' ' ∷ b' ' ∷ b' '
      ∷ b' ' ∷ b' ' ∷ b'4' ∷ b'8' ∷ b' ' ∷ b'6' ∷ b'9' ∷ b'-' ∷ b'\r' ∷ b'\n' ∷ []
unfolding dump_text line_text hex_text
two_bytes = refl

-- Two frames, at 40 and 80.
abbrev stack : ℕ → ℕ
stack a = if a == 36 then 80 else (if a == 76 then 0 else (if a == 40 then 33024 else 32768))

stack_small : (a : ℕ) → stack a < 2 ^ 32
stack_small a = ground arith

debug_backtrace_example :
    (out : List ℕ) × (debug_backtrace 3 stack 40
      ≡ wrote (backtrace_text ++ (out ++ b'\r' ∷ b'\n' ∷ [])))
    × ShowsFrames stack (40 ∷ 80 ∷ []) out
debug_backtrace_example =
    debug_backtrace_lem 3 stack 40 (40 ∷ 80 ∷ []) (omega arith) stack_small
      (refl, (λ e. omega arith), (refl, (λ e. omega arith), refl))
