-- ===== src/Debug.antt =====
-- lib/debug.c, and `bitmap_dump` of lib/bitmap.c. What a call prints is a list of bytes. Memory is a
-- function of the address; the words of the stack frames are one, too.
pub mod Digits
pub mod Columns
pub mod Line
pub mod Dump
pub mod Trace
mod Tests
use pithread.Common.{
  ℕ, zero, suc, ◌+◌, ◌-◌, ◌%◌, Bool, true, false, ◌&&◌, some, List, [], ◌∷◌, ltb, leb, ◌==◌,
  if◌then◌else◌,
}
use pithread.Round.{u32, round_down}
use pithread.Memory.{Memory}
use pithread.Bitmap.{Bitmap, byte_cnt}
use pithread.Stdio.{Arg, word, long_word, text}
use pithread.Stdio.Print.{Printed, wrote, out_of_fuel, then_print, __vprintf}

-- "%08jx  ", "   ", "%02hhx%c", "|", " ", "%c" and "\n".
abbrev pub offset_format : List ℕ
offset_format = b'%' ∷ b'0' ∷ b'8' ∷ b'j' ∷ b'x' ∷ b' ' ∷ b' ' ∷ []

abbrev pub blank : List ℕ
blank = b' ' ∷ b' ' ∷ b' ' ∷ []

abbrev pub byte_format : List ℕ
byte_format = b'%' ∷ b'0' ∷ b'2' ∷ b'h' ∷ b'h' ∷ b'x' ∷ b'%' ∷ b'c' ∷ []

abbrev pub char_format : List ℕ
char_format = b'%' ∷ b'c' ∷ []

abbrev pub bar : List ℕ
bar = b'|' ∷ []

abbrev pub space : List ℕ
space = b' ' ∷ []

abbrev pub newline : List ℕ
newline = b'\n' ∷ []

abbrev pub isprint : ℕ → Bool
isprint c = leb 32 c && ltb c 127

-- The loops of a line, by the rounds that are left: those that print the same text,
unfoldable pub print_times : ℕ → List ℕ → Printed
print_times zero format = wrote []
print_times (suc left) format = then_print (__vprintf format []) (print_times left format)

-- the bytes from `buf` on, in the columns from `i` on,
unfoldable pub bytes_loop : ℕ → Memory → ℕ → ℕ → Printed
bytes_loop zero m buf i = wrote []
bytes_loop (suc left) m buf i =
    then_print
      (__vprintf byte_format (word (m buf % 256) ∷ word (if i == 7 then b'-' else b' ') ∷ []))
      (bytes_loop left m (buf + 1) (i + 1))

-- and their characters.
unfoldable pub chars_loop : ℕ → Memory → ℕ → Printed
chars_loop zero m buf = wrote []
chars_loop (suc left) m buf =
    then_print
      (__vprintf char_format (word (if isprint (m buf % 256) then m buf % 256 else b'.') ∷ []))
      (chars_loop left m (buf + 1))

-- The part of a line that `ascii` asks for; `end` is at most 16.
unfoldable pub ascii_part : Memory → ℕ → ℕ → ℕ → Printed
ascii_part m buf start end = then_print (print_times (16 - end) blank) (
    then_print (__vprintf bar []) (
      then_print (print_times start space) (
        then_print (chars_loop (end - start) m buf)
          (then_print (print_times (16 - end) space) (__vprintf bar [])))))

unfoldable pub dump_line : Memory → ℕ → ℕ → ℕ → ℕ → Bool → Printed
dump_line m ofs buf start end ascii =
    then_print (__vprintf offset_format (long_word (round_down ofs 16) ∷ [])) (
      then_print (print_times start blank) (
        then_print (bytes_loop (end - start) m buf start) (
          then_print (if ascii then ascii_part m buf start end else wrote [])
            (__vprintf newline []))))

-- The end of the bytes of a line.
abbrev pub line_end : ℕ → ℕ → ℕ
line_end start size = if ltb size (16 - start) then start + size else 16

-- `while (size > 0)`, with the lines that it may print.
unfoldable pub hex_dump : ℕ → Memory → ℕ → ℕ → ℕ → Bool → Printed
hex_dump fuel m ofs buf zero ascii = wrote []
hex_dump zero m ofs buf (suc k) ascii = out_of_fuel
hex_dump (suc fuel) m ofs buf (suc k) ascii =
    let start = ofs % 16 in
    let end = line_end start (suc k) in
    then_print (dump_line m ofs buf start end ascii) (
      hex_dump fuel m (u32 (ofs + (end - start))) (buf + (end - start)) (suc k - (end - start))
        ascii)

-- The words of a bitmap lie at `bits`.
unfoldable pub bitmap_dump : ℕ → Memory → ℕ → Bitmap → Printed
bitmap_dump fuel m bits b = hex_dump fuel m 0 bits (byte_cnt b.bit_cnt) false

-- "backtrace: " and "%p ".
abbrev pub backtrace_text : List ℕ
backtrace_text = b'b' ∷ b'a' ∷ b'c' ∷ b'k' ∷ b't' ∷ b'r' ∷ b'a' ∷ b'c' ∷ b'e' ∷ b':' ∷ b' ' ∷ []

abbrev pub frame_format : List ℕ
frame_format = b'%' ∷ b'p' ∷ b' ' ∷ []

-- The loop of `debug_backtrace`: `words` gives the word at an address; `frame[-1]` is the word before
-- the one of the frame.
unfoldable pub frame_loop : ℕ → (ℕ → ℕ) → ℕ → Printed
frame_loop zero words frame = out_of_fuel
frame_loop (suc fuel) words frame = elim (frame == 0) [
  | true ↦ wrote []
  | false ↦
      then_print (__vprintf frame_format (word (words frame) ∷ []))
        (frame_loop fuel words (words (frame - 4)))
]

unfoldable pub debug_backtrace : ℕ → (ℕ → ℕ) → ℕ → Printed
debug_backtrace fuel words frame =
    then_print (__vprintf backtrace_text [])
      (then_print (frame_loop fuel words frame) (__vprintf newline []))

-- "Kernel PANIC at %s:%d in %s(): ".
abbrev pub panic_format : List ℕ
panic_format =
    b'K' ∷ b'e' ∷ b'r' ∷ b'n' ∷ b'e' ∷ b'l' ∷ b' ' ∷ b'P' ∷ b'A' ∷ b'N' ∷ b'I' ∷ b'C' ∷ b' ' ∷ b'a'
    ∷ b't' ∷ b' ' ∷ b'%' ∷ b's' ∷ b':' ∷ b'%' ∷ b'd' ∷ b' ' ∷ b'i' ∷ b'n' ∷ b' ' ∷ b'%' ∷ b's'
    ∷ b'(' ∷ b')' ∷ b':' ∷ b' ' ∷ []

-- What `debug_panic` prints before it halts, with the frame that it hands to `debug_backtrace`.
unfoldable pub debug_panic : ℕ → (ℕ → ℕ) → ℕ → List ℕ → ℕ → List ℕ → List ℕ → List Arg → Printed
debug_panic fuel words frame file line function message args =
    then_print (__vprintf panic_format (text (some file) ∷ word line ∷ text (some function) ∷ [])) (
      then_print (__vprintf message args)
        (then_print (__vprintf newline []) (debug_backtrace fuel words frame)))
