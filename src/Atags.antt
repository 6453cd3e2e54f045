-- ===== src/Atags.antt =====
-- atags.c: the walk over the boot tags. <atags.h>, which is not in the repository, is the record Tags.
pub mod Walk
mod Tests
use pithread.Common.{
  ℕ, zero, suc, ◌+◌, ◌*◌, Bool, true, false, Option, none, some, List, [], ◌∷◌, ltb, ◌==◌,
  if◌then◌else◌,
}
use pithread.Stdio.{Arg, word, text}
use pithread.Stdio.Print.{Printed, wrote, out_of_fuel, then_print, __vprintf}

-- The values of the tags that the code knows, and what <atags.h> reads from the tag at an address.
pub record Tags : Type 0 where
  pub atag_none : ℕ
  pub atag_core : ℕ
  pub atag_mem : ℕ
  pub atag_cmdline : ℕ
  pub size : ℕ → ℕ
  pub value : ℕ → ℕ
  pub flags : ℕ → ℕ
  pub pagesize : ℕ → ℕ
  pub rootdev : ℕ → ℕ
  pub mem_size : ℕ → ℕ
  pub mem_start : ℕ → ℕ
  pub cmdline : ℕ → List ℕ

-- `TAG_NEXT(t)`: the size counts words of 4 bytes.
abbrev pub tag_next : Tags → ℕ → ℕ
tag_next l t = t + 4 * l.size t

-- A walk returns, or meets the bound on its loop.
pub data Walked : Type 0 where
  found : ℕ → Option ℕ → Walked
  not_ended : Walked

-- `if (next) *next = TAG_NEXT(tags);`
abbrev pub advance : Option ℕ → ℕ → Option ℕ
advance none after_tag = none
advance (some _) after_tag = some after_tag

unfoldable pub get_loop : ℕ → Tags → ℕ → Option ℕ → ℕ → Walked
get_loop zero l value next tags = not_ended
get_loop (suc fuel) l value next tags = elim (l.value tags == l.atag_none) [
  | true ↦ found 0 next
  | false ↦ elim (value == l.value tags) [
    | true ↦ found tags (advance next (tag_next l tags))
    | false ↦ get_loop fuel l value next (tag_next l tags)
  ]
]

-- `next` is what it points to, or `none` for NULL; `atags` is the static.
abbrev pub start : ℕ → Option ℕ → ℕ
start atags none = atags
start atags (some p) = if p == 0 then atags else p

-- The tag or NULL, and `*next` after the call.
unfoldable pub get_atag : ℕ → Tags → ℕ → ℕ → Option ℕ → Walked
get_atag fuel l atags value next = get_loop fuel l value next (start atags next)

abbrev core_text : List ℕ
core_text = b'A' ∷ b'T' ∷ b'A' ∷ b'G' ∷ b'_' ∷ b'C' ∷ b'O' ∷ b'R' ∷ b'E' ∷ b'\n' ∷ []

abbrev core_format : List ℕ
core_format =
    b'f' ∷ b'l' ∷ b'a' ∷ b'g' ∷ b's' ∷ b':' ∷ b' ' ∷ b'%' ∷ b'p' ∷ b',' ∷ b' ' ∷ b'p' ∷ b'a' ∷ b'g'
    ∷ b'e' ∷ b' ' ∷ b's' ∷ b'i' ∷ b'z' ∷ b'e' ∷ b':' ∷ b' ' ∷ b'%' ∷ b'u' ∷ b',' ∷ b' ' ∷ b'd'
    ∷ b'e' ∷ b'v' ∷ b':' ∷ b' ' ∷ b'%' ∷ b'u' ∷ b'\n' ∷ []

abbrev mem_text : List ℕ
mem_text = b'A' ∷ b'T' ∷ b'A' ∷ b'G' ∷ b'_' ∷ b'M' ∷ b'E' ∷ b'M' ∷ b'\n' ∷ []

abbrev mem_format : List ℕ
mem_format =
    b's' ∷ b'i' ∷ b'z' ∷ b'e' ∷ b':' ∷ b' ' ∷ b'%' ∷ b'u' ∷ b',' ∷ b' ' ∷ b's' ∷ b't' ∷ b'a' ∷ b'r'
    ∷ b't' ∷ b':' ∷ b' ' ∷ b'%' ∷ b'x' ∷ b'\n' ∷ []

abbrev cmdline_text : List ℕ
cmdline_text =
    b'A' ∷ b'T' ∷ b'A' ∷ b'G' ∷ b'_' ∷ b'C' ∷ b'M' ∷ b'D' ∷ b'L' ∷ b'I' ∷ b'N' ∷ b'E' ∷ b'\n' ∷ []

abbrev cmdline_format : List ℕ
cmdline_format = b'%' ∷ b's' ∷ b'\n' ∷ []

abbrev unknown_format : List ℕ
unknown_format = b'U' ∷ b'n' ∷ b'k' ∷ b'n' ∷ b'o' ∷ b'w' ∷ b'n' ∷ b' ' ∷ b'%' ∷ b'u' ∷ b'\n' ∷ []

abbrev none_text : List ℕ
none_text = b'A' ∷ b'T' ∷ b'A' ∷ b'G' ∷ b'_' ∷ b'N' ∷ b'O' ∷ b'N' ∷ b'E' ∷ b'\n' ∷ []

-- One round of `print_atags`.
unfoldable pub print_tag : Tags → ℕ → Printed
print_tag l t =
    if l.value t == l.atag_core
    then then_print (__vprintf core_text []) (
        if ltb 2 (l.size t)
        then __vprintf core_format
            (word (l.flags t) ∷ word (l.pagesize t) ∷ word (l.rootdev t) ∷ [])
        else wrote [])
    else (if l.value t == l.atag_mem
        then then_print (__vprintf mem_text [])
            (__vprintf mem_format (word (l.mem_size t) ∷ word (l.mem_start t) ∷ []))
        else (if l.value t == l.atag_cmdline
            then then_print (__vprintf cmdline_text []) (
                if ltb 2 (l.size t)
                then __vprintf cmdline_format (text (some (l.cmdline t)) ∷ [])
                else wrote [])
            else __vprintf unknown_format (word (l.value t) ∷ [])))

unfoldable pub print_atags : ℕ → Tags → ℕ → Printed
print_atags zero l tags = out_of_fuel
print_atags (suc fuel) l tags = elim (l.value tags == l.atag_none) [
  | true ↦ __vprintf none_text []
  | false ↦ then_print (print_tag l tags) (print_atags fuel l (tag_next l tags))
]

-- The new `atags`, and what is printed.
unfoldable pub atags_init : ℕ → Tags → ℕ → ℕ × Printed
atags_init fuel l tags = (tags, print_atags fuel l tags)
