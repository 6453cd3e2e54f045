-- ===== src/Bitmap.antt =====
-- lib/bitmap.c: bitmaps. `elem_type` and `size_t` have 32 bits. The words at `bits` are a store
-- from an index on; nothing in C bounds a write. `none` is a failed ASSERT.
pub mod Bits
pub mod Ranges
pub mod Search
pub mod Scan
mod Tests
use pithread.Common.{
  ℕ, zero, suc, ◌+◌, ◌-◌, ◌*◌, ◌/◌, ◌%◌, ◌^◌, Bool, true, false, not, Option, none, some, ltb, leb,
  ◌==◌, if◌then◌else◌, ℕ_discrete, ite,
}
use pithread.Round.{u32, div_round_up}
use pithread.Words.{xor, word_or, word_and, word_xor, word_not}

pub record Bitmap : Type 0 where
  pub bit_cnt : ℕ
  pub bits : ℕ → ℕ

unfoldable pub elem_idx : ℕ → ℕ
elem_idx bit_idx = bit_idx / 32

unfoldable pub bit_mask : ℕ → ℕ
bit_mask bit_idx = 2 ^ (bit_idx % 32)

unfoldable pub elem_cnt : ℕ → ℕ
elem_cnt bit_cnt = div_round_up bit_cnt 32

unfoldable pub byte_cnt : ℕ → ℕ
byte_cnt bit_cnt = u32 (4 * elem_cnt bit_cnt)

-- `sizeof (struct bitmap)` is 8: a size_t and a pointer.
unfoldable pub bitmap_buf_size : ℕ → ℕ
bitmap_buf_size bit_cnt = u32 (8 + byte_cnt bit_cnt)

abbrev pub bitmap_error : ℕ
bitmap_error = 2 ^ 32 - 1

abbrev pub bitmap_size : Bitmap → ℕ
bitmap_size b = b.bit_cnt

abbrev pub set_elem : Bitmap → ℕ → ℕ → Bitmap
set_elem b idx w = record b { bits = λ k. ite (ℕ_discrete k idx) w (b.bits k) }

unfoldable pub bitmap_mark : Bitmap → ℕ → Bitmap
bitmap_mark b bit_idx =
    set_elem b (elem_idx bit_idx) (word_or (b.bits (elem_idx bit_idx)) (bit_mask bit_idx))

unfoldable pub bitmap_reset : Bitmap → ℕ → Bitmap
bitmap_reset b bit_idx =
    set_elem b (elem_idx bit_idx)
      (word_and (b.bits (elem_idx bit_idx)) (word_not (bit_mask bit_idx)))

unfoldable pub bitmap_flip : Bitmap → ℕ → Bitmap
bitmap_flip b bit_idx =
    set_elem b (elem_idx bit_idx) (word_xor (b.bits (elem_idx bit_idx)) (bit_mask bit_idx))

unfoldable pub bitmap_set : Bitmap → ℕ → Bool → Option Bitmap
bitmap_set b idx value =
    if ltb idx b.bit_cnt
    then (if value then some (bitmap_mark b idx) else some (bitmap_reset b idx))
    else none

unfoldable pub bitmap_test : Bitmap → ℕ → Option Bool
bitmap_test b idx =
    if ltb idx b.bit_cnt
    then some (not (word_and (b.bits (elem_idx idx)) (bit_mask idx) == 0))
    else none

-- The two ASSERTs on a range; the sum wraps.
abbrev pub in_range : Bitmap → ℕ → ℕ → Bool
in_range b start cnt = if leb start b.bit_cnt then leb (u32 (start + cnt)) b.bit_cnt else false

-- The loop `for (; i < cnt; i++)`, by the rounds that are left.
unfoldable pub set_loop : ℕ → Bitmap → ℕ → ℕ → Bool → Option Bitmap
set_loop zero b start i value = some b
set_loop (suc n) b start i value = elim (bitmap_set b (u32 (start + i)) value) [
  | none ↦ none
  | some b' ↦ set_loop n b' start (i + 1) value
]

unfoldable pub bitmap_set_multiple : Bitmap → ℕ → ℕ → Bool → Option Bitmap
bitmap_set_multiple b start cnt value =
    if in_range b start cnt then set_loop cnt b start 0 value else none

unfoldable pub bitmap_set_all : Bitmap → Bool → Option Bitmap
bitmap_set_all b value = bitmap_set_multiple b 0 (bitmap_size b) value

-- The bitmap that `bitmap_create_in_buf` leaves at the start of the buffer, whose words past it
-- are `bits`.
unfoldable pub bitmap_create_in_buf : ℕ → (ℕ → ℕ) → ℕ → Option Bitmap
bitmap_create_in_buf bit_cnt bits block_size =
    if leb (bitmap_buf_size bit_cnt) block_size
    then bitmap_set_all (record { bit_cnt = bit_cnt; bits = bits }) false
    else none

-- `bitmap_test(b, ...) == value`.
abbrev pub eqb : Bool → Bool → Bool
eqb x y = not (xor x y)

unfoldable pub count_loop : ℕ → Bitmap → ℕ → ℕ → Bool → ℕ → Option ℕ
count_loop zero b start i value value_cnt = some value_cnt
count_loop (suc n) b start i value value_cnt = elim (bitmap_test b (u32 (start + i))) [
  | none ↦ none
  | some x ↦
      count_loop n b start (i + 1) value (if eqb x value then u32 (value_cnt + 1) else value_cnt)
]

unfoldable pub bitmap_count : Bitmap → ℕ → ℕ → Bool → Option ℕ
bitmap_count b start cnt value =
    if in_range b start cnt then count_loop cnt b start 0 value 0 else none

unfoldable pub contains_loop : ℕ → Bitmap → ℕ → ℕ → Bool → Option Bool
contains_loop zero b start i value = some false
contains_loop (suc n) b start i value = elim (bitmap_test b (u32 (start + i))) [
  | none ↦ none
  | some x ↦ elim (eqb x value) [ true ↦ some true | false ↦ contains_loop n b start (i + 1) value ]
]

unfoldable pub bitmap_contains : Bitmap → ℕ → ℕ → Bool → Option Bool
bitmap_contains b start cnt value =
    if in_range b start cnt then contains_loop cnt b start 0 value else none

abbrev pub negated : Option Bool → Option Bool
negated none = none
negated (some x) = some (not x)

unfoldable pub bitmap_any : Bitmap → ℕ → ℕ → Option Bool
bitmap_any b start cnt = bitmap_contains b start cnt true

unfoldable pub bitmap_none : Bitmap → ℕ → ℕ → Option Bool
bitmap_none b start cnt = negated (bitmap_contains b start cnt true)

unfoldable pub bitmap_all : Bitmap → ℕ → ℕ → Option Bool
bitmap_all b start cnt = negated (bitmap_contains b start cnt false)

-- `for (i = start; i <= last; i++)`, by the rounds that are left.
unfoldable pub scan_loop : ℕ → Bitmap → ℕ → ℕ → Bool → Option ℕ
scan_loop zero b i cnt value = some bitmap_error
scan_loop (suc n) b i cnt value = elim (bitmap_contains b i cnt (not value)) [
  | none ↦ none
  | some x ↦ elim x [ true ↦ scan_loop n b (i + 1) cnt value | false ↦ some i ]
]

unfoldable pub bitmap_scan : Bitmap → ℕ → ℕ → Bool → Option ℕ
bitmap_scan b start cnt value =
    if leb start b.bit_cnt
    then (if leb cnt b.bit_cnt
        then scan_loop (b.bit_cnt - cnt + 1 - start) b start cnt value
        else some bitmap_error)
    else none

-- The index found, and the bitmap after.
unfoldable pub bitmap_scan_and_flip : Bitmap → ℕ → ℕ → Bool → Option (ℕ × Bitmap)
bitmap_scan_and_flip b start cnt value = elim (bitmap_scan b start cnt value) [
  | none ↦ none
  | some idx ↦ elim (idx == bitmap_error) [
    | true ↦ some (idx, b)
    | false ↦ elim (bitmap_set_multiple b idx cnt (not value)) [
      | none ↦ none
      | some b' ↦ some (idx, b')
    ]
  ]
]
