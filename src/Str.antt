-- ===== src/Str.antt =====
-- lib/string.c: memmove, memcmp, memchr and the operations on strings, on byte memory. A `char`
-- is its byte. `fuel` bounds a loop that runs to the end of a string.
pub mod Move
pub mod Find
pub mod Copy
pub mod Compare
pub mod Spans
pub mod Tokens
pub mod Substring
mod Tests
use pithread.Common.{
  ℕ, zero, suc, ◌+◌, ◌-◌, ◌%◌, not, ◌&&◌, ◌||◌, Bool, true, false, ltb, ◌==◌, if◌then◌else◌, none,
  some,
}
use pithread.Memory.{Memory, store, copy_up, memcpy}

-- A call returns, fails an ASSERT, or meets the bound on a loop.
pub data Run (A : Type 0) : Type 0 where
  done : A → Run A
  failed : Run A
  out_of_fuel : Run A

-- -1, 0 and +1.
pub data Sign : Type 0 where
  minus : Sign
  equal : Sign
  plus : Sign

-- `ASSERT(p != NULL || size == 0)`.
abbrev pub valid : ℕ → ℕ → Bool
valid p size = not (p == 0) || size == 0

-- `while (size-- > 0) *--dst = *--src;` from the ends of the blocks.
unfoldable pub copy_down : ℕ → Memory → ℕ → ℕ → Memory
copy_down zero m dst src = m
copy_down (suc n) m dst src = copy_down n (store m (dst + n) (m (src + n))) dst src

-- The pointer that it returns, and the memory.
unfoldable pub memmove : Memory → ℕ → ℕ → ℕ → Run (ℕ × Memory)
memmove m dst src size =
    if valid dst size && valid src size
    then (if ltb dst src
        then done (dst + size, copy_up size m dst src)
        else done (dst, copy_down size m dst src))
    else failed

unfoldable pub memcmp_loop : ℕ → Memory → ℕ → ℕ → Sign
memcmp_loop zero m a b = equal
memcmp_loop (suc n) m a b = elim (m a == m b) [
  | true ↦ memcmp_loop n m (a + 1) (b + 1)
  | false ↦ if ltb (m b) (m a) then plus else minus
]

unfoldable pub memcmp : Memory → ℕ → ℕ → ℕ → Run Sign
memcmp m a b size = if valid a size && valid b size then done (memcmp_loop size m a b) else failed

unfoldable pub memchr_loop : ℕ → Memory → ℕ → ℕ → ℕ
memchr_loop zero m block ch = 0
memchr_loop (suc n) m block ch = elim (m block == ch) [
  | true ↦ block
  | false ↦ memchr_loop n m (block + 1) ch
]

unfoldable pub memchr : Memory → ℕ → ℕ → ℕ → Run ℕ
memchr m block ch size =
    if valid block size then done (memchr_loop size m block (ch % 256)) else failed

unfoldable pub strlen_loop : ℕ → Memory → ℕ → ℕ → Run ℕ
strlen_loop zero m string n = out_of_fuel
strlen_loop (suc fuel) m string n = elim (m (string + n) == 0) [
  | true ↦ done n
  | false ↦ strlen_loop fuel m string (n + 1)
]

unfoldable pub strlen : ℕ → Memory → ℕ → Run ℕ
strlen fuel m string = if string == 0 then failed else strlen_loop fuel m string 0

-- By the characters that are left to `maxlen`.
unfoldable pub strnlen_loop : ℕ → Memory → ℕ → ℕ → ℕ
strnlen_loop zero m string n = n
strnlen_loop (suc left) m string n = elim (m (string + n) == 0) [
  | true ↦ n
  | false ↦ strnlen_loop left m string (n + 1)
]

unfoldable pub strnlen : Memory → ℕ → ℕ → ℕ
strnlen m string maxlen = strnlen_loop maxlen m string 0

unfoldable pub strchr_loop : ℕ → Memory → ℕ → ℕ → Run ℕ
strchr_loop zero m string c = out_of_fuel
strchr_loop (suc fuel) m string c = elim (m string == c) [
  | true ↦ done string
  | false ↦ elim (m string == 0) [ true ↦ done 0 | false ↦ strchr_loop fuel m (string + 1) c ]
]

unfoldable pub strchr : ℕ → Memory → ℕ → ℕ → Run ℕ
strchr fuel m string c = if string == 0 then failed else strchr_loop fuel m string (c % 256)

unfoldable pub strcmp_loop : ℕ → Memory → ℕ → ℕ → Run Sign
strcmp_loop zero m a b = out_of_fuel
strcmp_loop (suc fuel) m a b = elim (not (m a == 0) && m a == m b) [
  | true ↦ strcmp_loop fuel m (a + 1) (b + 1)
  | false ↦ done (if ltb (m a) (m b) then minus else (if ltb (m b) (m a) then plus else equal))
]

unfoldable pub strcmp : ℕ → Memory → ℕ → ℕ → Run Sign
strcmp fuel m a b = if a == 0 || b == 0 then failed else strcmp_loop fuel m a b

-- The loop of `strcspn` and `strspn`: it goes on while the outcome of `strchr` is NULL, or while it is
-- not. `inner` bounds the loop of `strchr`.
unfoldable pub span_loop : ℕ → ℕ → Bool → Memory → ℕ → ℕ → ℕ → Run ℕ
span_loop zero inner while_null m string set length = out_of_fuel
span_loop (suc fuel) inner while_null m string set length = elim (m (string + length) == 0) [
  | true ↦ done length
  | false ↦ elim (strchr inner m set (m (string + length))) [
    | failed ↦ failed
    | out_of_fuel ↦ out_of_fuel
    | done p ↦ elim (if while_null then p == 0 else not (p == 0)) [
      | true ↦ span_loop fuel inner while_null m string set (length + 1)
      | false ↦ done length
    ]
  ]
]

unfoldable pub strcspn : ℕ → Memory → ℕ → ℕ → Run ℕ
strcspn fuel m string stop = span_loop fuel fuel true m string stop 0

unfoldable pub strspn : ℕ → Memory → ℕ → ℕ → Run ℕ
strspn fuel m string skip = span_loop fuel fuel false m string skip 0

unfoldable pub strrchr_loop : ℕ → Memory → ℕ → ℕ → ℕ → Run ℕ
strrchr_loop zero m string c p = out_of_fuel
strrchr_loop (suc fuel) m string c p = elim (m string == 0) [
  | true ↦ done p
  | false ↦ strrchr_loop fuel m (string + 1) c (if m string == c then string else p)
]

unfoldable pub strrchr : ℕ → Memory → ℕ → ℕ → Run ℕ
strrchr fuel m string c = strrchr_loop fuel m string (c % 256) 0

-- The bytes that `strlcpy` and `strlcat` copy, and the end that they write.
unfoldable pub copy_end : Memory → ℕ → ℕ → ℕ → Run Memory
copy_end m dst src n = elim (memcpy m dst src n) [
  | none ↦ failed
  | some (_, m') ↦ done (store m' (dst + n) 0)
]

abbrev pub smaller : ℕ → ℕ → ℕ
smaller a b = if ltb a b then a else b

unfoldable pub strlcpy : ℕ → Memory → ℕ → ℕ → ℕ → Run (ℕ × Memory)
strlcpy fuel m dst src size = if dst == 0 || src == 0 then failed else (elim (strlen fuel m src) [
  | failed ↦ failed
  | out_of_fuel ↦ out_of_fuel
  | done src_len ↦ elim (ltb 0 size) [
    | false ↦ done (src_len, m)
    | true ↦ elim (copy_end m dst src (smaller src_len (size - 1))) [
      | failed ↦ failed
      | out_of_fuel ↦ out_of_fuel
      | done m' ↦ done (src_len, m')
    ]
  ]
])

unfoldable pub strlcat : ℕ → Memory → ℕ → ℕ → ℕ → Run (ℕ × Memory)
strlcat fuel m dst src size = if dst == 0 || src == 0 then failed else (elim (strlen fuel m src) [
  | failed ↦ failed
  | out_of_fuel ↦ out_of_fuel
  | done src_len ↦ elim (strlen fuel m dst) [
    | failed ↦ failed
    | out_of_fuel ↦ out_of_fuel
    | done dst_len ↦ elim (ltb 0 size && ltb dst_len size) [
      | false ↦ done (src_len + dst_len, m)
      | true ↦ elim (copy_end m (dst + dst_len) src (smaller src_len (size - dst_len - 1))) [
        | failed ↦ failed
        | out_of_fuel ↦ out_of_fuel
        | done m' ↦ done (src_len + dst_len, m')
      ]
    ]
  ]
])
