-- ===== src/Memory.antt =====
-- Byte memory and the block operations of lib/string.c on it. A pointer is a number and 0 is
-- NULL; `none` is a failed ASSERT. Addresses stay below the end of the address space, so the
-- pointers do not wrap.
pub mod Blocks
use pithread.Common.{ℕ, zero, suc, ◌+◌, ◌%◌, not, ◌||◌, Option, none, some, ◌==◌, if◌then◌else◌}

abbrev pub Memory : Type 0
Memory = ℕ → ℕ

-- `*a = v` for an unsigned char.
unfoldable pub store : Memory → ℕ → ℕ → Memory
store m a v b = if b == a then v else m b

-- `while (size-- > 0) *dst++ = *src++;`
unfoldable pub copy_up : ℕ → Memory → ℕ → ℕ → Memory
copy_up zero m dst src = m
copy_up (suc n) m dst src = copy_up n (store m dst (m src)) (dst + 1) (src + 1)

unfoldable pub memcpy : Memory → ℕ → ℕ → ℕ → Option (ℕ × Memory)
memcpy m dst src size =
    if not (dst == 0) || size == 0
    then (if not (src == 0) || size == 0 then some (dst, copy_up size m dst src) else none)
    else none

-- `while (size-- > 0) *dst++ = value;`
unfoldable pub fill : ℕ → Memory → ℕ → ℕ → Memory
fill zero m dst v = m
fill (suc n) m dst v = fill n (store m dst v) (dst + 1) v

unfoldable pub memset : Memory → ℕ → ℕ → ℕ → Option (ℕ × Memory)
memset m dst value size =
    if not (dst == 0) || size == 0 then some (dst, fill size m dst (value % 256)) else none
