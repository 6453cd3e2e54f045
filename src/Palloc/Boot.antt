-- ===== src/Palloc/Boot.antt =====
-- `palloc_init`.
use pithread.Common.{ℕ, ◌+◌, ◌-◌, ◌^◌, ◌≤◌, ◌<◌, ◌≡◌, arith}
use pithread.Palloc.{adjust_mem}

-- When the kernel lies in the memory of the tag, the memory that `palloc_init` gives to the pool starts
-- at the kernel's end and keeps the full size of the tag, so it ends as far past the end of
-- the tag's memory as the kernel's end lies past its start.
adjust_mem_lem :
    (kernel_start kernel_end start size : ℕ)
    → start ≤ kernel_start
    → kernel_start < start + size
    → start ≤ kernel_end
    → kernel_end < 2 ^ 32
    → start + size < 2 ^ 32
    → let mem = adjust_mem kernel_start kernel_end start size in
      (mem.0 ≡ kernel_end) × (mem.0 + mem.1 ≡ start + size + (kernel_end - start))
unfolding adjust_mem
adjust_mem_lem kernel_start kernel_end start size h k e u w = (ground arith, ground arith)
