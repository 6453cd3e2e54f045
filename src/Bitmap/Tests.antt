-- ===== src/Bitmap/Tests.antt =====
-- A bitmap of 40 bits, and the theorems of the component at it.
use pithread.Common.{◌≡◌, refl, ◌==◌, if◌then◌else◌, false, some, arith}
use pithread.Words.{bitwise}
use pithread.Bitmap.{
  Bitmap, bitmap_contains, bitmap_scan, bitmap_scan_and_flip, scan_loop, contains_loop, bitmap_test,
  elem_idx, bit_mask,
}
use pithread.Bitmap.Scan.{Flipped, bitmap_scan_and_flip_lem}

-- The first three bits and the last are set.
abbrev forty : Bitmap
forty = record { bit_cnt = 40; bits = λ k. if k == 0 then 7 else (if k == 1 then 128 else 0) }

bitmap_scan_and_flip_example : Flipped forty 0 2 false (bitmap_scan_and_flip forty 0 2 false)
bitmap_scan_and_flip_example = bitmap_scan_and_flip_lem forty 0 2 false (omega arith) (omega arith)

-- What the code gives on this bitmap.
scan_first : bitmap_scan forty 0 2 false ≡ some 3
unfolding bitmap_scan scan_loop bitmap_contains contains_loop bitmap_test bitwise elem_idx bit_mask
scan_first = refl
