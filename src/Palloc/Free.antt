-- ===== src/Palloc/Free.antt =====
-- `palloc_free_multiple`.
use pithread.Common.{
  ℕ, ◌+◌, ◌-◌, ◌*◌, ◌/◌, ◌^◌, ◌≤◌, ◌<◌, ◌≡◌, ◌≢◌, ◌⊎◌, inl, inr, refl, true, false, some, arith,
  ==_ne,
}
use pithread.Round.{u32}
use pithread.Memory.{fill, memset}
use pithread.Bitmap.{Bitmap, bitmap_all, bitmap_contains, bitmap_set_multiple}
use pithread.Bitmap.Ranges.{RangeSet, bitmap_set_multiple_lem}
use pithread.Bitmap.Scan.{Group, NoGroup}
use pithread.Bitmap.Search.{bitmap_contains_lem}
use pithread.Thread.ListLib.{ListLib}
use pithread.Thread.State.{State, Res, ok, failed}
use pithread.Thread.Inv.{Inv}
use pithread.Palloc.{
  PoolVars, pgsize, pg_ofs, pg_no, used_map, set_used, all_used, reset_used, palloc_free_multiple,
}

module _ ⦃l : ListLib⦄ (p : PoolVars) where
  -- What freeing the group of `cnt` pages from page `idx` on comes to: all of them were in use, and
  -- then they are free and filled with 0xcc and no other page changes; or one was free
  -- already, and an ASSERT fails.
  abbrev pub Freed : ℕ → ℕ → ℕ → State l → Res l (Unit {0}) → Type 0
  Freed idx cnt pages s r =
      (Group (used_map p s) idx cnt true
        × ((s' : State l) × (r ≡ ok tt s')
            × Inv s'
            × RangeSet (used_map p s) idx cnt false (used_map p s')
            × (s'.mem ≡ fill (pgsize * cnt) s.mem pages 0xcc)))
      ⊎ (NoGroup (used_map p s) idx cnt true × (r ≡ failed))

  all_used_no :
      (idx cnt : ℕ) (s : State l)
      → bitmap_contains (used_map p s) idx cnt false ≡ some true
      → all_used p idx cnt s ≡ failed
  unfolding all_used bitmap_all
  all_used_no idx cnt s e = rw (e, all_used, bitmap_all)

  all_used_ok :
      (idx cnt : ℕ) (s : State l)
      → bitmap_contains (used_map p s) idx cnt false ≡ some false
      → all_used p idx cnt s ≡ ok tt s
  unfolding all_used bitmap_all
  all_used_ok idx cnt s e = rw (e, all_used, bitmap_all)

  reset_ok :
      (idx cnt : ℕ) (s : State l) (b : Bitmap)
      → bitmap_set_multiple (used_map p s) idx cnt false ≡ some b
      → reset_used p idx cnt s ≡ ok tt (set_used b.bits s)
  unfolding reset_used
  reset_ok idx cnt s b e = rw (e, reset_used)

  -- A group of pages of the pool is freed, or one of them was free before and an ASSERT fails.
  pub palloc_free_multiple_lem :
      (idx cnt : ℕ) (s : State l)
      → cnt ≢ 0
      → p.base ≢ 0
      → p.base + pgsize * p.used_cnt < 2 ^ 32
      → idx + cnt ≤ p.used_cnt
      → pg_ofs (p.base + pgsize * idx) ≡ 0
      → Inv s
      → let pages = p.base + pgsize * idx in
        Freed idx cnt pages s (palloc_free_multiple p pages cnt s)
  unfolding palloc_free_multiple pg_no memset
  palloc_free_multiple_lem idx cnt s some_page placed below fits aligned v =
      let pages = p.base + pgsize * idx in
      let filled : State l = record s { mem = fill (pgsize * cnt) s.mem pages 0xcc } in
      let at : u32 (pages / pgsize + 2 ^ 32 - p.base / pgsize) ≡ idx = omega arith in
      let bytes : u32 (pgsize * cnt) ≡ pgsize * cnt = omega arith in
      rw (aligned, ==_ne pages 0 (λ e. placed (omega arith)), ==_ne cnt 0 some_page, at, bytes)
        (elim (bitmap_contains_lem (used_map p s) idx cnt false (omega arith) fits) [
          | inl (e, free) ↦ inr (free, rw (all_used_no idx cnt filled e))
          | inr (e, used) ↦
              let (b, set, r) =
                bitmap_set_multiple_lem (used_map p s) idx cnt false (omega arith) fits in
              inl (
                used,
                (
                  set_used b.bits filled,
                  rw (all_used_ok idx cnt filled e, reset_ok idx cnt filled b set) refl,
                  record { lists = v.lists; running = v.running; locks = v.locks },
                  record { size = refl; inside = r.inside; outside = r.outside; words = r.words },
                  refl,
                ),
              )
        ])
