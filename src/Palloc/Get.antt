-- ===== src/Palloc/Get.antt =====
-- `palloc_get_multiple`.
use pithread.Common.{
  ℕ, ◌+◌, ◌*◌, ◌^◌, ◌≤◌, ◌<◌, ◌≡◌, ◌≢◌, ◌⊎◌, inl, inr, ◌∙◌, refl, sym, subst, true, false, ◌==◌,
  if◌then◌else◌, some, arith, ==_ne, Bool-cases,
}
use pithread.Round.{u32}
use pithread.Memory.{fill, memset}
use pithread.Bitmap.{Bitmap, bitmap_error, bitmap_scan_and_flip}
use pithread.Bitmap.Ranges.{RangeSet}
use pithread.Bitmap.Scan.{First, NoGroup, Flipped, bitmap_scan_and_flip_lem}
use pithread.Thread.ListLib.{ListLib}
use pithread.Thread.State.{in_lock, State, ok, M, ◌>>=◌, ◌>>◌}
use pithread.Thread.Inv.{Inv}
use pithread.Thread.Safe.{Safe, Safe-bind, Safe-mono, Guarantee-refl, Guarantee, Guarantee-trans}
use pithread.Thread.Sync.{lock_acquire, lock_release, set_holder}
use pithread.Thread.Sync.Semaphore.{Woken-SameRest}
use pithread.Thread.Sync.Lock.{Acquired, lock_acquire-Safe, lock_release_lem}
use pithread.Palloc.{
  PoolVars, pgsize, pal_assert, pal_zero, has_flag, used_map, set_used, scan_used, hand_out,
  palloc_get_multiple,
}

module _ ⦃l : ListLib⦄ (p : PoolVars) (flags page_cnt : ℕ) where
  -- The pages of the pool lie below the end of the address space, and not at NULL.
  abbrev pub Placed : Type 0
  Placed = (p.base ≢ 0) × (p.base + pgsize * p.used_cnt < 2 ^ 32) × (p.lock ≢ 0)

  -- The group from page `idx` on is given out: it is the first group of free pages in the map of
  -- `t`, it is in use in `s` and no other page changes hands, and its bytes are 0 if `flags` ask
  -- for it.
  pub record Granted (t : State l) (idx pages : ℕ) (s : State l) : Type 0 where
    pub address : pages ≡ p.base + pgsize * idx
    pub first : First (used_map p t) 0 page_cnt false idx
    pub taken : RangeSet (used_map p t) idx page_cnt true (used_map p s)
    pub mem :
        s.mem ≡ (if has_flag flags pal_zero then fill (pgsize * page_cnt) t.mem pages 0 else t.mem)

  -- What `palloc_get_multiple` comes to, from a state `t` in which its caller held the lock: a
  -- group, or NULL, and then there is no group of free pages.
  abbrev pub Answer : ℕ → State l → ℕ → State l → Type 0
  Answer me t pages s =
      Inv s
      × (s.current ≡ me)
      × (((idx : ℕ) × Granted t idx pages s)
          ⊎ ((pages ≡ 0)
              × (s.used ≡ t.used)
              × (s.mem ≡ t.mem)
              × ((i : ℕ) → i + page_cnt ≤ p.used_cnt → NoGroup (used_map p t) i page_cnt false)))

  hand_out_null :
      (s : State l) → has_flag flags pal_assert ≡ false → hand_out flags page_cnt 0 s ≡ ok 0 s
  unfolding hand_out
  hand_out_null s quiet = rw quiet

  abbrev zeroed : ℕ → State l → State l
  zeroed pages s = record s {
    mem = if has_flag flags pal_zero then fill (pgsize * page_cnt) s.mem pages 0 else s.mem;
  }

  bytes : page_cnt < 2 ^ 20 → u32 (pgsize * page_cnt) ≡ pgsize * page_cnt
  bytes small = omega arith

  hand_out_page :
      (pages : ℕ) (s : State l)
      → pages ≢ 0
      → page_cnt < 2 ^ 20
      → hand_out flags page_cnt pages s ≡ ok pages (zeroed pages s)
  unfolding hand_out memset
  hand_out_page pages s ne small = elim (Bool-cases (has_flag flags pal_zero)) [
    | inl e ↦ rw (==_ne pages 0 ne, e, bytes small)
    | inr e ↦ rw (==_ne pages 0 ne, e)
  ]

  -- The code between the two calls on the lock, and after them.
  abbrev locked_part : M ℕ
  locked_part = do
    page_idx ← scan_used p page_cnt
    lock_release p.lock
    hand_out flags page_cnt
        (if page_idx == bitmap_error then 0 else u32 (p.base + pgsize * page_idx))

  scan_used-ok :
      (t : State l) (idx : ℕ) (b : Bitmap)
      → bitmap_scan_and_flip (used_map p t) 0 page_cnt false ≡ some (idx, b)
      → scan_used p page_cnt t ≡ ok idx (set_used b.bits t)
  unfolding scan_used
  scan_used-ok t idx b e = rw (e, scan_used)

  granted :
      (t s : State l) (idx : ℕ) (b : Bitmap)
      → p.base + pgsize * p.used_cnt < 2 ^ 32
      → First (used_map p t) 0 page_cnt false idx
      → RangeSet (used_map p t) idx page_cnt true b
      → s.used ≡ b.bits
      → s.mem ≡ t.mem
      → Granted t idx (p.base + pgsize * idx) (zeroed (p.base + pgsize * idx) s)
  granted t s idx b placed f set used mem = record {
    address = refl;
    first = f;
    taken =
        rw used
          (record { size = refl; inside = set.inside; outside = set.outside; words = set.words });
    mem = rw mem refl;
  }

  -- The group is found.
  found_page :
      (me k : ℕ) (h : ℕ → ℕ) (t : State l) (idx : ℕ) (b : Bitmap)
      → Placed
      → Inv t
      → t.current ≡ me
      → t.holder p.lock ≡ me
      → Guarantee me h t.holder
      → bitmap_scan_and_flip (used_map p t) 0 page_cnt false ≡ some (idx, b)
      → First (used_map p t) 0 page_cnt false idx
      → RangeSet (used_map p t) idx page_cnt true b
      → Safe me k h (Answer me t) (locked_part t)
  found_page me k h t idx b placed v c own g e f set =
      let s1 : State l = set_used b.bits t in
      let (s', e2, v', _, _, c', g', w) =
        lock_release_lem p.lock s1 placed.2 (own ∙ sym c)
          (record { lists = v.lists; running = v.running; locks = v.locks }) in
      let rest = Woken-SameRest (in_lock p.lock) (set_holder p.lock 0 s1) s' w in
      let fits : idx + page_cnt ≤ p.used_cnt = f.fits in
      let below = placed.1 in
      let at : u32 (p.base + pgsize * idx) ≡ p.base + pgsize * idx = omega arith in
      let base_ne = placed.0 in
      rw
        (
          scan_used-ok t idx b e,
          ==_ne idx bitmap_error (λ q. omega arith),
          e2,
          at,
          hand_out_page (p.base + pgsize * idx) s' (λ q. base_ne (omega arith)) (omega arith),
        )
        (
          Guarantee-trans me h t.holder s'.holder g
              (subst (λ m. Guarantee m t.holder s'.holder) c g'),
          (
            record { lists = v'.lists; running = v'.running; locks = v'.locks },
            c' ∙ c,
            inl (idx, granted t s' idx b placed.1 f set rest.used rest.mem),
          ),
        )

  locked_part-Safe :
      (me k : ℕ) (h : ℕ → ℕ) (t : State l)
      → Placed
      → has_flag flags pal_assert ≡ false
      → Inv t
      → t.current ≡ me
      → t.holder p.lock ≡ me
      → Guarantee me h t.holder
      → Flipped
          (used_map p t)
          0
          page_cnt
          false
          (bitmap_scan_and_flip (used_map p t) 0 page_cnt false)
      → Safe me k h (Answer me t) (locked_part t)
  locked_part-Safe me k h t placed quiet v c own g (inl (idx, b, e, f, set)) =
      found_page me k h t idx b placed v c own g e f set
  locked_part-Safe me k h t placed quiet v c own g (inr (e, full)) =
      let (s', e2, v', _, _, c', g', w) = lock_release_lem p.lock t placed.2 (own ∙ sym c) v in
      let rest = Woken-SameRest (in_lock p.lock) (set_holder p.lock 0 t) s' w in
      rw (scan_used-ok t bitmap_error (used_map p t) e, e2, hand_out_null s' quiet)
        (
          Guarantee-trans me h t.holder s'.holder g
              (subst (λ m. Guarantee m t.holder s'.holder) c g'),
          (v', c' ∙ c, inr (refl, rest.used, rest.mem, λ i fits. full i (omega arith) fits)),
        )

  -- `palloc_get_multiple` without PAL_ASSERT fails no ASSERT, keeps the invariant wherever it
  -- sleeps for the pool's lock, and returns with the invariant: it has given out the first
  -- group of free pages of a state in which it held the lock, or NULL when there was no group.
  pub palloc_get_multiple-Safe :
      (n fuel : ℕ) (s : State l)
      → n < fuel
      → page_cnt ≢ 0
      → has_flag flags pal_assert ≡ false
      → Placed
      → s.holder p.lock ≢ s.current
      → Inv s
      → Safe s.current n s.holder
          (λ pages s'.
            (t : State l) × Inv t × (t.holder p.lock ≡ s.current) × Answer s.current t pages s')
          (palloc_get_multiple p fuel flags page_cnt s)
  unfolding palloc_get_multiple
  palloc_get_multiple-Safe n fuel s lt some_page quiet placed other v =
      let below = placed.1 in
      rw (==_ne page_cnt 0 some_page) (
        Safe-bind s.current (Acquired p.lock s.current s.holder s.interrupts) _ n s.holder
          (lock_acquire fuel p.lock s) _
          (lock_acquire-Safe n fuel p.lock s.holder s lt placed.2 other
            (Guarantee-refl s.current s.holder) v)
          λ u t k h' le g a.
            Safe-mono s.current (Answer s.current t) _ k h' (locked_part t)
              (locked_part-Safe s.current k h' t placed quiet a.0 a.1 a.2 g (
                bitmap_scan_and_flip_lem (used_map p t) 0 page_cnt false (omega arith)
                  (omega arith)))
              λ pages s' w. (t, a.0, a.2, w))
