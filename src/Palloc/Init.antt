-- ===== src/Palloc/Init.antt =====
-- `init_pool`, with `bitmap_create_in_buf`.
use pithread.Common.{
  ℕ, ℕ_discrete, ◌+◌, ◌-◌, ◌*◌, ◌/◌, ◌^◌, ◌≤◌, ◌<◌, ◌≡◌, ◌≢◌, refl, false, some, arith, ==_ne,
  leb-true,
}
use pithread.Round.{u32, div_round_up}
use pithread.Bitmap.{
  Bitmap, elem_cnt, byte_cnt, bitmap_buf_size, bitmap_create_in_buf, bitmap_set_all,
}
use pithread.Bitmap.Ranges.{bitmap_set_multiple_lem}
use pithread.Bitmap.Scan.{Group}
use pithread.Thread.ListLib.{ListLib}
use pithread.Thread.State.{State, ok, in_lock, waiters, update_self, SemRef-discrete}
use pithread.Palloc.{PoolVars, pgsize, used_map, set_used, make_map, init_pool}
use pithread.Thread.Sync.{lock_init, sem_init, set_holder, set_value}
use pithread.Thread.Sched.{set_list}

-- The size of a map for the pages of a 32-bit address space.
buf_size : (n : ℕ) → n ≤ 2 ^ 20 → bitmap_buf_size n ≡ 8 + 4 * ((n + 31) / 32)
unfolding bitmap_buf_size byte_cnt elem_cnt div_round_up
buf_size n le = omega arith

-- A bitmap of that size is made in a buffer that is large enough, and all its bits are clear.
pub bitmap_create_in_buf_lem :
    (n block_size : ℕ) (bits : ℕ → ℕ)
    → n < 2 ^ 32
    → bitmap_buf_size n ≤ block_size
    → (b : Bitmap) × (bitmap_create_in_buf n bits block_size ≡ some b)
      × (b.bit_cnt ≡ n)
      × Group b 0 n false
unfolding bitmap_create_in_buf bitmap_set_all
bitmap_create_in_buf_lem n block_size bits lt room =
    let (b, e, r) =
      bitmap_set_multiple_lem (record { bit_cnt = n; bits = bits }) 0 n false lt (omega arith) in
    (b, rw (leb-true (bitmap_buf_size n) block_size room) e, r.size, r.inside)

-- The pages that `init_pool` keeps for the map.
abbrev pub map_pages : ℕ → ℕ
map_pages page_cnt = div_round_up (bitmap_buf_size page_cnt) pgsize

map_fits : (n : ℕ) → n ≤ 2 ^ 20 → bitmap_buf_size n ≤ map_pages n * pgsize
unfolding div_round_up
map_fits n le = let e = buf_size n le in omega arith

buf_size_mono : (m n : ℕ) → m ≤ n → n ≤ 2 ^ 20 → bitmap_buf_size m ≤ bitmap_buf_size n
buf_size_mono m n h le = let e = buf_size n le in let d = buf_size m (omega arith) in omega arith

module _ ⦃l : ListLib⦄ where
  -- A lock that nobody holds or waits for.
  abbrev fresh : ℕ → State l → State l
  fresh lock s =
      set_list (waiters (in_lock lock)) l.list_init
        (set_value (in_lock lock) 1 (set_holder lock 0 s))

  lock_init-ok : (lock : ℕ) (s : State l) → lock ≢ 0 → lock_init lock s ≡ ok tt (fresh lock s)
  unfolding lock_init sem_init
  lock_init-ok lock s ne = rw (==_ne lock 0 ne)

  make_map-ok :
      (lock base left map_bytes : ℕ) (b : Bitmap) (s : State l)
      → bitmap_create_in_buf left s.used map_bytes ≡ some b
      → base + map_bytes < 2 ^ 32
      → make_map lock base left map_bytes s
        ≡ ok (record { lock = lock; used_cnt = left; base = base + map_bytes }) (set_used b.bits s)
  unfolding make_map
  make_map-ok lock base left map_bytes b s e lt =
      let q : u32 (base + map_bytes) ≡ base + map_bytes = omega arith in rw (e, make_map, q)

  init_pool_made :
      (lock base page_cnt : ℕ) (b : Bitmap) (s : State l)
      → lock ≢ 0
      → map_pages page_cnt ≤ page_cnt
      → base + pgsize * page_cnt < 2 ^ 32
      → bitmap_create_in_buf (page_cnt - map_pages page_cnt) s.used (map_pages page_cnt * pgsize)
        ≡ some b
      → let pages = map_pages page_cnt in
        init_pool lock base page_cnt s
        ≡ ok
            (record { lock = lock; used_cnt = page_cnt - pages; base = base + pages * pgsize })
            (set_used b.bits (fresh lock s))
  unfolding init_pool
  init_pool_made lock base page_cnt b s nl room below e =
      let pages = map_pages page_cnt in
      let kept : u32 (pages * pgsize) ≡ pages * pgsize = omega arith in
      rw (leb-true pages page_cnt room, lock_init-ok lock s nl, kept)
        (make_map-ok lock base (page_cnt - pages) (pages * pgsize) b (fresh lock s) e (omega arith))

  -- With room for the map of its pages, `init_pool` fails no ASSERT: the map lies in the pages
  -- that it keeps for it, the pool is made of the others, all of them free, and ends where the
  -- memory ends, and its lock is free.
  pub init_pool_lem :
      (lock base page_cnt : ℕ) (s : State l)
      → lock ≢ 0
      → page_cnt ≤ 2 ^ 20
      → base + pgsize * page_cnt < 2 ^ 32
      → map_pages page_cnt ≤ page_cnt
      → (p : PoolVars) × (s' : State l) × (init_pool lock base page_cnt s ≡ ok p s')
        × (p.lock ≡ lock)
        × (p.base + pgsize * p.used_cnt ≡ base + pgsize * page_cnt)
        × (base + bitmap_buf_size p.used_cnt ≤ p.base)
        × Group (used_map p s') 0 p.used_cnt false
        × (s'.holder lock ≡ 0)
        × (s'.values (in_lock lock) ≡ 1)
  init_pool_lem lock base page_cnt s nl le below room =
      let pages = map_pages page_cnt in
      let left = page_cnt - pages in
      let big = map_fits page_cnt le in
      let small = buf_size_mono left page_cnt (omega arith) le in
      let covered : bitmap_buf_size left ≤ pages * pgsize = omega arith in
      let (b, e, size, free) =
        bitmap_create_in_buf_lem left (pages * pgsize) s.used (omega arith) covered in
      (
        record { lock = lock; used_cnt = left; base = base + pages * pgsize },
        set_used b.bits (fresh lock s),
        init_pool_made lock base page_cnt b s nl room below e,
        refl,
        omega arith,
        omega arith,
        free,
        update_self ℕ_discrete s.holder lock 0,
        update_self SemRef-discrete s.values (in_lock lock) 1,
      )
