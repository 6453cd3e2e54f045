-- ===== src/Spin/Locked.antt =====
-- spin_test.c: `safe` against every conduct of the other threads.
use pithread.Common.{
  ℕ, zero, suc, ◌<◌, ◌+◌, ◌^◌, ◌≡◌, ◌≢◌, ◌⊎◌, inl, inr, refl, sym, ap, ◌∙◌, subst, arith,
  ℕ_discrete,
}
use pithread.Thread.ListLib.{ListLib}
use pithread.Thread.State.{in_lock, waiters, State, Res, ok}
use pithread.Thread.Inv.{Inv}
use pithread.Thread.Safe.{Safe, Safe-bind, Guarantee, Guarantee-trans}
use pithread.Thread.Sync.{lock_acquire}
use pithread.Thread.Sync.Lock.{Acquired, lock_acquire-Safe, lock_release_lem}
use pithread.Thread.Sync.Sleep.{Sleeps}
use pithread.Malloc.{load_word}
use pithread.Spin.{bump_cnt, safe_loop, safe}
use pithread.Spin.Count.{bump_lem}
use pithread.Spin.Turn.{bumped, Sleeps-bind, lock_acquire-Sleeps, round_lem}

module _ ⦃l : ListLib⦄ where
  -- The thread `me` runs, in a state with the invariant, and does not hold the lock.
  abbrev pub Outside : ℕ → ℕ → Unit {0} → State l → Type 0
  Outside lock me u s = Inv s × (s.current ≡ me) × (s.holder lock ≢ me)

  abbrev pub Returns : ℕ → ℕ → ℕ → State l → Type 0
  Returns lock me code s = (code ≡ 0) × Inv s × (s.current ≡ me) × (s.holder lock ≢ me)

  safe_loop-Safe :
      (left n fuel lock ip me : ℕ) (h : ℕ → ℕ) (s : State l)
      → n < fuel
      → lock ≢ 0
      → Outside lock me tt s
      → Guarantee me h s.holder
      → Safe me n h (Outside lock me) (safe_loop left fuel lock ip s)
  unfolding safe_loop
  safe_loop-Safe zero n fuel lock ip me h s lt nl out g = (g, out)
  safe_loop-Safe (suc left) n fuel lock ip me h s lt nl (v, c, other) g =
      Safe-bind me (Acquired lock me s.holder s.interrupts) (Outside lock me) n h
        (lock_acquire fuel lock s) _
        (subst (λ m. Safe m n h (Acquired lock m s.holder s.interrupts) (lock_acquire fuel lock s))
          c
          (lock_acquire-Safe n fuel lock h s lt nl (λ e. other (e ∙ c))
            (subst (λ m. Guarantee m h s.holder) (sym c) g) v))
        λ u t k h' le g' p.
          let (vt, ct, own, _, _, _) = p in
          let (t2, e, v2, free, _, c2, g2, _) =
            lock_release_lem lock (bumped ip t) nl (own ∙ sym ct)
              (record { lists = vt.lists; running = vt.running; locks = vt.locks }) in
          rw e (
            safe_loop-Safe left k fuel lock ip me h' t2 (omega arith) nl
              (v2, c2 ∙ ct, λ q. vt.running.2 (ct ∙ sym q ∙ free))
              (Guarantee-trans me h' t.holder t2.holder g'
                (subst (λ m. Guarantee m t.holder t2.holder) ct g2)))

  safe-Returns :
      (n fuel lock ip me : ℕ) (h : ℕ → ℕ) (s : State l)
      → n < fuel
      → lock ≢ 0
      → Outside lock me tt s
      → Guarantee me h s.holder
      → Safe me n h (Returns lock me) (safe fuel lock ip s)
  unfolding safe
  safe-Returns n fuel lock ip me h s lt nl out g =
      Safe-bind me (Outside lock me) (Returns lock me) n h (safe_loop bump_cnt fuel lock ip s) _
        (safe_loop-Safe bump_cnt n fuel lock ip me h s lt nl out g)
        λ u t k h' le g' p. (g', (refl, p.0, p.1, p.2))

  -- The loop with the lock free counts all its rounds at once.
  record Counts (left lock ip : ℕ) (s s' : State l) : Type 0 where
    holder : s'.holder lock ≡ 0
    value : s'.values (in_lock lock) ≡ 1
    count : load_word s'.mem ip ≡ load_word s.mem ip + left

  safe_loop-Counts :
      (left fuel lock ip : ℕ) (s : State l)
      → lock ≢ 0
      → Inv s
      → s.holder lock ≡ 0
      → s.values (in_lock lock) ≡ 1
      → load_word s.mem ip + left < 2 ^ 32
      → (s' : State l) × (safe_loop left fuel lock ip s ≡ ok tt s') × Counts left lock ip s s'
  unfolding safe_loop
  safe_loop-Counts zero fuel lock ip s nl v free one lt =
      (s, refl, record { holder = free; value = one; count = omega arith })
  safe_loop-Counts (suc left) fuel lock ip s nl v free one lt =
      let (t, s1, e1, e2, r) = round_lem fuel lock ip s nl v free one in
      let higher : load_word s1.mem ip ≡ load_word s.mem ip + 1 =
        ap (λ m. load_word m ip) r.mem ∙ bump_lem ip s.mem (omega arith) in
      let (s', e, c) =
        safe_loop-Counts left fuel lock ip s1 nl r.inv r.holder r.value
          (subst (λ x. x + left < 2 ^ 32) (sym higher) (omega arith)) in
      (
        s',
        rw (e1, e2) e,
        record {
          holder = c.holder;
          value = c.value;
          count = c.count ∙ ap (λ x. x + left) higher ∙ omega arith;
        },
      )

  -- What `safe` does first, as it finds the semaphore of the lock: it waits for the lock, with
  -- memory as it was, or it counts to the end and leaves the lock free, with no other thread in between.
  abbrev pub Turn : ℕ → ℕ → State l → Res l ℕ → Type 0
  Turn lock ip s c =
      ((s.values (in_lock lock) ≡ 0) × Sleeps (waiters (in_lock lock)) s.current s c)
      ⊎ ((s.values (in_lock lock) ≡ 1)
          × ((s' : State l) × (c ≡ ok 0 s')
              × (s'.holder lock ≡ 0)
              × (s'.values (in_lock lock) ≡ 1)
              × (load_word s'.mem ip ≡ load_word s.mem ip + 30000)))

  waits :
      (fuel lock ip : ℕ) (s : State l)
      → lock ≢ 0
      → Inv s
      → s.holder lock ≢ s.current
      → s.values (in_lock lock) ≡ 0
      → Sleeps (waiters (in_lock lock)) s.current s (safe (suc fuel) lock ip s)
  unfolding safe safe_loop
  waits fuel lock ip s nl v other taken =
      Sleeps-bind (waiters (in_lock lock)) s.current s _ _
        (lock_acquire-Sleeps fuel lock s _ nl v taken other)

  counts :
      (fuel lock ip : ℕ) (s : State l)
      → lock ≢ 0
      → Inv s
      → s.holder lock ≡ 0
      → s.values (in_lock lock) ≡ 1
      → load_word s.mem ip + 30000 < 2 ^ 32
      → (s' : State l) × (safe fuel lock ip s ≡ ok 0 s') × Counts 30000 lock ip s s'
  unfolding safe
  counts fuel lock ip s nl v free one small =
      let (s', e, c) = safe_loop-Counts bump_cnt fuel lock ip s nl v free one small in (s', rw e, c)

  turn :
      (fuel lock ip : ℕ) (s : State l)
      → lock ≢ 0
      → Inv s
      → s.holder lock ≢ s.current
      → load_word s.mem ip + 30000 < 2 ^ 32
      → Turn lock ip s (safe (suc fuel) lock ip s)
  turn fuel lock ip s nl v other small = elim (ℕ_discrete (s.values (in_lock lock)) 0) [
    | yes taken ↦ inl (taken, waits fuel lock ip s nl v other taken)
    | no token ↦
        let one : s.values (in_lock lock) ≡ 1 = let k = v.locks lock in omega arith in
        let free : s.holder lock ≡ 0 = ground (arith, v.locks lock) in
        let (s', e, c) = counts (suc fuel) lock ip s nl v free one small in
        inr (one, (s', e, c.holder, c.value, c.count))
  ]

  -- A thread that does not hold the lock and runs `safe` waits, with memory as it was, on the list
  -- of the lock when that has no token, unless it finds no thread ready. When the lock has its token
  -- and the counter stays below 2^32, it returns 0 at once, with the counter 30000 higher and the lock free.
  -- With more fuel than the switches looked at it fails no ASSERT, keeps the invariant wherever it
  -- sleeps, takes no lock from another thread, and returns 0 without the lock.
  pub safe-Safe :
      (n fuel lock ip me : ℕ) (h : ℕ → ℕ) (s : State l)
      → n < fuel
      → lock ≢ 0
      → Outside lock me tt s
      → Guarantee me h s.holder
      → load_word s.mem ip + 30000 < 2 ^ 32
      → Turn lock ip s (safe fuel lock ip s) × Safe me n h (Returns lock me) (safe fuel lock ip s)
  safe-Safe n zero lock ip me h s lt nl out g small = absurd (omega arith)
  safe-Safe n (suc fuel) lock ip me h s lt nl out g small = (
    turn fuel lock ip s nl out.0 (λ e. out.2 (e ∙ out.1)) small,
    safe-Returns n (suc fuel) lock ip me h s lt nl out g,
  )
