-- ===== src/Thread/Sync/Lock.antt =====
-- `lock_acquire`, `lock_try_acquire` and `lock_release`: mutual exclusion.
use pithread.Common.{
  ℕ, suc, ◌<◌, ◌≡◌, refl, ◌≢◌, ◌⊎◌, inl, inr, Bool, true, false, Bool-cases, ◌==◌, ==_ne, ==_refl,
  arith, sym, subst, some,
}
use pithread.Thread.ListLib.{ListLib}
use pithread.Thread.State.{in_lock, ready_list, waiters, State, ok, fault, failed}
use pithread.Thread.Inv.{IsFree, Locks, Inv, put_state, put-ok, put-Lists}
use pithread.Thread.Safe.{Safe, Safe-bind, Leaves, Guarantee, Keeps}
use pithread.Thread.Sync.{sem_wait, sem_down, set_level, lock_acquire, lock_release, set_holder}
use pithread.Thread.Sync.Sleep.{run-cases}
use pithread.Thread.Sync.Semaphore.{
  at_level, set_level-ok, Taken, taken_state, sem_down-Safe, Woken, Woken-at_level, Woken-SameRest,
  Woken-IsFree, Woken-values, sem_up-Woken, up_state,
}

module _ ⦃l : ListLib⦄ where
  abbrev pub locked_state : ℕ → Bool → State l → State l
  locked_state lock level s =
      at_level level (set_holder lock s.current (taken_state (in_lock lock) false s))

  -- The token of a lock that is free goes to its holder.
  pub locked-Inv :
      (lock : ℕ) (level : Bool) (s : State l)
      → Inv s
      → 0 < s.values (in_lock lock)
      → Inv (locked_state lock level s)
  locked-Inv lock level s v h = record {
    lists = v.lists;
    running = v.running;
    locks = λ k. ground (arith, v.locks k, v.locks lock);
  }

  free_lock : (lock : ℕ) (s : State l) → Inv s → 0 < s.values (in_lock lock) → s.holder lock ≡ 0
  free_lock lock s v h = ground (arith, v.locks lock)

  -- `s` comes from a state with the invariant in which nobody held the lock, by giving it to the
  -- running thread, `me`, which till then held the locks that it held by `own`.
  abbrev pub Acquired : ℕ → ℕ → (ℕ → ℕ) → Bool → Unit {0} → State l → Type 0
  Acquired lock me own level u s =
      Inv s
      × (s.current ≡ me)
      × (s.holder lock ≡ me)
      × (s.values (in_lock lock) ≡ 0)
      × (s.interrupts ≡ level)
      × ((t : State l) × Inv t
          × (t.holder lock ≡ 0)
          × Keeps me own t.holder
          × (s ≡ locked_state lock level t))

  locked-Guarantee :
      (lock : ℕ) (level : Bool) (me : ℕ) (h : ℕ → ℕ) (s : State l)
      → s.current ≡ me
      → s.holder lock ≡ 0
      → Guarantee me h s.holder
      → Guarantee me h (locked_state lock level s).holder
  locked-Guarantee lock level me h s c free g t ne other k = ground (arith, g t ne other k)

  acquired :
      (lock me : ℕ) (own : ℕ → ℕ) (level : Bool) (n : ℕ) (h : ℕ → ℕ) (s t : State l)
      → Inv t
      → t.current ≡ me
      → 0 < t.values (in_lock lock)
      → Keeps me own t.holder
      → s ≡ taken_state (in_lock lock) false t
      → Guarantee me h s.holder
      → Safe me n h (Acquired lock me own level) (set_level level (set_holder lock s.current s))
  acquired lock me own level n h s t v c pos mine e g =
      rw (e, set_level-ok level)
        (
          locked-Guarantee lock level me h t c (free_lock lock t v pos)
              (subst (λ (u : State l). Guarantee me h u.holder) e g),
          (
            locked-Inv lock level t v pos,
            c,
            ground (arith, c),
            ground (arith, v.locks lock),
            refl,
            (t, v, free_lock lock t v pos, mine, refl),
          ),
        )

  -- `lock_acquire` by a thread that does not hold the lock meets no failing ASSERT, keeps the
  -- invariant wherever it sleeps, takes no lock from another thread, and returns only as the
  -- holder of a lock that was free, with the interrupt level of the call restored.
  pub lock_acquire-Safe :
      (n fuel lock : ℕ) (h : ℕ → ℕ) (s : State l)
      → n < fuel
      → lock ≢ 0
      → s.holder lock ≢ s.current
      → Guarantee s.current h s.holder
      → Inv s
      → Safe s.current n h
          (Acquired lock s.current s.holder s.interrupts)
          (lock_acquire fuel lock s)
  unfolding lock_acquire
  lock_acquire-Safe n fuel lock h s lt ne other g v =
      rw (==_ne lock 0 ne, ==_ne (s.holder lock) s.current other)
        (Safe-bind s.current (Taken (in_lock lock) s.current s.holder false)
          (Acquired lock s.current s.holder s.interrupts) n h
          (sem_down fuel (in_lock lock) (at_level false s)) _
          (sem_down-Safe n fuel (in_lock lock) h (at_level false s) lt g
            (record { lists = v.lists; running = v.running; locks = v.locks }))
          λ u t k h' le g' p.
            acquired lock s.current s.holder s.interrupts k h' t p.0 p.1 p.2 p.3 p.4 p.5 g')

  -- A thread that asks for a lock which it holds fails the ASSERT of `lock_acquire`.
  lock_acquire_twice :
      (fuel lock : ℕ) (s : State l) → s.holder lock ≡ s.current → lock_acquire fuel lock s ≡ failed
  unfolding lock_acquire
  lock_acquire_twice fuel lock s h = elim (Bool-cases (lock == 0)) [
    | inl e ↦ rw e
    | inr e ↦ rw (e, h, ==_refl s.current)
  ]

  no_token :
      (lock : ℕ) (s : State l) → Inv s → s.holder lock ≢ 0 → (s.values (in_lock lock) == 0) ≡ true
  no_token lock s v h = ground (arith, v.locks lock)

  -- While another thread holds the lock, a call of `lock_acquire` cannot return before it has
  -- slept: it leaves the holder as it is and switches, or finds no thread ready.
  pub lock_acquire_waits :
      (fuel lock : ℕ) (s : State l)
      → lock ≢ 0
      → Inv s
      → s.holder lock ≢ 0
      → s.holder lock ≢ s.current
      → (lock_acquire (suc fuel) lock s ≡ fault ready_list)
        ⊎ ((s' : State l) × Leaves (lock_acquire (suc fuel) lock s) s'
            × Inv s'
            × (s'.holder ≡ s.holder)
            × ((s'.threads s.current).in_list ≡ some (waiters (in_lock lock))))
  unfolding lock_acquire sem_down sem_wait
  lock_acquire_waits fuel lock s ne v taken other =
      let s1 : State l = put_state s.current (waiters (in_lock lock)) (at_level false s) in
      rw
        (
          ==_ne lock 0 ne,
          ==_ne (s.holder lock) s.current other,
          ==_ne s.current 0 v.running.2,
          no_token lock s v taken,
          sem_wait,
          put-ok s.current (waiters (in_lock lock)) (at_level false s) v.running,
        )
        (elim (run-cases s1
          (put-Lists s.current (waiters (in_lock lock)) (at_level false s) v.running v.lists)
          v.locks) [
            | inl f ↦ inl (rw f)
            | inr (s', f, v', same, on, _, _, _) ↦ inr (
              s',
              rw f refl,
              v',
              same,
              on s.current (waiters (in_lock lock)) (λ e. cc) (ground arith),
            )
          ])

  released_token :
      (lock : ℕ) (s t : State l)
      → Inv s
      → s.holder lock ≡ s.current
      → t.holder ≡ (set_holder lock 0 s).holder
      → t.values ≡ (up_state (in_lock lock) s).values
      → Locks t × (t.holder lock ≡ 0) × (t.values (in_lock lock) ≡ 1)
  released_token lock s t v own h w =
      rw (h, w)
        (
          λ k. ground (arith, v.locks k, v.locks lock, v.running.2),
          ground arith,
          ground (arith, v.locks lock, v.running.2),
        )

  given_back :
      (lock : ℕ) (s : State l)
      → s.holder lock ≡ s.current
      → Guarantee s.current s.holder (set_holder lock 0 s).holder
  given_back lock s own t ne other k = ground arith

  -- The holder gives the lock back: no ASSERT fails, nobody holds it, its one token is in the
  -- semaphore again, the invariant is kept, the locks of
  -- other threads stay theirs, and the first thread that waits for this one is woken.
  pub lock_release_lem :
      (lock : ℕ) (s : State l)
      → lock ≢ 0
      → s.holder lock ≡ s.current
      → Inv s
      → (s' : State l) × (lock_release lock s ≡ ok tt s')
        × Inv s'
        × (s'.holder lock ≡ 0)
        × (s'.values (in_lock lock) ≡ 1)
        × (s'.current ≡ s.current)
        × Guarantee s.current s.holder s'.holder
        × Woken (in_lock lock) (set_holder lock 0 s) s'
  unfolding lock_release
  lock_release_lem lock s ne own v =
      let s0 : State l = at_level false (set_holder lock 0 s) in
      let (s', e, vl, w) = sem_up-Woken (in_lock lock) s0 v.lists in
      let w' = Woken-at_level (in_lock lock) false (set_holder lock 0 s) s' w in
      let t : State l = at_level s.interrupts s' in
      let rest = Woken-SameRest (in_lock lock) (set_holder lock 0 s) t w' in
      let token =
        released_token lock s t v own rest.holder
          (Woken-values (in_lock lock) (set_holder lock 0 s) t w') in
      (
        t,
        rw (==_ne lock 0 ne, own, ==_refl s.current, e, set_level-ok s.interrupts),
        record {
          lists = vl;
          running =
              subst (λ c. IsFree c t) (sym rest.current)
                (Woken-IsFree (in_lock lock) s.current (set_holder lock 0 s) t v.lists v.running
                  w');
          locks = token.0;
        },
        token.1,
        token.2,
        rest.current,
        subst (Guarantee s.current s.holder) (sym rest.holder) (given_back lock s own),
        w',
      )
