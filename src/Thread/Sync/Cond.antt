-- ===== src/Thread/Sync/Cond.antt =====
-- `cond_wait`.
use pithread.Common.{
  ℕ, zero, suc, ◌<◌, ◌≡◌, ◌≢◌, ◌⊎◌, inl, inr, some, [], ◌∷◌, ◌++◌, Bool, has, ==_ne, ==_refl, arith,
  ap, ◌∙◌, sym, subst, if_pos, if_neg,
}
use mathlib.Core.Path.{subst₃}
use pithread.Thread.ListLib.{ListLib}
use pithread.Thread.State.{
  in_lock, in_waiter, ListRef, waiters, ListRef-discrete, State, Res, fault, ready_list, ◌>>◌,
  SemRef,
}
use pithread.Thread.Sched.{set_list}
use pithread.Thread.Inv.{Lists, Inv}
use pithread.Thread.Safe.{Leaves, Safe, Safe-bind, Safe-mono, Guarantee, Keeps, Keeps-trans}
use pithread.Thread.Sync.{
  sem_init, sem_down, set_value, set_holder, set_cond, lock_acquire, cond_wait,
}
use pithread.Thread.Sync.Semaphore.{Taken, taken_state, sem_down-Safe, Woken-SameRest, Woken-values}
use pithread.Thread.Sync.Sleep.{sem_down-Sleeps}
use pithread.Thread.Sync.Lock.{Acquired, lock_acquire-Safe, lock_release_lem}

module _ ⦃l : ListLib⦄ where
  -- A list that starts anew holds nobody.
  pub init-Lists : (r : ListRef) (s : State l) → Lists s → Lists (set_list r l.list_init s)
  init-Lists r s v = record {
    listed = λ q t h. elim (ListRef-discrete q r) [
      | yes e ↦ ground (arith, l.init-elems, ap (has t) l.init-elems)
      | no ne ↦ ground (arith, v.listed q t)
    ];
    nodup = λ q. elim (ListRef-discrete q r) [
      | yes e ↦ rw (if_pos _ e, l.init-elems) tt
      | no ne ↦ rw (if_neg _ ne) (v.nodup q)
    ];
  }

  -- The state in which `cond_wait` gives up the lock: its own semaphore is at 0 and in line.
  abbrev pub lined_up : ℕ → State l → State l
  lined_up cond s =
      let me = s.current in
      let t = set_list (waiters (in_waiter me)) l.list_init (set_value (in_waiter me) 0 s) in
      set_cond cond (l.list_push_back (s.cond_waiters cond) me) t

  lined_up-Inv : (cond : ℕ) (s : State l) → Inv s → Inv (lined_up cond s)
  lined_up-Inv cond s v = record {
    lists = init-Lists (waiters (in_waiter s.current)) s v.lists;
    running = v.running;
    locks = λ k. ground (arith, v.locks k);
  }

  -- The locks of the caller when it has given up the one of the condition.
  abbrev pub without : ℕ → State l → ℕ → ℕ
  without lock s = (set_holder lock 0 s).holder

  taken-Inv : (sem : SemRef) (level : Bool) (s : State l) → Inv s → Inv (taken_state sem level s)
  taken-Inv sem level s v = record {
    lists = v.lists;
    running = v.running;
    locks = λ k. ground (arith, v.locks k);
  }

  -- The last step of `cond_wait`: the lock is taken anew.
  reacquire :
      (n fuel lock : ℕ) (sem : SemRef) (me : ℕ) (own h : ℕ → ℕ) (level : Bool) (s : State l)
      → n < fuel
      → lock ≢ 0
      → own lock ≢ me
      → Inv s
      → s.current ≡ me
      → Keeps me own s.holder
      → Guarantee me h s.holder
      → Safe me n h (Acquired lock me own level) (lock_acquire fuel lock (taken_state sem level s))
  reacquire n fuel lock sem me own h level s lt ne free v c kept g =
      subst (λ m. Safe m n h (Acquired lock m own level) (lock_acquire fuel lock t)) c
        (Safe-mono s.current (Acquired lock s.current s.holder level)
          (Acquired lock s.current own level) n h (lock_acquire fuel lock t)
          (lock_acquire-Safe n fuel lock h t lt ne (λ e. free ((kept lock).1 (e ∙ c)))
            (subst (λ m. Guarantee m h s.holder) (sym c) g) (taken-Inv sem level s v))
          λ u r (p0, p1, p2, p3, p4, (q, q1, q2, q3, q4)). (
            p0,
            p1,
            p2,
            p3,
            p4,
            (
              q,
              q1,
              q2,
              Keeps-trans s.current own s.holder q.holder
                  (subst (λ m. Keeps m own s.holder) (sym c) kept) q3,
              q4,
            ),
          ))
    where
      t : State l
      t = taken_state sem level s

  -- The second half of `cond_wait`, with the lock given up.
  wait_rest :
      (n fuel lock : ℕ) (sem : SemRef) (h : ℕ → ℕ) (s : State l)
      → n < fuel
      → lock ≢ 0
      → s.holder lock ≢ s.current
      → Inv s
      → Guarantee s.current h s.holder
      → Safe s.current n h
          (Acquired lock s.current s.holder s.interrupts)
          ((sem_down fuel sem >> lock_acquire fuel lock) s)
  wait_rest n fuel lock sem h s lt ne free v g =
      Safe-bind s.current (Taken sem s.current s.holder s.interrupts)
        (Acquired lock s.current s.holder s.interrupts) n h (sem_down fuel sem s) _
        (sem_down-Safe n fuel sem h s lt g v)
        λ u t k h' le g' p.
          subst
            (λ r.
              Safe s.current k h' (Acquired lock s.current s.holder s.interrupts)
                (lock_acquire fuel lock r))
            (sym p.5)
            (reacquire k fuel lock sem s.current s.holder h' s.interrupts p.0 (omega arith) ne free
              p.1 p.2 p.4 (subst (λ (r : State l). Guarantee s.current h' r.holder) p.5 g'))

  -- What the second half shows, in the words of the state before the first.
  wait_at :
      (s t : State l) (n fuel lock : ℕ)
      → t.current ≡ s.current
      → t.holder ≡ without lock s
      → t.interrupts ≡ s.interrupts
      → Safe t.current n s.holder
          (Acquired lock t.current t.holder t.interrupts)
          ((sem_down fuel (in_waiter s.current) >> lock_acquire fuel lock) t)
      → Safe s.current n s.holder
          (Acquired lock s.current (without lock s) s.interrupts)
          ((sem_down fuel (in_waiter s.current) >> lock_acquire fuel lock) t)
  wait_at s t n fuel lock c o b p =
      subst₃
        (λ m w i.
          Safe m n s.holder (Acquired lock m w i)
            ((sem_down fuel (in_waiter s.current) >> lock_acquire fuel lock) t))
        c o b p

  cond_wait-Acquired :
      (n fuel cond lock : ℕ) (s : State l)
      → n < fuel
      → cond ≢ 0
      → lock ≢ 0
      → s.holder lock ≡ s.current
      → Inv s
      → Safe s.current n s.holder
          (Acquired lock s.current (without lock s) s.interrupts)
          (cond_wait fuel cond lock s)
  unfolding cond_wait sem_init
  cond_wait-Acquired n fuel cond lock s lt nc nl own v =
      let (t, e, vt, free, _, c, g, w) =
        lock_release_lem lock (lined_up cond s) nl own (lined_up-Inv cond s v) in
      let rest = Woken-SameRest (in_lock lock) (set_holder lock 0 (lined_up cond s)) t w in
      rw (==_ne cond 0 nc, ==_ne lock 0 nl, own, ==_refl s.current, e)
        (wait_at s t n fuel lock c rest.holder rest.interrupts (
          wait_rest n fuel lock (in_waiter s.current) s.holder t lt nl
            (λ q. vt.running.2 (sym q ∙ free)) vt
            (subst (λ m. Guarantee m s.holder t.holder) (sym c) g)))

  -- The call has given the lock back and left its caller last in line for the condition, asleep on
  -- the semaphore that it has there, or it finds no thread ready.
  abbrev pub GivesUp : ℕ → ℕ → State l → Res l (Unit {0}) → Type 0
  GivesUp cond lock s c =
      (c ≡ fault ready_list)
      ⊎ ((s' : State l) × Leaves c s'
          × Inv s'
          × (s'.holder lock ≡ 0)
          × (s'.values (in_lock lock) ≡ 1)
          × (l.elems (s'.cond_waiters cond) ≡ l.elems (s.cond_waiters cond) ++ s.current ∷ [])
          × ((s'.threads s.current).in_list ≡ some (waiters (in_waiter s.current))))

  gives_up :
      (fuel cond lock : ℕ) (s : State l)
      → cond ≢ 0
      → lock ≢ 0
      → s.holder lock ≡ s.current
      → Inv s
      → GivesUp cond lock s (cond_wait (suc fuel) cond lock s)
  unfolding cond_wait sem_init
  gives_up fuel cond lock s nc nl own v =
      let (t, e, vt, free, token, c, g, w) =
        lock_release_lem lock (lined_up cond s) nl own (lined_up-Inv cond s v) in
      let rest = Woken-SameRest (in_lock lock) (set_holder lock 0 (lined_up cond s)) t w in
      let values = Woken-values (in_lock lock) (set_holder lock 0 (lined_up cond s)) t w in
      let zero_value : t.values (in_waiter s.current) ≡ 0 =
        ap (λ f. f (in_waiter s.current)) values ∙ ground arith in
      let line : l.elems (t.cond_waiters cond) ≡ l.elems (s.cond_waiters cond) ++ s.current ∷ [] =
        ap (λ f. l.elems (f cond)) rest.cond_waiters
        ∙ ground (arith, l.push_back-elems (s.cond_waiters cond) s.current) in
      rw (==_ne cond 0 nc, ==_ne lock 0 nl, own, ==_refl s.current, e)
        (elim (sem_down-Sleeps fuel (in_waiter s.current) t (lock_acquire (suc fuel) lock) vt
          zero_value) [
            | inl f ↦ inl f
            | inr (s', f, v', same, on, vals, conds, mem) ↦ inr (
              s',
              f,
              v',
              ap (λ h. h lock) same ∙ free,
              ap (λ h. h (in_lock lock)) vals ∙ token,
              ap (λ h. l.elems (h cond)) conds ∙ line,
              subst (λ m. (s'.threads m).in_list ≡ some (waiters (in_waiter s.current)))
                  rest.current on,
            )
          ])

  -- `cond_wait` by the holder of the lock gives the lock back, puts its caller last in line for
  -- the condition and to sleep on a semaphore of its own, or finds no thread ready. It fails no
  -- ASSERT, keeps the invariant wherever it sleeps, takes no lock from another thread, and returns
  -- only as the holder of the lock, which was free when it got it, with the interrupt level of the
  -- call restored.
  pub cond_wait-Safe :
      (n fuel cond lock : ℕ) (s : State l)
      → n < fuel
      → cond ≢ 0
      → lock ≢ 0
      → s.holder lock ≡ s.current
      → Inv s
      → GivesUp cond lock s (cond_wait fuel cond lock s)
        × Safe s.current n s.holder
            (Acquired lock s.current (without lock s) s.interrupts)
            (cond_wait fuel cond lock s)
  cond_wait-Safe n zero cond lock s lt nc nl own v = absurd (omega arith)
  cond_wait-Safe n (suc fuel) cond lock s lt nc nl own v = (
    gives_up fuel cond lock s nc nl own v,
    cond_wait-Acquired n (suc fuel) cond lock s lt nc nl own v,
  )
