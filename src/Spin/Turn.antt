-- ===== src/Spin/Turn.antt =====
-- spin_test.c: one round of `safe`, with the lock taken and with the lock free.
use pithread.Common.{ℕ, suc, ◌<◌, ◌≡◌, ◌≢◌, inl, inr, ◌∙◌, sym, false, ==_ne, arith}
use pithread.Spin.{bump}
use pithread.Thread.ListLib.{ListLib}
use pithread.Thread.State.{
  in_lock, ListRef, waiters, State, Res, ok, switched, failed, fault, halted, out_of_fuel, M,
  and_then, ◌>>◌,
}
use pithread.Thread.Inv.{Inv}
use pithread.Thread.Safe.{Leaves}
use pithread.Thread.Sync.{lock_acquire, lock_release, set_holder}
use pithread.Thread.Sync.Sleep.{Sleeps, sem_down-Sleeps}
use pithread.Thread.Sync.Semaphore.{
  at_level, set_level-ok, at_level-Inv, sem_down_now, Woken-SameRest,
}
use pithread.Thread.Sync.Lock.{locked_state, locked-Inv, lock_release_lem}

module _ ⦃l : ListLib⦄ where
  Leaves-bind :
      {A B : Type 0} (c : Res l A) (f : A → M B) (t : State l)
      → Leaves c t
      → Leaves (and_then c f) t
  Leaves-bind (switched s k) f t h = h
  Leaves-bind (ok a s) f t h = absurd h
  Leaves-bind failed f t h = absurd h
  Leaves-bind (fault r) f t h = absurd h
  Leaves-bind (halted s) f t h = absurd h
  Leaves-bind out_of_fuel f t h = absurd h

  pub Sleeps-bind :
      {A B : Type 0} (r : ListRef) (me : ℕ) (t : State l) (c : Res l A) (f : A → M B)
      → Sleeps r me t c
      → Sleeps r me t (and_then c f)
  Sleeps-bind r me t c f (inl e) = inl (rw e)
  Sleeps-bind r me t c f (inr (s', h, v, holder, on, values, conds, mem)) =
      inr (s', Leaves-bind c f s' h, v, holder, on, values, conds, mem)

  -- A lock that is taken puts the caller to sleep.
  pub lock_acquire-Sleeps :
      {B : Type 0} (fuel lock : ℕ) (s : State l) (k : M B)
      → lock ≢ 0
      → Inv s
      → s.values (in_lock lock) ≡ 0
      → s.holder lock ≢ s.current
      → Sleeps (waiters (in_lock lock)) s.current s ((lock_acquire (suc fuel) lock >> k) s)
  unfolding lock_acquire
  lock_acquire-Sleeps fuel lock s k ne v taken other =
      rw (==_ne lock 0 ne, ==_ne (s.holder lock) s.current other)
        (Sleeps-bind (waiters (in_lock lock)) s.current s _ _
          (sem_down-Sleeps fuel (in_lock lock) (at_level false s) _ (at_level-Inv false s v) taken))

  abbrev pub bumped : ℕ → State l → State l
  bumped ip s = record s { mem = bump ip s.mem }

  lock_acquire_now :
      (fuel lock : ℕ) (s : State l)
      → lock ≢ 0
      → Inv s
      → s.holder lock ≢ s.current
      → 0 < s.values (in_lock lock)
      → lock_acquire fuel lock s ≡ ok tt (locked_state lock s.interrupts s)
  unfolding lock_acquire
  lock_acquire_now fuel lock s ne v other pos = rw (
    ==_ne lock 0 ne,
    ==_ne (s.holder lock) s.current other,
    sem_down_now fuel (in_lock lock) (at_level false s) v.running.2 pos,
    set_level-ok s.interrupts,
  )

  -- One round with the lock free: the counter is one higher, and the lock is free again.
  pub record Round (lock ip : ℕ) (s s' : State l) : Type 0 where
    pub inv : Inv s'
    pub current : s'.current ≡ s.current
    pub holder : s'.holder lock ≡ 0
    pub value : s'.values (in_lock lock) ≡ 1
    pub mem : s'.mem ≡ bump ip s.mem

  -- It takes the lock to `t` and gives it back at `s'`, and nobody else gets the processor.
  pub round_lem :
      (fuel lock ip : ℕ) (s : State l)
      → lock ≢ 0
      → Inv s
      → s.holder lock ≡ 0
      → s.values (in_lock lock) ≡ 1
      → (t s' : State l) × (lock_acquire fuel lock s ≡ ok tt t)
        × (lock_release lock (bumped ip t) ≡ ok tt s')
        × Round lock ip s s'
  round_lem fuel lock ip s ne v free one =
      let other : s.holder lock ≢ s.current = λ e. v.running.2 (sym e ∙ free) in
      let t = locked_state lock s.interrupts s in
      let vt = locked-Inv lock s.interrupts s v (omega arith) in
      let (s', e, v', free', one', c, _, w) =
        lock_release_lem lock (bumped ip t) ne (ground arith)
          (record { lists = vt.lists; running = vt.running; locks = vt.locks }) in
      let rest = Woken-SameRest (in_lock lock) (set_holder lock 0 (bumped ip t)) s' w in
      (
        t,
        s',
        lock_acquire_now fuel lock s ne v other (omega arith),
        e,
        record { inv = v'; current = c; holder = free'; value = one'; mem = rest.mem },
      )
