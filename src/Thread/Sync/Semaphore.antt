-- ===== src/Thread/Sync/Semaphore.antt =====
-- `sem_down`, `sem_try_down` and `sem_up`.
use pithread.Common.{
  ℕ, zero, suc, ◌+◌, ◌-◌, ◌%◌, ◌^◌, ◌<◌, ◌≡◌, refl, ◌≢◌, ◌⊎◌, inl, inr, Bool, true, false, List, [],
  ◌∷◌, has, List-cases, Bool-cases, ==_ne, ltb, if◌then◌else◌, arith, ap, sym, subst, if_neg,
}
use pithread.Thread.ListLib.{ListLib}
use pithread.Thread.State.{SemRef, in_lock, ready_list, waiters, State, ok}
use pithread.Thread.Inv.{
  Lists, IsFree, Inv, put_state, got_state, put-ok, put-Lists, get-ok, got-IsFree, got-Lists,
}
use pithread.Thread.Safe.{Safe, Safe-bind, Guarantee, Keeps, Keeps-refl}
use pithread.Thread.Sync.{
  sem_wait, sem_down, sem_try_down, sem_up, set_value, interrupts_set_level, interrupts_disable,
}
use pithread.Thread.Sync.Sleep.{Positive, sem_wait-Safe}

module _ ⦃l : ListLib⦄ where
  -- The interrupt level set.
  abbrev pub at_level : Bool → State l → State l
  at_level b s = record s { interrupts = b }

  pub set_level-ok :
      (b : Bool) (s : State l) → interrupts_set_level b s ≡ ok s.interrupts (at_level b s)
  unfolding interrupts_set_level interrupts_disable
  set_level-ok b s = ground arith

  abbrev pub taken_state : SemRef → Bool → State l → State l
  taken_state sem level s = at_level level (set_value sem (s.values sem - 1) s)

  -- `s` comes from a state with the invariant and a positive value, by taking one from it; and
  -- `me` holds the locks that it held by `own`.
  abbrev pub Taken : SemRef → ℕ → (ℕ → ℕ) → Bool → Unit {0} → State l → Type 0
  Taken sem me own level u s =
      (t : State l) × Inv t
      × (t.current ≡ me)
      × (0 < t.values sem)
      × Keeps me own t.holder
      × (s ≡ taken_state sem level t)

  -- Whatever the other threads do, `sem_down` meets no failing ASSERT and pops no empty list of
  -- waiters, keeps the invariant wherever it sleeps, and returns only by taking one from a
  -- positive value, with the interrupt level of the call restored and its thread's locks kept.
  -- The fuel plays no part: any number of switches is covered by more fuel than that.
  pub sem_down-Safe :
      (n fuel : ℕ) (sem : SemRef) (h : ℕ → ℕ) (s : State l)
      → n < fuel
      → Guarantee s.current h s.holder
      → Inv s
      → Safe s.current n h (Taken sem s.current s.holder s.interrupts) (sem_down fuel sem s)
  unfolding sem_down
  sem_down-Safe n fuel sem h s lt g v = rw (==_ne s.current 0 v.running.2) (
      Safe-bind s.current (Positive s.current s.holder sem)
        (Taken sem s.current s.holder s.interrupts) n h (sem_wait fuel sem (at_level false s)) _
        (sem_wait-Safe n fuel sem s.current s.holder h (at_level false s) lt g
          (Keeps-refl s.current s.holder)
          (record { lists = v.lists; running = v.running; locks = v.locks }) refl)
        λ u t k h' le g' p. rw (set_level-ok s.interrupts) (g', (t, p.0.0, p.0.1, p.1, p.2, refl)))

  -- `sem_try_down` never sleeps: it takes one from a positive value and says so, or changes
  -- nothing.
  pub sem_try_down_lem :
      (sem : SemRef) (s : State l)
      → sem_try_down sem s ≡ (
          if ltb 0 (s.values sem) then ok true (set_value sem (s.values sem - 1) s) else ok false s)
  unfolding sem_try_down
  sem_try_down_lem sem s = elim (Bool-cases (ltb 0 (s.values sem))) [
    | inl e ↦ rw (e, set_level-ok s.interrupts)
    | inr e ↦ rw (e, set_level-ok s.interrupts)
  ]

  abbrev pub up_state : SemRef → State l → State l
  up_state sem s = set_value sem ((s.values sem + 1) % 2 ^ 32) s

  -- What `sem_up` does to the state: one more in the value, and the first waiter, if there is
  -- one, goes from the front of the semaphore's list to the back of the ready list.
  abbrev pub Woken : SemRef → State l → State l → Type 0
  Woken sem s s' =
      ((l.elems (s.lists (waiters sem)) ≡ []) × (s' ≡ up_state sem s))
      ⊎ ((t : ℕ) × (ts : List ℕ) × (q : l.T) × (l.elems (s.lists (waiters sem)) ≡ t ∷ ts)
          × (l.elems q ≡ ts)
          × (s' ≡ put_state t ready_list (got_state (waiters sem) t q (up_state sem s))))

  -- `sem_up` fails no ASSERT, adds one to the value modulo 2 ^ 32, and moves the first waiter, if there
  -- is one, from the semaphore's list to the back of the ready list.
  pub sem_up-Woken :
      (sem : SemRef) (s : State l)
      → Lists s
      → (s' : State l) × (sem_up sem s ≡ ok tt s') × Lists s' × Woken sem s s'
  unfolding sem_up
  sem_up-Woken sem s v = elim (List-cases (l.elems (s.lists (waiters sem)))) [
    | inl e ↦ (
      up_state sem s,
      rw (l.empty-elems (s.lists (waiters sem)), e, set_level-ok s.interrupts),
      v,
      inl (e, refl),
    )
    | inr (t, ts, e) ↦
        let s0 : State l = at_level false (up_state sem s) in
        let (q, got, rest) = get-ok t ts (waiters sem) s0 v e in
        (
          put_state t ready_list (got_state (waiters sem) t q (up_state sem s)),
          rw (
            l.empty-elems (s.lists (waiters sem)),
            e,
            got,
            put-ok t ready_list (got_state (waiters sem) t q s0)
                (got-IsFree t ts (waiters sem) q s0 v e),
            set_level-ok s.interrupts,
          ),
          put-Lists t ready_list (got_state (waiters sem) t q (up_state sem s))
              (got-IsFree t ts (waiters sem) q (up_state sem s) v e)
              (got-Lists t ts (waiters sem) q (up_state sem s) v e rest),
          inr (t, ts, q, e, rest, refl),
        )
  ]

  -- The interrupt level plays no part in waking.
  pub Woken-at_level :
      (sem : SemRef) (b : Bool) (s s' : State l)
      → Woken sem (at_level b s) s'
      → Woken sem s (at_level s.interrupts s')
  Woken-at_level sem b s s' (inl (e, p)) = inl (e, ap (at_level s.interrupts) p)
  Woken-at_level sem b s s' (inr (t, ts, q, e, rest, p)) =
      inr (t, ts, q, e, rest, ap (at_level s.interrupts) p)

  -- `sem_up` leaves the rest of the state alone.
  pub record SameRest (s s' : State l) : Type 0 where
    pub root : s'.root ≡ s.root
    pub current : s'.current ≡ s.current
    pub num_thrs : s'.num_thrs ≡ s.num_thrs
    pub holder : s'.holder ≡ s.holder
    pub cond_waiters : s'.cond_waiters ≡ s.cond_waiters
    pub chans : s'.chans ≡ s.chans
    pub sizes : s'.sizes ≡ s.sizes
    pub mem : s'.mem ≡ s.mem
    pub used : s'.used ≡ s.used
    pub freed : s'.freed ≡ s.freed
    pub free_blocks : s'.free_blocks ≡ s.free_blocks
    pub interrupts : s'.interrupts ≡ s.interrupts

  pub Woken-SameRest : (sem : SemRef) (s s' : State l) → Woken sem s s' → SameRest s s'
  Woken-SameRest sem s s' (inl (e, p)) = subst (SameRest s) (sym p) (record {
    root = refl;
    current = refl;
    num_thrs = refl;
    holder = refl;
    cond_waiters = refl;
    chans = refl;
    sizes = refl;
    mem = refl;
    used = refl;
    freed = refl;
    free_blocks = refl;
    interrupts = refl;
  })
  Woken-SameRest sem s s' (inr (t, ts, q, e, rest, p)) = subst (SameRest s) (sym p) (record {
    root = refl;
    current = refl;
    num_thrs = refl;
    holder = refl;
    cond_waiters = refl;
    chans = refl;
    sizes = refl;
    mem = refl;
    used = refl;
    freed = refl;
    free_blocks = refl;
    interrupts = refl;
  })

  pub Woken-values :
      (sem : SemRef) (s s' : State l) → Woken sem s s' → s'.values ≡ (up_state sem s).values
  Woken-values sem s s' (inl (e, p)) = ap (λ (t : State l). t.values) p
  Woken-values sem s s' (inr (t, ts, q, e, rest, p)) = ap (λ (t : State l). t.values) p

  -- A thread that is on no list stays so.
  pub Woken-IsFree :
      (sem : SemRef) (u : ℕ) (s s' : State l) → Lists s → IsFree u s → Woken sem s s' → IsFree u s'
  Woken-IsFree sem u s s' v f (inl (e, p)) = subst (IsFree u) (sym p) f
  Woken-IsFree sem u s s' v f (inr (t, ts, q, e, rest, p)) =
      subst (IsFree u) (sym p) (ground (arith, v.listed (waiters sem) t, ap (has t) e))

  pub at_level-Inv : (b : Bool) (s : State l) → Inv s → Inv (at_level b s)
  at_level-Inv b s v = record { lists = v.lists; running = v.running; locks = v.locks }

  -- A semaphore with a positive value is taken without sleeping.
  pub sem_down_now :
      (fuel : ℕ) (sem : SemRef) (s : State l)
      → s.current ≢ 0
      → 0 < s.values sem
      → sem_down fuel sem s ≡ ok tt (set_value sem (s.values sem - 1) s)
  unfolding sem_down sem_wait
  sem_down_now zero sem s ne pos =
      rw
        (==_ne s.current 0 ne, ==_ne (s.values sem) 0 (λ e. omega arith), set_level-ok s.interrupts)
  sem_down_now (suc fuel) sem s ne pos = rw (
    ==_ne s.current 0 ne,
    ==_ne (s.values sem) 0 (λ e. omega arith),
    sem_wait,
    set_level-ok s.interrupts,
  )

  -- Raising a semaphore that is no lock's keeps the invariant.
  pub Woken-Inv :
      (sem : SemRef) (s s' : State l)
      → ((k : ℕ) → in_lock k ≢ sem)
      → Inv s
      → Lists s'
      → Woken sem s s'
      → Inv s'
  Woken-Inv sem s s' other v vl w =
      let rest = Woken-SameRest sem s s' w in
      record {
        lists = vl;
        running =
            subst (λ c. IsFree c s') (sym rest.current)
              (Woken-IsFree sem s.current s s' v.lists v.running w);
        locks =
            rw (rest.holder, Woken-values sem s s' w) (λ k. rw (if_neg _ (other k)) (v.locks k));
      }
