-- ===== src/Thread/Sync/Sleep.antt =====
-- Sleeping and waking: `run` and `put`, and the loop of `sem_down`.
use pithread.Common.{
  ℕ, zero, suc, false, ◌<◌, ◌≡◌, refl, ◌≢◌, ◌⊎◌, inl, inr, has, some, List-cases, Bool-cases, ◌==◌,
  ==_ne, arith, ap, subst, sym,
}
use pithread.Thread.ListLib.{ListLib}
use pithread.Thread.State.{
  SemRef, ListRef, ready_list, waiters, State, ok, switched, fault, M, ◌>>◌, Res,
}
use pithread.Thread.Sched.{put, run, swtch}
use pithread.Thread.Inv.{
  Lists, Locks, Inv, put_state, got_state, put-ok, put-Lists, get-ok, get-nil, got-IsFree,
  got-Lists,
}
use pithread.Thread.Safe.{Leaves, Safe, Guarantee, Guarantee-refl, Keeps, Keeps-trans}
use pithread.Thread.Sync.{sem_wait, sem_down}

module _ ⦃l : ListLib⦄ where
  -- What a thread knows when it runs again.
  abbrev pub Back : ℕ → {A : Type 0} → A → State l → Type 0
  Back me _ s = Inv s × (s.current ≡ me)

  swtch-Safe :
      (me n : ℕ) (h : ℕ → ℕ) (s : State l)
      → Guarantee me h s.holder
      → Inv s
      → Safe me n h (Back me) (swtch s)
  swtch-Safe me zero h s g v = (g, v)
  swtch-Safe me (suc n) h s g v = (g, v, λ s' v' c kept. (Guarantee-refl me s'.holder, (v', c)))

  -- `run` switches to the first thread that is ready, which may run.
  pub run-cases :
      (s : State l)
      → Lists s
      → Locks s
      → (run s ≡ fault ready_list)
        ⊎ ((s' : State l) × (run s ≡ switched s' (ok tt))
            × Inv s'
            × (s'.holder ≡ s.holder)
            × ((u : ℕ) (r : ListRef)
                → r ≢ ready_list
                → (s.threads u).in_list ≡ some r
                → (s'.threads u).in_list ≡ some r)
            × (s'.values ≡ s.values)
            × (s'.cond_waiters ≡ s.cond_waiters)
            × (s'.mem ≡ s.mem))
  unfolding run
  run-cases s v k = elim (List-cases (l.elems (s.lists ready_list))) [
    | inl e ↦ inl (rw (get-nil ready_list s e))
    | inr (t, ts, e) ↦
        let (q, got, rest) = get-ok t ts ready_list s v e in
        inr (
          record (got_state ready_list t q s) { current = t },
          rw got,
          record {
            lists = got-Lists t ts ready_list q s v e rest;
            running = got-IsFree t ts ready_list q s v e;
            locks = k;
          },
          refl,
          λ u r ne on. ground (arith, v.listed ready_list t, ap (has t) e),
          refl,
          refl,
          refl,
        )
  ]

  -- The call leaves its caller asleep on list `r`, with memory, the locks, the values and the lines of
  -- the conditions as in `t`, or finds no thread ready.
  abbrev pub Sleeps : {A : Type 0} → ListRef → ℕ → State l → Res l A → Type 0
  Sleeps r me t c =
      (c ≡ fault ready_list)
      ⊎ ((s' : State l) × Leaves c s'
          × Inv s'
          × (s'.holder ≡ t.holder)
          × ((s'.threads me).in_list ≡ some r)
          × (s'.values ≡ t.values)
          × (s'.cond_waiters ≡ t.cond_waiters)
          × (s'.mem ≡ t.mem))

  -- A semaphore at 0 puts the caller to sleep.
  pub sem_down-Sleeps :
      {B : Type 0} (fuel : ℕ) (sem : SemRef) (s : State l) (k : M B)
      → Inv s
      → s.values sem ≡ 0
      → Sleeps (waiters sem) s.current s ((sem_down (suc fuel) sem >> k) s)
  unfolding sem_down sem_wait
  sem_down-Sleeps fuel sem s k v e =
      let s0 : State l = record s { interrupts = false } in
      rw (==_ne s.current 0 v.running.2, e, sem_wait, put-ok s.current (waiters sem) s0 v.running)
        (elim (run-cases (put_state s.current (waiters sem) s0)
          (put-Lists s.current (waiters sem) s0 v.running v.lists) v.locks) [
            | inl f ↦ inl (rw f)
            | inr (s', f, v', same, on, values, conds, mem) ↦ inr (
              s',
              rw f refl,
              v',
              same,
              on s.current (waiters sem) (λ q. cc) (ground arith),
              values,
              conds,
              mem,
            )
          ])

  pub run-Safe :
      (me n : ℕ) (h : ℕ → ℕ) (s : State l)
      → Guarantee me h s.holder
      → Lists s
      → Locks s
      → Safe me n h (Back me) (run s)
  run-Safe me n h s g v k = elim (run-cases s v k) [
    | inl e ↦ rw e refl
    | inr (s', e, v', same, _, _, _, _) ↦
        rw e (swtch-Safe me n h s' (subst (Guarantee me h) (sym same) g) v')
  ]

  -- Going to sleep on a list.
  pub sleep-Safe :
      (n : ℕ) (h : ℕ → ℕ) (r : ListRef) (s : State l)
      → Guarantee s.current h s.holder
      → Inv s
      → Safe s.current n h (Back s.current) ((put s.current r >> run) s)
  sleep-Safe n h r s g v = rw (put-ok s.current r s v.running) (
      run-Safe s.current n h (put_state s.current r s) g (put-Lists s.current r s v.running v.lists)
        v.locks)

  -- The loop of `sem_down` ends with a positive value, however often it is woken in vain, and
  -- meanwhile the thread has lost none of its locks, `own`, and got no other.
  abbrev pub Positive : ℕ → (ℕ → ℕ) → SemRef → Unit {0} → State l → Type 0
  Positive me own sem u s = Back me u s × (0 < s.values sem) × Keeps me own s.holder

  asleep-Safe :
      (n : ℕ) (sem : SemRef) (me : ℕ) (own h : ℕ → ℕ) (s : State l) (k : M (Unit {0}))
      → Guarantee me h s.holder
      → Inv s
      → ((m : ℕ)
          → m < n
          → (s' : State l) → Inv s'
          → s'.current ≡ me
          → Keeps me s.holder s'.holder
          → Safe me m s'.holder (Positive me own sem) (k s'))
      → Safe me n h (Positive me own sem) (switched s k)
  asleep-Safe zero sem me own h s k g v next = (g, v)
  asleep-Safe (suc n) sem me own h s k g v next =
      (g, v, λ s' v' c kept. next n (omega arith) s' v' c kept)

  pub sem_wait-Safe :
      (n fuel : ℕ) (sem : SemRef) (me : ℕ) (own h : ℕ → ℕ) (s : State l)
      → n < fuel
      → Guarantee me h s.holder
      → Keeps me own s.holder
      → Inv s
      → s.current ≡ me
      → Safe me n h (Positive me own sem) (sem_wait fuel sem s)
  unfolding sem_wait
  sem_wait-Safe n zero sem me own h s lt g mine v c = absurd (omega arith)
  sem_wait-Safe n (suc fuel) sem me own h s lt g mine v c = elim (Bool-cases (s.values sem == 0)) [
    | inl e ↦
        rw (e, sem_wait, put-ok s.current (waiters sem) s v.running)
          (elim (run-cases (put_state s.current (waiters sem) s)
            (put-Lists s.current (waiters sem) s v.running v.lists) v.locks) [
              | inl f ↦ rw f refl
              | inr (s', f, v', same, _, _, _, _) ↦ rw f (
                  asleep-Safe n sem me own h s' (sem_wait fuel sem)
                    (subst (Guarantee me h) (sym same) g) v'
                    λ m d t w b kept.
                      sem_wait-Safe m fuel sem me own t.holder t (omega arith)
                        (Guarantee-refl me t.holder)
                        (Keeps-trans me own s'.holder t.holder
                          (subst (Keeps me own) (sym same) mine) kept)
                        w b)
            ])
    | inr e ↦ rw (e, sem_wait) (g, ((v, c), ground arith, mine))
  ]
