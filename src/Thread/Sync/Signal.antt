-- ===== src/Thread/Sync/Signal.antt =====
-- `cond_signal` and `cond_broadcast`.
use pithread.Common.{
  ℕ, ◌+◌, ◌%◌, ◌^◌, ◌≡◌, refl, ◌≢◌, ◌⊎◌, inl, inr, List, [], ◌∷◌, List-cases, ==_ne, ==_refl, ap,
  ◌∙◌, sym, if_pos, length, subst,
}
use pithread.Thread.ListLib.{ListLib}
use pithread.Thread.State.{in_waiter, State, ok, SemRef, SemRef-discrete, update}
use pithread.Thread.Inv.{Inv}
use pithread.Thread.Sync.{set_cond, cond_signal, cond_broadcast, broadcast_loop}
use pithread.Thread.Sync.Semaphore.{Woken, Woken-SameRest, sem_up-Woken, Woken-Inv, Woken-values}

-- The values of the semaphores when those of the waiters were raised one after the other.
pub raise_all : List ℕ → (SemRef → ℕ) → SemRef → ℕ
raise_all [] values = values
raise_all (e ∷ es) values =
    raise_all es (update SemRef-discrete values (in_waiter e) ((values (in_waiter e) + 1) % 2 ^ 32))

module _ ⦃l : ListLib⦄ where
  -- A signal: the semaphore of the first waiter is raised.
  abbrev pub Signalled : ℕ → State l → State l → Type 0
  Signalled cond s s' =
      ((l.elems (s.cond_waiters cond) ≡ []) × (s' ≡ s))
      ⊎ ((e : ℕ) × (es : List ℕ) × (q : l.T) × (l.elems (s.cond_waiters cond) ≡ e ∷ es)
          × (l.elems q ≡ es)
          × Woken (in_waiter e) (set_cond cond q s) s')

  -- `cond_signal` by the holder of the lock takes the first waiter off the condition's list, if it
  -- has one, and raises that waiter's semaphore; without a waiter it changes nothing. The
  -- invariant is kept.
  pub cond_signal_lem :
      (cond lock : ℕ) (s : State l)
      → cond ≢ 0
      → lock ≢ 0
      → s.holder lock ≡ s.current
      → Inv s
      → (s' : State l) × (cond_signal cond lock s ≡ ok tt s') × Inv s' × Signalled cond s s'
  unfolding cond_signal
  cond_signal_lem cond lock s nc nl own v = elim (List-cases (l.elems (s.cond_waiters cond))) [
    | inl e ↦ (
      s,
      rw (
        ==_ne cond 0 nc,
        ==_ne lock 0 nl,
        own,
        ==_refl s.current,
        l.empty-elems (s.cond_waiters cond),
        e,
      ),
      v,
      inl (e, refl),
    )
    | inr (x, es, e) ↦
        let (q, popped, rest) = l.pop_front-cons (s.cond_waiters cond) x es e in
        let (s', up, vl, w) = sem_up-Woken (in_waiter x) (set_cond cond q s) v.lists in
        (
          s',
          rw
              (
                ==_ne cond 0 nc,
                ==_ne lock 0 nl,
                own,
                ==_refl s.current,
                l.empty-elems (s.cond_waiters cond),
                e,
                popped,
                cond_signal,
              )
              up,
          Woken-Inv (in_waiter x) (set_cond cond q s) s' (λ k e. cc)
              (record { lists = v.lists; running = v.running; locks = v.locks }) vl w,
          inr (x, es, q, e, rest, w),
        )
  ]

  -- The waiters are signalled one after the other, each by the rise of its semaphore, which moves the first
  -- thread that sleeps on it to the back of the ready list.
  abbrev pub InOrder : ℕ → List ℕ → State l → State l → Type 0
  InOrder cond [] s s' = s' ≡ s
  InOrder cond (e ∷ es) s s' =
      (q : l.T) × (t : State l) × (l.elems q ≡ es)
      × Woken (in_waiter e) (set_cond cond q s) t
      × InOrder cond es t s'

  -- What a broadcast to the waiters `es` makes of the state.
  pub record Broadcast (cond : ℕ) (es : List ℕ) (s s' : State l) : Type 0 where
    pub inv : Inv s'
    pub emptied : l.elems (s'.cond_waiters cond) ≡ []
    pub in_order : InOrder cond es s s'
    pub raised : s'.values ≡ raise_all es s.values
    pub holder : s'.holder ≡ s.holder
    pub current : s'.current ≡ s.current
    pub interrupts : s'.interrupts ≡ s.interrupts

  -- One signal, when the first waiter is known.
  record OneSignal (cond x : ℕ) (es : List ℕ) (s t : State l) : Type 0 where
    left : l.elems (t.cond_waiters cond) ≡ es
    woken : (q : l.T) × (l.elems q ≡ es) × Woken (in_waiter x) (set_cond cond q s) t
    raised :
        t.values
        ≡ update SemRef-discrete s.values (in_waiter x) ((s.values (in_waiter x) + 1) % 2 ^ 32)
    holder : t.holder ≡ s.holder
    current : t.current ≡ s.current
    interrupts : t.interrupts ≡ s.interrupts

  one_signal :
      (cond x : ℕ) (es : List ℕ) (s t : State l)
      → l.elems (s.cond_waiters cond) ≡ x ∷ es
      → Signalled cond s t
      → OneSignal cond x es s t
  one_signal cond x es s t e (inl (e', p)) = cc
  one_signal cond x es s t e (inr (y, ys, q, e', rest, w)) =
      let same = Woken-SameRest (in_waiter y) (set_cond cond q s) t w in
      let y-x : y ≡ x = cc in
      let ys-es : ys ≡ es = cc in
      record {
        left = rw (same.cond_waiters, if_pos _ refl) (rest ∙ ys-es);
        woken = (q, rest ∙ ys-es, subst (λ z. Woken (in_waiter z) (set_cond cond q s) t) y-x w);
        raised = rw (← y-x) (Woken-values (in_waiter y) (set_cond cond q s) t w);
        holder = same.holder;
        current = same.current;
        interrupts = same.interrupts;
      }

  -- With as many rounds as there are waiters the loop ends by its own test.
  broadcast_loop_lem :
      (es : List ℕ) (cond lock : ℕ) (s : State l)
      → cond ≢ 0
      → lock ≢ 0
      → s.holder lock ≡ s.current
      → Inv s
      → l.elems (s.cond_waiters cond) ≡ es
      → (s' : State l) × (broadcast_loop (length es) cond lock s ≡ ok tt s')
        × Broadcast cond es s s'
  unfolding broadcast_loop raise_all
  broadcast_loop_lem [] cond lock s nc nl own v e = (
    s,
    rw (l.empty-elems (s.cond_waiters cond), e),
    record {
      inv = v;
      emptied = e;
      in_order = refl;
      raised = refl;
      holder = refl;
      current = refl;
      interrupts = refl;
    },
  )
  broadcast_loop_lem (x ∷ es) cond lock s nc nl own v e =
      let (t, one, vt, did) = cond_signal_lem cond lock s nc nl own v in
      let o = one_signal cond x es s t e did in
      let mine : t.holder lock ≡ t.current =
        ap (λ (h : ℕ → ℕ). h lock) o.holder ∙ own ∙ sym o.current in
      let (s', more, b) = broadcast_loop_lem es cond lock t nc nl mine vt o.left in
      (
        s',
        rw (l.empty-elems (s.cond_waiters cond), e, broadcast_loop, one) more,
        record {
          inv = b.inv;
          emptied = b.emptied;
          in_order = let (q, rest, w) = o.woken in (q, t, rest, w, b.in_order);
          raised = b.raised ∙ ap (raise_all es) o.raised;
          holder = b.holder ∙ o.holder;
          current = b.current ∙ o.current;
          interrupts = b.interrupts ∙ o.interrupts;
        },
      )

  -- `cond_broadcast` by the holder of the lock signals every waiter of the condition, in their
  -- order: each signal raises the semaphore of its waiter and moves the thread that sleeps on it to the
  -- back of the ready list; the condition's list is empty then, and the invariant and the locks are kept.
  -- The loop's bound is enough.
  pub cond_broadcast_lem :
      (cond lock : ℕ) (s : State l)
      → cond ≢ 0
      → lock ≢ 0
      → s.holder lock ≡ s.current
      → Inv s
      → (s' : State l) × (cond_broadcast cond lock s ≡ ok tt s')
        × Broadcast cond (l.elems (s.cond_waiters cond)) s s'
  unfolding cond_broadcast
  cond_broadcast_lem cond lock s nc nl own v =
      let (s', e, b) =
        broadcast_loop_lem (l.elems (s.cond_waiters cond)) cond lock s nc nl own v refl in
      (s', rw (==_ne cond 0 nc, ==_ne lock 0 nl, own, ==_refl s.current) e, b)
