-- ===== src/Thread/Sched/Exit.antt =====
-- `thread_exit`.
use pithread.Common.{
  ℕ, ◌+◌, ◌-◌, ◌%◌, ◌^◌, ◌≡◌, refl, ◌≢◌, ◌⊎◌, ◌∙◌, Bool-cases, ◌==◌, ==_ne, if◌then◌else◌, arith,
  ap, inl, inr, sym, subst, true, List, [], ◌∷◌, ◌++◌, has,
}
use pithread.Thread.ListLib.{ListLib}
use pithread.Thread.State.{Thread, ready_list, free_list, join_list, joiners, State, ok, halted}
use pithread.Thread.Inv.{Inv, Lists, Locks, IsFree, put_state, put-ok, put-Lists, free_unlisted}
use pithread.Thread.Sched.{thread_exit, exit_rest, empty, run, wake_last, set_thread}
use pithread.Thread.Sched.Life.{Released, release_lem, push_all}
use pithread.Thread.Sched.Wake.{Handed, wake_joiners_lem}

module _ ⦃l : ListLib⦄ where
  -- What the call of `thread_exit` by `me` has made of the state when it comes to its last test.
  pub record Exited (me code left : ℕ) (s t : State l) : Type 0 where
    pub lists : Lists t
    pub locks : Locks t
    pub ended : (t.threads me).handle ≡ 0
    pub waiting : l.elems (t.lists (joiners me)) ≡ []
    pub num_thrs : t.num_thrs ≡ left
    pub holder : t.holder ≡ s.holder
    pub freed : t.freed ≡ s.freed
    pub codes : (u : ℕ) → has u (l.elems (s.lists (joiners me))) ≡ true → (t.threads u).code ≡ code
    pub readied :
        l.elems (t.lists ready_list)
        ≡ l.elems (s.lists ready_list) ++ l.elems (s.lists (joiners me))
    pub retired : l.elems (t.lists free_list) ≡ me ∷ []

  ended-Lists :
      (me : ℕ) (s : State l)
      → Lists s
      → Lists (set_thread me (record (s.threads me) { handle = 0 }) s)
  ended-Lists me s v = record { listed = λ r u h. ground (arith, v.listed r u); nodup = v.nodup }

  -- Nobody waits for all threads to end, or more than one other thread is left.
  abbrev pub NotLast : State l → Type 0
  NotLast s = (l.elems (s.lists join_list) ≡ []) ⊎ (s.num_thrs ≢ 2)

  wake_last_skips : (s : State l) → NotLast s → wake_last s ≡ ok tt s
  unfolding wake_last
  wake_last_skips s (inl e) = rw (l.empty-elems (s.lists join_list), e)
  wake_last_skips s (inr ne) = elim (Bool-cases (empty join_list s)) [
    | inl e ↦ rw (e)
    | inr e ↦ rw (e, ==_ne s.num_thrs 2 ne)
  ]

  -- The state in which the loop of `thread_exit` begins.
  abbrev pub leaving : State l → State l
  leaving s =
      let me = s.current in
      let s1 : State l = put_state me free_list s in
      set_thread me (record (s1.threads me) { handle = 0 }) s1

  leaving-joiners :
      (s : State l) → (leaving s).lists (joiners s.current) ≡ s.lists (joiners s.current)
  leaving-joiners s = ground arith

  leaving-ready : (s : State l) → (leaving s).lists ready_list ≡ s.lists ready_list
  leaving-ready s = ground arith

  leaving-free :
      (s : State l)
      → l.elems (s.lists free_list) ≡ []
      → l.elems ((leaving s).lists free_list) ≡ s.current ∷ []
  leaving-free s e = ground (arith, l.push_back-elems (s.lists free_list) s.current, e)

  leaving-join : (s : State l) → (leaving s).lists join_list ≡ s.lists join_list
  leaving-join s = ground arith

  leaving-ended : (s : State l) → ((leaving s).threads s.current).handle ≡ 0
  leaving-ended s = ground arith

  still-NotLast :
      (me code : ℕ) (ts : List ℕ) (s s3 : State l)
      → Handed me code ts (leaving s) s3
      → NotLast s
      → NotLast s3
  still-NotLast me code ts s s3 b (inl e) =
      inl (ap l.elems (b.others join_list (λ p. cc) (λ p. cc)) ∙ ap l.elems (leaving-join s) ∙ e)
  still-NotLast me code ts s s3 b (inr ne) = inr (λ e. ne (sym b.num_thrs ∙ e))

  exited :
      (code left : ℕ) (s s3 : State l)
      → Locks s
      → l.elems (s.lists free_list) ≡ []
      → IsFree s.current s
      → Lists s
      → Handed s.current code (l.elems (s.lists (joiners s.current))) (leaving s) s3
      → Exited s.current code left s (record s3 { num_thrs = left })
  exited code left s s3 k none_ended f v b =
      let me = s.current in
      record {
        lists = record { listed = b.lists.listed; nodup = b.lists.nodup };
        locks = λ x. rw (b.values, b.holder) (k x);
        ended =
            ap (λ (x : Thread). x.handle) (b.rest me (free_unlisted me (joiners me) s f v))
            ∙ leaving-ended s;
        waiting = b.emptied;
        num_thrs = refl;
        holder = b.holder;
        freed = b.freed;
        codes = b.codes;
        readied =
            b.readied
            ∙ ap (λ (q : l.T). l.elems q ++ l.elems (s.lists (joiners me))) (leaving-ready s);
        retired = ap l.elems (b.others free_list (λ p. cc) (λ p. cc)) ∙ leaving-free s none_ended;
      }

  exit_rest_lem :
      (code : ℕ) (s : State l)
      → Lists s
      → Locks s
      → IsFree s.current s
      → s.current ≢ s.root
      → l.elems (s.lists free_list) ≡ []
      → NotLast s
      → let left = (s.num_thrs + 2 ^ 32 - 1) % 2 ^ 32 in
        (t : State l) × Exited s.current code left s t
        × (exit_rest code s ≡ (if left == 0 then halted else run) t)
  unfolding exit_rest
  exit_rest_lem code s v k f child none_ended not_last =
      let me = s.current in
      let js = l.elems (s.lists (joiners me)) in
      let v2 : Lists (leaving s) =
        ended-Lists me (put_state me free_list s) (put-Lists me free_list s f v) in
      let at = ap l.elems (leaving-joiners s) in
      let (s3, e3, b3) = wake_joiners_lem js me code (leaving s) at v2 in
      let left = (s.num_thrs + 2 ^ 32 - 1) % 2 ^ 32 in
      let t : State l = record s3 { num_thrs = left } in
      (
        t,
        exited code left s s3 k none_ended f v b3,
        rw (
          ==_ne me s.root child,
          put-ok me free_list s f,
          at,
          e3,
          wake_last_skips s3 (still-NotLast me code js s s3 b3 not_last),
          b3.num_thrs,
        ),
      )

  before_release :
      (code left : ℕ) (s s1 t : State l)
      → Released (l.elems (s.lists free_list)) s s1
      → Exited s1.current code left s1 t
      → Exited s.current code left (record s { freed = s1.freed }) t
  before_release code left s s1 t r b =
      let js : s1.lists (joiners s1.current) ≡ s.lists (joiners s.current) =
        r.others (joiners s1.current) (λ p. cc) ∙ ap (λ (c : ℕ). s.lists (joiners c)) r.current in
      record {
        lists = b.lists;
        locks = b.locks;
        ended = rw (sym r.current) b.ended;
        waiting = rw (sym r.current) b.waiting;
        num_thrs = b.num_thrs;
        holder = b.holder ∙ r.holder;
        freed = b.freed;
        codes = λ u h. b.codes u (rw js h);
        readied = rw (b.readied, js, r.others ready_list (λ p. cc));
        retired = rw (b.retired, r.current);
      }

  rest_after :
      (code : ℕ) (s s1 : State l)
      → s.current ≢ s.root
      → NotLast s
      → Inv s
      → Released (l.elems (s.lists free_list)) s s1
      → let left = (s.num_thrs + 2 ^ 32 - 1) % 2 ^ 32 in
        (t : State l) × Exited s.current code left (record s { freed = s1.freed }) t
        × (exit_rest code s1 ≡ (if left == 0 then halted else run) t)
  rest_after code s s1 child not_last v r =
      let left = (s1.num_thrs + 2 ^ 32 - 1) % 2 ^ 32 in
      let (t, b, e) =
        exit_rest_lem code s1 r.lists (λ k. rw (r.values, r.holder) (v.locks k))
          (rw (r.current, r.threads) v.running) (rw (r.current, r.root) child) r.emptied
          (elim not_last [
            | inl j ↦ inl (rw (r.others join_list (λ p. cc), j))
            | inr ne ↦ inr (rw r.num_thrs ne)
          ]) in
      subst
        (λ (n : ℕ).
          (u : State l) × Exited s.current code ((n + 2 ^ 32 - 1) % 2 ^ 32)
            (record s { freed = s1.freed }) u
          × (exit_rest code s1 ≡ (if (n + 2 ^ 32 - 1) % 2 ^ 32 == 0 then halted else run) u))
        r.num_thrs (t, before_release code left s s1 t r b, e)

  -- A thread other than the root ends, from a state with the invariant in which nobody waits for
  -- all threads to end or the count of threads is not 2: the threads that ended before are freed,
  -- it alone is left in the list of ended threads, its handle is 0, every thread that waited
  -- for it is ready, with its code, and the processor halts or takes up the next thread, as the
  -- count of threads says.
  pub thread_exit_lem :
      (code : ℕ) (s : State l)
      → s.current ≢ s.root
      → NotLast s
      → Inv s
      → let left = (s.num_thrs + 2 ^ 32 - 1) % 2 ^ 32 in
        let freed = push_all (l.elems (s.lists free_list)) s.freed in
        (t : State l) × Exited s.current code left (record s { freed = freed }) t
        × (thread_exit code s ≡ (if left == 0 then halted else run) t)
  unfolding thread_exit
  thread_exit_lem code s child not_last v =
      let (s1, e1, r) = release_lem s v.lists in
      let (t, b, e) = rest_after code s s1 child not_last v r in
      (
        t,
        subst
            (λ (f : List ℕ).
              Exited s.current code ((s.num_thrs + 2 ^ 32 - 1) % 2 ^ 32) (record s { freed = f }) t)
            r.freed b,
        rw (==_ne s.current 0 v.running.2, v.running.1, e1) e,
      )
