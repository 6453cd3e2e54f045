-- ===== src/Thread/Sched/Life.antt =====
-- `thread_pause`, `thread_join`, `release` and `thread_exit`.
use pithread.Common.{
  ℕ, ◌≡◌, ◌⊎◌, inl, inr, some, refl, ◌≢◌, ◌∙◌, ==_ne, ==_refl, arith, ap, subst, List, [], ◌∷◌,
  length, has, IsNodup, if_pos, if_neg,
}
use pithread.Thread.ListLib.{ListLib}
use pithread.Thread.State.{
  ListRef, ready_list, free_list, joiners, State, Res, ok, fault, ListRef-discrete, update_self,
  update-ne,
}
use pithread.Thread.Inv.{Inv, Lists, put_state, put-ok, put-Lists}
use pithread.Thread.Safe.{Leaves, Safe, Safe-bind, Guarantee-refl}
use pithread.Thread.Sched.{
  thread_pause, thread_join, release, release_loop, run, int_minus_one, set_list,
}
use pithread.Thread.Sync.Sleep.{run-cases, Back, sleep-Safe, run-Safe}

-- The addresses of a list, given to `free` one after the other.
unfoldable pub push_all : List ℕ → List ℕ → List ℕ
push_all [] freed = freed
push_all (t ∷ ts) freed = push_all ts (t ∷ freed)

module _ ⦃l : ListLib⦄ where
  -- `thread_pause` meets no failing ASSERT, keeps the invariant where it switches, and comes back
  -- with it.
  thread_pause-Safe :
      (n : ℕ) (s : State l) → Inv s → Safe s.current n s.holder (Back s.current) (thread_pause s)
  unfolding thread_pause
  thread_pause-Safe n s v =
      rw (==_ne s.current 0 v.running.2, v.running.1)
        (sleep-Safe n s.holder ready_list s (Guarantee-refl s.current s.holder) v)

  -- The caller is back, with the code that it holds.
  abbrev pub Joined : ℕ → ℕ → State l → Type 0
  Joined me code s = Back me code s × (code ≡ (s.threads me).code)

  join-Safe :
      (n thr : ℕ) (s : State l)
      → thr ≢ 0
      → thr ≢ s.current
      → (s.threads thr).handle ≡ thr
      → Inv s
      → Safe s.current n s.holder (Joined s.current) (thread_join thr s)
  unfolding thread_join
  join-Safe n thr s ne other alive v =
      rw
        (
          ==_ne s.current 0 v.running.2,
          ==_ne thr s.current other,
          v.running.1,
          ==_ne thr 0 ne,
          alive,
          ==_refl thr,
        )
        (rw (put-ok s.current (joiners thr) s v.running) (
          Safe-bind s.current (Back s.current) (Joined s.current) n s.holder
            (run (put_state s.current (joiners thr) s)) _
            (run-Safe s.current n s.holder (put_state s.current (joiners thr) s)
              (Guarantee-refl s.current s.holder)
              (put-Lists s.current (joiners thr) s v.running v.lists) v.locks)
            λ u t k h le g p. (g, (p, ap (λ (c : ℕ). (t.threads c).code) p.1))))

  -- The call leaves its caller on a list, with nothing else done to the locks, or finds no thread ready.
  abbrev pub SleepsOn : {A : Type 0} → ListRef → State l → Res l A → Type 0
  SleepsOn r s c =
      (c ≡ fault ready_list)
      ⊎ ((s' : State l) × Leaves c s'
          × Inv s'
          × (s'.holder ≡ s.holder)
          × ((s'.threads s.current).in_list ≡ some r))

  join-SleepsOn :
      (thr : ℕ) (s : State l)
      → thr ≢ 0
      → thr ≢ s.current
      → (s.threads thr).handle ≡ thr
      → Inv s
      → SleepsOn (joiners thr) s (thread_join thr s)
  unfolding thread_join
  join-SleepsOn thr s ne other alive v =
      let s1 : State l = put_state s.current (joiners thr) s in
      rw
        (
          ==_ne s.current 0 v.running.2,
          ==_ne thr s.current other,
          v.running.1,
          ==_ne thr 0 ne,
          alive,
          ==_refl thr,
          put-ok s.current (joiners thr) s v.running,
        )
        (elim (run-cases s1 (put-Lists s.current (joiners thr) s v.running v.lists) v.locks) [
          | inl f ↦ inl (rw f)
          | inr (s', f, v', same, on, _, _, _) ↦
              inr (s', rw f refl, v', same, on s.current (joiners thr) (λ e. cc) (ground arith))
        ])

  -- `thread_join` of another thread that has not ended puts its caller on that thread's list and switches,
  -- or finds no thread ready; it fails no ASSERT, keeps the invariant where it switches, and comes back
  -- with the code that was left in the caller's `code`.
  pub thread_join-Safe :
      (n thr : ℕ) (s : State l)
      → thr ≢ 0
      → thr ≢ s.current
      → (s.threads thr).handle ≡ thr
      → Inv s
      → SleepsOn (joiners thr) s (thread_join thr s)
        × Safe s.current n s.holder (Joined s.current) (thread_join thr s)
  thread_join-Safe n thr s ne other alive v =
      (join-SleepsOn thr s ne other alive v, join-Safe n thr s ne other alive v)

  -- `thread_join` of a thread that has ended returns -1 and changes nothing.
  thread_join_ended :
      (thr : ℕ) (s : State l)
      → thr ≢ 0
      → thr ≢ s.current
      → (s.threads thr).handle ≢ thr
      → Inv s
      → thread_join thr s ≡ ok int_minus_one s
  unfolding thread_join
  thread_join_ended thr s ne other ended v = rw (
    ==_ne s.current 0 v.running.2,
    ==_ne thr s.current other,
    v.running.1,
    ==_ne thr 0 ne,
    ==_ne (s.threads thr).handle thr ended,
  )

  -- What `release` makes of the state when the threads `ts` have ended: none is left in the
  -- list of ended threads, they went to `free` from front to back, and all else is as it was.
  pub record Released (ts : List ℕ) (s s' : State l) : Type 0 where
    pub emptied : l.elems (s'.lists free_list) ≡ []
    pub freed : s'.freed ≡ push_all ts s.freed
    pub lists : Lists s'
    pub others : (r : ListRef) → r ≢ free_list → s'.lists r ≡ s.lists r
    pub threads : s'.threads ≡ s.threads
    pub current : s'.current ≡ s.current
    pub root : s'.root ≡ s.root
    pub num_thrs : s'.num_thrs ≡ s.num_thrs
    pub values : s'.values ≡ s.values
    pub holder : s'.holder ≡ s.holder

  abbrev without_ended : l.T → List ℕ → State l → State l
  without_ended q freed s = record (set_list free_list q s) { freed = freed }

  pop-Lists :
      (q : l.T) (t : ℕ) (ts freed : List ℕ) (s : State l)
      → l.elems (s.lists free_list) ≡ t ∷ ts
      → l.elems q ≡ ts
      → Lists s
      → Lists (without_ended q freed s)
  pop-Lists q t ts freed s e rest v = record {
    listed = λ r u h. elim (ListRef-discrete r free_list) [
      | yes same ↦ ground (arith, v.listed free_list u, ap (has u) e, ap (has u) rest)
      | no ne ↦ ground (arith, v.listed r u)
    ];
    nodup = λ r. elim (ListRef-discrete r free_list) [
      | yes same ↦ rw (if_pos _ same, rest) (subst IsNodup e (v.nodup free_list)).1
      | no ne ↦ rw (if_neg _ ne) (v.nodup r)
    ];
  }

  release_loop_lem :
      (ts : List ℕ) (s : State l)
      → l.elems (s.lists free_list) ≡ ts
      → Lists s
      → (s' : State l) × (release_loop (length ts) s ≡ ok tt s') × Released ts s s'
  unfolding release_loop push_all
  release_loop_lem [] s e v = (
    s,
    rw (l.empty-elems (s.lists free_list), e),
    record {
      emptied = e;
      freed = refl;
      lists = v;
      others = λ r ne. refl;
      threads = refl;
      current = refl;
      root = refl;
      num_thrs = refl;
      values = refl;
      holder = refl;
    },
  )
  release_loop_lem (t ∷ ts) s e v =
      let (q, popped, rest) = l.pop_front-cons (s.lists free_list) t ts e in
      let s1 : State l = without_ended q (t ∷ s.freed) s in
      let (s', more, b) =
        release_loop_lem ts s1 (rw (update_self ListRef-discrete s.lists free_list q) rest)
          (pop-Lists q t ts (t ∷ s.freed) s e rest v) in
      (
        s',
        rw (l.empty-elems (s.lists free_list), e, release_loop, popped, release_loop) more,
        record {
          emptied = b.emptied;
          freed = b.freed;
          lists = b.lists;
          others = λ r ne. b.others r ne ∙ update-ne ListRef-discrete s.lists free_list r q ne;
          threads = b.threads;
          current = b.current;
          root = b.root;
          num_thrs = b.num_thrs;
          values = b.values;
          holder = b.holder;
        },
      )

  -- `release` frees every thread that has ended, in the order in which they ended, and nothing
  -- else. Its loop's bound is enough.
  pub release_lem :
      (s : State l)
      → Lists s
      → (s' : State l) × (release s ≡ ok tt s') × Released (l.elems (s.lists free_list)) s s'
  unfolding release
  release_lem s v = release_loop_lem (l.elems (s.lists free_list)) s refl v
