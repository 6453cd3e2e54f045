-- ===== src/Thread/Sched/Init.antt =====
-- `thread_init`.
use pithread.Common.{
  ◌≡◌, ◌≢◌, refl, false, [], has, IsNodup, none, ap, ℕ_discrete, if_pos, if_neg, arith, subst, sym,
}
use pithread.Thread.ListLib.{ListLib}
use pithread.Thread.State.{
  ListRef, ready_list, free_list, join_list, joiners, Thread, State, ok, ListRef-discrete,
  update_self,
}
use pithread.Thread.Inv.{Inv, IsFree, Lists, Locks}
use pithread.Thread.Sched.{thread_init, set_list, set_thread, thread_magic}

module _ ⦃l : ListLib⦄ where
  -- The memory at the start: `current` is NULL, `root` is on no list, no lock has more than its one token,
  -- and no list holds anything but those that `thread_init` sets up, in which anything may be.
  pub record Fresh (s : State l) : Type 0 where
    pub empty :
        (r : ListRef)
        → r ≢ ready_list
        → r ≢ free_list
        → r ≢ join_list
        → r ≢ joiners s.root
        → l.elems (s.lists r) ≡ []
    pub current : s.current ≡ 0
    pub root : s.root ≢ 0
    pub unlisted : (s.threads s.root).in_list ≡ none
    pub locks : Locks s

  abbrev emptied : ListRef → State l → State l
  emptied r s = set_list r l.list_init s

  emptied-empty :
      (r : ListRef) (s : State l) (q : ListRef)
      → (q ≢ r → l.elems (s.lists q) ≡ [])
      → l.elems ((emptied r s).lists q) ≡ []
  emptied-empty r s q e = elim (ListRef-discrete q r) [
    | yes same ↦ rw (if_pos (ListRef-discrete q r) same) l.init-elems
    | no ne ↦ rw (if_neg (ListRef-discrete q r) ne) (e ne)
  ]

  no_list-Lists : (s : State l) → ((q : ListRef) → l.elems (s.lists q) ≡ []) → Lists s
  no_list-Lists s e = record {
    listed = λ r t h. ground (arith, ap (has t) (e r));
    nodup = λ r. subst IsNodup (sym (e r)) tt;
  }

  -- What `thread_init` makes of the root.
  abbrev root_thread : State l → Thread
  root_thread s = record (s.threads s.root) { handle = s.root; magic = thread_magic }

  root_running :
      (s : State l)
      → (s.threads s.root).in_list ≡ none
      → s.root ≢ 0
      → IsFree s.root (record (set_thread s.root (root_thread s) s) { current = s.root })
  root_running s free ne =
      rw (update_self ℕ_discrete s.threads s.root (root_thread s)) (free, refl, ne)

  -- `thread_init` without preemption, whatever the lists that it sets up held, makes the root the one
  -- thread, which runs, and establishes the invariant.
  pub thread_init_lem :
      (s : State l)
      → Fresh s
      → (s' : State l) × (thread_init false s ≡ ok 1 s')
        × Inv s'
        × (s'.current ≡ s.root)
        × ((s'.threads s.root).handle ≡ s.root)
        × (s'.num_thrs ≡ 1)
  unfolding thread_init
  thread_init_lem s f =
      let s4 : State l =
        emptied (joiners s.root) (emptied join_list (emptied free_list (emptied ready_list s))) in
      let s5 : State l = set_thread s.root (root_thread s) s4 in
      let e4 : (q : ListRef) → l.elems (s4.lists q) ≡ [] = λ q.
        emptied-empty (joiners s.root)
          (emptied join_list (emptied free_list (emptied ready_list s))) q
          λ n4. emptied-empty join_list (emptied free_list (emptied ready_list s)) q λ n3.
            emptied-empty free_list (emptied ready_list s) q
              λ n2. emptied-empty ready_list s q λ n1. f.empty q n1 n2 n3 n4 in
      (
        record s5 { current = s.root; num_thrs = 1 },
        rw (f.current),
        record {
          lists = no_list-Lists (record s5 { current = s.root; num_thrs = 1 }) e4;
          running = root_running s f.unlisted f.root;
          locks = f.locks;
        },
        refl,
        ap (λ (t : Thread). t.handle) (update_self ℕ_discrete s.threads s.root (root_thread s)),
        refl,
      )
