-- ===== src/Thread/Sched/Wake.antt =====
-- The loop of `thread_exit` that wakes the threads that wait for its caller.
use pithread.Common.{
  ℕ, ◌≡◌, refl, ◌≢◌, ◌∙◌, Bool-cases, arith, ap, inl, inr, ℕ_discrete, true, false, List, [], ◌∷◌,
  ◌++◌, length, if_neg, has, append_assoc, append-nil,
}
use pithread.Thread.ListLib.{ListLib}
use pithread.Thread.State.{ListRef, Thread, ready_list, joiners, State, ok}
use pithread.Thread.Inv.{
  Lists, IsFree, put_state, got_state, put-ok, put-Lists, get-ok, got-Lists, got-IsFree,
}
use pithread.Thread.Sched.{wake_joiners, set_thread}

module _ ⦃l : ListLib⦄ where
  -- One thread that waited is ready, with the code.
  abbrev coded : ℕ → ℕ → State l → State l
  coded t code s = set_thread t (record (s.threads t) { code = code }) s

  abbrev woken : ListRef → ℕ → ℕ → l.T → State l → State l
  woken r t code q s = put_state t ready_list (coded t code (got_state r t q s))

  coded-Lists : (t code : ℕ) (s : State l) → Lists s → Lists (coded t code s)
  coded-Lists t code s v = record {
    listed = λ r u h. ground (arith, v.listed r u);
    nodup = v.nodup;
  }

  coded-IsFree : (t code : ℕ) (s : State l) → IsFree t s → IsFree t (coded t code s)
  coded-IsFree t code s f = ground arith

  woken-ready :
      (r : ListRef) (t code : ℕ) (q : l.T) (s : State l)
      → r ≢ ready_list
      → l.elems ((woken r t code q s).lists ready_list) ≡ l.elems (s.lists ready_list) ++ t ∷ []
  woken-ready r t code q s ne = ground (arith, l.push_back-elems (s.lists ready_list) t)

  woken-left :
      (r : ListRef) (t code : ℕ) (q : l.T) (s : State l)
      → r ≢ ready_list
      → (woken r t code q s).lists r ≡ q
  woken-left r t code q s ne = ground arith

  woken-others :
      (r p : ListRef) (t code : ℕ) (q : l.T) (s : State l)
      → p ≢ ready_list
      → p ≢ r
      → (woken r t code q s).lists p ≡ s.lists p
  woken-others r p t code q s ne ne' = ground arith

  woken-code :
      (r : ListRef) (t code : ℕ) (q : l.T) (s : State l)
      → ((woken r t code q s).threads t).code ≡ code
  woken-code r t code q s = ground arith

  woken-rest :
      (r : ListRef) (t u code : ℕ) (q : l.T) (s : State l)
      → u ≢ t
      → (woken r t code q s).threads u ≡ s.threads u
  woken-rest r t u code q s ne =
      rw (if_neg (ℕ_discrete u t) ne, if_neg (ℕ_discrete u t) ne, if_neg (ℕ_discrete u t) ne)

  code_of :
      (r : ListRef) (t u code : ℕ) (ts : List ℕ) (q : l.T) (s s' : State l)
      → ((v : ℕ) → has v ts ≡ true → (s'.threads v).code ≡ code)
      → ((v : ℕ) → has v ts ≡ false → s'.threads v ≡ (woken r t code q s).threads v)
      → has u (t ∷ ts) ≡ true
      → (s'.threads u).code ≡ code
  code_of r t u code ts q s s' codes rest h = elim (Bool-cases (has u ts)) [
    | inl e ↦ codes u e
    | inr e ↦
        let u-t : u ≡ t = ground arith in
        ap (λ (x : Thread). x.code) (rest u e) ∙ rw u-t (woken-code r t code q s)
  ]

  -- What the loop of `thread_exit` makes of the state when `ts` wait for `me`.
  pub record Handed (me code : ℕ) (ts : List ℕ) (s s' : State l) : Type 0 where
    pub lists : Lists s'
    pub emptied : l.elems (s'.lists (joiners me)) ≡ []
    pub readied : l.elems (s'.lists ready_list) ≡ l.elems (s.lists ready_list) ++ ts
    pub others : (r : ListRef) → r ≢ ready_list → r ≢ joiners me → s'.lists r ≡ s.lists r
    pub codes : (t : ℕ) → has t ts ≡ true → (s'.threads t).code ≡ code
    pub rest : (t : ℕ) → has t ts ≡ false → s'.threads t ≡ s.threads t
    pub current : s'.current ≡ s.current
    pub root : s'.root ≡ s.root
    pub num_thrs : s'.num_thrs ≡ s.num_thrs
    pub values : s'.values ≡ s.values
    pub holder : s'.holder ≡ s.holder
    pub freed : s'.freed ≡ s.freed

  pub wake_joiners_lem :
      (ts : List ℕ) (me code : ℕ) (s : State l)
      → l.elems (s.lists (joiners me)) ≡ ts
      → Lists s
      → (s' : State l) × (wake_joiners (length ts) me code s ≡ ok tt s') × Handed me code ts s s'
  unfolding wake_joiners
  wake_joiners_lem [] me code s e v = (
    s,
    rw (l.empty-elems (s.lists (joiners me)), e),
    record {
      lists = v;
      emptied = e;
      readied = rw append-nil;
      others = λ r p q. refl;
      codes = λ t h. cc;
      rest = λ t h. refl;
      current = refl;
      root = refl;
      num_thrs = refl;
      values = refl;
      holder = refl;
      freed = refl;
    },
  )
  wake_joiners_lem (t ∷ ts) me code s e v =
      let r = joiners me in
      let (q, got, left) = get-ok t ts r s v e in
      let f = coded-IsFree t code (got_state r t q s) (got-IsFree t ts r q s v e) in
      let s1 : State l = woken r t code q s in
      let v1 : Lists s1 =
        put-Lists t ready_list (coded t code (got_state r t q s)) f
          (coded-Lists t code (got_state r t q s) (got-Lists t ts r q s v e left)) in
      let (s', more, b) =
        wake_joiners_lem ts me code s1 (ap l.elems (woken-left r t code q s (λ p. cc)) ∙ left) v1 in
      (
        s',
        rw
            (
              l.empty-elems (s.lists r),
              e,
              wake_joiners,
              got,
              put-ok t ready_list (coded t code (got_state r t q s)) f,
            )
            more,
        record {
          lists = b.lists;
          emptied = b.emptied;
          readied =
              b.readied
              ∙ ap (λ (x : List ℕ). x ++ ts) (woken-ready r t code q s (λ p. cc))
              ∙ append_assoc (l.elems (s.lists ready_list)) (t ∷ []) ts;
          others = λ p ne ne'. b.others p ne ne' ∙ woken-others r p t code q s ne ne';
          codes = λ u h. code_of r t u code ts q s s' b.codes b.rest h;
          rest = λ u h. b.rest u (ground arith) ∙ woken-rest r t u code q s (ground arith);
          current = b.current;
          root = b.root;
          num_thrs = b.num_thrs;
          values = b.values;
          holder = b.holder;
          freed = b.freed;
        },
      )
