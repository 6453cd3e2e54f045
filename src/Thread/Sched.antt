-- ===== src/Thread/Sched.antt =====
-- thread.c, lines 40 to 243: the lists of threads, switching, and the life of a thread.
pub mod Life
pub mod Exit
pub mod Wake
pub mod Init
use pithread.Common.{
  ℕ, zero, suc, ◌+◌, ◌-◌, ◌%◌, ◌^◌, Bool, true, false, not, ◌&&◌, Option, none, some, ite,
  ℕ_discrete, ltb, ◌==◌, if◌then◌else◌, ◌∷◌, length,
}
use pithread.Thread.ListLib.{ListLib}
use pithread.Thread.State.{
  ListRef, ready_list, free_list, join_list, joiners, ListRef-discrete, update, Thread, State, ok,
  switched, fault, halted, out_of_fuel, M, ◌>>=◌, ◌>>◌, pure, ask, modify, assert, when,
}

abbrev pub thread_magic : ℕ
thread_magic = 0xDEADBEEF

-- `thr->in_list == list`.
abbrev pub is_in : Option ListRef → ListRef → Bool
is_in none r = false
is_in (some q) r = ite (ListRef-discrete q r) true false

abbrev pub is_none {ℓ} : {A : Type ℓ} → Option A → Bool
is_none none = true
is_none (some a) = false

module _ ⦃l : ListLib⦄ where
  abbrev pub has_magic : ℕ → State l → Bool
  has_magic t s = (s.threads t).magic == thread_magic

  abbrev pub empty : ListRef → State l → Bool
  empty r s = l.list_empty (s.lists r)

  abbrev pub set_list : ListRef → l.T → State l → State l
  set_list r q s = record s { lists = update ListRef-discrete s.lists r q }

  abbrev pub set_thread : ℕ → Thread → State l → State l
  set_thread t th s = record s { threads = update ℕ_discrete s.threads t th }

  abbrev pub set_in_list : ℕ → Option ListRef → State l → State l
  set_in_list t o s = set_thread t (record (s.threads t) { in_list = o }) s

  -- The rest of `get` once the list has given the thread.
  unfoldable pub got : ListRef → ℕ → M ℕ
  got r t = do
    assert (λ s. is_in (s.threads t).in_list r)
    assert (has_magic t)
    modify (set_in_list t none)
    pure t

  unfoldable pub get : ListRef → M ℕ
  get r s = elim (l.list_pop_front (s.lists r)) [
    | none ↦ fault r
    | some (t, q) ↦ got r t (set_list r q s)
  ]

  unfoldable pub put : ℕ → ListRef → M (Unit {0})
  put t r = do
    assert (λ _. not (t == 0))
    assert (λ s. is_none (s.threads t).in_list)
    assert (has_magic t)
    modify (set_in_list t (some r))
    modify (λ s. set_list r (l.list_push_back (s.lists r) t) s)

  -- `swtch` saves the registers of the caller and takes up those of `current`.
  abbrev pub swtch : M (Unit {0})
  swtch s = switched s (ok tt)

  unfoldable pub run : M (Unit {0})
  run = do thr ← get ready_list; modify (λ s. record s { current = thr }); swtch

  -- `while (!list_empty(&free_list))`, with the rounds that it may make at most. What `list_entry`
  -- gives goes to `free`.
  unfoldable pub release_loop : ℕ → M (Unit {0})
  release_loop zero s = if empty free_list s then ok tt s else out_of_fuel
  release_loop (suc n) s = elim (empty free_list s) [
    | true ↦ ok tt s
    | false ↦ elim (l.list_pop_front (s.lists free_list)) [
      | none ↦ fault free_list
      | some (t, q) ↦ release_loop n (record (set_list free_list q s) { freed = t ∷ s.freed })
    ]
  ]

  unfoldable pub release : M (Unit {0})
  release s = release_loop (length (l.elems (s.lists free_list))) s

  abbrev pub int_minus_one : ℕ
  int_minus_one = 2 ^ 32 - 1

  unfoldable pub thread_init : Bool → M ℕ
  thread_init preempt = do
    assert (λ _. not preempt)
    assert (λ s. s.current == 0)
    if preempt then pure 0 else (do
      modify (set_list ready_list l.list_init)
      modify (set_list free_list l.list_init)
      modify (set_list join_list l.list_init)
      modify (λ s. set_list (joiners s.root) l.list_init s)
      modify (λ s.
          set_thread s.root (record (s.threads s.root) { handle = s.root; magic = thread_magic }) s)
      modify (λ s. record s { current = s.root })
      modify (λ s. record s { num_thrs = 1 })
      pure 1)

  abbrev pub assert_current : M (Unit {0})
  assert_current = assert (λ s. not (s.current == 0)) >> assert (λ s. has_magic s.current s)

  -- `while (!list_empty(&current->join_list))` of `thread_exit`.
  unfoldable pub wake_joiners : ℕ → ℕ → ℕ → M (Unit {0})
  wake_joiners zero me code s = if empty (joiners me) s then ok tt s else out_of_fuel
  wake_joiners (suc n) me code s = elim (empty (joiners me) s) [
    | true ↦ ok tt s
    | false ↦
        (do
          thr ← get (joiners me)
          modify (λ s'. set_thread thr (record (s'.threads thr) { code = code }) s')
          put thr ready_list
          wake_joiners n me code)
          s
  ]

  -- `if (!list_empty(&join_list) && num_thrs == 2)` of `thread_exit`.
  unfoldable pub wake_last : M (Unit {0})
  wake_last = do
    last ← ask (λ s. not (empty join_list s) && s.num_thrs == 2)
    when last (do assert (empty ready_list); thr ← get join_list; put thr ready_list)

  -- `thread_exit` from its line 171 on.
  unfoldable pub exit_rest : ℕ → M (Unit {0})
  exit_rest code = do
    me ← ask (λ s. s.current)
    root ← ask (λ s. s.root)
    when (not (me == root)) (put me free_list)
    modify (λ s. set_thread me (record (s.threads me) { handle = 0 }) s)
    n ← ask (λ s. length (l.elems (s.lists (joiners me))))
    wake_joiners n me code
    wake_last
    modify (λ s. record s { num_thrs = (s.num_thrs + 2 ^ 32 - 1) % 2 ^ 32 })
    left ← ask (λ s. s.num_thrs)
    if left == 0 then halted else run

  unfoldable pub thread_exit : ℕ → M (Unit {0})
  thread_exit code = do assert_current; release; exit_rest code

  unfoldable pub thread_self : M ℕ
  thread_self = do assert_current; ask (λ s. s.current)

  unfoldable pub thread_join : ℕ → M ℕ
  thread_join thr = do
    assert (λ s. not (s.current == 0) && not (thr == s.current))
    assert (λ s. has_magic s.current s)
    me ← ask (λ s. s.current)
    handle ← ask (λ s. (s.threads thr).handle)
    nobody ← ask (empty join_list)
    n ← ask (λ s. s.num_thrs)
    if thr == 0
        then (do assert (λ _. nobody); when (ltb 1 n) (do put me join_list; run); pure 0)
        else (if handle == thr
            then (do put me (joiners thr); run; ask (λ s. (s.threads s.current).code))
            else pure int_minus_one)

  unfoldable pub thread_pause : M (Unit {0})
  thread_pause = do assert_current; me ← ask (λ s. s.current); put me ready_list; run
