-- ===== src/Thread/Sync.antt =====
-- thread.c, lines 245 to 479: semaphores, locks and condition variables, and the interrupt level of interrupts.h. `fuel` bounds how often a call that sleeps is woken in vain.
pub mod Sleep
pub mod Lock
pub mod Cond
pub mod Signal
pub mod Semaphore
use pithread.Common.{
  ℕ, zero, suc, ◌+◌, ◌-◌, ◌%◌, ◌^◌, Bool, true, false, not, none, some, ℕ_discrete, ltb, ◌==◌,
  if◌then◌else◌, length,
}
use pithread.Thread.ListLib.{ListLib}
use pithread.Thread.State.{
  SemRef, in_lock, in_waiter, ready_list, waiters, SemRef-discrete, update, State, ok, failed,
  out_of_fuel, M, ◌>>=◌, ◌>>◌, pure, ask, modify, assert, when,
}
use pithread.Thread.Sched.{empty, set_list, get, put, run}

module _ ⦃l : ListLib⦄ where
  unfoldable pub interrupts_enable : M Bool
  interrupts_enable s = ok s.interrupts (record s { interrupts = true })

  unfoldable pub interrupts_disable : M Bool
  interrupts_disable s = ok s.interrupts (record s { interrupts = false })

  unfoldable pub interrupts_set_level : Bool → M Bool
  unfolding interrupts_enable interrupts_disable
  interrupts_set_level enable = if enable then interrupts_enable else interrupts_disable

  abbrev pub set_level : Bool → M (Unit {0})
  set_level b = interrupts_set_level b >>= λ _. pure tt

  abbrev pub set_value : SemRef → ℕ → State l → State l
  set_value sem v s = record s { values = update SemRef-discrete s.values sem v }

  unfoldable pub sem_init : SemRef → ℕ → M (Unit {0})
  sem_init sem value = do modify (set_value sem value); modify (set_list (waiters sem) l.list_init)

  -- `while (sem->value == 0) { put(current, &sem->waiters); run(); }`
  unfoldable pub sem_wait : ℕ → SemRef → M (Unit {0})
  sem_wait zero sem s = if s.values sem == 0 then out_of_fuel else ok tt s
  sem_wait (suc fuel) sem s = elim (s.values sem == 0) [
    | true ↦ (do put s.current (waiters sem); run; sem_wait fuel sem) s
    | false ↦ ok tt s
  ]

  unfoldable pub sem_down : ℕ → SemRef → M (Unit {0})
  unfolding interrupts_set_level interrupts_disable
  sem_down fuel sem = do
    assert (λ s. not (s.current == 0))
    old_level ← interrupts_disable
    sem_wait fuel sem
    modify (λ s. set_value sem (s.values sem - 1) s)
    set_level old_level

  unfoldable pub sem_try_down : SemRef → M Bool
  unfolding interrupts_set_level interrupts_disable
  sem_try_down sem = do
    old_level ← interrupts_disable
    success ← ask (λ s. ltb 0 (s.values sem))
    when success (modify (λ s. set_value sem (s.values sem - 1) s))
    set_level old_level
    pure success

  unfoldable pub sem_up : SemRef → M (Unit {0})
  unfolding interrupts_set_level interrupts_disable
  sem_up sem = do
    old_level ← interrupts_disable
    modify (λ s. set_value sem ((s.values sem + 1) % 2 ^ 32) s)
    none_waits ← ask (empty (waiters sem))
    when (not none_waits) (do thr ← get (waiters sem); put thr ready_list)
    set_level old_level

  unfoldable pub lock_held_by_current_thread : ℕ → State l → Bool
  lock_held_by_current_thread lock s = s.holder lock == s.current

  abbrev pub set_holder : ℕ → ℕ → State l → State l
  set_holder lock t s = record s { holder = update ℕ_discrete s.holder lock t }

  abbrev pub not_null : ℕ → M (Unit {0})
  not_null p = assert (λ _. not (p == 0))

  unfoldable pub lock_init : ℕ → M (Unit {0})
  lock_init lock = do not_null lock; modify (set_holder lock 0); sem_init (in_lock lock) 1

  unfoldable pub lock_acquire : ℕ → ℕ → M (Unit {0})
  unfolding lock_held_by_current_thread interrupts_set_level interrupts_disable
  lock_acquire fuel lock = do
    not_null lock
    assert (λ s. not (lock_held_by_current_thread lock s))
    old_level ← interrupts_disable
    sem_down fuel (in_lock lock)
    modify (λ s. set_holder lock s.current s)
    set_level old_level

  unfoldable pub lock_try_acquire : ℕ → M Bool
  unfolding lock_held_by_current_thread
  lock_try_acquire lock = do
    not_null lock
    assert (λ s. not (lock_held_by_current_thread lock s))
    success ← sem_try_down (in_lock lock)
    when success (modify (λ s. set_holder lock s.current s))
    pure success

  unfoldable pub lock_release : ℕ → M (Unit {0})
  unfolding lock_held_by_current_thread interrupts_set_level interrupts_disable
  lock_release lock = do
    not_null lock
    assert (lock_held_by_current_thread lock)
    old_level ← interrupts_disable
    modify (set_holder lock 0)
    sem_up (in_lock lock)
    set_level old_level

  abbrev pub set_cond : ℕ → l.T → State l → State l
  set_cond cond q s = record s { cond_waiters = update ℕ_discrete s.cond_waiters cond q }

  unfoldable pub cond_init : ℕ → M (Unit {0})
  cond_init cond = do not_null cond; modify (set_cond cond l.list_init)

  unfoldable pub cond_wait : ℕ → ℕ → ℕ → M (Unit {0})
  unfolding lock_held_by_current_thread
  cond_wait fuel cond lock = do
    not_null cond
    not_null lock
    assert (lock_held_by_current_thread lock)
    me ← ask (λ s. s.current)
    sem_init (in_waiter me) 0
    modify (λ s. set_cond cond (l.list_push_back (s.cond_waiters cond) me) s)
    lock_release lock
    sem_down fuel (in_waiter me)
    lock_acquire fuel lock

  -- The fault of a pop is not reached: the list was just seen to hold something.
  unfoldable pub cond_signal : ℕ → ℕ → M (Unit {0})
  unfolding lock_held_by_current_thread
  cond_signal cond lock = do
    not_null cond
    not_null lock
    assert (lock_held_by_current_thread lock)
    none_waits ← ask (λ s. l.list_empty (s.cond_waiters cond))
    when (not none_waits) (λ s. elim (l.list_pop_front (s.cond_waiters cond)) [
      | none ↦ failed
      | some (e, q) ↦ sem_up (in_waiter e) (set_cond cond q s)
    ])

  -- `while (!list_empty(&cond->waiters))`, with the rounds that it may make at most.
  unfoldable pub broadcast_loop : ℕ → ℕ → ℕ → M (Unit {0})
  broadcast_loop zero cond lock s =
      if l.list_empty (s.cond_waiters cond) then ok tt s else out_of_fuel
  broadcast_loop (suc n) cond lock s = elim (l.list_empty (s.cond_waiters cond)) [
    | true ↦ ok tt s
    | false ↦ (do cond_signal cond lock; broadcast_loop n cond lock) s
  ]

  unfoldable pub cond_broadcast : ℕ → ℕ → M (Unit {0})
  unfolding lock_held_by_current_thread
  cond_broadcast cond lock = do
    not_null cond
    not_null lock
    assert (lock_held_by_current_thread lock)
    n ← ask (λ s. length (l.elems (s.cond_waiters cond)))
    broadcast_loop n cond lock
