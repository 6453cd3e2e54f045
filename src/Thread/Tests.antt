-- ===== src/Thread/Tests.antt =====
-- A model of <list.h>, a small state, and the theorems of the thread component at it.
mod Life
use pithread.Common.{
  has, ==_refl, ap, sym, ◌∙◌, false, ℕ, ◌*◌, ◌-◌, ◌%◌, ◌≤◌, ◌%◌, ◌≡◌, refl, ◌⊎◌, inl, true, Option,
  none, some, List, [], ◌∷◌, ◌++◌, is_nil, arith, ◌==◌, if◌then◌else◌,
}
use pithread.Memory.{copy_up}
use pithread.Thread.ListLib.{ListLib}
use pithread.Thread.State.{
  in_lock, in_waiter, send, recv, sync, ListRef, ready_list, free_list, waiters, ListRef-discrete,
  update, State, ok, fault,
}
use pithread.Round.{round_up, div_round_up}
use pithread.Thread.Sched.Init.{Fresh, thread_init_lem}
use pithread.Thread.Create.{stack_size, stack_top, args_sp}
use pithread.Thread.Sched.{
  thread_init, thread_magic, thread_pause, thread_join, thread_exit, release, run, int_minus_one,
}
use pithread.Thread.Sched.Life.{Joined, thread_join-Safe, Released, release_lem, push_all}
use pithread.Thread.Sched.Exit.{Exited, thread_exit_lem}
use pithread.Thread.Inv.{Inv, Lists}
use pithread.Thread.Safe.{Safe, Leaves, Guarantee, Guarantee-refl}
use pithread.Thread.Sync.{
  sem_down, sem_up, lock_acquire, lock_release, cond_wait, cond_signal, cond_broadcast, set_holder,
}
use pithread.Thread.Sync.Sleep.{Back}
use pithread.Thread.Sync.Semaphore.{Taken, sem_down-Safe, sem_up-Woken, Woken}
use pithread.Thread.Sync.Lock.{Acquired, lock_acquire-Safe, lock_acquire_waits, lock_release_lem}
use pithread.Thread.Sync.Cond.{GivesUp, without, cond_wait-Safe}
use pithread.Thread.Sync.Signal.{Broadcast, cond_broadcast_lem}
use pithread.Thread.Chan.{chan_recv, chan_send}
use pithread.Thread.Chan.Transfer.{chan_recv_lem, chan_send_early}

abbrev pub pop_front : List ℕ → Option (ℕ × List ℕ)
pop_front [] = none
pop_front (x ∷ xs) = some (x, xs)

pub pop_front_nil : (q : List ℕ) → q ≡ [] → pop_front q ≡ none
pop_front_nil [] e = refl
pop_front_nil (x ∷ xs) e = cc

pub pop_front_cons :
    (q : List ℕ) (x : ℕ) (xs : List ℕ)
    → q ≡ x ∷ xs
    → (q' : List ℕ) × (pop_front q ≡ some (x, q')) × (q' ≡ xs)
pop_front_cons [] x xs e = cc
pop_front_cons (y ∷ ys) x xs e = (ys, ground arith, ground arith)

abbrev pub remove : List ℕ → ℕ → List ℕ
remove [] x = []
remove (y ∷ ys) x = if x == y then ys else y ∷ remove ys x

pub remove_first :
    (q : List ℕ) (x : ℕ) (xs ys : List ℕ)
    → q ≡ xs ++ x ∷ ys
    → has x xs ≡ false
    → remove q x ≡ xs ++ ys
remove_first q x xs ys e h = ap (λ (r : List ℕ). remove r x) e ∙ removed xs h
  where
    removed : (zs : List ℕ) → has x zs ≡ false → remove (zs ++ x ∷ ys) x ≡ zs ++ ys
    removed [] h = rw (==_refl x)
    removed (z ∷ zs) h =
        let other : (x == z) ≡ false = ground arith in
        let more : has x zs ≡ false = ground arith in
        rw other (ap (λ (r : List ℕ). z ∷ r) (removed zs more))

instance abbrev pub plain_lists : ListLib
plain_lists = record {
  T = List ℕ;
  list_init = [];
  list_empty = is_nil;
  list_push_back = λ q x. q ++ x ∷ [];
  list_pop_front = pop_front;
  list_push_front = λ q x. x ∷ q;
  list_remove = remove;
  elems = λ q. q;
  init-elems = refl;
  empty-elems = λ q. refl;
  push_back-elems = λ q x. refl;
  push_front-elems = λ q x. refl;
  remove-elems = remove_first;
  pop_front-nil = pop_front_nil;
  pop_front-cons = pop_front_cons;
}

-- Thread 1 runs, 2, the root, is ready, 3 waits at the condition 5, and 4 has ended. Thread 1
-- holds the lock 7, thread 2 the lock 8, and nobody the lock 9. In the channel 6 a message of
-- thread 2 is at hand; in the channel 10 `send` and `sync` are raised.
abbrev pub in_list : ℕ → Option ListRef
in_list t =
    if t == 2
    then some ready_list
    else (if t == 3
        then some (waiters (in_waiter 3))
        else (if t == 4 then some free_list else none))

abbrev pub small : State plain_lists
small = record {
  root = 2;
  current = 1;
  num_thrs = 3;
  threads = λ t. record {
    sp = 0;
    handle = if t == 4 then 0 else t;
    in_list = in_list t;
    code = 0;
    magic = thread_magic;
  };
  lists =
      update ListRef-discrete
        (update ListRef-discrete (update ListRef-discrete (λ _. []) ready_list (2 ∷ [])) free_list
          (4 ∷ []))
        (waiters (in_waiter 3)) (3 ∷ []);
  values = λ k. elim k [
    | in_lock k ↦ if k == 9 then 1 else 0
    | send c ↦ if c == 10 then 1 else 0
    | recv c ↦ if c == 6 then 1 else 0
    | sync c ↦ if c == 10 then 1 else 0
    | _ ↦ 0
  ];
  holder = λ k. if k == 7 then 1 else (if k == 8 then 2 else 0);
  cond_waiters = λ c. if c == 5 then 3 ∷ [] else [];
  chans = λ _. record { ptr = 100; size = 2 };
  sizes = λ t. if t == 2 then 4 else 0;
  mem = λ a. a % 256;
  used = λ _. 0;
  freed = [];
  free_blocks = λ d. [];
  interrupts = true;
}

pub small-Inv : Inv small
small-Inv = record {
  lists = record {
    listed = λ r t h. elim (ListRef-discrete r ready_list) [
      | yes e ↦ ground arith
      | no ne ↦ elim (ListRef-discrete r free_list) [
        | yes e ↦ ground arith
        | no ne' ↦ elim (ListRef-discrete r (waiters (in_waiter 3))) [
          | yes e ↦ ground arith
          | no ne'' ↦ ground arith
        ]
      ]
    ];
    nodup = λ r. elim (ListRef-discrete r ready_list) [
      | yes e ↦ ground arith
      | no ne ↦ elim (ListRef-discrete r free_list) [
        | yes e ↦ ground arith
        | no ne' ↦ elim (ListRef-discrete r (waiters (in_waiter 3))) [
          | yes e ↦ ground arith
          | no ne'' ↦ ground arith
        ]
      ]
    ];
  };
  running = (refl, refl, λ e. omega arith);
  locks = λ k. ground arith;
}

sem_down-Safe_example :
    Safe 1 3 small.holder (Taken (in_lock 8) 1 small.holder true) (sem_down 4 (in_lock 8) small)
sem_down-Safe_example =
    sem_down-Safe 3 4 (in_lock 8) small.holder small (omega arith) (Guarantee-refl 1 small.holder)
      small-Inv

lock_acquire-Safe_example :
    Safe 1 3 small.holder (Acquired 8 1 small.holder true) (lock_acquire 4 8 small)
lock_acquire-Safe_example =
    lock_acquire-Safe 3 4 8 small.holder small (omega arith) (λ e. omega arith) (λ e. omega arith)
      (Guarantee-refl 1 small.holder) small-Inv

lock_acquire_waits_example :
    (lock_acquire 4 8 small ≡ fault ready_list)
    ⊎ ((s' : State plain_lists) × Leaves (lock_acquire 4 8 small) s'
        × Inv s'
        × (s'.holder ≡ small.holder)
        × ((s'.threads 1).in_list ≡ some (waiters (in_lock 8))))
lock_acquire_waits_example =
    lock_acquire_waits 3 8 small (λ e. omega arith) small-Inv (λ e. omega arith) (λ e. omega arith)

lock_release_example :
    (s' : State plain_lists) × (lock_release 7 small ≡ ok tt s')
    × Inv s'
    × (s'.holder 7 ≡ 0)
    × (s'.values (in_lock 7) ≡ 1)
    × (s'.current ≡ 1)
    × Guarantee 1 small.holder s'.holder
    × Woken (in_lock 7) (set_holder 7 0 small) s'
lock_release_example = lock_release_lem 7 small (λ e. omega arith) refl small-Inv

cond_wait-Safe_example :
    GivesUp 5 7 small (cond_wait 4 5 7 small)
    × Safe 1 3 small.holder (Acquired 7 1 (without 7 small) true) (cond_wait 4 5 7 small)
cond_wait-Safe_example =
    cond_wait-Safe 3 4 5 7 small (omega arith) (λ e. omega arith) (λ e. omega arith) refl small-Inv

cond_broadcast_example :
    (s' : State plain_lists) × (cond_broadcast 5 7 small ≡ ok tt s') × Broadcast 5 (3 ∷ []) small s'
cond_broadcast_example =
    cond_broadcast_lem 5 7 small (λ e. omega arith) (λ e. omega arith) refl small-Inv

chan_recv_example :
    (s' : State plain_lists) × (chan_recv 4 6 200 8 small ≡ ok 4 s')
    × Inv s'
    × (s'.mem ≡ copy_up 4 small.mem 200 100)
    × (s'.sizes 2 ≡ 4)
    × (s'.values (recv 6) ≡ 0)
    × (s'.values (sync 6) ≡ 1)
    × (s'.values (send 6) ≡ 1)
    × (s'.holder ≡ small.holder)
chan_recv_example =
    chan_recv_lem 4 6 200 8 small (λ e. omega arith) (λ e. omega arith) (λ e. omega arith)
      (omega arith) small-Inv

chan_send_early_example :
    (s' : State plain_lists) × (chan_send 4 10 300 8 small ≡ ok 8 s')
    × ((s'.chans 10).ptr ≡ 300)
    × ((s'.chans 10).size ≡ 1)
    × (s'.mem ≡ small.mem)
    × (s'.values (recv 10) ≡ 1)
    × (s'.values (sync 10) ≡ 0)
chan_send_early_example =
    chan_send_early 4 10 300 8 small (λ e. omega arith) (λ e. omega arith) (omega arith)
      (omega arith) small-Inv
