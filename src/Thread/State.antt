-- ===== src/Thread/State.antt =====
-- The state that thread.c keeps, in the words of thread.h, and the outcomes of a call. A thread,
-- a lock, a condition or a channel is named by its address, and 0 is NULL.
use pithread.Common.{
  ℕ, ◌≡◌, ◌≢◌, refl, if_pos, if_neg, Bool, Option, List, ite, ℕ_discrete, if◌then◌else◌,
}
use pithread.Memory.{Memory}
use pithread.Thread.ListLib.{ListLib}

-- Where a semaphore stands: on its own, or inside another structure at an address. The waiter of
-- `cond_wait` lies on the stack of the thread that waits, and goes by that thread's address.
pub data SemRef : Type 0 where
  plain : ℕ → SemRef
  in_lock : ℕ → SemRef
  in_waiter : ℕ → SemRef
  send : ℕ → SemRef
  recv : ℕ → SemRef
  sync : ℕ → SemRef

-- The lists of threads: those of thread.c, a thread's `join_list`, a semaphore's `waiters`.
pub data ListRef : Type 0 where
  ready_list : ListRef
  free_list : ListRef
  join_list : ListRef
  joiners : ℕ → ListRef
  waiters : SemRef → ListRef

unfoldable pub SemRef-discrete : Discrete SemRef
SemRef-discrete = hlevel ℕ_discrete

unfoldable pub ListRef-discrete : Discrete ListRef
ListRef-discrete = hlevel (ℕ_discrete, SemRef-discrete)

-- A store with one place written.
abbrev pub update {ℓ κ} : {K : Type ℓ} {V : Type κ} → Discrete K → (K → V) → K → V → K → V
update d f k v j = ite (d j k) v (f j)

pub update_self {ℓ κ} :
    {K : Type ℓ} {V : Type κ} (d : Discrete K) (f : K → V) (k : K) (v : V) → update d f k v k ≡ v
update_self d f k v = rw (if_pos (d k k) refl)

pub update-ne {ℓ κ} :
    {K : Type ℓ} {V : Type κ} (d : Discrete K) (f : K → V) (k j : K) (v : V)
    → j ≢ k
    → update d f k v j ≡ f j
update-ne d f k j v ne = rw (if_neg (d j k) ne)

pub record Thread : Type 0 where
  pub sp : ℕ
  pub handle : ℕ
  pub in_list : Option ListRef
  pub code : ℕ
  pub magic : ℕ

-- `size` points at the parameter of the sender's `chan_send`, and goes by that thread's address.
pub record Channel : Type 0 where
  pub ptr : ℕ
  pub size : ℕ

-- `root` is the address of the static `root`, `sizes` the `size` parameter of each thread's
-- `chan_send`, `used` the words of the page allocator's `pool.used_map`,
-- `freed` the addresses that went to `free`, the latest first, and `free_blocks` the `free_list` of
-- each descriptor of malloc.c, by the descriptor's address.
pub record State (l : ListLib) : Type 0 where
  pub root : ℕ
  pub current : ℕ
  pub num_thrs : ℕ
  pub threads : ℕ → Thread
  pub lists : ListRef → l.T
  pub values : SemRef → ℕ
  pub holder : ℕ → ℕ
  pub cond_waiters : ℕ → l.T
  pub chans : ℕ → Channel
  pub sizes : ℕ → ℕ
  pub mem : Memory
  pub used : ℕ → ℕ
  pub freed : List ℕ
  pub free_blocks : ℕ → l.T
  pub interrupts : Bool

-- What a call comes to: it returns; it has called `swtch`, leaving a state to the next thread, and
-- goes on with the state in which it is switched back to; an ASSERT failed; it popped an empty
-- list; it called `halt`; or the model's bound on a loop was met.
pub data Res (l : ListLib) (A : Type 0) : Type 0 where
  ok : A → State l → Res l A
  switched : State l → (State l → Res l A) → Res l A
  failed : Res l A
  fault : ListRef → Res l A
  halted : State l → Res l A
  out_of_fuel : Res l A

module _ ⦃l : ListLib⦄ where
  abbrev pub M : Type 0 → Type 0
  M A = State l → Res l A

  abbrev pub and_then : {A B : Type 0} → Res l A → (A → M B) → Res l B
  and_then (ok a s) f = f a s
  and_then (switched s k) f = switched s (λ s'. and_then (k s') f)
  and_then failed f = failed
  and_then (fault r) f = fault r
  and_then (halted s) f = halted s
  and_then out_of_fuel f = out_of_fuel

  infixl 5 ◌>>=◌ ◌>>◌
  abbrev pub ◌>>=◌ : {A B : Type 0} → M A → (A → M B) → M B
  ◌>>=◌ m f s = and_then (m s) f

  abbrev pub ◌>>◌ : {B : Type 0} → M (Unit {0}) → M B → M B
  ◌>>◌ m n s = and_then (m s) (λ _. n)

  abbrev pub pure : {A : Type 0} → A → M A
  pure a s = ok a s

  abbrev pub ask : {A : Type 0} → (State l → A) → M A
  ask f s = ok (f s) s

  abbrev pub modify : (State l → State l) → M (Unit {0})
  modify f s = ok tt (f s)

  -- ASSERT, which prints and halts when its test is false.
  abbrev pub assert : (State l → Bool) → M (Unit {0})
  assert test s = if test s then ok tt s else failed

  abbrev pub when : Bool → M (Unit {0}) → M (Unit {0})
  when b m s = if b then m s else ok tt s
