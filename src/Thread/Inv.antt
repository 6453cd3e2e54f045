-- ===== src/Thread/Inv.antt =====
-- The invariant of the thread component, and what `get` and `put` do to it.
use pithread.Common.{
  ℕ, ◌+◌, ◌≤◌, ◌≡◌, ◌≢◌, ap, true, false, none, some, ite, if_pos, if_neg, ◌==◌, if◌then◌else◌, has,
  IsNodup, has-append, IsNodup-snoc, List, [], ◌∷◌, ◌++◌, arith, subst,
}
use pithread.Thread.ListLib.{ListLib}
use pithread.Thread.State.{in_lock, ListRef, ListRef-discrete, State, Thread, ok, fault}
use pithread.Thread.Sched.{thread_magic, set_list, set_in_list, get, got, put}

-- 1 for a lock that a thread holds.
abbrev pub held : ℕ → ℕ
held t = if t == 0 then 0 else 1

module _ ⦃l : ListLib⦄ where
  -- A thread that some list holds says so itself; no list holds a thread twice.
  pub record Linked (threads : ℕ → Thread) (lists : ListRef → l.T) : Type 0 where
    pub listed :
        (r : ListRef) (t : ℕ)
        → has t (l.elems (lists r)) ≡ true
        → ((threads t).in_list ≡ some r) × ((threads t).magic ≡ thread_magic) × (t ≢ 0)
    pub nodup : (r : ListRef) → IsNodup (l.elems (lists r))

  abbrev pub Lists : State l → Type 0
  Lists s = Linked s.threads s.lists

  -- A thread that is on no list and may run.
  abbrev pub IsFree : ℕ → State l → Type 0
  IsFree t s = ((s.threads t).in_list ≡ none) × ((s.threads t).magic ≡ thread_magic) × (t ≢ 0)

  -- A lock has one token: its semaphore's value, or its holder.
  abbrev pub Locks : State l → Type 0
  Locks s = (k : ℕ) → s.values (in_lock k) + held (s.holder k) ≤ 1

  pub record Inv (s : State l) : Type 0 where
    pub lists : Lists s
    pub running : IsFree s.current s
    pub locks : Locks s

  -- The state after `put t r`, and after `get r` took `t` and left `q`.
  abbrev pub put_state : ℕ → ListRef → State l → State l
  put_state t r s = set_list r (l.list_push_back (s.lists r) t) (set_in_list t (some r) s)

  abbrev pub got_state : ListRef → ℕ → l.T → State l → State l
  got_state r t q s = set_in_list t none (set_list r q s)

  pub put-ok :
      (t : ℕ) (r : ListRef) (s : State l) → IsFree t s → put t r s ≡ ok tt (put_state t r s)
  unfolding put
  put-ok t r s (free, magic, ne) = ground arith

  -- What a list holds after `put`, and what it says of a thread.
  put_elems :
      (t : ℕ) (r q : ListRef) (s : State l)
      → l.elems ((put_state t r s).lists q)
        ≡ ite (ListRef-discrete q r) (l.elems (s.lists r) ++ t ∷ []) (l.elems (s.lists q))
  put_elems t r q s = ground (arith, l.push_back-elems (s.lists r) t)

  pub free_unlisted :
      (t : ℕ) (r : ListRef) (s : State l)
      → IsFree t s
      → Lists s
      → has t (l.elems (s.lists r)) ≡ false
  free_unlisted t r s f v = ground (arith, v.listed r t)

  pub put-Lists :
      (t : ℕ) (r : ListRef) (s : State l) → IsFree t s → Lists s → Lists (put_state t r s)
  put-Lists t r s f v = record {
    listed = λ q u h. elim (ListRef-discrete q r) [
      | yes e ↦
          ground
            (arith, put_elems t r q s, has-append u (l.elems (s.lists r)) (t ∷ []), v.listed r u)
      | no ne ↦ ground (arith, put_elems t r q s, v.listed q u)
    ];
    nodup = λ q. elim (ListRef-discrete q r) [
      | yes e ↦
          rw (put_elems t r q s, if_pos _ e)
            (IsNodup-snoc (l.elems (s.lists r)) t (v.nodup r) (free_unlisted t r s f v))
      | no ne ↦ rw (put_elems t r q s, if_neg _ ne) (v.nodup q)
    ];
  }

  -- `get` on a list whose first thread is `t`: its ASSERTs hold, and it takes `t` off.
  pub get-ok :
      (t : ℕ) (ts : List ℕ) (r : ListRef) (s : State l)
      → Lists s
      → l.elems (s.lists r) ≡ t ∷ ts
      → (q : l.T) × (get r s ≡ ok t (got_state r t q s)) × (l.elems q ≡ ts)
  unfolding get got
  get-ok t ts r s v e =
      let (q, p, rest) = l.pop_front-cons (s.lists r) t ts e in
      (q, rw (p, get) (ground (arith, v.listed r t, ap (has t) e)), rest)

  pub get-nil : (r : ListRef) (s : State l) → l.elems (s.lists r) ≡ [] → get r s ≡ fault r
  unfolding get
  get-nil r s e = rw (l.pop_front-nil (s.lists r) e, get)

  pub got-IsFree :
      (t : ℕ) (ts : List ℕ) (r : ListRef) (q : l.T) (s : State l)
      → Lists s
      → l.elems (s.lists r) ≡ t ∷ ts
      → IsFree t (got_state r t q s)
  got-IsFree t ts r q s v e = ground (arith, v.listed r t, ap (has t) e)

  pub got-Lists :
      (t : ℕ) (ts : List ℕ) (r : ListRef) (q : l.T) (s : State l)
      → Lists s
      → l.elems (s.lists r) ≡ t ∷ ts
      → l.elems q ≡ ts
      → Lists (got_state r t q s)
  got-Lists t ts r q s v e rest = record {
    listed = λ p u h. elim (ListRef-discrete p r) [
      | yes same ↦
          ground (arith, v.listed r u, ap (has u) e, ap (has u) rest, v.nodup r, ap IsNodup e)
      | no ne ↦ ground (arith, v.listed p u, v.listed r t, ap (has t) e)
    ];
    nodup = λ p. elim (ListRef-discrete p r) [
      | yes same ↦ rw (if_pos _ same, rest) (subst IsNodup e (v.nodup r)).1
      | no ne ↦ rw (if_neg _ ne) (v.nodup p)
    ];
  }
