-- ===== src/Thread/Safe.antt =====
-- What a call does at every point where it gives up the processor, against every conduct of the
-- other threads that keeps the invariant.
use pithread.Common.{ℕ, zero, suc, ◌≤◌, ◌≡◌, ◌≢◌, arith}
use pithread.Thread.ListLib.{ListLib}
use pithread.Thread.State.{
  ready_list, State, Res, ok, switched, failed, fault, halted, out_of_fuel, M, and_then,
}
use pithread.Thread.Inv.{Inv}

-- Thread `t` holds the same locks after as before.
abbrev pub Keeps : ℕ → (ℕ → ℕ) → (ℕ → ℕ) → Type 0
Keeps t h h' = (k : ℕ) → (h k ≡ t → h' k ≡ t) × (h' k ≡ t → h k ≡ t)

-- Thread `me` gives and takes locks for itself only.
abbrev pub Guarantee : ℕ → (ℕ → ℕ) → (ℕ → ℕ) → Type 0
Guarantee me h h' = (t : ℕ) → t ≢ 0 → t ≢ me → Keeps t h h'

-- The call has switched, and left this state to the next thread.
abbrev pub Leaves : ⦃l : ListLib⦄ → {A : Type 0} → Res l A → State l → Type 0
Leaves (switched s k) t = s ≡ t
Leaves _ t = ⊥

module _ ⦃l : ListLib⦄ (me : ℕ) where
  -- `Safe n h P r`: thread `me`, at work on a call that comes to `r`, fails no ASSERT, pops no
  -- empty list but the ready list (when no thread can run), and leaves each of its first `n`
  -- switches with the invariant; if it returns by then it does so with `P`. From `h`, who held
  -- the locks when `me` got the processor, it has given and taken locks for itself only. It relies
  -- on the other threads to keep the invariant, to leave `me` the locks that it holds and no
  -- others, and to hand the processor back to `me`.
  abbrev pub Safe : {A : Type 0} → ℕ → (ℕ → ℕ) → (A → State l → Type 0) → Res l A → Type 0
  Safe n h P (ok a s) = Guarantee me h s.holder × P a s
  Safe zero h P (switched s k) = Guarantee me h s.holder × Inv s
  Safe (suc n) h P (switched s k) =
      Guarantee me h s.holder
      × Inv s
      × ((s' : State l)
          → Inv s'
          → s'.current ≡ me
          → Keeps me s.holder s'.holder
          → Safe n s'.holder P (k s'))
  Safe n h P failed = ⊥
  Safe n h P (fault r) = r ≡ ready_list
  Safe n h P (halted s) = Unit {0}
  Safe n h P out_of_fuel = ⊥

  pub Safe-bind :
      {A B : Type 0} (P : A → State l → Type 0) (Q : B → State l → Type 0) (n : ℕ) (h : ℕ → ℕ)
      (r : Res l A) (f : A → M B)
      → Safe n h P r
      → ((a : A) (s : State l) (k : ℕ) (h' : ℕ → ℕ)
          → k ≤ n
          → Guarantee me h' s.holder
          → P a s
          → Safe k h' Q (f a s))
      → Safe n h Q (and_then r f)
  Safe-bind P Q n h (ok a s) f p next = next a s n h (omega arith) p.0 p.1
  Safe-bind P Q zero h (switched s k) f p next = p
  Safe-bind P Q (suc n) h (switched s k) f p next = (
    p.0,
    p.1,
    λ s' v c kept.
        Safe-bind P Q n s'.holder (k s') f (p.2 s' v c kept)
          (λ a t j h' b. next a t j h' (omega arith)),
  )
  Safe-bind P Q n h failed f p next = p
  Safe-bind P Q n h (fault r) f p next = p
  Safe-bind P Q n h (halted s) f p next = p
  Safe-bind P Q n h out_of_fuel f p next = p

  pub Safe-mono :
      {A : Type 0} (P Q : A → State l → Type 0) (n : ℕ) (h : ℕ → ℕ) (r : Res l A)
      → Safe n h P r
      → ((a : A) (s : State l) → P a s → Q a s)
      → Safe n h Q r
  Safe-mono P Q n h (ok a s) p weaken = (p.0, weaken a s p.1)
  Safe-mono P Q zero h (switched s k) p weaken = p
  Safe-mono P Q (suc n) h (switched s k) p weaken =
      (p.0, p.1, λ s' v c kept. Safe-mono P Q n s'.holder (k s') (p.2 s' v c kept) weaken)
  Safe-mono P Q n h failed p weaken = p
  Safe-mono P Q n h (fault r) p weaken = p
  Safe-mono P Q n h (halted s) p weaken = p
  Safe-mono P Q n h out_of_fuel p weaken = p

pub Guarantee-refl : (me : ℕ) (h : ℕ → ℕ) → Guarantee me h h
Guarantee-refl me h t ne other k = (λ e. e, λ e. e)

pub Keeps-refl : (t : ℕ) (h : ℕ → ℕ) → Keeps t h h
Keeps-refl t h k = (λ e. e, λ e. e)

pub Keeps-trans : (t : ℕ) (h h' h'' : ℕ → ℕ) → Keeps t h h' → Keeps t h' h'' → Keeps t h h''
Keeps-trans t h h' h'' p q k = (λ e. (q k).0 ((p k).0 e), λ e. (p k).1 ((q k).1 e))

pub Guarantee-trans :
    (me : ℕ) (h h' h'' : ℕ → ℕ) → Guarantee me h h' → Guarantee me h' h'' → Guarantee me h h''
Guarantee-trans me h h' h'' p q t ne other = Keeps-trans t h h' h'' (p t ne other) (q t ne other)
