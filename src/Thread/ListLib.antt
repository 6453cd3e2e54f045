-- ===== src/Thread/ListLib.antt =====
-- The intrusive lists of <list.h>, which the repository includes and does not hold. A list links
-- elements that are embedded in other structures, so what it holds are the addresses of those.
use pithread.Common.{ℕ, ◌≡◌, Bool, List, [], ◌∷◌, ◌++◌, Option, none, some, is_nil, has, false}

-- `none` of `list_pop_front` stands for its call on an empty list, which is undefined behaviour.
pub record ListLib : Type 1 where
  pub T : Type 0
  pub list_init : T
  pub list_empty : T → Bool
  pub list_push_back : T → ℕ → T
  pub list_pop_front : T → Option (ℕ × T)
  pub list_push_front : T → ℕ → T
  pub list_remove : T → ℕ → T
  -- The elements from front to back.
  pub elems : T → List ℕ
  pub init-elems : elems list_init ≡ []
  pub empty-elems : (q : T) → list_empty q ≡ is_nil (elems q)
  pub push_back-elems : (q : T) (x : ℕ) → elems (list_push_back q x) ≡ elems q ++ x ∷ []
  pub push_front-elems : (q : T) (x : ℕ) → elems (list_push_front q x) ≡ x ∷ elems q
  pub remove-elems :
      (q : T) (x : ℕ) (xs ys : List ℕ)
      → elems q ≡ xs ++ x ∷ ys
      → has x xs ≡ false
      → elems (list_remove q x) ≡ xs ++ ys
  pub pop_front-nil : (q : T) → elems q ≡ [] → list_pop_front q ≡ none
  pub pop_front-cons :
      (q : T) (x : ℕ) (xs : List ℕ)
      → elems q ≡ x ∷ xs
      → (q' : T) × (list_pop_front q ≡ some (x, q')) × (elems q' ≡ xs)
