-- ===== src/Str/Find.antt =====
-- The length of a string, and the searches for a character.
use pithread.Common.{
  ℕ, zero, suc, ◌+◌, ◌%◌, ◌≤◌, ◌<◌, ◌≡◌, ◌≢◌, ◌⊎◌, inl, inr, refl, sym, ap, ◌∙◌, ==_ne, ==_refl,
  dec_lt, ℕ_discrete, arith,
}
use pithread.Memory.{Memory}
use pithread.Str.{Run, done, strlen_loop, strlen, strchr_loop, strchr, memchr_loop, memchr}

-- A string of `n` characters lies at `p`.
pub record IsString (m : Memory) (p n : ℕ) : Type 0 where
  pub char : (i : ℕ) → i < n → m (p + i) ≢ 0
  pub end : m (p + n) ≡ 0

strlen_loop_lem :
    (fuel : ℕ) (m : Memory) (p n k : ℕ)
    → IsString m p n
    → k ≤ n
    → n < k + fuel
    → strlen_loop fuel m p k ≡ done n
unfolding strlen_loop
strlen_loop_lem zero m p n k s le lt = absurd (omega arith)
strlen_loop_lem (suc fuel) m p n k s le lt = elim (dec_lt k n) [
  | yes l ↦
      rw (==_ne (m (p + k)) 0 (s.char k l), strlen_loop)
        (strlen_loop_lem fuel m p n (k + 1) s (omega arith) (omega arith))
  | no l ↦
      let k-n : k ≡ n = omega arith in
      let at : m (p + k) ≡ 0 = ap (λ (j : ℕ). m (p + j)) k-n ∙ s.end in
      rw (at, strlen_loop) (ap done k-n)
]

-- `strlen` returns the number of characters, with more fuel than that.
pub strlen_lem :
    (fuel : ℕ) (m : Memory) (p n : ℕ) → p ≢ 0 → IsString m p n → n < fuel → strlen fuel m p ≡ done n
unfolding strlen
strlen_lem fuel m p n ne s lt =
    rw (==_ne p 0 ne) (strlen_loop_lem fuel m p n 0 s (omega arith) (omega arith))

-- `a` is the first of the places from `p` on that holds `c`.
pub record FirstAt (m : Memory) (p c a : ℕ) : Type 0 where
  pub after : p ≤ a
  pub here : m a ≡ c
  pub before : (i : ℕ) → p ≤ i → i < a → m i ≢ c

first_next : (m : Memory) (p c a : ℕ) → m p ≢ c → FirstAt m (p + 1) c a → FirstAt m p c a
first_next m p c a ne f = record {
  after = let h = f.after in omega arith;
  here = f.here;
  before = λ i le lt. elim (ℕ_discrete i p) [
    | yes e ↦ λ q. ne (ap m (sym e) ∙ q)
    | no d ↦ f.before i (omega arith) lt
  ];
}

-- What the search of the string for `c` comes to: the first place, the end included, or NULL.
abbrev pub CharFound : Memory → ℕ → ℕ → ℕ → Run ℕ → Type 0
CharFound m p n c r =
    ((a : ℕ) × (r ≡ done a) × (a ≤ p + n) × FirstAt m p c a)
    ⊎ ((r ≡ done 0) × ((i : ℕ) → i ≤ n → m (p + i) ≢ c))

pub tail-IsString : (m : Memory) (p n : ℕ) → IsString m p (suc n) → IsString m (p + 1) n
tail-IsString m p n s = record {
  char = λ i lt e.
      s.char (i + 1) (omega arith) (ap m (let q : p + (i + 1) ≡ p + 1 + i = omega arith in q) ∙ e);
  end = ap m (let q : p + 1 + n ≡ p + suc n = omega arith in q) ∙ s.end;
}

char_next :
    (m : Memory) (p n c : ℕ) (r : Run ℕ)
    → m p ≢ c
    → CharFound m (p + 1) n c r
    → CharFound m p (suc n) c r
char_next m p n c r ne (inl (a, e, le, f)) = inl (a, e, omega arith, first_next m p c a ne f)
char_next m p n c r ne (inr (e, all)) = inr (e, char_all)
  where
    char_all : (i : ℕ) → i ≤ suc n → m (p + i) ≢ c
    char_all zero le q = ne (ap m (let z : p ≡ p + 0 = omega arith in z) ∙ q)
    char_all (suc i) le q =
        all i (omega arith) (ap m (let z : p + 1 + i ≡ p + suc i = omega arith in z) ∙ q)

-- What the search of a block comes to.
abbrev pub ByteFound : Memory → ℕ → ℕ → ℕ → ℕ → Type 0
ByteFound m p n c a =
    ((a < p + n) × FirstAt m p c a) ⊎ ((a ≡ 0) × ((i : ℕ) → i < n → m (p + i) ≢ c))

first_here : (m : Memory) (p c : ℕ) → m p ≡ c → FirstAt m p c p
first_here m p c e = record {
  after = omega arith;
  here = e;
  before = λ i le lt. absurd (omega arith);
}

byte_next :
    (m : Memory) (p n c a : ℕ) → m p ≢ c → ByteFound m (p + 1) n c a → ByteFound m p (suc n) c a
byte_next m p n c a ne (inl (lt, f)) = inl (omega arith, first_next m p c a ne f)
byte_next m p n c a ne (inr (e, all)) = inr (e, byte_all)
  where
    byte_all : (i : ℕ) → i < suc n → m (p + i) ≢ c
    byte_all zero lt q = ne (ap m (let z : p ≡ p + 0 = omega arith in z) ∙ q)
    byte_all (suc i) lt q =
        all i (omega arith) (ap m (let z : p + 1 + i ≡ p + suc i = omega arith in z) ∙ q)

strchr_loop_lem :
    (n fuel : ℕ) (m : Memory) (p c : ℕ)
    → IsString m p n
    → n < fuel
    → CharFound m p n c (strchr_loop fuel m p c)
unfolding strchr_loop
strchr_loop_lem n zero m p c s lt = absurd (omega arith)
strchr_loop_lem zero (suc fuel) m p c s lt =
    let end : m p ≡ 0 = ap m (let z : p ≡ p + 0 = omega arith in z) ∙ s.end in
    elim (ℕ_discrete (m p) c) [
      | yes e ↦ rw (e, ==_refl c, strchr_loop) (inl (p, refl, omega arith, first_here m p c e))
      | no ne ↦
          rw (==_ne (m p) c ne, end, strchr_loop)
            (inr (refl, λ i le q. ne (ap m (let z : p ≡ p + i = omega arith in z) ∙ q)))
    ]
strchr_loop_lem (suc n) (suc fuel) m p c s lt = elim (ℕ_discrete (m p) c) [
  | yes e ↦ rw (e, ==_refl c, strchr_loop) (inl (p, refl, omega arith, first_here m p c e))
  | no ne ↦
      let more : m p ≢ 0 =
        λ q. s.char 0 (omega arith) (ap m (let z : p + 0 ≡ p = omega arith in z) ∙ q) in
      rw (==_ne (m p) c ne, ==_ne (m p) 0 more, strchr_loop)
        (char_next m p n c (strchr_loop fuel m (p + 1) c) ne
          (strchr_loop_lem n fuel m (p + 1) c (tail-IsString m p n s) (omega arith)))
]

-- `strchr` of a byte returns the first place of the string that holds it, where the end counts
-- for 0, or NULL when there is none.
pub strchr_lem :
    (fuel : ℕ) (m : Memory) (p n c : ℕ)
    → p ≢ 0
    → IsString m p n
    → n < fuel
    → c < 256
    → CharFound m p n c (strchr fuel m p c)
unfolding strchr
strchr_lem fuel m p n c ne s lt byte =
    let same : c % 256 ≡ c = omega arith in
    rw (==_ne p 0 ne, same) (strchr_loop_lem n fuel m p c s lt)

memchr_loop_lem : (n : ℕ) (m : Memory) (p c : ℕ) → ByteFound m p n c (memchr_loop n m p c)
unfolding memchr_loop
memchr_loop_lem zero m p c = inr (refl, λ i lt. absurd (omega arith))
memchr_loop_lem (suc n) m p c = elim (ℕ_discrete (m p) c) [
  | yes e ↦ rw (e, ==_refl c, memchr_loop) (inl (omega arith, first_here m p c e))
  | no ne ↦
      rw (==_ne (m p) c ne, memchr_loop)
        (byte_next m p n c (memchr_loop n m (p + 1) c) ne (memchr_loop_lem n m (p + 1) c))
]

-- `memchr` returns the first place of the block that holds the byte, or NULL when there is none.
memchr_lem :
    (m : Memory) (p ch n : ℕ)
    → p ≢ 0
    → (a : ℕ) × (memchr m p ch n ≡ done a) × ByteFound m p n (ch % 256) a
unfolding memchr
memchr_lem m p ch n ne =
    (memchr_loop n m p (ch % 256), rw (==_ne p 0 ne), memchr_loop_lem n m p (ch % 256))
