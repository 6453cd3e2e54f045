-- ===== src/Malloc/Cleared.antt =====
-- lib/bitmap.c: `bitmap_set_all` of a bitmap in byte memory.
use pithread.Common.{
  ℕ, zero, suc, ◌+◌, ◌*◌, ◌/◌, ◌%◌, ◌^◌, ◌<◌, ◌≤◌, ◌≡◌, ◌≢◌, ◌⊎◌, inl, inr, refl, ap, ◌∙◌, Bool,
  true, false, Option, none, some, if◌then◌else◌, arith, Option-cases, ℕ_discrete, subst, dec_lt,
  if_pos, if_neg, ==_ne, sym,
}
use pithread.Memory.{Memory}
use pithread.Round.{u32, div_round_up}
use pithread.Words.{bit, bitwise-below, word_or, word_and, word_not}
use pithread.Bitmap.{
  Bitmap, elem_cnt, elem_idx, bit_mask, bitmap_mark, bitmap_reset, bitmap_set, set_elem, set_loop,
  in_range, bitmap_set_multiple,
}
use pithread.Bitmap.Bits.{bit_at}
use pithread.Bitmap.Ranges.{RangeSet, bitmap_set_multiple_lem}
use pithread.Thread.Create.{store_word}
use pithread.Malloc.{load_word}
use pithread.Malloc.Header.{word_here, word_there}
use pithread.Malloc.Bitmaps.{bitmap_at, bitmap_set_at, set_loop_at, set_multiple_at, set_all_at}

below-elem_cnt : (n j : ℕ) → n + 31 < 2 ^ 32 → j < n → j / 32 < elem_cnt n
unfolding elem_cnt div_round_up
below-elem_cnt n j small lt = omega arith

-- The struct of a bitmap at `b` and its words, which begin at `bits`; nothing beside the words has
-- changed.
pub record SetAt (m : Memory) (b : ℕ) (value : Bool) (m' : Memory) : Type 0 where
  pub size : load_word m' b ≡ load_word m b
  pub place : load_word m' (b + 4) ≡ load_word m (b + 4)
  pub all : (j : ℕ) → j < load_word m b → bit_at (bitmap_at m' b) j ≡ value
  pub beside :
      (c : ℕ)
      → (c + 4 ≤ load_word m (b + 4)) ⊎ (load_word m (b + 4) + 4 * elem_cnt (load_word m b) ≤ c)
      → load_word m' c ≡ load_word m c

-- What `bitmap_set` makes of the word of its bit.
abbrev set_word : Bool → ℕ → ℕ → ℕ
set_word value w idx =
    if value then word_or w (bit_mask idx) else word_and w (word_not (bit_mask idx))

set_word-below : (value : Bool) (w idx : ℕ) → set_word value w idx < 2 ^ 32
set_word-below true w idx = bitwise-below _ 32 _ _
set_word-below false w idx = bitwise-below _ 32 _ _

bitmap_set-word :
    (b : Bitmap) (idx : ℕ) (value : Bool)
    → idx < b.bit_cnt
    → bitmap_set b idx value
      ≡ some (set_elem b (elem_idx idx) (set_word value (b.bits (elem_idx idx)) idx))
unfolding bitmap_set bitmap_mark bitmap_reset
bitmap_set-word b idx true lt = ground arith
bitmap_set-word b idx false lt = ground arith

bitmap_set-out :
    (b : Bitmap) (idx : ℕ) (value : Bool) → b.bit_cnt ≤ idx → bitmap_set b idx value ≡ none
unfolding bitmap_set
bitmap_set-out b idx value le = ground arith

-- A bitmap at `b` of `m0`, whose struct and words lie clear of each other.
module _ (m0 : Memory) (b : ℕ) (ne : b ≢ 0) (small : load_word m0 b + 31 < 2 ^ 32)
    (apart : (b + 8 ≤ load_word m0 (b + 4))
      ⊎ (load_word m0 (b + 4) + 4 * elem_cnt (load_word m0 b) ≤ b)) where
  -- In `m` the words are those of `bm`, and all that lies beside them is as in `m0`.
  record Holds (m : Memory) (bm : Bitmap) : Type 0 where
    size : bm.bit_cnt ≡ load_word m0 b
    words : (k : ℕ) → load_word m (load_word m0 (b + 4) + 4 * k) ≡ bm.bits k
    beside :
        (c : ℕ)
        → (c + 4 ≤ load_word m0 (b + 4))
          ⊎ (load_word m0 (b + 4) + 4 * elem_cnt (load_word m0 b) ≤ c)
        → load_word m c ≡ load_word m0 c

  abbrev AreHeld : Option Memory → Option Bitmap → Type 0
  AreHeld (some m) (some bm) = Holds m bm
  AreHeld none none = Unit {0}
  AreHeld _ _ = ⊥

  Holds-size : (m : Memory) (bm : Bitmap) → Holds m bm → load_word m b ≡ load_word m0 b
  Holds-size m bm h =
      h.beside b (elim apart [ inl l ↦ inl (omega arith) | inr l ↦ inr (omega arith) ])

  Holds-place : (m : Memory) (bm : Bitmap) → Holds m bm → load_word m (b + 4) ≡ load_word m0 (b + 4)
  Holds-place m bm h =
      h.beside (b + 4) (elim apart [ inl l ↦ inl (omega arith) | inr l ↦ inr (omega arith) ])

  set_at-out :
      (m : Memory) (idx : ℕ) (value : Bool)
      → load_word m b ≤ idx
      → bitmap_set_at b idx value m ≡ none
  unfolding bitmap_set_at
  set_at-out m idx value le = ground (arith, ne)

  set_at-word :
      (m : Memory) (idx : ℕ) (value : Bool)
      → idx < load_word m b
      → bitmap_set_at b idx value m
        ≡ some (
            store_word m
              (load_word m (b + 4) + 4 * elem_idx idx)
              (set_word value (load_word m (load_word m (b + 4) + 4 * elem_idx idx)) idx))
  unfolding bitmap_set_at
  set_at-word m idx value lt = ground (arith, ne)

  stored-Holds :
      (m : Memory) (bm : Bitmap) (i w : ℕ)
      → i < elem_cnt (load_word m0 b)
      → w < 2 ^ 32
      → Holds m bm
      → Holds (store_word m (load_word m0 (b + 4) + 4 * i) w) (set_elem bm i w)
  stored-Holds m bm i w lt below h = record {
    size = h.size;
    words = λ k. elim (ℕ_discrete k i) [
      | yes e ↦
          ap
            (λ (x : ℕ).
              load_word (store_word m (load_word m0 (b + 4) + 4 * i) w)
                (load_word m0 (b + 4) + 4 * x))
            e
          ∙ word_here m (load_word m0 (b + 4) + 4 * i) w below
          ∙ sym (if_pos (ℕ_discrete k i) e w (bm.bits k))
      | no no_e ↦
          word_there m (load_word m0 (b + 4) + 4 * i) w (load_word m0 (b + 4) + 4 * k)
            (apart_words k i no_e)
          ∙ h.words k
          ∙ sym (if_neg (ℕ_discrete k i) no_e w (bm.bits k))
    ];
    beside = λ c clear.
        word_there m (load_word m0 (b + 4) + 4 * i) w c
          (elim clear [ inl l ↦ inl (omega arith) | inr l ↦ inr (omega arith) ])
        ∙ h.beside c clear;
  }
    where
      apart_words :
          (k i : ℕ)
          → k ≢ i
          → (load_word m0 (b + 4) + 4 * k + 4 ≤ load_word m0 (b + 4) + 4 * i)
            ⊎ (load_word m0 (b + 4) + 4 * i + 4 ≤ load_word m0 (b + 4) + 4 * k)
      apart_words k i no_e = ground arith

  set_at-AreHeld :
      (m : Memory) (bm : Bitmap) (idx : ℕ) (value : Bool)
      → Holds m bm
      → AreHeld (bitmap_set_at b idx value m) (bitmap_set bm idx value)
  unfolding elem_idx
  set_at-AreHeld m bm idx value h = elim (dec_lt idx (load_word m0 b)) [
    | yes lt ↦
        let word = load_word m0 (b + 4) + 4 * elem_idx idx in
        rw
          (
            set_at-word m idx value (subst (λ n. idx < n) (sym (Holds-size m bm h)) lt),
            bitmap_set-word bm idx value (subst (λ n. idx < n) (sym h.size) lt),
            Holds-place m bm h,
            h.words (elem_idx idx),
          )
          (stored-Holds m bm (elem_idx idx) (set_word value (bm.bits (elem_idx idx)) idx)
            (below-elem_cnt (load_word m0 b) idx small lt)
            (set_word-below value (bm.bits (elem_idx idx)) idx) h)
    | no ge ↦
        rw
          (
            set_at-out m idx value (let z = Holds-size m bm h in omega arith),
            bitmap_set-out bm idx value (let z = h.size in omega arith),
          )
          tt
  ]

  AreHeld-next :
      (f : Memory → Option Memory) (g : Bitmap → Option Bitmap) (x : Option Memory)
      (y : Option Bitmap)
      → AreHeld x y
      → ((m : Memory) (bm : Bitmap) → Holds m bm → AreHeld (f m) (g bm))
      → AreHeld
          (elim x [ none ↦ none | some m' ↦ f m' ])
          (elim y [ none ↦ none | some bm' ↦ g bm' ])
  AreHeld-next f g none none p next = tt
  AreHeld-next f g (some m) (some bm) p next = next m bm p
  AreHeld-next f g none (some bm) p next = absurd p
  AreHeld-next f g (some m) none p next = absurd p

  set_loop_at-AreHeld :
      (n : ℕ) (m : Memory) (bm : Bitmap) (start i : ℕ) (value : Bool)
      → Holds m bm
      → AreHeld (set_loop_at n b start i value m) (set_loop n bm start i value)
  unfolding set_loop_at set_loop
  set_loop_at-AreHeld zero m bm start i value h = h
  set_loop_at-AreHeld (suc n) m bm start i value h =
      AreHeld-next (set_loop_at n b start (i + 1) value) (λ bm'. set_loop n bm' start (i + 1) value)
        (bitmap_set_at b (u32 (start + i)) value m) (bitmap_set bm (u32 (start + i)) value)
        (set_at-AreHeld m bm (u32 (start + i)) value h)
        λ m' bm' p. set_loop_at-AreHeld n m' bm' start (i + 1) value p

  if-AreHeld :
      (t : Bool) (x : Option Memory) (y : Option Bitmap)
      → AreHeld x y
      → AreHeld (if t then x else none) (if t then y else none)
  if-AreHeld true x y p = p
  if-AreHeld false x y p = tt

  start-Holds : Holds m0 (bitmap_at m0 b)
  start-Holds = record { size = refl; words = λ k. refl; beside = λ c clear. refl }

  multiple-AreHeld :
      (start cnt : ℕ) (value : Bool)
      → AreHeld
          (set_multiple_at b start cnt value m0)
          (bitmap_set_multiple (bitmap_at m0 b) start cnt value)
  unfolding set_multiple_at bitmap_set_multiple
  multiple-AreHeld start cnt value = rw (==_ne b 0 ne) (
      if-AreHeld (in_range (bitmap_at m0 b) start cnt) _ _
        (set_loop_at-AreHeld cnt m0 (bitmap_at m0 b) start 0 value start-Holds))

  held-SetAt :
      (value : Bool) (m' : Memory) (set : Bitmap)
      → Holds m' set
      → RangeSet (bitmap_at m0 b) 0 (load_word m0 b) value set
      → SetAt m0 b value m'
  held-SetAt value m' set h s = record {
    size = Holds-size m' set h;
    place = Holds-place m' set h;
    all = λ j lt.
        ap (λ (x : ℕ). bit (j % 32) (load_word m' (x + 4 * (j / 32)))) (Holds-place m' set h)
        ∙ ap (bit (j % 32)) (h.words (j / 32))
        ∙ s.inside j (omega arith, omega arith);
    beside = h.beside;
  }

cleared :
    (m : Memory) (b : ℕ) (value : Bool)
    → b ≢ 0
    → load_word m b + 31 < 2 ^ 32
    → (b + 8 ≤ load_word m (b + 4)) ⊎ (load_word m (b + 4) + 4 * elem_cnt (load_word m b) ≤ b)
    → (m' : Memory) × (set_all_at b value m ≡ some (b, m')) × SetAt m b value m'
unfolding set_all_at
cleared m b value ne small apart =
    let n = load_word m b in
    let (set, e, s) =
      bitmap_set_multiple_lem (bitmap_at m b) 0 n value (omega arith) (omega arith) in
    let p =
      subst (AreHeld m b ne small apart (set_multiple_at b 0 n value m)) e
        (multiple-AreHeld m b ne small apart 0 n value) in
    elim (Option-cases (set_multiple_at b 0 n value m)) [
      | inl q ↦ absurd (subst (λ x. AreHeld m b ne small apart x (some set)) q p)
      | inr (m', q) ↦ (
        m',
        rw (==_ne b 0 ne, q),
        held-SetAt m b ne small apart value m' set
            (subst (λ x. AreHeld m b ne small apart x (some set)) q p) s,
      )
    ]

-- `bitmap_set_all` of NULL fails its ASSERT. Of a bitmap in memory whose struct and words lie clear
-- of each other it fails no ASSERT, gives every bit the value, and leaves the struct and all that
-- lies beside the words as it is.
pub set_all_at_lem :
    (m : Memory) (b : ℕ) (value : Bool)
    → load_word m b + 31 < 2 ^ 32
    → (b + 8 ≤ load_word m (b + 4)) ⊎ (load_word m (b + 4) + 4 * elem_cnt (load_word m b) ≤ b)
    → ((b ≡ 0) × (set_all_at b value m ≡ none))
      ⊎ ((b ≢ 0) × ((m' : Memory) × (set_all_at b value m ≡ some (b, m')) × SetAt m b value m'))
unfolding set_all_at
set_all_at_lem m b value small apart = elim (ℕ_discrete b 0) [
  | yes e ↦ inl (e, rw e)
  | no ne ↦ inr (ne, cleared m b value ne small apart)
]
