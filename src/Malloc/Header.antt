-- ===== src/Malloc/Header.antt =====
-- The headers of the arenas in byte memory.
use pithread.Common.{
  ℕ, ◌+◌, ◌/◌, ◌%◌, ◌^◌, ◌<◌, ◌≤◌, ◌≡◌, ◌≢◌, ◌⊎◌, inl, inr, sym, ap, ◌∙◌, List, ==_ne, ==_refl,
  arith,
}
use pithread.Memory.{Memory, store}
use pithread.Thread.Create.{store_word}
use pithread.Malloc.{Desc, magic_of, desc_of, free_cnt_of, set_arena, load_word, desc_at}
use pithread.Malloc.Arena.{IsArena}

store_here : (m : Memory) (a v : ℕ) → store m a v a ≡ v
unfolding store
store_here m a v = rw (==_refl a)

store_there : (m : Memory) (a v b : ℕ) → b ≢ a → store m a v b ≡ m b
unfolding store
store_there m a v b ne = rw (==_ne b a ne)

-- A word that lies clear of another.
abbrev pub Apart : ℕ → ℕ → Type 0
Apart a b = (a + 4 ≤ b) ⊎ (b + 4 ≤ a)

byte_there : (m : Memory) (c w b : ℕ) → (b < c) ⊎ (c + 4 ≤ b) → store_word m c w b ≡ m b
byte_there m c w b apart =
    store_there _ (c + 3) _ b (ne 3 (omega arith))
    ∙ store_there _ (c + 2) _ b (ne 2 (omega arith))
    ∙ store_there _ (c + 1) _ b (ne 1 (omega arith))
    ∙ store_there _ c _ b (λ e. ne 0 (omega arith) (omega arith))
  where
    ne : (k : ℕ) → k < 4 → b ≢ c + k
    ne k lt e = elim apart [ inl l ↦ omega arith | inr l ↦ omega arith ]

pub word_there :
    (m : Memory) (c w a : ℕ) → Apart a c → load_word (store_word m c w) a ≡ load_word m a
word_there m c w a apart = rw (
  byte_there m c w a (far a (omega arith) (omega arith)),
  byte_there m c w (a + 1) (far (a + 1) (omega arith) (omega arith)),
  byte_there m c w (a + 2) (far (a + 2) (omega arith) (omega arith)),
  byte_there m c w (a + 3) (far (a + 3) (omega arith) (omega arith)),
)
  where
    far : (b : ℕ) → a ≤ b → b < a + 4 → (b < c) ⊎ (c + 4 ≤ b)
    far b le lt = elim apart [ inl l ↦ inl (omega arith) | inr l ↦ inr (omega arith) ]

pub word_here : (m : Memory) (a w : ℕ) → w < 2 ^ 32 → load_word (store_word m a w) a ≡ w
word_here m a w lt =
    let b0 : store_word m a w a ≡ w % 256 =
      store_there _ (a + 3) _ a (λ e. omega arith)
      ∙ store_there _ (a + 2) _ a (λ e. omega arith)
      ∙ store_there _ (a + 1) _ a (λ e. omega arith)
      ∙ store_here m a (w % 256) in
    let b1 : store_word m a w (a + 1) ≡ w / 256 % 256 =
      store_there _ (a + 3) _ (a + 1) (λ e. omega arith)
      ∙ store_there _ (a + 2) _ (a + 1) (λ e. omega arith)
      ∙ store_here _ (a + 1) (w / 256 % 256) in
    let b2 : store_word m a w (a + 2) ≡ w / 65536 % 256 =
      store_there _ (a + 3) _ (a + 2) (λ e. omega arith) ∙ store_here _ (a + 2) (w / 65536 % 256) in
    let b3 : store_word m a w (a + 3) ≡ w / 16777216 % 256 =
      store_here _ (a + 3) (w / 16777216 % 256) in
    rw (b0, b1, b2, b3) (omega arith)

-- The three words of a header.
pub record Header (m : Memory) (a magic desc free_cnt : ℕ) : Type 0 where
  pub magic_word : magic_of m a ≡ magic
  pub desc_word : desc_of m a ≡ desc
  pub free_cnt_word : free_cnt_of m a ≡ free_cnt

pub set_arena-Header :
    (m : Memory) (a magic desc free_cnt : ℕ)
    → magic < 2 ^ 32
    → desc < 2 ^ 32
    → free_cnt < 2 ^ 32
    → Header (set_arena a magic desc free_cnt m) a magic desc free_cnt
set_arena-Header m a magic desc free_cnt lm ld lf = record {
  magic_word =
      word_there _ (a + 8) free_cnt a (inl (omega arith))
      ∙ word_there _ (a + 4) desc a (inl (omega arith))
      ∙ word_here m a magic lm;
  desc_word =
      word_there _ (a + 8) free_cnt (a + 4) (inl (omega arith)) ∙ word_here _ (a + 4) desc ld;
  free_cnt_word = word_here _ (a + 8) free_cnt lf;
}

-- A count written to the header of an arena is read back, and the page is an arena as before.
pub free_cnt-IsArena :
    (ds : List Desc) (m : Memory) (d : Desc) (a n : ℕ)
    → n < 2 ^ 32
    → IsArena ds m d a
    → IsArena ds (store_word m (a + 8) n) d a × (free_cnt_of (store_word m (a + 8) n) a ≡ n)
free_cnt-IsArena ds m d a n lt h =
    let magic = word_there m (a + 8) n a (inl (omega arith)) in
    let desc = word_there m (a + 8) n (a + 4) (inl (omega arith)) in
    (
      record {
        aligned = h.aligned;
        not_null = h.not_null;
        below = h.below;
        magic = magic ∙ h.magic;
        owned = λ e. h.owned (sym desc ∙ e);
        owner = ap (desc_at ds) desc ∙ h.owner;
        some_bytes = h.some_bytes;
        fits = h.fits;
      },
      word_here m (a + 8) n lt,
    )
