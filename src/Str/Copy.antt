-- ===== src/Str/Copy.antt =====
-- `strlcpy`.
use pithread.Common.{
  ℕ, ◌+◌, ◌-◌, ◌≤◌, ◌<◌, ◌≡◌, ◌≢◌, ◌⊎◌, sym, ap, ◌∙◌, true, ltb, ==_ne, ==_refl, arith,
}
use pithread.Memory.{Memory, store, copy_up}
use pithread.Memory.Blocks.{copy_up-outside, copy_up-inside, memcpy-ok}
use pithread.Str.{done, strlcpy, copy_end, smaller}
use pithread.Str.Find.{IsString, strlen_lem}

copy_end_lem :
    (m : Memory) (dst src n : ℕ)
    → dst ≢ 0
    → src ≢ 0
    → copy_end m dst src n ≡ done (store (copy_up n m dst src) (dst + n) 0)
unfolding copy_end
copy_end_lem m dst src n nd ns = rw (memcpy-ok m dst src n nd ns, copy_end)

-- `k` bytes of `src` and an end are at `dst`, and nothing else has changed.
pub record Copied (m : Memory) (dst src k : ℕ) (m' : Memory) : Type 0 where
  pub string : IsString m' dst k
  pub chars : (i : ℕ) → i < k → m' (dst + i) ≡ m (src + i)
  pub outside : (a : ℕ) → (a < dst) ⊎ (dst + k < a) → m' a ≡ m a

copied_char :
    (m : Memory) (dst src k i : ℕ)
    → i < k
    → (dst + k < src) ⊎ (src + k < dst)
    → store (copy_up k m dst src) (dst + k) 0 (dst + i) ≡ m (src + i)
unfolding store
copied_char m dst src k i lt apart = rw (==_ne (dst + i) (dst + k) (λ e. omega arith)) (
    copy_up-inside k m dst src (dst + i) (omega arith) (omega arith, omega arith)
    ∙ ap m (omega arith))

copied :
    (m : Memory) (dst src n k : ℕ)
    → IsString m src n
    → k ≤ n
    → (dst + k < src) ⊎ (src + n < dst)
    → Copied m dst src k (store (copy_up k m dst src) (dst + k) 0)
unfolding store
copied m dst src n k s le apart = record {
  string = record {
    char = λ i lt e. s.char i (omega arith) (sym (copied_char m dst src k i lt (omega arith)) ∙ e);
    end = rw (==_refl (dst + k));
  };
  chars = λ i lt. copied_char m dst src k i lt (omega arith);
  outside = λ a out.
      rw (==_ne a (dst + k) (λ e. omega arith)) (copy_up-outside k m dst src a (omega arith));
}

-- `strlcpy` into `size` bytes apart from the string leaves there the string, or its first `size - 1`
-- characters when it is longer, ended by a null byte; it writes nothing else, and returns the
-- length of the string.
pub strlcpy_lem :
    (fuel : ℕ) (m : Memory) (dst src size n : ℕ)
    → dst ≢ 0
    → src ≢ 0
    → 0 < size
    → IsString m src n
    → n < fuel
    → (dst + size ≤ src) ⊎ (src + n < dst)
    → (m' : Memory) × (strlcpy fuel m dst src size ≡ done (n, m'))
      × Copied m dst src (smaller n (size - 1)) m'
unfolding strlcpy
strlcpy_lem fuel m dst src size n nd ns pos s lt apart =
    let k = smaller n (size - 1) in
    let some_room : ltb 0 size ≡ true = ground arith in
    let le : (k ≤ n) × (k < size) = ground arith in
    (
      store (copy_up k m dst src) (dst + k) 0,
      rw (
        ==_ne dst 0 nd,
        ==_ne src 0 ns,
        strlen_lem fuel m src n ns s lt,
        strlcpy,
        some_room,
        copy_end_lem m dst src k nd ns,
      ),
      copied m dst src n k s le.0 (omega (arith, le.1)),
    )
