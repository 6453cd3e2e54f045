-- ===== src/Debug/Dump.antt =====
-- lib/debug.c: `hex_dump` prints the bytes of its range in lines of 16 columns.
use pithread.Common.{
  ℕ, zero, suc, ◌+◌, ◌-◌, ◌*◌, ◌/◌, ◌%◌, ◌^◌, ◌≤◌, ◌<◌, ◌≡◌, refl, ap, ◌∙◌, Bool, List, ltb, arith,
  dec_lt, ℕ_discrete, Bool-cases, inl, inr,
}
use pithread.Memory.{Memory}
use pithread.Round.{u32}
use pithread.Stdio.Print.{wrote}
use pithread.Debug.{line_end, hex_dump}
use pithread.Debug.Columns.{columns, both}
use pithread.Debug.Line.{line_cnt, line_text, dump_line_lem}

-- The bytes of a dump of `buf` by their places, which begin with `lo`.
abbrev pub byte_at : Memory → ℕ → ℕ → ℕ → ℕ
byte_at m lo buf p = m (buf + (p - lo)) % 256

-- The places of a dump of `size` bytes, the first of them `ofs`, in whole lines.
unfoldable pub dump_text : Memory → ℕ → ℕ → ℕ → Bool → List ℕ
dump_text m ofs buf size ascii =
    columns (line_text ascii ofs (ofs + size) (byte_at m ofs buf)) (ofs / 16) (line_cnt ofs size)

-- The bytes of a line.
abbrev line_size : ℕ → ℕ → ℕ
line_size ofs size = line_end (ofs % 16) size - ofs % 16

line_end_lem :
    (start size : ℕ)
    → start < 16
    → 0 < size
    → (start < line_end start size)
      × (line_end start size ≤ 16)
      × (line_end start size - start ≤ size)
      × ((line_end start size < 16) → line_end start size ≡ start + size)
line_end_lem start size lt pos = elim (Bool-cases (ltb size (16 - start))) [
  | inl e ↦ rw e (ground arith)
  | inr e ↦ rw e (ground arith)
]

line_cnt_pos : (ofs size : ℕ) → 0 < size → line_cnt ofs size ≡ (ofs + size + 15) / 16 - ofs / 16
line_cnt_pos ofs zero pos = absurd (omega arith)
line_cnt_pos ofs (suc k) pos = omega arith

-- The lines from the place `ofs` on, of a dump that begins at `lo`; all lines but the first begin with
-- their first column.
hex_dump-lines :
    (fuel : ℕ) (m : Memory) (lo hi start_buf : ℕ) (ascii : Bool) (ofs buf size : ℕ)
    → size ≤ fuel
    → ofs + size ≡ hi
    → hi ≤ 2 ^ 32
    → lo ≤ ofs
    → buf + lo ≡ start_buf + ofs
    → ((p : ℕ) → p < ofs % 16 → 16 * (ofs / 16) + p < lo)
    → hex_dump fuel m ofs buf size ascii
      ≡ wrote
          (columns (line_text ascii lo hi (byte_at m lo start_buf)) (ofs / 16) (line_cnt ofs size))
unfolding hex_dump
hex_dump-lines fuel m lo hi start_buf ascii ofs buf zero enough e small from place first = refl
hex_dump-lines zero m lo hi start_buf ascii ofs buf (suc k) enough e small from place first =
    absurd (omega arith)
hex_dump-lines (suc fuel) m lo hi start_buf ascii ofs buf (suc k) enough e small from place first =
    let start = ofs % 16 in
    let end = line_end start (suc k) in
    let (some_bytes, fits, within, full) = line_end_lem start (suc k) (omega arith) (omega arith) in
    let f = line_text ascii lo hi (byte_at m lo start_buf) in
    both _ _ (f (ofs / 16)) _
      (dump_line_lem m lo hi ofs buf (ofs / 16) start end (byte_at m lo start_buf) (omega arith)
        some_bytes fits (omega arith) first from (omega arith)
        (λ p le lt. let short = full (omega arith) in omega arith)
        (λ p a le eq.
          ap (λ (x : ℕ). m x % 256) (let z : start_buf + (p - lo) ≡ a = omega arith in z))
        ascii)
      (elim (ℕ_discrete (suc k - (end - start)) 0) [
        | yes z ↦
            ap
              (λ (x : ℕ). hex_dump fuel m (u32 (ofs + (end - start))) (buf + (end - start)) x ascii)
              z
            ∙ ap (λ (x : ℕ). wrote (columns f (ofs / 16 + 1) x))
                (let none_left : 0 ≡ (ofs + k) / 16 - ofs / 16 = omega arith in none_left)
        | no ne ↦
            let more : end ≡ 16 = elim (dec_lt end 16) [
              | yes lt ↦ let short = full lt in absurd (omega arith)
              | no ge ↦ omega arith
            ] in
            let cnt = line_cnt_pos (ofs + (end - start)) (suc k - (end - start)) (omega arith) in
            ap (λ (x : ℕ). hex_dump fuel m x (buf + (end - start)) (suc k - (end - start)) ascii)
              (let z : (ofs + (end - start)) % 2 ^ 32 ≡ ofs + (end - start) = omega arith in z)
            ∙ hex_dump-lines fuel m lo hi start_buf ascii (ofs + (end - start))
                (buf + (end - start)) (suc k - (end - start)) (omega arith) (omega arith) small
                (omega arith) (omega arith) (λ p lt. absurd (omega arith))
            ∙ ap
                (λ (x : ℕ).
                  wrote (columns f x (line_cnt (ofs + (end - start)) (suc k - (end - start)))))
                (let z : (ofs + (end - start)) / 16 ≡ ofs / 16 + 1 = omega arith in z)
            ∙ ap (λ (x : ℕ). wrote (columns f (ofs / 16 + 1) x))
                (let z : line_cnt (ofs + (end - start)) (suc k - (end - start))
                      ≡ (ofs + k) / 16 - ofs / 16 =
                    omega arith in
                  z)
      ])

-- `hex_dump` of bytes at places below 2 ^ 32, with fuel for a line for each, prints whole lines: each its
-- place with eight digits, its bytes with two in the columns of their places, and for `ascii` their
-- characters between bars.
pub hex_dump_lem :
    (fuel : ℕ) (m : Memory) (ofs buf size : ℕ) (ascii : Bool)
    → size ≤ fuel
    → ofs + size ≤ 2 ^ 32
    → hex_dump fuel m ofs buf size ascii ≡ wrote (dump_text m ofs buf size ascii)
unfolding dump_text
hex_dump_lem fuel m ofs buf size ascii enough small =
    hex_dump-lines fuel m ofs (ofs + size) buf ascii ofs buf size enough refl small (omega arith)
      refl (λ p lt. omega arith)
