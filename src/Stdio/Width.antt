-- ===== src/Stdio/Width.antt =====
-- The width of what `format_integer` prints.
use pithread.Common.{
  ℕ, ◌+◌, ◌-◌, ◌*◌, ◌^◌, ◌<◌, ◌≡◌, refl, sym, ap, ◌∙◌, Bool, true, false, not, ◌&&◌, some, List, [],
  ◌∷◌, ◌++◌, ◌==◌, if◌then◌else◌, length, length-append, length-replicate, replicate, arith,
}
use pithread.Stdio.{Flags, Conversion}
use pithread.Stdio.Format.{
  IntegerBase, sign_char, prefix_char, pad_cnt, two_if, one_if, out_if, write_integer, fill_buf,
  format_integer,
}
use pithread.Stdio.Bases.{IsBase}
use pithread.Stdio.Buffer.{fill_buf_lem}

length-out_if : (t : Bool) (n c : ℕ) → length (out_if t (replicate n c)) ≡ (if t then n else 0)
length-out_if true n c = length-replicate n c
length-out_if false n c = refl

length-sign : (sign : ℕ) → length (out_if (not (sign == 0)) (sign ∷ [])) ≡ one_if sign
length-sign sign = ground arith

length-prefix : (x : ℕ) → length (out_if (not (x == 0)) (b'0' ∷ x ∷ [])) ≡ two_if x
length-prefix x = ground arith

-- How often the padding is written.
abbrev pub pads : Flags → ℕ
pads f = if f.minus && f.zero_pad then 2 else 1

three_pads :
    (minus zero_pad : Bool) (n : ℕ)
    → (if not minus && not zero_pad then n else 0)
        + (if zero_pad then n else 0)
        + (if minus then n else 0)
      ≡ (if minus && zero_pad then 2 else 1) * n
three_pads true true n = omega arith
three_pads true false n = omega arith
three_pads false true n = omega arith
three_pads false false n = omega arith

length-write :
    (f : Flags) (pad sign x : ℕ) (buf : List ℕ)
    → length (write_integer f pad sign x buf) ≡ one_if sign + two_if x + length buf + pads f * pad
unfolding write_integer
length-write f pad sign x buf =
    let p1 = out_if (not f.minus && not f.zero_pad) (replicate pad b' ') in
    let p2 = out_if (not (sign == 0)) (sign ∷ []) in
    let p3 = out_if (not (x == 0)) (b'0' ∷ x ∷ []) in
    let p4 = out_if f.zero_pad (replicate pad b'0') in
    let p5 = out_if f.minus (replicate pad b' ') in
    let e1 = length-out_if (not f.minus && not f.zero_pad) pad b' ' in
    let e2 = length-sign sign in
    let e3 = length-prefix x in
    let e4 = length-out_if f.zero_pad pad b'0' in
    let e5 = length-out_if f.minus pad b' ' in
    let three = three_pads f.minus f.zero_pad pad in
    let a1 = length-append p1 (p2 ++ (p3 ++ (p4 ++ (buf ++ p5)))) in
    let a2 = length-append p2 (p3 ++ (p4 ++ (buf ++ p5))) in
    let a3 = length-append p3 (p4 ++ (buf ++ p5)) in
    let a4 = length-append p4 (buf ++ p5) in let a5 = length-append buf p5 in omega arith

-- The width plays no part in the buffer.
fill_buf-width :
    (value : ℕ) (b : IntegerBase) (c : Conversion)
    → fill_buf value b (record c { width = 0 }) ≡ fill_buf value b c
unfolding fill_buf
fill_buf-width value b c = refl

-- `format_integer` pads what it prints without a width, `plain`, up to the width; the padding is
-- written twice when both MINUS and ZERO are set.
pub format_integer_width :
    (value : ℕ) (is_signed negative : Bool) (b : IntegerBase) (c : Conversion)
    → IsBase b
    → value < 2 ^ 64
    → (out plain : List ℕ) × (format_integer value is_signed negative b c ≡ some out)
      × (format_integer value is_signed negative b (record c { width = 0 }) ≡ some plain)
      × (length out ≡ length plain + pads c.flags * (c.width - length plain))
unfolding format_integer pad_cnt
format_integer_width value is_signed negative b c isb lt =
    let (buf, e, _, _, _) = fill_buf_lem value b c isb lt in
    let sign = sign_char c.flags is_signed negative in
    let x = prefix_char c.flags value b in
    let l = length-write c.flags (pad_cnt c.width buf x sign) sign x buf in
    let l0 = length-write c.flags (pad_cnt 0 buf x sign) sign x buf in
    let bare = one_if sign + two_if x + length buf in
    let zero_pad : pad_cnt 0 buf x sign ≡ 0 = omega arith in
    let unpadded : bare + pads c.flags * pad_cnt 0 buf x sign ≡ bare =
      ap (λ (k : ℕ). bare + pads c.flags * k) zero_pad ∙ omega arith in
    (
      write_integer c.flags (pad_cnt c.width buf x sign) sign x buf,
      write_integer c.flags (pad_cnt 0 buf x sign) sign x buf,
      rw e,
      rw (fill_buf-width value b c ∙ e),
      l
          ∙ ap (λ (k : ℕ). bare + pads c.flags * k) (omega arith)
          ∙ ap (λ (k : ℕ). k + pads c.flags * (c.width - k)) (sym (l0 ∙ unpadded)),
    )
