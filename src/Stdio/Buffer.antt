-- ===== src/Stdio/Buffer.antt =====
-- What `format_integer` accumulates in `buf`.
use pithread.Common.{
  ℕ, zero, suc, ◌+◌, ◌-◌, ◌*◌, ◌/◌, ◌%◌, ◌^◌, ◌≤◌, ◌<◌, ◌≡◌, inl, inr, refl, sym, ap, subst, ◌∙◌,
  Bool, true, false, not, ◌&&◌, Option, some, List, [], ◌∷◌, ◌==◌, ==_ne, ltb, if◌then◌else◌, has,
  length, get_or, arith, Bool-cases, ℕ_discrete,
}
use pithread.Stdio.{Flags, Conversion}
use pithread.Stdio.Format.{
  IntegerBase, with_comma, digit_loop, zero_loop, octal_zero, starts_zero, rendered, fill_buf,
}
use pithread.Stdio.Reader.{digit_value, read_from, next}
use pithread.Stdio.Bases.{IsBase}

no_minus : (c d : ℕ) → digit_value c ≡ some d → (b'-' == c) ≡ false
unfolding digit_value
no_minus c d e = elim (ℕ_discrete b'-' c) [
  | yes same ↦ cc (subst (λ (x : ℕ). digit_value x ≡ some d) (sym same) e)
  | no ne ↦ ==_ne b'-' c ne
]

-- What is known of a buffer `r` made from `buf` by writing the digits of `value`, `n` of them at
-- most.
pub record Written (base value n : ℕ) (buf r : List ℕ) : Type 0 where
  pub reads : read_from base 0 r ≡ read_from base value buf
  pub signs : has b'-' r ≡ has b'-' buf
  pub short : length r ≤ length buf + 2 * n

comma-reads :
    (base acc : ℕ) (t : Bool) (buf : List ℕ)
    → read_from base acc (if t then b',' ∷ buf else buf) ≡ read_from base acc buf
unfolding read_from digit_value
comma-reads base acc true buf = refl
comma-reads base acc false buf = refl

comma-signs : (t : Bool) (buf : List ℕ) → has b'-' (if t then b',' ∷ buf else buf) ≡ has b'-' buf
comma-signs true buf = refl
comma-signs false buf = refl

comma-short : (t : Bool) (buf : List ℕ) → length (if t then b',' ∷ buf else buf) ≤ suc (length buf)
comma-short true buf = omega arith
comma-short false buf = omega arith

-- One digit.
one_digit :
    (b : IntegerBase) (t : Bool) (v n : ℕ) (buf r : List ℕ)
    → IsBase b
    → Written b.base
        (v / b.base)
        n
        (get_or b.digits (v % b.base) 0 ∷ (if t then b',' ∷ buf else buf))
        r
    → Written b.base v (suc n) buf r
unfolding read_from
one_digit b t v n buf r isb w =
    let rest = if t then b',' ∷ buf else buf in
    let c = get_or b.digits (v % b.base) 0 in
    let e : digit_value c ≡ some (v % b.base) = isb.value (v % b.base) (isb.below v) in
    let s = w.short in
    let cs = comma-short t buf in
    record {
      reads =
          w.reads
          ∙ ap (λ (o : Option ℕ). read_from b.base (next b.base (v / b.base) o) rest) e
          ∙ ap (λ (acc : ℕ). read_from b.base acc rest) (isb.split v)
          ∙ comma-reads b.base v t buf;
      signs = w.signs ∙ rw (no_minus c (v % b.base) e) (comma-signs t buf);
      short = omega arith;
    }

nothing-Written : (base value : ℕ) (buf : List ℕ) → value ≡ 0 → Written base value 0 buf buf
nothing-Written base value buf z = record {
  reads = ap (λ (acc : ℕ). read_from base acc buf) (sym z);
  signs = refl;
  short = omega arith;
}

longer :
    {base value n : ℕ} {buf r : List ℕ}
    → Written base value 0 buf r
    → Written base value (suc n) buf r
longer w = let s = w.short in record { reads = w.reads; signs = w.signs; short = omega arith }

digit_loop_lem :
    (n fuel : ℕ) (b : IntegerBase) (group : Bool) (value cnt : ℕ) (buf : List ℕ)
    → IsBase b
    → value < 8 ^ n
    → n ≤ fuel
    → (r : List ℕ) × (digit_loop fuel b group value cnt buf ≡ some r) × Written b.base value n buf r
unfolding digit_loop
digit_loop_lem zero zero b group value cnt buf isb lt le =
    let z : value ≡ 0 = omega arith in (buf, rw z, nothing-Written b.base value buf z)
digit_loop_lem zero (suc fuel) b group value cnt buf isb lt le =
    let z : value ≡ 0 = omega arith in (buf, rw (z, digit_loop), nothing-Written b.base value buf z)
digit_loop_lem (suc n) zero b group value cnt buf isb lt le = absurd (omega arith)
digit_loop_lem (suc n) (suc fuel) b group value cnt buf isb lt le = elim (ℕ_discrete value 0) [
  | yes z ↦ (buf, rw (z, digit_loop), longer (nothing-Written b.base value buf z))
  | no ne ↦
      let t = group && ltb 0 cnt && cnt % b.group == 0 in
      let (r, e, w) =
        digit_loop_lem n fuel b group (value / b.base) (cnt + 1)
          (get_or b.digits (value % b.base) 0 ∷ with_comma group b cnt buf) isb
          (isb.shrinks value (8 ^ n) (omega arith)) (omega arith) in
      (r, rw (==_ne value 0 ne, digit_loop) e, one_digit b t value n buf r isb w)
]

zero-reads : (base : ℕ) (s : List ℕ) → read_from base 0 (b'0' ∷ s) ≡ read_from base 0 s
unfolding read_from digit_value
zero-reads base s =
    ap (λ (acc : ℕ). read_from base acc s) (let z : 0 * base + 0 ≡ 0 = omega arith in z)

-- What leading zeros make of a buffer.
pub record Padded (base left : ℕ) (buf r : List ℕ) : Type 0 where
  pub reads : read_from base 0 r ≡ read_from base 0 buf
  pub signs : has b'-' r ≡ has b'-' buf
  pub short : length r ≤ left + length buf

zero_loop_lem :
    (left base precision : ℕ) (buf : List ℕ) → Padded base left buf (zero_loop left precision buf)
unfolding zero_loop
zero_loop_lem zero base precision buf = record { reads = refl; signs = refl; short = omega arith }
zero_loop_lem (suc left) base precision buf = elim (Bool-cases (ltb (length buf) precision)) [
  | inl e ↦
      let w = zero_loop_lem left base precision (b'0' ∷ buf) in
      let s = w.short in
      rw (e, zero_loop)
        (record { reads = w.reads ∙ zero-reads base buf; signs = w.signs; short = omega arith })
  | inr e ↦ rw (e, zero_loop) (record { reads = refl; signs = refl; short = omega arith })
]

octal_zero_lem :
    (f : Flags) (b : IntegerBase) (buf : List ℕ) → Padded b.base 1 buf (octal_zero f b buf)
unfolding octal_zero
octal_zero_lem f b buf = octal_case (f.pound && b.base == 8 && not (starts_zero buf))
  where
    octal_case : (t : Bool) → Padded b.base 1 buf (if t then b'0' ∷ buf else buf)
    octal_case true = record { reads = zero-reads b.base buf; signs = refl; short = omega arith }
    octal_case false = record { reads = refl; signs = refl; short = omega arith }

-- `buf` of 64 bytes is never overrun, for any value and conversion, and the loop over the digits
-- ends; what is in it reads as the value and has no sign.
pub fill_buf_lem :
    (value : ℕ) (b : IntegerBase) (c : Conversion)
    → IsBase b
    → value < 2 ^ 64
    → (buf : List ℕ) × (fill_buf value b c ≡ some buf)
      × (length buf ≤ 64)
      × (read_from b.base 0 buf ≡ value)
      × (has b'-' buf ≡ false)
unfolding fill_buf read_from
fill_buf_lem value b c isb lt =
    let (r, e, w) =
      digit_loop_lem 22 64 b c.flags.group value 0 [] isb (omega arith) (omega arith) in
    let z = zero_loop_lem (63 - length r) b.base (rendered c.precision) r in
    let filled = zero_loop (63 - length r) (rendered c.precision) r in
    let o = octal_zero_lem c.flags b filled in
    let s0 = w.short in
    let s1 = z.short in
    let s2 = o.short in
    (
      octal_zero c.flags b filled,
      rw e,
      omega arith,
      o.reads ∙ z.reads ∙ w.reads,
      o.signs ∙ z.signs ∙ w.signs,
    )
