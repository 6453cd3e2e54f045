-- ===== src/Stdio/RoundTrip.antt =====
-- What `format_integer` prints reads back.
use pithread.Common.{
  ℕ, ◌+◌, ◌*◌, ◌^◌, ◌<◌, ◌≡◌, refl, ap, ◌∙◌, Bool, true, false, not, ◌&&◌, ◌||◌, none, some, List,
  [], ◌∷◌, ◌++◌, ◌==◌, has, has-append, replicate, arith, Bool-cases, inl, inr,
}
use pithread.Stdio.{Flags, Conversion}
use pithread.Stdio.Format.{
  IntegerBase, sign_char, prefix_char, pad_cnt, out_if, write_integer, format_integer,
}
use pithread.Stdio.Reader.{
  next, digit_value, read_from, read, is_negative, read-append, read-pad, read-zeros, has-replicate,
}
use pithread.Stdio.Bases.{IsBase}
use pithread.Stdio.Buffer.{fill_buf_lem}

-- A piece that leaves the value 0, and has a minus sign or not.
record Lead (base : ℕ) (minus : Bool) (s : List ℕ) : Type 0 where
  value : read_from base 0 s ≡ 0
  sign : has b'-' s ≡ minus

or_false : (t : Bool) → (t || false) ≡ t
or_false true = refl
or_false false = refl

Lead-nothing : (base : ℕ) → Lead base false []
unfolding read_from
Lead-nothing base = record { value = refl; sign = refl }

Lead-spaces : (base n : ℕ) (t : Bool) → Lead base false (out_if t (replicate n b' '))
unfolding digit_value
Lead-spaces base n true = record {
  value = read-pad base 0 n b' ' refl;
  sign = has-replicate b'-' n b' ' refl;
}
Lead-spaces base n false = Lead-nothing base

Lead-zeros : (base n : ℕ) (t : Bool) → Lead base false (out_if t (replicate n b'0'))
Lead-zeros base n true = record { value = read-zeros base n; sign = has-replicate b'-' n b'0' refl }
Lead-zeros base n false = Lead-nothing base

one_sign :
    (base sign : ℕ) (t : Bool)
    → digit_value sign ≡ none
    → ((t ≡ false) → (b'-' == sign) ≡ false)
    → Lead base (b'-' == sign) (out_if t (sign ∷ []))
unfolding read_from
one_sign base sign true e m = record { value = ap (next base 0) e; sign = or_false (b'-' == sign) }
one_sign base sign false e m = rw (m refl) (Lead-nothing base)

Lead-sign :
    (base sign : ℕ)
    → digit_value sign ≡ none
    → Lead base (b'-' == sign) (out_if (not (sign == 0)) (sign ∷ []))
Lead-sign base sign e = one_sign base sign (not (sign == 0)) e (λ h. ground arith)

Lead-prefix :
    (base x : ℕ) (t : Bool)
    → digit_value x ≡ none
    → (b'-' == x) ≡ false
    → Lead base false (out_if t (b'0' ∷ x ∷ []))
unfolding read_from digit_value
Lead-prefix base x true e m = record {
  value =
      ap (λ (acc : ℕ). read_from base acc (x ∷ [])) (let z : 0 * base + 0 ≡ 0 = omega arith in z)
      ∙ ap (next base 0) e;
  sign = rw m;
}
Lead-prefix base x false e m = Lead-nothing base

sign_char_lem :
    (f : Flags) (is_signed negative : Bool)
    → (digit_value (sign_char f is_signed negative) ≡ none)
      × ((b'-' == sign_char f is_signed negative) ≡ (is_signed && negative))
unfolding sign_char digit_value
sign_char_lem f is_signed negative = ground arith

prefix_char_lem :
    (f : Flags) (value : ℕ) (b : IntegerBase)
    → IsBase b
    → (digit_value (prefix_char f value b) ≡ none) × ((b'-' == prefix_char f value b) ≡ false)
unfolding prefix_char digit_value
prefix_char_lem f value b isb = elim (Bool-cases (f.pound && not (value == 0))) [
  | inl e ↦ rw e (isb.passed, isb.no_sign)
  | inr e ↦ rw e (no_prefix, refl)
]
  where
    no_prefix : digit_value 0 ≡ none
    no_prefix = refl

-- A lead before the rest of the output.
Lead-append :
    (base : ℕ) (minus : Bool) (s t : List ℕ)
    → Lead base minus s
    → (read base (s ++ t) ≡ read base t) × (is_negative (s ++ t) ≡ (minus || is_negative t))
Lead-append base minus s t l = (
  read-append base 0 s t ∙ ap (λ (acc : ℕ). read_from base acc t) l.value,
  has-append b'-' s t ∙ ap (λ (x : Bool). x || has b'-' t) l.sign,
)

trail-append :
    (base n : ℕ) (s : List ℕ) (t : Bool)
    → (read base (s ++ out_if t (replicate n b' ')) ≡ read base s)
      × (is_negative (s ++ out_if t (replicate n b' ')) ≡ is_negative s)
unfolding digit_value read_from
trail-append base n s true = (
  read-append base 0 s (replicate n b' ') ∙ read-pad base (read base s) n b' ' refl,
  has-append b'-' s (replicate n b' ')
      ∙ ap (λ (x : Bool). has b'-' s || x) (has-replicate b'-' n b' ' refl)
      ∙ or_false (has b'-' s),
)
trail-append base n s false =
    (read-append base 0 s [], has-append b'-' s [] ∙ or_false (has b'-' s))

write_integer_lem :
    (base : ℕ) (f : Flags) (pad sign x : ℕ) (buf : List ℕ)
    → digit_value sign ≡ none
    → digit_value x ≡ none
    → (b'-' == x) ≡ false
    → has b'-' buf ≡ false
    → (read base (write_integer f pad sign x buf) ≡ read base buf)
      × (is_negative (write_integer f pad sign x buf) ≡ (b'-' == sign))
unfolding write_integer
write_integer_lem base f pad sign x buf es ex mx mb =
    let p5 = trail-append base pad buf f.minus in
    let p4 = Lead-append base false _ _ (Lead-zeros base pad f.zero_pad) in
    let p3 = Lead-append base false _ _ (Lead-prefix base x (not (x == 0)) ex mx) in
    let p2 = Lead-append base (b'-' == sign) _ _ (Lead-sign base sign es) in
    let p1 = Lead-append base false _ _ (Lead-spaces base pad (not f.minus && not f.zero_pad)) in
    (
      p1.0 ∙ p2.0 ∙ p3.0 ∙ p4.0 ∙ p5.0,
      p1.1
          ∙ p2.1
          ∙ ap (λ (t : Bool). (b'-' == sign) || t) (p3.1 ∙ p4.1 ∙ p5.1 ∙ mb)
          ∙ or_false (b'-' == sign),
    )

-- What `format_integer` prints of a value of 64 bits, with any flags, width and precision, in any of
-- the four bases, reads back as the value, and has a minus sign exactly when the conversion is
-- signed and the number negative.
pub format_integer_lem :
    (value : ℕ) (is_signed negative : Bool) (b : IntegerBase) (c : Conversion)
    → IsBase b
    → value < 2 ^ 64
    → (out : List ℕ) × (format_integer value is_signed negative b c ≡ some out)
      × (read b.base out ≡ value)
      × (is_negative out ≡ (is_signed && negative))
unfolding format_integer
format_integer_lem value is_signed negative b c isb lt =
    let (buf, e, _, reads, mb) = fill_buf_lem value b c isb lt in
    let sign = sign_char c.flags is_signed negative in
    let x = prefix_char c.flags value b in
    let s = sign_char_lem c.flags is_signed negative in
    let p = prefix_char_lem c.flags value b isb in
    let w =
      write_integer_lem b.base c.flags (pad_cnt c.width buf x sign) sign x buf s.0 p.0 p.1 mb in
    (write_integer c.flags (pad_cnt c.width buf x sign) sign x buf, rw e, w.0 ∙ reads, w.1 ∙ s.1)
