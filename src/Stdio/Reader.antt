-- ===== src/Stdio/Reader.antt =====
-- A reader of numbers that knows nothing of the printer: it takes up the digits in their order and
-- passes over all else.
use pithread.Common.{
  ℕ, zero, suc, ◌+◌, ◌-◌, ◌*◌, ◌≡◌, refl, ap, ◌∙◌, Bool, false, ◌&&◌, Option, none, some, List, [],
  ◌∷◌, ◌++◌, leb, ◌==◌, if◌then◌else◌, has, replicate, arith,
}

unfoldable pub digit_value : ℕ → Option ℕ
digit_value c =
    if leb b'0' c && leb c b'9'
    then some (c - b'0')
    else (if leb b'a' c && leb c b'f'
        then some (c - b'a' + 10)
        else (if leb b'A' c && leb c b'F' then some (c - b'A' + 10) else none))

abbrev pub next : ℕ → ℕ → Option ℕ → ℕ
next base acc none = acc
next base acc (some d) = acc * base + d

unfoldable pub read_from : ℕ → ℕ → List ℕ → ℕ
read_from base acc [] = acc
read_from base acc (c ∷ s) = read_from base (next base acc (digit_value c)) s

abbrev pub read : ℕ → List ℕ → ℕ
read base s = read_from base 0 s

pub read-append :
    (base acc : ℕ) (s t : List ℕ)
    → read_from base acc (s ++ t) ≡ read_from base (read_from base acc s) t
unfolding read_from
read-append base acc [] t = refl
read-append base acc (c ∷ s) t = read-append base (next base acc (digit_value c)) s t

-- A character that is no digit is passed over.
pub read-pad : (base acc n c : ℕ) → digit_value c ≡ none → read_from base acc (replicate n c) ≡ acc
unfolding read_from
read-pad base acc zero c e = refl
read-pad base acc (suc n) c e = rw (e, read_from) (read-pad base acc n c e)

-- Leading zeros count nothing.
pub read-zeros : (base n : ℕ) → read_from base 0 (replicate n b'0') ≡ 0
unfolding read_from digit_value
read-zeros base zero = refl
read-zeros base (suc n) =
    ap (λ (acc : ℕ). read_from base acc (replicate n b'0'))
      (let z : 0 * base + 0 ≡ 0 = omega arith in z)
    ∙ read-zeros base n

-- A number is negative when it has a minus sign.
abbrev pub is_negative : List ℕ → Bool
is_negative s = has b'-' s

pub has-replicate : (a n c : ℕ) → (a == c) ≡ false → has a (replicate n c) ≡ false
has-replicate a zero c e = refl
has-replicate a (suc n) c e = rw e (has-replicate a n c e)
