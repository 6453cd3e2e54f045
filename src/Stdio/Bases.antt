-- ===== src/Stdio/Bases.antt =====
-- The four bases of stdio.c.
use pithread.Common.{
  ℕ, zero, suc, ◌+◌, ◌*◌, ◌/◌, ◌%◌, ◌<◌, ◌≡◌, refl, ap, ◌∙◌, false, none, some, List, [], ◌∷◌, ◌==◌,
  length, get_or, arith,
}
use pithread.Stdio.Format.{IntegerBase, base_d, base_o, base_x, base_X}
use pithread.Stdio.Reader.{digit_value}

-- What the conversions rely on in a base.
pub record IsBase (b : IntegerBase) : Type 0 where
  pub split : (v : ℕ) → v / b.base * b.base + v % b.base ≡ v
  pub below : (v : ℕ) → v % b.base < b.base
  pub shrinks : (v n : ℕ) → v < 8 * n → v / b.base < n
  pub value : (d : ℕ) → d < b.base → digit_value (get_or b.digits d 0) ≡ some d
  pub passed : digit_value b.x ≡ none
  pub no_sign : (b'-' == b.x) ≡ false

-- The digits from the value `k` on.
abbrev Values : List ℕ → ℕ → Type 0
Values [] k = Unit {0}
Values (c ∷ cs) k = (digit_value c ≡ some k) × Values cs (suc k)

value_at :
    (cs : List ℕ) (k d : ℕ)
    → Values cs k
    → d < length cs
    → digit_value (get_or cs d 0) ≡ some (k + d)
value_at [] k d v lt = absurd (omega arith)
value_at (c ∷ cs) k zero v lt = v.0 ∙ ap some (let z : k ≡ k + 0 = omega arith in z)
value_at (c ∷ cs) k (suc d) v lt =
    value_at cs (suc k) d v.1 (omega arith)
    ∙ ap some (let z : suc k + d ≡ k + suc d = omega arith in z)

decimal : Values base_d.digits 0
unfolding digit_value
decimal = (refl, (refl, (refl, (refl, (refl, (refl, (refl, (refl, (refl, (refl, tt))))))))))

octal : Values base_o.digits 0
unfolding digit_value
octal = (refl, (refl, (refl, (refl, (refl, (refl, (refl, (refl, tt))))))))

hex_small : Values base_x.digits 0
unfolding digit_value
hex_small = (
  refl,
  (
    refl,
    (
      refl,
      (
        refl,
        (
          refl,
          (
            refl,
            (refl, (refl, (refl, (refl, (refl, (refl, (refl, (refl, (refl, (refl, tt)))))))))),
          ),
        ),
      ),
    ),
  ),
)

hex_large : Values base_X.digits 0
unfolding digit_value
hex_large = (
  refl,
  (
    refl,
    (
      refl,
      (
        refl,
        (
          refl,
          (
            refl,
            (refl, (refl, (refl, (refl, (refl, (refl, (refl, (refl, (refl, (refl, tt)))))))))),
          ),
        ),
      ),
    ),
  ),
)

pub base_d-IsBase : IsBase base_d
unfolding digit_value
base_d-IsBase = record {
  split = λ v. omega arith;
  below = λ v. omega arith;
  shrinks = λ v n h. omega arith;
  value = λ d lt.
      value_at base_d.digits 0 d decimal lt ∙ ap some (let z : 0 + d ≡ d = omega arith in z);
  passed = refl;
  no_sign = refl;
}

pub base_o-IsBase : IsBase base_o
unfolding digit_value
base_o-IsBase = record {
  split = λ v. omega arith;
  below = λ v. omega arith;
  shrinks = λ v n h. omega arith;
  value =
      λ d lt. value_at base_o.digits 0 d octal lt ∙ ap some (let z : 0 + d ≡ d = omega arith in z);
  passed = refl;
  no_sign = refl;
}

pub base_x-IsBase : IsBase base_x
unfolding digit_value
base_x-IsBase = record {
  split = λ v. omega arith;
  below = λ v. omega arith;
  shrinks = λ v n h. omega arith;
  value = λ d lt.
      value_at base_x.digits 0 d hex_small lt ∙ ap some (let z : 0 + d ≡ d = omega arith in z);
  passed = refl;
  no_sign = refl;
}

pub upper-IsBase : IsBase base_X
unfolding digit_value
upper-IsBase = record {
  split = λ v. omega arith;
  below = λ v. omega arith;
  shrinks = λ v n h. omega arith;
  value = λ d lt.
      value_at base_X.digits 0 d hex_large lt ∙ ap some (let z : 0 + d ≡ d = omega arith in z);
  passed = refl;
  no_sign = refl;
}
