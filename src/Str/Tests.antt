-- ===== src/Str/Tests.antt =====
-- A string, and the theorems of the component at it.
use pithread.Common.{inr, ◌≡◌, refl, ◌==◌, if◌then◌else◌, arith}
use pithread.Memory.{Memory, store}
use pithread.Str.Tokens.{Token, strstr, strtok_r, skip_loop, token_loop}
use pithread.Str.Tokens.Loops.{Delimiters, Text}
use pithread.Str.Tokens.Split.{Splits, strtok_r_lem}
use pithread.Str.Substring.{PlaceFound, strstr_lem}
use pithread.Str.{done, memmove, strlcpy, strchr, strchr_loop}
use pithread.Str.Move.{Moved, memmove_lem}
use pithread.Str.Copy.{Copied, strlcpy_lem}
use pithread.Str.Find.{IsString, tail-IsString}

-- "abc" at 100; all else is 0.
abbrev abc : Memory
abc = λ a. if a == 100 then 97 else (if a == 101 then 98 else (if a == 102 then 99 else 0))

abc-IsString : IsString abc 100 3
abc-IsString = record { char = λ i lt. ground arith; end = refl }

memmove_example : (m' : Memory) × (memmove abc 100 101 3 ≡ done (103, m')) × Moved abc 100 101 3 m'
memmove_example = memmove_lem abc 100 101 3 (λ e. omega arith) (λ e. omega arith)

-- "b" at 200, too.
abbrev two_strings : Memory
two_strings = λ a. if a == 200 then 98 else abc a

strstr_example : PlaceFound abc 100 2 101 2 (strstr 4 abc 100 101)
strstr_example =
    strstr_lem 4 abc 100 101 3 2 (λ e. omega arith) (λ e. omega arith) abc-IsString
      (tail-IsString abc 100 2 abc-IsString) (omega arith) (omega arith)

two_strings-Text : Text two_strings 100 103
two_strings-Text = record {
  order = omega arith;
  chars = λ b le lt. ((λ e. ground arith), ground arith);
  end = refl;
}

b-Delimiters : Delimiters two_strings 200 1 5
b-Delimiters = record {
  here = λ e. omega arith;
  string = record { char = λ i lt. ground arith; end = refl };
  bound = omega arith;
}

strtok_r_example :
    (r : Token) × (strtok_r 5 two_strings 0 200 100 ≡ done r) × Splits two_strings 200 1 100 103 r
strtok_r_example =
    strtok_r_lem 5 two_strings 0 200 100 1 103 b-Delimiters (λ e. omega arith) two_strings-Text
      (omega arith)

-- The first token of "abc" with the delimiter 'b'.
first_token :
    strtok_r 5 two_strings 0 200 100
    ≡ done (record { token = 100; save = 102; memory = store two_strings 101 0 })
unfolding strtok_r skip_loop token_loop strchr strchr_loop
first_token = refl

strlcpy_example : (m' : Memory) × (strlcpy 4 abc 200 100 3 ≡ done (3, m')) × Copied abc 200 100 2 m'
strlcpy_example =
    strlcpy_lem 4 abc 200 100 3 3 (λ e. omega arith) (λ e. omega arith) (omega arith) abc-IsString
      (omega arith) (inr (omega arith))
