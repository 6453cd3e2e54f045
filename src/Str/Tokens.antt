-- ===== src/Str/Tokens.antt =====
-- lib/string.c: strpbrk, strstr and strtok_r.
pub mod Loops
pub mod Split
use pithread.Common.{ℕ, zero, suc, ◌+◌, ◌-◌, Bool, true, false, ◌==◌, leb, if◌then◌else◌}
use pithread.Memory.{Memory, store}
use pithread.Str.{Run, done, failed, out_of_fuel, equal, plus, minus, memcmp, strlen, strchr}

-- `inner` bounds the loop of `strchr`.
unfoldable pub strpbrk_loop : ℕ → ℕ → Memory → ℕ → ℕ → Run ℕ
strpbrk_loop zero inner m string stop = out_of_fuel
strpbrk_loop (suc fuel) inner m string stop = elim (m string == 0) [
  | true ↦ done 0
  | false ↦ elim (strchr inner m stop (m string)) [
    | failed ↦ failed
    | out_of_fuel ↦ out_of_fuel
    | done p ↦ elim (p == 0) [
      | true ↦ strpbrk_loop fuel inner m (string + 1) stop
      | false ↦ done string
    ]
  ]
]

unfoldable pub strpbrk : ℕ → Memory → ℕ → ℕ → Run ℕ
strpbrk fuel m string stop = strpbrk_loop fuel fuel m string stop

-- The loop of `strstr`, by the places that are left.
unfoldable pub strstr_loop : ℕ → Memory → ℕ → ℕ → ℕ → Run ℕ
strstr_loop zero m place needle needle_len = done 0
strstr_loop (suc left) m place needle needle_len = elim (memcmp m place needle needle_len) [
  | failed ↦ failed
  | out_of_fuel ↦ out_of_fuel
  | done sign ↦ elim sign [
    | equal ↦ done place
    | minus ↦ strstr_loop left m (place + 1) needle needle_len
    | plus ↦ strstr_loop left m (place + 1) needle needle_len
  ]
]

unfoldable pub strstr : ℕ → Memory → ℕ → ℕ → Run ℕ
strstr fuel m haystack needle = elim (strlen fuel m haystack) [
  | failed ↦ failed
  | out_of_fuel ↦ out_of_fuel
  | done haystack_len ↦ elim (strlen fuel m needle) [
    | failed ↦ failed
    | out_of_fuel ↦ out_of_fuel
    | done needle_len ↦ elim (leb needle_len haystack_len) [
      | true ↦ strstr_loop (haystack_len - needle_len + 1) m haystack needle needle_len
      | false ↦ done 0
    ]
  ]
]

-- Where the skipping of delimiters stops: at the end of the string or at a token.
pub data Skipped : Type 0 where
  at_end : ℕ → Skipped
  at_token : ℕ → Skipped

unfoldable pub skip_loop : ℕ → ℕ → Memory → ℕ → ℕ → Run Skipped
skip_loop zero inner m delimiters s = out_of_fuel
skip_loop (suc fuel) inner m delimiters s = elim (strchr inner m delimiters (m s)) [
  | failed ↦ failed
  | out_of_fuel ↦ out_of_fuel
  | done p ↦ elim (p == 0) [
    | true ↦ done (at_token s)
    | false ↦ elim (m s == 0) [
      | true ↦ done (at_end s)
      | false ↦ skip_loop fuel inner m delimiters (s + 1)
    ]
  ]
]

unfoldable pub token_loop : ℕ → ℕ → Memory → ℕ → ℕ → Run ℕ
token_loop zero inner m delimiters s = out_of_fuel
token_loop (suc fuel) inner m delimiters s = elim (strchr inner m delimiters (m s)) [
  | failed ↦ failed
  | out_of_fuel ↦ out_of_fuel
  | done p ↦ elim (p == 0) [ true ↦ token_loop fuel inner m delimiters (s + 1) | false ↦ done s ]
]

-- The token or NULL, `*save_ptr` and the memory after a call.
pub record Token : Type 0 where
  pub token : ℕ
  pub save : ℕ
  pub memory : Memory

-- `save_ptr` is not NULL; `save` is what it points to.
unfoldable pub strtok_r : ℕ → Memory → ℕ → ℕ → ℕ → Run Token
strtok_r fuel m s delimiters save =
    let start = if s == 0 then save else s in
    if delimiters == 0
    then failed
    else (if start == 0 then failed else (elim (skip_loop fuel fuel m delimiters start) [
      | failed ↦ failed
      | out_of_fuel ↦ out_of_fuel
      | done (at_end e) ↦ done (record { token = 0; save = e; memory = m })
      | done (at_token t) ↦ elim (token_loop fuel fuel m delimiters t) [
        | failed ↦ failed
        | out_of_fuel ↦ out_of_fuel
        | done e ↦ elim (m e == 0) [
          | true ↦ done (record { token = t; save = e; memory = m })
          | false ↦ done (record { token = t; save = e + 1; memory = store m e 0 })
        ]
      ]
    ]))
