-- ===== src/Atags/Tests.antt =====
-- A list of three tags, and the walks over it.
use pithread.Common.{◌≡◌, refl, some, [], ◌∷◌, ◌==◌, if◌then◌else◌, arith}
use pithread.Atags.{Tags}
use pithread.Atags.Walk.{Chain, tags_of, get_all, get_all_lem}

-- ATAG_CORE at 256, and two memories at 264 and 280.
abbrev board : Tags
board = record {
  atag_none = 0;
  atag_core = 21;
  atag_mem = 22;
  atag_cmdline = 29;
  size = λ t. if t == 256 then 2 else 4;
  value = λ t. if t == 256 then 21 else (if t == 264 then 22 else (if t == 280 then 22 else 0));
  flags = λ t. 0;
  pagesize = λ t. 0;
  rootdev = λ t. 0;
  mem_size = λ t. 4096;
  mem_start = λ t. 0;
  cmdline = λ t. [];
}

board-Chain : Chain board 256 (256 ∷ 264 ∷ 280 ∷ [])
board-Chain = (
  refl,
  (λ e. omega arith),
  (λ e. omega arith),
  (
    refl,
    (λ e. omega arith),
    (λ e. omega arith),
    (refl, (λ e. omega arith), (λ e. omega arith), refl),
  ),
)

get_all_example : get_all 4 4 board 256 22 (some 0) ≡ some (tags_of board 22 (256 ∷ 264 ∷ 280 ∷ []))
get_all_example =
    get_all_lem 4 4 board 256 22 0 (256 ∷ 264 ∷ 280 ∷ []) board-Chain (omega arith) (omega arith)

both_memories : tags_of board 22 (256 ∷ 264 ∷ 280 ∷ []) ≡ 264 ∷ 280 ∷ []
unfolding tags_of
both_memories = refl
