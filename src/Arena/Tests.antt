-- ===== src/Arena/Tests.antt =====
-- The theorems on arenas at one with a page of 32 bytes.
use libgimbal.Common.{ℕ, ◌+◌, ◌%◌, ◌^◌, ◌<◌, ◌≡◌, ◌⊎◌, refl, false, arith, some, none, inr, [], ◌∷◌}
use libgimbal.Memory.{ok}
use libgimbal.Arena.{Page, Arena, alloc}
use libgimbal.Arena.Apart.{IsArena, alloc-IsArena}
use libgimbal.Arena.Past.{alloc-past}

abbrev page : Page
page = record { bytes = 16; capacity = 32; used = 0; static_alloc = false; allocated = 32 }

abbrev arena : Arena
arena = record { pages = page ∷ []; page_size = 32; page_align = 16; alloc_count = 0 }

arena-IsArena : IsArena (2 ^ 4) arena []
arena-IsArena = record {
  pages = (
    record {
      start = refl;
      next = refl;
      fits = omega arith;
      small = omega arith;
      held = omega arith;
    },
    tt,
    tt,
  );
  within = tt;
  apart = tt;
}

alloc-IsArena_example :
    (alloc 16 64 20 (2 ^ 4) arena ≡ ok (none, arena))
    ⊎ ((address : ℕ) × (arena' : Arena) × (alloc 16 64 20 (2 ^ 4) arena ≡ ok (some address, arena'))
        × (address % 2 ^ 4 ≡ 0)
        × IsArena (2 ^ 4) arena' ((address, 20) ∷ []))
alloc-IsArena_example =
    alloc-IsArena 16 64 20 4 4 arena [] (omega arith) (omega arith) (omega arith) arena-IsArena refl
      (omega arith) refl (omega arith) (inr (omega arith), tt)

-- The page is at a multiple of 64, and its bytes begin 32 bytes behind that.
abbrev wide_page : Page
wide_page = record { bytes = 96; capacity = 64; used = 0; static_alloc = false; allocated = 64 }

abbrev wide_arena : Arena
wide_arena = record { pages = wide_page ∷ []; page_size = 64; page_align = 64; alloc_count = 0 }

alloc-past_example :
    (address : ℕ) × (arena' : Arena) × (alloc 16 256 64 (2 ^ 6) wide_arena
      ≡ ok (some address, arena'))
    × (wide_page.bytes + wide_page.capacity < address + 64)
alloc-past_example =
    alloc-past 16 256 64 6 wide_arena wide_page [] refl (omega arith) (omega arith) (omega arith)
      refl (omega arith) refl (omega arith) (λ e. omega arith)
