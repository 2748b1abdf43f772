-- ===== src/Arena/Past.antt =====
-- GblArenaAllocator_alloc at an address that does not have the alignment.
use native.Mathlib.Nat.{mod-lt}
use libgimbal.Common.{
  ℕ, ◌+◌, ◌-◌, ◌%◌, ◌^◌, ◌<◌, ◌≤◌, ◌≡◌, ◌≢◌, refl, false, arith, ◌==◌, List, ◌∷◌, some, ltb,
}
use libgimbal.Memory.{ok}
use libgimbal.Common.Bits.{some_power}
use libgimbal.Arena.{Page, Arena, make_room, is_full, take, take_from, alloc, rest_of}
use libgimbal.Numeric.Align.{aligned_alloc_size-same}

-- `GblArenaAllocator_alloc`, with an alignment that is a power of 2 and at most that of the arena's
-- pages, from a page that has just as many bytes left as are taken for a block of a size that is
-- not 0 and is not rounded up, at an address that is not a multiple of the alignment, hands out a
-- block that goes past the end of the page. The alignment, the size of the page and that of the
-- block with the alignment fit 64 bits.
pub alloc-past :
    (max_align memory size k : ℕ) (arena : Arena) (page : Page) (rest : List Page)
    → arena.pages ≡ page ∷ rest
    → 0 < size
    → k < 64
    → 2 ^ k ≤ arena.page_align
    → size % 2 ^ k ≡ 0
    → size + 2 ^ k ≤ 2 ^ 64
    → page.used + size ≡ page.capacity
    → page.capacity < 2 ^ 64
    → (page.bytes + page.used) % 2 ^ k ≢ 0
    → (address : ℕ) × (arena' : Arena) × (alloc max_align memory size (2 ^ k) arena
        ≡ ok (some address, arena'))
      × (page.bytes + page.capacity < address + size)
unfolding alloc make_room is_full take take_from
alloc-past max_align memory size k arena page rest e p few within multiple l f c m =
    let q : 0 < 2 ^ k = some_power k in
    let some_align : (2 ^ k == 0) ≡ false = ground arith in
    let some_size : (size == 0) ≡ false = ground arith in
    let left : ltb (rest_of page) size ≡ false = ground arith in
    let rem = mod-lt (page.bytes + page.used) q in
    let off : ((page.bytes + page.used) % 2 ^ k == 0) ≡ false = ground arith in
    (
      page.bytes + page.used + (2 ^ k - (page.bytes + page.used) % 2 ^ k),
      record arena {
        pages = record page { used = page.used + size } ∷ rest;
        alloc_count = arena.alloc_count + 1;
      },
      rw
          (
            some_align,
            some_size,
            aligned_alloc_size-same max_align size k few multiple l,
            e,
            left,
            off,
          )
          refl,
      omega (arith, rem),
    )
