-- ===== src/Arena/Apart.antt =====
-- What GblArenaAllocator_alloc hands out: blocks that lie in the pages and do not overlap.
use native.Mathlib.Nat.{add-mod, mod-lt, mul-mod_right}
use libgimbal.Common.{
  ℕ, ◌+◌, ◌-◌, ◌*◌, ◌%◌, ◌^◌, ◌≤◌, ◌<◌, ◌≡◌, refl, ap, ◌∙◌, true, false, inl, inr, ◌⊎◌, arith,
  Bool-cases, ◌==◌, leb, ltb, List, [], ◌∷◌, none, some,
}
use libgimbal.Common.Bits.{some_power}
use libgimbal.Memory.{ok}
use libgimbal.Numeric.Align.{aligned_alloc_size_lem}
use libgimbal.Arena.{
  Page, Arena, rest_of, is_full, make_room, aligned, take, take_from, alloc, alloc_page_,
}

-- The address and the size of a block.
abbrev pub Block : Type 0
Block = ℕ × ℕ

-- A block in the bytes of a page that are in use.
abbrev pub IsIn : Block → Page → Type 0
IsIn b page = (page.bytes ≤ b.0) × (b.0 + b.1 ≤ page.bytes + page.used)

abbrev pub Within : Block → List Page → Type 0
Within b [] = true ≡ false
Within b (page ∷ pages) = IsIn b page ⊎ Within b pages

-- Two blocks that do not overlap, and a block that overlaps none of some others.
abbrev pub Clear : Block → Block → Type 0
Clear b c = (b.0 + b.1 ≤ c.0) ⊎ (c.0 + c.1 ≤ b.0)

abbrev pub ClearOf : Block → List Block → Type 0
ClearOf b [] = Unit
ClearOf b (c ∷ cs) = Clear b c × ClearOf b cs

abbrev pub AreApart : List Block → Type 0
AreApart [] = Unit
AreApart (b ∷ bs) = ClearOf b bs × AreApart bs

abbrev pub AllWithin : List Block → List Page → Type 0
AllWithin [] pages = Unit
AllWithin (b ∷ bs) pages = Within b pages × AllWithin bs pages

-- The bytes of a page that blocks are taken from.
abbrev pub whole : Page → Block
whole page = (page.bytes, page.capacity)

abbrev pub PageClear : Block → List Page → Type 0
PageClear b [] = Unit
PageClear b (other ∷ pages) = Clear b (whole other) × PageClear b pages

-- Pages that do not overlap, with as many bytes in use as were allocated at most, and all of it aligned.
pub record IsPage (d : ℕ) (page : Page) : Type 0 where
  pub start : page.bytes % d ≡ 0
  pub next : page.used % d ≡ 0
  pub fits : page.used ≤ page.capacity
  pub small : page.capacity < 2 ^ 64
  pub held : page.capacity ≤ page.allocated

abbrev pub ArePages : ℕ → List Page → Type 0
ArePages d [] = Unit
ArePages d (page ∷ pages) = IsPage d page × PageClear (whole page) pages × ArePages d pages

pub record IsArena (d : ℕ) (arena : Arena) (blocks : List Block) : Type 0 where
  pub pages : ArePages d arena.pages
  pub within : AllWithin blocks arena.pages
  pub apart : AreApart blocks

aligned_sum : (a b d : ℕ) → 0 < d → a % d ≡ 0 → b % d ≡ 0 → (a + b) % d ≡ 0
aligned_sum a b d h p q = add-mod a b d ∙ (rw (p, q) (omega (arith, mod-lt 0 h)))

module _ (page : Page) (size actual : ℕ) where
  abbrev taken : Page
  taken = record page { used = page.used + actual }

  abbrev block : Block
  block = (page.bytes + page.used, size)

  module _ (d : ℕ) (enough : size ≤ actual) (room : page.used + actual ≤ page.capacity) where
    Clear-block :
        (pages : List Page) (b : Block)
        → ArePages d pages
        → PageClear (whole page) pages
        → Within b pages
        → Clear block b
    Clear-block [] b i c w = cc
    Clear-block (other ∷ pages) b i c w = elim w [
      | inl inside ↦ grind (arith, i.0.fits)
      | inr later ↦ Clear-block pages b i.2 c.1 later
    ]

    ClearOf-block :
        (pages : List Page) (bs : List Block)
        → ArePages d pages
        → PageClear (whole page) pages
        → AllWithin bs (page ∷ pages)
        → ClearOf block bs
    ClearOf-block pages [] i c w = tt
    ClearOf-block pages (b ∷ bs) i c w = (
      elim w.0 [
        | inl inside ↦ inr (omega (arith, inside))
        | inr later ↦ Clear-block pages b i c later
      ],
      ClearOf-block pages bs i c w.1,
    )

    AllWithin-taken :
        (pages : List Page) (bs : List Block)
        → AllWithin bs (page ∷ pages)
        → AllWithin bs (taken ∷ pages)
    AllWithin-taken pages [] w = tt
    AllWithin-taken pages (b ∷ bs) w = (
      elim w.0 [ inl inside ↦ inl (omega arith, omega arith) | inr later ↦ inr later ],
      AllWithin-taken pages bs w.1,
    )

    taken-ArePages :
        (pages : List Page)
        → 0 < d
        → page.capacity < 2 ^ 64
        → actual % d ≡ 0
        → ArePages d (page ∷ pages)
        → ArePages d (taken ∷ pages)
    taken-ArePages pages p c m i = (
      record {
        start = i.0.start;
        next = aligned_sum page.used actual d p i.0.next m;
        fits = room;
        small = c;
        held = i.0.held;
      },
      i.1,
      i.2,
    )

-- The pages that an allocation is taken from.
record IsRoom (d : ℕ) (blocks : List Block) (actual : ℕ) (page : Page) (rest : List Page)
    : Type 0 where
  pages : ArePages d (page ∷ rest)
  within : AllWithin blocks (page ∷ rest)
  room : page.used + actual ≤ page.capacity

AllWithin-more :
    (page : Page) (pages : List Page) (bs : List Block)
    → AllWithin bs pages
    → AllWithin bs (page ∷ pages)
AllWithin-more page pages [] w = tt
AllWithin-more page pages (b ∷ bs) w = (inr w.0, AllWithin-more page pages bs w.1)

existing :
    (d : ℕ) (blocks : List Block) (actual : ℕ) (pages : List Page)
    → is_full pages actual ≡ false
    → ArePages d pages
    → AllWithin blocks pages
    → (page : Page) × (rest : List Page) × (pages ≡ page ∷ rest) × IsRoom d blocks actual page rest
unfolding is_full
existing d blocks actual [] e i w = cc
existing d blocks actual (page ∷ rest) e i w =
    let fits = i.0.fits in
    let small = i.0.small in
    let left : actual ≤ rest_of page = ground arith in
    (page, rest, refl, record { pages = i; within = w; room = omega arith })

-- A new page holds at least as many bytes as it is to have.
alloc_page_lem :
    (max_align memory size j : ℕ)
    → j < 64
    → 0 < size
    → 39 + size + 2 ^ j ≤ 2 ^ 64
    → (held : ℕ) × (alloc_page_ max_align memory size (2 ^ j)
        ≡ ok (record {
          bytes = memory;
          capacity = size;
          used = 0;
          static_alloc = false;
          allocated = held;
        }))
      × (size ≤ held)
unfolding alloc_page_
alloc_page_lem max_align memory size j h p l =
    let sum : (40 + size + (2 ^ 64 - 1)) % 2 ^ 64 ≡ 39 + size = omega (arith, some_power j) in
    let (actual, run, enough, multiple, less) =
      aligned_alloc_size_lem max_align (39 + size) j h l in
    let fits : ltb actual 32 ≡ false = ground arith in
    (actual - 32, rw (sum, run, fits) refl, omega arith)

module _ (d max_align j : ℕ) (arena : Arena) (blocks : List Block) (memory actual : ℕ)
    (i : IsArena d arena blocks) (start : memory % d ≡ 0) (some_align : 0 < d) (few : j < 64)
    (page_align : arena.page_align ≡ 2 ^ j) (small : 39 + arena.page_size + 2 ^ j ≤ 2 ^ 64)
    (clear : PageClear (memory, arena.page_size) arena.pages) where
  fresh-IsRoom :
      (held : ℕ)
      → arena.page_size ≤ held
      → actual ≤ arena.page_size
      → IsRoom d blocks actual
          (record {
            bytes = memory;
            capacity = arena.page_size;
            used = 0;
            static_alloc = false;
            allocated = held;
          })
          arena.pages
  fresh-IsRoom held h l = record {
    pages = (
      record {
        start = start;
        next = ap (λ n. n % d) {x = 0} {y = d * 0} (omega arith) ∙ mul-mod_right d 0;
        fits = omega arith;
        small = omega (arith, some_power j);
        held = h;
      },
      clear,
      i.pages,
    );
    within = AllWithin-more _ arena.pages blocks i.within;
    room = omega arith;
  }

  make_room_lem :
      0 < actual
      → (make_room max_align arena memory actual ≡ ok none)
        ⊎ ((page : Page) × (rest : List Page) × (make_room max_align arena memory actual
              ≡ ok (some (page ∷ rest)))
            × IsRoom d blocks actual page rest)
  unfolding make_room
  make_room_lem p = elim (Bool-cases (is_full arena.pages actual)) [
    | inl e ↦ elim (Bool-cases (leb actual arena.page_size)) [
      | inl f ↦
          let (held, run, enough) =
            alloc_page_lem max_align memory arena.page_size j few (ground arith) small in
          inr (
            _,
            arena.pages,
            rw (e, f, page_align, run) refl,
            fresh-IsRoom held enough (ground arith),
          )
      | inr f ↦ inl (rw (e, f) refl)
    ]
    | inr e ↦
        let (page, rest, same, room) = existing d blocks actual arena.pages e i.pages i.within in
        inr (page, rest, rw (e, same) refl, room)
  ]

module _ (d : ℕ) (arena : Arena) (blocks : List Block) (memory actual : ℕ)
    (i : IsArena d arena blocks) (some_align : 0 < d) where
  -- An allocation from the first page of those with room.
  take_lem :
      (size : ℕ) (page : Page) (rest : List Page)
      → IsRoom d blocks actual page rest
      → size ≤ actual
      → actual % d ≡ 0
      → (address : ℕ) × (arena' : Arena) × (take actual d arena (page ∷ rest)
          ≡ (some address, arena'))
        × (address % d ≡ 0)
        × IsArena d arena' ((address, size) ∷ blocks)
  unfolding take
  take_lem size page rest room enough multiple =
      let first = room.pages.0 in
      let here : (page.bytes + page.used) % d ≡ 0 =
        aligned_sum page.bytes page.used d some_align first.start first.next in
      let same : aligned (page.bytes + page.used) d ≡ page.bytes + page.used =
        ground (arith, here) in
      let next : Arena = record arena {
        pages = taken page size actual ∷ rest;
        alloc_count = arena.alloc_count + 1;
      } in
      (
        page.bytes + page.used,
        next,
        ap (λ n. (some n, next)) same,
        here,
        record {
          pages =
              taken-ArePages page size actual d enough room.room rest some_align first.small
                multiple room.pages;
          within = (
            inl (omega arith, omega (arith, enough)),
            AllWithin-taken page size actual d enough room.room rest blocks room.within,
          );
          apart = (
            ClearOf-block page size actual d enough room.room rest blocks room.pages.2 room.pages.1
                room.within,
            i.apart,
          );
        },
      )

-- On an arena in which the blocks handed out lie in the used bytes of its pages and do not overlap, as
-- its pages do not, and in which pages and used bytes are multiples of an alignment that is a power of 2
-- below 2 ^ 64, `GblArenaAllocator_alloc` of some bytes, fewer than 2 ^ 64 when rounded up to that
-- alignment, with that alignment and an aligned address for a new page that would overlap no other,
-- either fails and leaves the arena as it is, or hands out an aligned address. The block there and the
-- others lie in the used bytes of the pages and do not overlap. The alignment of the pages is a power of
-- 2, and the size of a page with its header, rounded up to it, is below 2 ^ 64.
pub alloc-IsArena :
    (max_align memory size k j : ℕ) (arena : Arena) (blocks : List Block)
    → k < 64
    → 0 < size
    → size + 2 ^ k ≤ 2 ^ 64
    → IsArena (2 ^ k) arena blocks
    → memory % 2 ^ k ≡ 0
    → j < 64
    → arena.page_align ≡ 2 ^ j
    → 39 + arena.page_size + 2 ^ j ≤ 2 ^ 64
    → PageClear (memory, arena.page_size) arena.pages
    → (alloc max_align memory size (2 ^ k) arena ≡ ok (none, arena))
      ⊎ ((address : ℕ) × (arena' : Arena) × (alloc max_align memory size (2 ^ k) arena
            ≡ ok (some address, arena'))
          × (address % 2 ^ k ≡ 0)
          × IsArena (2 ^ k) arena' ((address, size) ∷ blocks))
unfolding alloc take_from
alloc-IsArena max_align memory size k j arena blocks h p l i start few align small clear =
    let d = 2 ^ k in
    let some_bytes : 0 < d = some_power k in
    let some_align : (d == 0) ≡ false = ground arith in
    let some_size : (size == 0) ≡ false = ground arith in
    let (actual, rounded, enough, multiple, less) = aligned_alloc_size_lem max_align size k h l in
    elim (make_room_lem d max_align j arena blocks memory actual i start some_bytes few align small
      clear (omega arith)) [
        | inl full ↦ inl (rw (some_align, some_size, rounded, full) refl)
        | inr found ↦
            let (page, rest, run, room) = found in
            let (address, arena', taken_run, here, all) =
              take_lem d arena blocks memory actual i some_bytes size page rest room enough
                multiple in
            inr (
              address,
              arena',
              rw (some_align, some_size, rounded, run) (ap ok taken_run),
              here,
              all,
            )
      ]
