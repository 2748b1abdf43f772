-- ===== src/Arena.antt =====
-- lib/source/allocators/gimbal_arena_allocator.c: an allocator that takes memory from pages and frees
-- all of it at once.
--
-- An arena is the list of its pages, the active one first, as `pActivePage` is the next pointer of the
-- list's head. A page is the address of its first byte, `bytes`, with the fields of its header and the number of bytes from there on that
-- were allocated for it. `memory` is the address that `bytes` of a new page gets; `malloc` succeeds.
-- `max_align` is the alignment of GBL_MAX_ALIGN_T. Numbers have 64 bits, so GblArenaAllocatorPage has
-- 40 bytes, of which 32 are in front of `bytes`. An assertion that fails is a fault.
pub mod Apart
mod Past
mod Tests
use libgimbal.Common.{
  ℕ, ◌+◌, ◌-◌, ◌%◌, ◌^◌, Bool, true, false, Option, none, some, List, [], ◌∷◌, length, ltb, leb,
  ◌==◌, if◌then◌else◌,
}
use libgimbal.Memory.{Run, ok, fault, out_of_fuel, ◌>>=◌}
use libgimbal.Numeric.{aligned_alloc_size}

pub record Page : Type 0 where
  pub bytes : ℕ
  pub capacity : ℕ
  pub used : ℕ
  pub static_alloc : Bool
  pub allocated : ℕ

pub record Arena : Type 0 where
  pub pages : List Page
  pub page_size : ℕ
  pub page_align : ℕ
  pub alloc_count : ℕ

-- the address of the page, which stands for it, and its bytes in use
pub record State : Type 0 where
  pub active_page : ℕ
  pub bytes_used : ℕ

pub construct : (max_align page_size page_align : ℕ) → (initial : Option Page) → Arena
construct max_align page_size page_align initial = record {
  pages = elim initial [ none ↦ [] | some page ↦ page ∷ [] ];
  page_size = page_size;
  page_align = if ltb page_align max_align then max_align else page_align;
  alloc_count = 0;
}

-- A page whose header does not fit what is allocated is a fault.
unfoldable pub alloc_page_ : (max_align memory size align : ℕ) → Run Page
alloc_page_ max_align memory size align =
    let page : ℕ → Page = (λ held. record {
      bytes = memory;
      capacity = size;
      used = 0;
      static_alloc = false;
      allocated = held;
    }) in
    do
      actual_size ← aligned_alloc_size max_align ((40 + size + (2 ^ 64 - 1)) % 2 ^ 64) align
      if ltb actual_size 32 then fault else ok (page (actual_size - 32))

-- `capacity - used` of `size_t`
abbrev pub rest_of : Page → ℕ
rest_of page = (page.capacity + (2 ^ 64 - page.used)) % 2 ^ 64

-- Whether there is no page, or not enough of the active one is left.
unfoldable pub is_full : List Page → ℕ → Bool
is_full [] actual_size = true
is_full (page ∷ pages) actual_size = ltb (rest_of page) actual_size

-- The pages with one in front that an allocation can be taken from, or none after an error.
unfoldable pub make_room :
    (max_align : ℕ) → Arena → (memory actual_size : ℕ) → Run (Option (List Page))
make_room max_align arena memory actual_size =
    let more = (do
      page ← alloc_page_ max_align memory arena.page_size arena.page_align
      ok (some (page ∷ arena.pages))) in
    if is_full arena.pages actual_size
    then (if leb actual_size arena.page_size then more else ok none)
    else ok (some arena.pages)

-- the last lines of GblArenaAllocator_alloc, which move the address to a multiple of the alignment
abbrev pub aligned : (address alignment : ℕ) → ℕ
aligned address alignment =
    let rem = address % alignment in if rem == 0 then address else address + (alignment - rem)

unfoldable pub take : (actual_size alignment : ℕ) → Arena → List Page → Option ℕ × Arena
take actual_size alignment arena [] = (none, arena)
take actual_size alignment arena (page ∷ pages) = (
  some (aligned (page.bytes + page.used) alignment),
  record arena {
    pages = record page { used = page.used + actual_size } ∷ pages;
    alloc_count = arena.alloc_count + 1;
  },
)

-- After the error there is no address.
unfoldable pub take_from :
    (actual_size alignment : ℕ) → Arena → Option (List Page) → Option ℕ × Arena
take_from actual_size alignment arena none = (none, arena)
take_from actual_size alignment arena (some pages) = take actual_size alignment arena pages

unfoldable pub alloc : (max_align memory size alignment : ℕ) → Arena → Run (Option ℕ × Arena)
alloc max_align memory size alignment arena =
    let alignment = if alignment == 0 then max_align else alignment in
    let allocated = (do
      actual_size ← aligned_alloc_size max_align size alignment
      room ← make_room max_align arena memory actual_size
      ok (take_from actual_size alignment arena room)) in
    if size == 0 then ok (none, arena) else allocated

-- The static pages stay, in their order.
pub cleared : List Page → List Page
cleared [] = []
cleared (page ∷ pages) =
    if page.static_alloc then record page { used = 0 } ∷ cleared pages else cleared pages

pub free_all : Arena → Arena
free_all arena = record arena { pages = cleared arena.pages; alloc_count = 0 }

pub destruct : Arena → Arena
destruct arena = free_all arena

pub page_count : Arena → ℕ
page_count arena = length arena.pages

abbrev sum_of : (Page → ℕ) → List Page → ℕ
sum_of f [] = 0
sum_of f (page ∷ pages) = f page + sum_of f pages

pub bytes_used : Arena → ℕ
bytes_used arena = sum_of (λ page. page.used) arena.pages % 2 ^ 64

pub total_capacity : Arena → ℕ
total_capacity arena = sum_of (λ page. page.capacity) arena.pages % 2 ^ 64

-- The active page is passed over.
pub fragmented_bytes : Arena → ℕ
fragmented_bytes arena = elim arena.pages [ [] ↦ 0 | page ∷ pages ↦ sum_of rest_of pages % 2 ^ 64 ]

-- Without a page, the code reads the head of the list as one.
pub bytes_available : Arena → Run ℕ
bytes_available arena = elim arena.pages [ [] ↦ fault | page ∷ pages ↦ ok (rest_of page) ]

pub save_state : Arena → Run State
save_state arena = elim arena.pages [
  | [] ↦ fault
  | page ∷ pages ↦ ok (record { active_page = page.bytes; bytes_used = page.used })
]

-- the `while` of GblArenaAllocator_loadState
pub load_pages : List Page → State → Run (List Page)
load_pages [] state = fault
load_pages (page ∷ pages) state =
    let rest = load_pages pages state in
    if page.bytes == state.active_page
    then ok (record page { used = state.bytes_used } ∷ pages)
    else rest

pub load_state : Arena → State → Run Arena
load_state arena state = elim (load_pages arena.pages state) [
  | ok pages ↦ ok (record arena { pages = pages })
  | fault ↦ fault
  | out_of_fuel ↦ out_of_fuel
]

-- GblIAllocator's functions; what was allocated before is left where it is.
pub allocator_alloc_ : (max_align memory size align : ℕ) → Arena → Run (Option ℕ × Arena)
allocator_alloc_ max_align memory size align arena = alloc max_align memory size align arena

pub allocator_realloc_ :
    (max_align memory address new_size new_align : ℕ) → Arena → Run (Option ℕ × Arena)
allocator_realloc_ max_align memory address new_size new_align arena =
    alloc max_align memory new_size new_align arena
