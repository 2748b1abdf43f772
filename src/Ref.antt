-- ===== src/Ref.antt =====
-- lib/source/utils/gimbal_ref.c: memory with a reference count in a header before it.
--
-- A reference is the pointer behind the header. The store has the fields of the headers as functions
-- of the reference, tells which references are allocated, and has the count of those. Counters are
-- 16 bits wide, as `atomic_short` and GblRefCount are. Reading or freeing what is not allocated is a
-- fault. What `malloc` returns is an argument, `memory`, with null for none, and a destructor, which may change the
-- store, is one too. Operations are taken one after the other: each is atomic on the counters.
mod Counted
mod Live
mod Tests
use libgimbal.Common.{
  ℕ, ◌+◌, ◌-◌, ◌%◌, ◌^◌, Bool, true, false, Option, none, some, ltb, ◌==◌, if◌then◌else◌,
}
use libgimbal.Memory.{Ptr, null, update, Run, ok, fault, ◌>>=◌}

pub record Store : Type 0 where
  pub counts : Ptr → ℕ
  pub contexts : Ptr → Ptr
  pub live : Ptr → Bool
  pub active : ℕ

-- `atomic_fetch_add` of 1 and `atomic_fetch_sub` of 1
abbrev pub add_one : ℕ → ℕ
add_one n = (n + 1) % 2 ^ 16

abbrev pub sub_one : ℕ → ℕ
sub_one n = (n + (2 ^ 16 - 1)) % 2 ^ 16

abbrev pub Destructor : Type 0
Destructor = Ptr → Store → Run (Bool × Store)

abbrev pub active_count : Store → ℕ
active_count s = s.active

-- Whether references remained, for GBL_RESULT_PARTIAL.
pub reinit : Store → Bool × Store
reinit s = (ltb 0 (active_count s), record s { active = 0 })

unfoldable pub alloc_with_context : (size : ℕ) (ctx memory : Ptr) → Store → Ptr × Store
alloc_with_context size ctx memory s =
    let made : Store = record s {
      counts = update s.counts memory 1;
      contexts = update s.contexts memory ctx;
      live = update s.live memory true;
      active = add_one s.active;
    } in
    if size == 0 then (null, s) else if memory == null then (null, s) else (memory, made)

pub alloc : (size : ℕ) (memory : Ptr) → Store → Ptr × Store
alloc size memory s = alloc_with_context size null memory s

-- the header of a reference is there
abbrev pub at_header {ℓ} : {A : Type ℓ} → Ptr → Store → Run A → Run A
at_header p s run = if s.live p then run else fault

-- GBL_CTX_FREE and the count of the allocated
unfoldable pub free_header : Ptr → Store → Run (ℕ × Store)
free_header p s =
    at_header p s (ok (0, record s { live = update s.live p false; active = sub_one s.active }))

-- the destructor failed
unfoldable pub revive : Ptr → Store → Run (ℕ × Store)
revive p s =
    let count = add_one (s.counts p) in
    at_header p s (ok (count, record s { counts = update s.counts p count }))

unfoldable pub destroy : Ptr → Option Destructor → Store → Run (ℕ × Store)
destroy p none s = free_header p s
destroy p (some dtor) s = do
  (succeeded, s') ← dtor p s
  if succeeded then free_header p s' else revive p s'

unfoldable pub release_with_dtor : Ptr → Option Destructor → Store → Run (ℕ × Store)
release_with_dtor p dtor s =
    let count = sub_one (s.counts p) in
    let released : Store = record s { counts = update s.counts p count } in
    let last = if active_count s == 0 then ok (count, released) else destroy p dtor released in
    if p == null
    then ok (0, s)
    else at_header p s (if count == 0 then last else ok (count, released))

unfoldable pub release : Ptr → Store → Run (ℕ × Store)
release p s = release_with_dtor p none s

unfoldable pub acquire : Ptr → Store → Run (Ptr × Store)
acquire p s =
    let more : Store = record s { counts = update s.counts p (add_one (s.counts p)) } in
    if p == null then ok (null, s) else at_header p s (ok (p, more))

pub ref_count : Ptr → Store → Run ℕ
ref_count p s = if p == null then ok 0 else at_header p s (ok (s.counts p))

pub context : Ptr → Store → Run Ptr
context p s = if p == null then ok null else at_header p s (ok (s.contexts p))
