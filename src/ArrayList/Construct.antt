-- ===== src/ArrayList/Construct.antt =====
-- GblArrayList_clear, GblArrayList_assign and GblArrayList_construct_7 without a terminator.
use libgimbal.Common.{ℕ, true, ltb, ◌==◌, if◌then◌else◌}
use libgimbal.Memory.{Run, ok, ◌>>=◌}
use libgimbal.ArrayList.{ArrayList, alloc_, clear}

module _ {A : Type 0} (zeros : A) (fresh : ℕ → A) where
  -- An array of what the buffer behind the structure holds, which `slots` are.
  abbrev emptied : (r : ArrayList A) → (ℕ → A) → ArrayList A
  emptied r slots = record r {
    slots = slots;
    allocated = r.stack_capacity;
    stack = true;
    size = 0;
    capacity = r.stack_capacity;
  }

  -- Room for `count` elements, made by clearing the list where there is none.
  abbrev roomy_for : (r : ArrayList A) (count : ℕ) → Run (ArrayList A)
  roomy_for r count =
      if ltb r.capacity count
      then clear zeros fresh r
        >>= (λ cleared. if count == 0 then ok cleared else alloc_ zeros fresh cleared count)
      else ok r
