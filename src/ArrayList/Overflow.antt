-- ===== src/ArrayList/Overflow.antt =====
-- A terminator that is written behind the array.
use libgimbal.Common.{ℕ, ◌+◌, true, false, if◌then◌else◌, some}
use libgimbal.Memory.{update}
use libgimbal.ArrayList.{ArrayList, copied, or_zeros}

module _ {A : Type 0} (zeros : A) (fresh : ℕ → A) where
  abbrev unset : (old : ArrayList A) (element_size : ℕ) → ArrayList A
  unset old element_size = record {
    slots = if old.stack then old.slots else fresh;
    allocated = 0;
    stack = true;
    size = 0;
    capacity = 0;
    element_size = element_size;
    zero_terminated = true;
    stack_capacity = 0;
  }

  -- The array of `n` elements and a terminator.
  abbrev made : (element_size n : ℕ) (source : ℕ → A) → ArrayList A
  made element_size n source = record {
    slots = update (copied (update fresh 0 zeros) 0 (or_zeros zeros (some source)) 0 n) n zeros;
    allocated = n + 1;
    stack = false;
    size = n;
    capacity = n + 1;
    element_size = element_size;
    zero_terminated = true;
    stack_capacity = 0;
  }
