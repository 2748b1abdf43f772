-- ===== src/ArrayHeap/Copy.antt =====
-- GblArrayHeap_copy onto a heap with a buffer.
use libgimbal.Common.{ℕ, ◌^◌, ◌≤◌, ◌<◌, ◌≡◌, false, arith}
use libgimbal.Memory.{fault}
use libgimbal.ArrayList
use libgimbal.ArrayHeap.{ArrayHeap, copy}

module _ {A : Type 0} where
  -- `GblArrayHeap_copy` of a heap that is not empty writes through a NULL pointer, if the heap copied to
  -- has allocated a buffer of at least as many elements, is not zero-terminated, and has none behind
  -- its structure: `GblArrayList_destruct` frees the buffer and leaves the capacity.
  pub copy-fault :
      (zeros : A) (fresh : ℕ → A) (self other : ArrayHeap A)
      → self.list.stack ≡ false
      → self.list.stack_capacity ≡ 0
      → self.list.zero_terminated ≡ false
      → 0 < other.list.size
      → other.list.size < 2 ^ 64
      → other.list.size ≤ self.list.capacity
      → copy zeros fresh self other ≡ fault
  unfolding copy ArrayList.destruct ArrayList.assign ArrayList.fill
  copy-fault zeros fresh self other s c z p l h = ground arith
