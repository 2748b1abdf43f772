-- ===== src/Lib.antt =====
-- Verification of libgimbal's containers and algorithms.
--
-- libgimbal is a runtime library in C: containers, strings, allocators, and a type system with
-- objects and signals on top of them. This development models the containers that everything else
-- is built on, and some algorithms.
--
-- - Common: names of the libraries, passed on, and Boolean tests and lists over native numbers;
--   Common.Int has the signed numbers of an intptr_t, and Common.Bits the lemmas on bit operations.
-- - Memory: intrusive nodes. An address is a number, a pointer field a function from addresses to
--   addresses, and a loop over nodes runs on fuel. Memory.Distinct and Memory.Chain have the lemmas
--   on lists of different nodes and on chains of links, and on what a write does to them.
-- - LinkedList: lib/source/containers/gimbal_linked_list.c. GblLinkedList_pushBack is `push_back`, and
--   so on. A function with a loop has a companion, `remove_from` of `remove`, that is the loop. A
--   list of n elements takes n + 1 units of fuel at most. LinkedList.Inv says when a head and the
--   links represent a list of elements. LinkedList.Merge has the merge that joinSorted is held
--   against, and LinkedList.MergeLoop its loop.
-- - DoublyLinkedList: lib/source/containers/gimbal_doubly_linked_list.c, on two such fields.
--   Queries go to LinkedList on the field `next`, as in the code. DoublyLinkedList.Cycle has the
--   invariant: both fields run round the same cycle of different nodes.
-- - RingBuffer: lib/source/containers/gimbal_ring_buffer.c, over an array of slots. RingBuffer.Inv has
--   the invariant and the list of elements.
-- - ArrayDeque: lib/source/containers/gimbal_array_deque.c, over RingBuffer, which it calls. Its
--   invariant, in ArrayDeque.Grow, has a capacity that is a power of 2; the elements are those of
--   the ring.
-- - ArrayList: lib/source/containers/gimbal_array_list.c, over an array of slots, in the buffer behind
--   the structure or on the heap; ArrayList.Calls has the functions that pass their arguments on.
--   ArrayList.Room has the invariant and the list of elements.
-- - ArrayHeap: lib/source/containers/gimbal_array_heap.c, a binary heap over ArrayList, with the
--   comparator that a program hands to it. The order of a heap is Sorting.Heap's.
-- - Sorting: lib/source/algorithms/gimbal_sort.c, the sorts and the binary search, on functions from
--   an index to an element, with a comparator. Sorting.Order has what a comparator and a sort
--   promise. The recursive functions and the outer loops of Shell and comb sort run on fuel: as much as
--   there are elements and one unit more, and twice as much for comb sort.
-- - Arena: lib/source/allocators/gimbal_arena_allocator.c, on pages that are ranges of addresses.
--   Arena.Apart has blocks, and when they do not overlap.
-- - Ref: lib/source/utils/gimbal_ref.c, reference counts, on a store of headers. Ref.Counted has the
--   steps that a program takes, and what they keep.
-- - DateTime: lib/source/utils/gimbal_date_time.c, the calendar arithmetic, on records of numbers.
-- - Uuid: lib/source/utils/gimbal_uuid.c, printing and parsing, and two functions on digits of
--   lib/source/strings/gimbal_string.c.
-- - Version: lib/source/utils/gimbal_version.c, versions packed in a number.
-- - NaryTree: lib/source/containers/gimbal_nary_tree.c, on three fields: NaryTree has the queries,
--   NaryTree.Edit the functions that write, NaryTree.Traverse the traversals. NaryTree.Inv says when
--   nodes are the children of a node.
-- - Numeric: lib/source/algorithms/gimbal_numeric.c, the functions on integers, and the choice of a
--   function by the type of its argument in lib/api/gimbal/algorithms/gimbal_numeric.h. gblGcd takes at most
--   as many units of fuel as its second argument and one more.
--
-- The nodes that sorts and merges keep on the stack are arguments of theirs, and the functions that a
-- program hands to the library, comparisons and the visitors of a tree, are parameters, as is what
-- memory holds that an allocation returns.
--
-- Not modelled: gblSortQuick, which is qsort of the C library, the contexts in which errors are
-- recorded (an error is a result value), floating point, clocks, time zones and the formatting of
-- dates, which are calls of the C library. The allocator succeeds. A number of bytes is a `size_t`,
-- which wraps; an `int` that overflows and an assertion that fails are faults, but for the
-- assertions of the doubly linked list's sort that it has emptied its lists, which are left out. Hash
-- and tree sets, maps, strings but for two functions on digits, the type system and the rest of the
-- library are no part of the development.
pub mod ArrayDeque
pub mod ArrayHeap
pub mod ArrayList
pub mod DateTime
pub mod Uuid
pub mod Version
pub mod Common
pub mod Memory
pub mod LinkedList
pub mod DoublyLinkedList
pub mod Arena
pub mod Ref
pub mod RingBuffer
pub mod Sorting
pub mod NaryTree
pub mod Numeric
