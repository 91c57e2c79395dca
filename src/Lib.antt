-- ===== src/Lib.antt =====
-- Verification of the C data structures of this repository (infinity/ds, with the allocator of
-- infinity/system_programming and the exercises of infinity/c). A C function is a function
-- from the state it reads to its result and the state it leaves. `none` at the outside of a result is
-- a failed assert, a null dereference or an access outside of an array; what `malloc` and `realloc`
-- return is an argument.
--
-- Prelude: tests, arrays as lists, `int` as ℤ, `size_t` with its wrap-around, sorted lists,
--   the operations on bits.
-- Avl: infinity/ds/avl/avl.c. Insertion, search, size and height stand in Avl.antt, `AVLRemove` in
--   Avl/Remove.antt, `AVLForEach` in Avl/Walk.antt; the other files hold proofs. `RemoveNode` with
--   `ROOT_DIRECTION` reads outside of the array `relatives` and is `none`; the helpers that it would
--   then call are definitions of their own.
-- CircularBuffer: infinity/ds/circular_buffer/circular_buffer.c; its two `memcpy` per transfer are
--   slices of the array.
-- Stack: infinity/ds/stack/stack.c, and in Stack/Sorting.antt its client `SortStack` of
--   infinity/c/recursion/recursion.c, on fuel; one unit more than the size of the stack is enough.
-- Strings: infinity/c/ws2/string.c, and in Strings/Recursive.antt the string and Fibonacci functions
--   of infinity/c/recursion/recursion.c; a pointer is the memory from its place on. The fuel of
--   `IsPalindrom` is the length and one, twice what its loop takes.
-- Vector: infinity/ds/dynamic_vector/vector.c, with `realloc` as a parameter and its laws as
--   `IsRealloc`.
-- Heap: infinity/ds/heap/heap.c, as a client of Vector: it uses the vector's operations, and its
--   proofs the vector's theorems. The fuel of its loops is the size of the vector, or one more.
--   Heap/Order.antt states the heap order, Heap/Ordering.antt treats the two sifting loops and
--   Heap/Priority.antt the operations.
-- Sorts: the three swapping sorts of infinity/ds/utils/sorts/sorts.c, its recursive
--   binary search, and in Sorts/Merge.antt its `MergeSort`; a loop takes at most as many rounds as
--   the array has elements, and one to end.
-- Dhcp: infinity/ds/dhcp/dhcp.c, the trie of host addresses as a tree. Dhcp/Bits.antt holds the
--   arithmetic of its shifts, Dhcp/Trie.antt what it means that an address is taken and that the flags
--   are right, Granting, Allocating, Smallest, Freeing and Counting the recursive functions, and
--   Network, Assigning, Creating and Text the operations. A network has 1 to 32 host bits, since a
--   shift by 32 bits is undefined. The fuel of `StringToIp` is the length of the text, since each
--   round passes a character; `sprintf` is a parameter with its documented output as `Prints`.
-- BitArray: infinity/ds/bit_array/bit_array.c, on numbers below 2 ^ 64. The loop that clears bits takes
--   a round for each bit that is on; its fuel is 65.
-- Dlist: infinity/ds/dlist/dlist.c on a store of nodes; the pointers are addresses and NULL is 0.
--   `malloc` is a parameter that never returns an address in use, or returns 0. Dlist/View.antt says
--   which store holds a list. The loops are on fuel; one unit more than the elements is enough.
-- Slist: infinity/ds/slist/slist.c on a memory of nodes and lists, whose dummy holds the address of its
--   list, and in Slist/Queue.antt infinity/ds/queue/queue.c. The fuel of its loops as in Dlist.
-- SortedList, PQueue: infinity/ds/sorted_list/sorted_list.c, a client of Dlist, and
--   infinity/ds/pqueue/pqueue.c, a client of SortedList, with the same fuel.
-- Hash: infinity/ds/hash/hash.c, a client of Dlist whose buckets share one store. Hash/Rows.antt says
--   which store holds a table.
-- HeapQueue: infinity/ds/pqueue/heap_PQ.c, a client of Heap.
-- Uid, Task, Scheduler: infinity/ds/uid/uid.c, infinity/ds/task/task.c and
--   infinity/ds/scheduler/scheduler.c, a client of PQueue. The clock, `sleep`, `malloc` and the functions
--   of the tasks are a record of parameters, `Calls`, and may change the state of the scheduler. The
--   rounds of `SchedulerRun` are on fuel, and the states that it reaches an indexed data type, since it
--   need not end.
-- Fsa: infinity/system_programming/fsa/fsa.c, on a memory of words; sizes wrap around at 2 ^ 64, and
--   a division by zero is `none`.
--
-- Not modelled: functions that only print or release memory, the C++ directories, and the programs
-- that use threads, processes or sockets.
pub mod Avl
pub mod BitArray
pub mod CircularBuffer
pub mod Dhcp
pub mod Dlist
pub mod Fsa
pub mod Hash
pub mod Heap
pub mod HeapQueue
pub mod PQueue
pub mod Prelude
pub mod Scheduler
pub mod Slist
pub mod SortedList
pub mod Sorts
pub mod Stack
pub mod Strings
pub mod Task
pub mod Uid
pub mod Vector
