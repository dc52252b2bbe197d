-- ===== src/Lib.antt =====
-- Firedrake is a kernel for i486 machines. This library models parts of its C code, sys/, as
-- functions on explicit states, and proves what makes them correct.
--
-- The parts, and how they interact:
-- - sys/container: data structures. The iterator walks arrays and hash sets; else each stands alone. They
--   take their memory from the kernel heap.
-- - sys/libc: the kernel's C library; the strings in it stand alone.
-- - sys/memory: pmemory.c gives out physical pages. heap.c cuts zones of pages into blocks; it gets the
--   pages of a zone from mm_alloc, which is vmemory.c on top of pmemory.c.
--
-- Which file models which part:
-- - Container/RingBuffer: sys/container/ringbuffer.c. The struct is a record; a pointer is its address,
--   the buffer's bytes are a list. write, read, create, destroy and ring_length are the functions
--   ringbuffer_write and so on; put and advance are one round of their loops.
-- - Container/LinkedList: sys/container/list.c. The entries' links are a heap, a function from
--   addresses to links. The functions have the names of the code without the prefix list_, and the
--   camel case spelled with _.
-- - Container/Array: sys/container/array.c. The memory behind data is a list of words, so that a write
--   outside it does nothing; halloc is a parameter. Container/Array/Sort models array_sort with the
--   quick sort, heap sort and insertion sort that it combines.
-- - Container/HashSet: sys/container/hashset.c. A table of chains; a key or an object is its address, and
--   0 is NULL. The theorems are about sets that compare keys by address, as the default does.
-- - Container/Atree: sys/container/atree.c. The nodes are a tree of values; the path on the stack is a
--   list of frames, and a path longer than the array for it is none.
-- - Container/Iterator: sys/container/iterator.c, over a callback that fetches up to 10 objects.
--   Container/Array/Iterate and Container/HashSet/Iterate/Callback are the callbacks of arrays and hash
--   sets; Iterator/Drain says what a callback owes to the iterator.
-- - Memory/Physical: sys/memory/pmemory.c. The bitmap is a function from word indices to words.
-- - Memory/Zone: sys/memory/heap.c, one zone with its table of entries, which is a function from
--   indices; the entries of a tiny zone and of the others are one record, whose fields wrap at their
--   widths in the code. Zone/Defragment models __heap_zoneDefragment.
-- - Memory/Heap: sys/memory/heap.c, the list of zones with halloc and hfree.
-- - Memory/Virtual: sys/memory/vmemory.c. Memory is the words of its frames. Virtual.antt has the search
--   of __vm_findFreePages__kernel over a directory that is given by its tables, Virtual/Mapping the
--   operations on the kernel's directory, Virtual/Spaces those on directories of user space, with the
--   pages of the kernel that are mapped for the while. A failed assertion, a page fault and a lock that
--   never opens are none. Virtual/SelfMap has the pointer arithmetic of the page tables.
-- - Memory/Dma: sys/memory/dma.c, over Memory/Physical and Memory/Virtual.
-- - Libc/Strings: sys/libc/string.c. A string is the list of its characters before the terminating 0, each
--   from 1 to 127.
-- - Libc/Numbers: sys/libc/stdlib.c, numbers to text and back. The loop over the digits has the number as
--   its fuel, which falls in each round where the base is at least 2.
-- - Common: shared names, tests, lists and 32 bit arithmetic.
--
-- Numbers are natural numbers; size_t, uint32_t and pointers have 32 bits, and sums, differences and
-- products are reduced where the code's would wrap (add32, sub32, mul32). A spinlock is a Boolean: one
-- thread is modelled, so a call that finds the lock held does not return (none, or spins). assert and
-- panic end the call (panics); the assertions are those of a build without CONF_RELEASE.
--
-- Loops run on fuel or on the number of rounds the code itself bounds. The while loop of the merge in
-- Zone/Defragment has one round per table entry, which is enough, since each round that goes on makes
-- an entry unused. list_destroy runs on fuel: a round steps to the next entry, so one more than
-- there are entries is enough.
--
-- The loop of __array_heapSortEx has as many rounds as the heap has words: each goes to a higher
-- index. __array_quickSort recurses on its depth. An iterator is asked a number of times that is given.
--
-- The search of a page directory has one round for each entry that is left, and one more. atree_destroy has
-- two rounds for each node. The loop of dma_request has fuel, and need not end.
--
-- Parameters: what halloc, mm_alloc and the fill callback of a list return. A theorem that needs it
-- names what it relies on: addresses that are new, and pages that overlap no other zone.
--
-- Not modelled: the contents of heap blocks, the start-up code of pmemory.c and vmemory.c, the cache of
-- address translations (invlpg), threads and processes, files, the linker and loader, drivers, interrupts
-- and assembly. sys/libc/bsd is FreeBSD's.
pub mod Common
pub mod Container
pub mod Libc
pub mod Memory
