-- ===== src/Container.antt =====
-- sys/container: the kernel's data structures.
pub mod RingBuffer
pub mod LinkedList
pub mod Array
pub mod HashSet
pub mod Iterator
pub mod Atree
