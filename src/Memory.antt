-- ===== src/Memory.antt =====
-- sys/memory: physical pages and the kernel's heap.
pub mod Physical
pub mod Zone
pub mod Heap
pub mod Virtual
pub mod Dma
