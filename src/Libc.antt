-- ===== src/Libc.antt =====
-- sys/libc: the kernel's C library.
pub mod Strings
pub mod Numbers
