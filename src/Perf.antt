-- ===== src/Perf.antt =====
-- hardcore_new6.c: `perf_mmap_read`, which copies what a core's ring buffer holds and walks its records.
pub mod Abi
pub mod Fields
pub mod Walk
pub mod Layout
pub mod Records
pub mod Progress
pub mod Overrun
pub mod Tables
pub mod Whole
pub mod Ring
