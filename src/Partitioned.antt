-- ===== src/Partitioned.antt =====
-- perf2_new.c: the monitor that runs `perf`, parses its reports, and keeps a partitioned Bloom filter for
-- each thread. A C string is the list of its characters, without the closing NUL.
pub mod Text
pub mod Filters
pub mod Pairs
pub mod Threads
pub mod Input
pub mod Monitor
