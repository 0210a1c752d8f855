-- ===== src/Lib.antt =====
-- Two samplers of coherence traffic: the program hardcore_new6.c, with the hash that it copies from
-- murmurhash/murmur3.c, and its forerunner perf2_new.c, which reads the reports of `perf`. Besides, the
-- benchmarks that make threads or processes share memory, which the samplers were written to watch:
-- Microbench/CircularBuffer.c, Microbench/ProducerConsumerBenchMark.c, Microbench/ProducerConsumerCircular.c,
-- Microbench/ProducerConsumerNewSemaphore.c, Microbench/pingPong_withoutAtomic.c, bench/ThreeFriends.c,
-- bench/NewProcess1.c with bench/NewProcess2.c, Microbench/sharedMemory.c with Microbench/sharedMemory2.c, and
-- PCB/ParaPCBBUFF.cpp and PCB/SinglePMultipleC.cpp; and two tools that read the pagemap by hand:
-- physical/VtoP.c and physical/ReadPageMap.c.
--
-- `main` counts the loads that hit a modified line of another core (`count_events`). Above a threshold it
-- opens a sampling event for each core (`sample`), reads the ring buffer of each (`perf_mmap_read`) and
-- hands every sample to `storeSample`, which keeps, for each thread, a table of the virtual addresses
-- seen and one of the physical addresses (`virt_to_phys_user`), each with a Bloom filter over `hash`.
-- At the end `displaySample` prints the tables and `checkIntersection` compares the filters of each pair
-- of threads (`numbBitsSet`, `TotalFrequency`, `IntersectFilter`).
--
-- perf2_new.c does the same with `perf stat` and `perf mem`: `main` reads the counts (`readOutputFile`), and
-- above a threshold the report (`read_mems`), whose lines `process_string` takes apart. Each address goes to a
-- table of the threads (`add_threadInfo`) and to the filter of its thread (`getfilters`); in the end
-- `check_intersection_filter` compares the filters of each pair.
--
-- Which file models what:
-- - Base and its children: Boolean tests, `u32` and `u64`, shifts, arrays as functions, sums over them.
-- - Murmur: murmurhash/murmur3.c, with the two 128-bit variants in Murmur/Wide.
-- - Hash: `hash` of hardcore_new6.c, with the text that `sprintf` writes in Hash/Decimal.
-- - Pagemap: `PagemapEntry`, `GET_PFN`, `pagemap_get_entry`, `virt_to_phys_user`.
-- - Samples: `struct thread_info`, `initialize`, `storeSample`. Samples/History says what a table
--   represents, Samples/Thread what all tables do.
-- - Filters: `numbBitsSet`, `IntersectFilter`, `TotalFrequency`.
-- - Perf: `perf_mmap_read`; Perf/Fields has the blocks that read the fields of a sample, Perf/Walk the
--   loop over the records, Perf/Ring the copy of the ring. Perf/Layout and Perf/Records describe a
--   buffer of whole records independently of the loop.
-- - Report: `displaySample`, `checkPair`, `checkIntersection`.
-- - Labels: `findSource` and `print_event_type`.
-- - Detector: `count_events`, `sample`, `main`.
-- - Partitioned: perf2_new.c. Partitioned/Text has `typeTID` and `typeAddr`, Partitioned/Filters the bank of
--   filters, Partitioned/Threads the table of addresses, Partitioned/Input the report of `perf mem`,
--   Partitioned/Pairs the comparison of the filters, Partitioned/Monitor `readOutputFile` and `main`.
--   Partitioned/Filters/Bank says what the filters represent, Partitioned/Threads/Log what the table does.
-- - Circular: `initialize_buffer`, `insert_into_buffer`, `delete_from_buffer` and `main` of
--   Microbench/CircularBuffer.c. Circular/Window says which values a buffer holds, Circular/Queue what a
--   bounded queue replies.
-- - Chain: `ProducerConsumer` and `create_threads` of Microbench/ProducerConsumerBenchMark.c, threads over
--   locked circular buffers, as a relation between states: one step is one operation under the lock.
-- - Friends: `doSomeThing` of bench/ThreeFriends.c, three threads over shared counters and two locks. A step is
--   one test of a counter, one call on a lock or one assignment; Friends/Single is about `counter1`,
--   Friends/Four and Friends/Behind about the others, Friends/Whole and Friends/Ends about whole runs.
-- - Unlocked: `Producer` and `Consumer` of Microbench/ProducerConsumerCircular.c, in steps of one access.
--   Unlocked/Lap is about the first lap of the ring, Unlocked/Race about the next one.
-- - Lanes: `initializeINOUT`, `Producer` and `Consumer` of PCB/ParaPCBBUFF.cpp, any number of pairs, each with an
--   unlocked ring. Lanes/One says what a ring holds, Lanes/Steps is about single steps, Lanes/Whole
--   about every state, and Lanes/Ends about whole runs.
-- - Spread: `Producer` and `Consumer` of PCB/SinglePMultipleC.cpp, one producer and any number of consumers over
--   atomic indices; Spread/Overtaken is about runs with one item.
-- - Semaphores: `Producer` and `Consumer` of Microbench/ProducerConsumerNewSemaphore.c, with `sem_wait` and
--   `sem_post` as steps. Semaphores/Places says what holds at each place, Semaphores/Steps
--   is about single steps, Semaphores/Whole about every state, and Semaphores/Ends about whole runs.
-- - Processes: `main` of bench/NewProcess1.c and of bench/NewProcess2.c, two processes that count in turn in a
--   shared segment; each increment is a load and a store. Processes/Fair and Processes/Turns are about a new segment,
--   Processes/Past about the last turn, Processes/Stale about a segment of an earlier run, and
--   Processes/Report about the addresses that both print.
-- - PingPong: the two loops of `doSomeThing` of Microbench/pingPong_withoutAtomic.c, with PingPong/Tally about
--   their counts.
-- - Forks: the loops of Microbench/sharedMemory.c and Microbench/sharedMemory2.c, two processes that increment a
--   variable in turn until each has done it `ITER` times. Forks/Turns and Forks/Finish are about `fork`,
--   Forks/Vfork about `vfork`, which suspends the parent.
-- - Tools: Tools/Frame has `get_page_frame_number_of_address` and `VtoP` of physical/VtoP.c, Tools/Reader
--   `read_pagemap` of physical/ReadPageMap.c.
-- - Older: `hash` and `storeSample` of hardcore_new5.c, whose hash is a remainder of a signed product.
-- - Tests: runs on concrete inputs.
--
-- How the state is modelled: globals and buffers are passed from call to call. A C array is a function
-- of its index. An access at a computed index is checked, and `none`, `fault`, `crash` or `overflow` stand
-- for an access outside, which C leaves undefined; the indices of Circular, Unlocked, Lanes and
-- Semaphores are not checked. A signed 64-bit number is its bit pattern. The `int`
-- counters of the tables are plain numbers, since none passes the number of samples.
--
-- Loops with a known number of rounds recurse on it. Three others take a number of rounds: `read_loop`
-- has 9, and each round that goes on reads a byte of 8; `walk` has the number of new bytes and 2, and
-- in a buffer where each record that it comes to has a size a round moves on; `pair_loop` has any number. `decimal` has
-- 20 digits, enough for 64 bits.
--
-- Parameters stand for what is not in the repository: the kernel's answers to `open`, `pread`, `sysconf`,
-- `perf_event_open`, `read` and `mmap`, the lines of the files that `perf` leaves, what an
-- uninitialised variable holds, the layout of the structures of linux/perf_event.h, and what `fopen`, `fseek`,
-- `fread` and `getc` give the tools.
--
-- The threads of Friends, Unlocked, Lanes, Spread, Processes, Forks and PingPong read and write shared
-- variables in one order, as if each access were atomic; the programs read them without a lock, and only
-- PCB/SinglePMultipleC.cpp has atomic indices. A round of a busy-wait in Unlocked, Lanes and Spread is a step that
-- leaves the state as it is.
--
-- Not modelled: the calls of `findSource` that `perf_mmap_read` makes, since they fill a local text that is
-- not printed; the other earlier versions of the sampler, which hardcore_new6.c replaces, and the rest of
-- hardcore_new5.c, which is much the same; the parts of the benchmarks that pin, create and join threads,
-- count events around them and print addresses; and the other programs under Microbench, bench, PCB and
-- physical, most of which are variants of those above or trials of one system call.
pub mod Base
pub mod Murmur
pub mod Hash
pub mod Pagemap
pub mod Samples
pub mod Filters
pub mod Perf
pub mod Report
pub mod Detector
pub mod Circular
pub mod Labels
pub mod Chain
pub mod Partitioned
pub mod Friends
pub mod Unlocked
pub mod Older
pub mod Lanes
pub mod Semaphores
pub mod Processes
pub mod Tools
pub mod PingPong
pub mod Forks
pub mod Spread
pub mod Tests
