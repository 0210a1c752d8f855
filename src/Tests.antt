-- ===== src/Tests.antt =====
-- Runs on concrete inputs.
mod Scene
mod Addresses
mod Tables
mod Rings
mod Reports
mod Detectors
mod Buffers
mod Partitioned
mod Banks
mod Threads
mod Lanes
mod Semaphores
mod Processes
mod PingPong
mod Forks
mod Spread
mod Tools
