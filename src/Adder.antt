-- ===== src/Adder.antt =====
-- Project 2a/lab2_add.c: threads that add 1 and then -1 to one counter, unsynchronised or under a mutex,
-- a spin lock or compare-and-swap.
pub mod Options
pub mod Report
pub mod Main
pub mod Endings
pub mod Tally
pub mod Worker
pub mod System
pub mod Invariant
pub mod Safety
pub mod Progress
mod Tests
