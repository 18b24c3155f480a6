-- ===== src/ListBench.antt =====
-- Project 2b/lab2_list.c: threads that insert random keys into sorted sublists, count, look up and
-- delete them, with the options of the program and its line of results.
pub mod Bins
pub mod Options
pub mod Report
pub mod State
pub mod Threads
pub mod Main
pub mod Keys
mod Tests
