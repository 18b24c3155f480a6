-- ===== src/OneList.antt =====
-- Project 2a/lab2_list.c with its SortedList.c: threads on one sorted list under one lock.
pub mod Laws
pub mod Emptied
pub mod InTurn
pub mod Counts
pub mod Operations
pub mod Options
pub mod Threads
pub mod Main
mod Tests
