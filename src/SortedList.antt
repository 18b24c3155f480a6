-- ===== src/SortedList.antt =====
-- The sorted list of project 2b (SortedList.c, SortedList.h, ListInfo.h): a doubly linked list in
-- explicit memory, its operations under a lock for each sublist, and what they do to the list.
pub mod Memory
pub mod Bodies
pub mod World
pub mod Operations
pub mod Chain
pub mod Walk
pub mod Insert
pub mod Delete
pub mod Search
pub mod Locks
pub mod Order
pub mod Options
pub mod Laws
pub mod Faults
mod Tests
