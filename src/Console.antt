-- ===== src/Console.antt =====
-- The console of project 4b/lab4b.c: reports of the temperature, and commands typed meanwhile.
pub mod Device
pub mod Line
pub mod Loop
pub mod Logged
pub mod Pressed
pub mod Padded
pub mod Editor
pub mod Shown
pub mod Refines
pub mod Laws
mod Tests
