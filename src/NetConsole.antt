-- ===== src/NetConsole.antt =====
-- Project 4c/lab4c.c: the console of project 4b with a host in place of the keyboard: reports go to the
-- host, and commands come from it, over TCP or TLS.
pub mod Connect
pub mod Host
pub mod Loop
pub mod Logged
mod Tests
