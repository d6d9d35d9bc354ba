-- ===== src/Tasks.antt =====
-- kern/multitasking.c: the tasks that the cores hand to one another.
pub mod Queue
pub mod System
pub mod Invariant
pub mod Safety
pub mod Schedule
pub mod Workers
pub mod Search
mod Tests
