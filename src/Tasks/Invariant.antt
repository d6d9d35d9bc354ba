-- ===== src/Tasks/Invariant.antt =====
-- What holds of a worker's queue and the cores at it, at every step.
pub mod Defs
pub mod Slots
pub mod Contents
pub mod Indices
