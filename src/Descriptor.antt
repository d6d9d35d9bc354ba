-- ===== src/Descriptor.antt =====
-- kern/descriptor_tables.c: the global descriptor table and its task state segment.
-- kern/interrupts.c: an entry of the interrupt descriptor table. The instructions that load the
-- tables are not modelled.
pub mod Gdt
pub mod Described
pub mod Idt
mod Tests
