-- ===== src/Tests.antt =====
-- Examples: the theorems at a disk and at file systems that are given in full.
pub mod Host
pub mod States
pub mod Io
pub mod Files
pub mod Tables
pub mod Mount
pub mod Ram
pub mod Storages
pub mod Scheduling
