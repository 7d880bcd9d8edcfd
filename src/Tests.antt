-- ===== src/Tests.antt =====
-- The theorems at concrete inputs: a small FAT16 disk in memory, names, dates and entries.
pub mod Disk
mod Table
mod Values
pub mod Directory
mod LongNames
mod Mounting
pub mod Reading
mod Handles
mod Writing
mod Cards
