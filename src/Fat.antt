-- ===== src/Fat.antt =====
-- embedded-sdmmc/src/fat: the FAT16 and FAT32 file systems.
pub mod Volume
pub mod Table
pub mod OnDisk
pub mod Alloc
pub mod Directory
pub mod Mount
pub mod VolumeName
