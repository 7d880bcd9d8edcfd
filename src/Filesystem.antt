-- ===== src/Filesystem.antt =====
-- embedded-sdmmc/src/filesystem: the values that the file system is described by.
pub mod Cluster
pub mod Attributes
pub mod Handles
pub mod Timestamp
pub mod Filename
pub mod DirEntry
pub mod LfnBuffer
pub mod Files
