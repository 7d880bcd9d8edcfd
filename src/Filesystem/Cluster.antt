-- ===== src/Filesystem/Cluster.antt =====
-- embedded-sdmmc/src/filesystem/cluster.rs: a `ClusterId` is a `u32`, some values of which are
-- reserved.
use embedded_sdmmc_rs.Common.{ℕ, add32}

abbrev pub ClusterId : Type 0
ClusterId = ℕ

abbrev pub invalid : ClusterId
invalid = 0xFFFF_FFF6

abbrev pub bad : ClusterId
bad = 0xFFFF_FFF7

abbrev pub empty : ClusterId
empty = 0

abbrev pub root_dir : ClusterId
root_dir = 0xFFFF_FFFC

abbrev pub end_of_file : ClusterId
end_of_file = 0xFFFF_FFFF

-- `ClusterId + u32` and `ClusterId += u32`
abbrev pub add_cluster : ClusterId → ℕ → ClusterId
add_cluster c n = add32 c n
