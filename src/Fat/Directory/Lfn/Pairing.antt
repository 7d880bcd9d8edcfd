-- ===== src/Fat/Directory/Lfn/Pairing.antt =====
-- Which short entries get a long name: the closure of `iterate_dir_lfn` on short entries.
use embedded_sdmmc_rs.Filesystem.DirEntry.{DirEntry}
