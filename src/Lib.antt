-- ===== src/Lib.antt =====
-- A model of embedded-sdmmc, a FAT16 and FAT32 file system for SD cards without an operating
-- system, and its proofs. Paths are from the repository's root.
--
-- The program. A `BlockDevice` (embedded-sdmmc-types/src/blockdevice.rs) reads and writes blocks of
-- 512 bytes. `BlockCache` (embedded-sdmmc/src/lib.rs) keeps one block in front of it. An `SdCard`
-- (embedded-sdmmc/src/sdcard/spi.rs) is such a device, which speaks to a card over an SPI bus. A
-- `FatVolume` (embedded-sdmmc/src/fat/volume.rs) is mounted by `parse_volume` from the boot sector
-- and the info sector (fat/bpb.rs, fat/info.rs), walks and changes the File Allocation Table and
-- the directories through the cache, and works on directory entries (fat/ondiskdirentry.rs) with
-- the values of embedded-sdmmc/src/filesystem. The volume manager (embedded-
-- sdmmc/src/volume_mgr.rs) keeps the tables of open volumes, directories and files, and calls the
-- volume.
--
-- The model. Block is blockdevice.rs, Cache the cache, with the blocks of a device that works as
-- its specification in Cache.View. Filesystem holds the values: Cluster, Attributes, Handles,
-- Timestamp, Filename, LfnBuffer, DirEntry and Files, each named for its file or type. Fat.Volume
-- is the data of a volume; Fat.Table is `next_cluster` and `update_fat`, with the table as the disk
-- holds it in Fat.Table.Spec and the meaning of what is written in Fat.Table.ReadBack; Fat.Alloc is
-- `find_next_free_cluster`, `alloc_cluster` and `truncate_cluster_chain`; Fat.OnDisk is a directory
-- entry's bytes; Fat.Directory is the walk over a directory (`iterate_dir`,
-- `find_directory_entry`), Fat.Directory.Lfn the walk with long names (`iterate_dir_lfn`),
-- Fat.Directory.ByLfn the search by long name (`find_directory_entry_by_lfn`), Fat.Directory.Change
-- what is written into one (`write_new_directory_entry`, `delete_directory_entry`,
-- `write_entry_to_disk`, `make_dir`), and Fat.Mount `parse_volume` and `update_info_sector`, with
-- the layout of a volume by its boot sector's fields in Fat.Mount.Layout. Fat.VolumeName is a
-- volume's name. Manager is the state of the volume manager (`VolumeManagerData`) and the searches
-- in its tables; Manager.Volumes opens and closes volumes, Manager.Dirs directories,
-- Manager.Entries lists, makes and deletes the entries of a directory and reads the label of a
-- volume, Manager.Files opens, flushes, closes and seeks, Manager.Transfer is `find_data_on_disk`
-- and `read`, and Manager.Write `write`. Sdcard is the kinds of card, commands and tokens of
-- embedded-sdmmc-types/src/sdcard/mod.rs, Sdcard.Crc its check sums, Sdcard.Csd the register with
-- the card's data (csd.rs), Sdcard.Bus the commands and the data on the bus, and Sdcard.Card the
-- driver with its initialisation (both embedded-sdmmc/src/sdcard/spi.rs). Common has the shared
-- lists, words, bits, bytes and the action type; Tests applies the theorems to concrete inputs.
--
-- How code is rendered. A method on the cache or the volume is an action: it takes the state and
-- returns a result and the new state, also after an error, since what was written stays written. A
-- result is a value, an error, a panic, or, in a loop, the news that the fuel is out. Integers are
-- natural numbers with the wrap-around of a release build written out. The device is a parameter,
-- an instance of `BlockDevice`; theorems about the disk assume `Working`, which says that reads and
-- writes do what the interface documents and do not fail. The clock is a parameter too. Functions
-- keep their names, but for `read` and `write` of a file, which are `read_file` and `write_file`,
-- and the volume manager's `iterate_dir` and `find_directory_entry`, which are `iterate_entries`
-- and `find_entry`; helpers have the name of the step that they stand for. A method of the volume
-- manager is an action on its data: the lock that each method takes is free, since no closure of
-- the model calls the manager, so that `LockError` does not arise. A time source is a function from
-- the number of its call within a method. `read_file` returns the bytes that the code puts at the
-- front of its buffer. The SPI device and the delay of the driver are one parameter, an instance of
-- `SpiDevice`, with a state of its own; a field of a register is a part of its bits.
--
-- Fuel. The inner loop of the search for a free cluster has one round for each entry of a block and
-- one more. The outer loop passes a cluster in each round, and the fuel is the number of clusters
-- to search and one more. A walk over a chain has fuel for every entry of the table and one more,
-- enough for a chain without a cycle; the code does not end on a cycle. The loops of `read` and
-- `write` move at least one byte in each round; their fuel is the length of the buffer and one
-- more. The loops of the driver of a card need none: they run on the retries that their `Delay` has
-- left.
--
-- Not modelled: the types of arguments and responses, and the register CID, of embedded-sdmmc-
-- types, which the driver does not use; the command classes of the card's data; formatting for
-- debugging; `free` of the volume manager and of the cache, which take them apart; and the wrapper
-- types whose methods only forward to the volume manager.
pub mod Common
pub mod Sdcard
pub mod Manager
pub mod Tests
pub mod Block
pub mod Cache
pub mod Filesystem
pub mod Fat
