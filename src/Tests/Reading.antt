-- ===== src/Tests/Reading.antt =====
-- The theorems on reading, on the volume of Disk: a file with the clusters 2, 3 and 5.
use embedded_sdmmc_rs.Common.{ℕ, ◌≡◌, refl, arith, false, List, [], ◌∷◌}
use embedded_sdmmc_rs.Common.Action.{ok}
use embedded_sdmmc_rs.Cache.{BlockCache}
use embedded_sdmmc_rs.Cache.View.{IsCoherent, blocks, Blocks}
use embedded_sdmmc_rs.Filesystem.Files.{FileInfo, read_write_append}
use embedded_sdmmc_rs.Fat.Volume.{bytes_per_cluster}
use embedded_sdmmc_rs.Manager.{Manager, VolumeInfo, get_file_by_id, get_volume_by_id}
use embedded_sdmmc_rs.Manager.Transfer.{Place, find_data_on_disk, read_file}
use embedded_sdmmc_rs.Manager.Transfer.Locate.{IsAt, location, place_in, find_data_on_disk-location}
use embedded_sdmmc_rs.Manager.Transfer.Bytes.{file_bytes}
use embedded_sdmmc_rs.Manager.Transfer.Read.{IsReading, HasClusters, HasRead, read_file-bytes}
use embedded_sdmmc_rs.Tests.Disk.{
  memory, memory_works, small_volume, cache, placed, coherent, has_blocks, disk,
}
use embedded_sdmmc_rs.Tests.Directory.{chain}
use embedded_sdmmc_rs.Tests.Values.{file_entry}

abbrev pub rest : List ℕ
rest = 3 ∷ 5 ∷ []

-- the place of the file's second cluster
abbrev start : Place
start = record { offset = 512; cluster = 3 }

start-IsAt : IsAt small_volume 2 rest 1 start
unfolding bytes_per_cluster
start-IsAt = (omega arith, refl, refl)

find_data_on_disk-location_example :
    (k : BlockCache Blocks) × (find_data_on_disk small_volume start 2 100 cache
      ≡ (ok (location small_volume 2 rest 100), (place_in small_volume 2 rest 100, k)))
    × IsCoherent memory_works k
    × (blocks memory_works k ≡ disk)
unfolding bytes_per_cluster
find_data_on_disk-location_example =
    find_data_on_disk-location memory_works small_volume 2 rest 100 1 start cache placed chain
      (omega arith) start-IsAt (omega arith) (omega arith) coherent

abbrev pub info : VolumeInfo
info = record { raw_volume = 5000; idx = 0; volume_type = small_volume }

-- a file of 1,300 bytes, read up to byte 500
abbrev pub file : FileInfo
file = record {
  raw_file = 5002;
  raw_volume = 5000;
  cluster_offset = 0;
  current_cluster = 2;
  current_offset = 500;
  mode = read_write_append;
  entry = record file_entry { cluster = 2; size = 1300 };
  dirty = false;
}

abbrev pub manager : Manager Blocks
manager = record {
  id_generator = record { next_id = 5003 };
  block_cache = cache;
  open_volumes = info ∷ [];
  open_dirs = [];
  open_files = file ∷ [];
}

pub file-HasClusters : HasClusters memory_works 0 0 info 2 rest disk 1 1300
unfolding bytes_per_cluster
file-HasClusters = record {
  placed = placed;
  chain = chain;
  whole = (omega arith, refl);
  full = has_blocks;
  small = omega arith;
  enough = omega arith;
}

pub manager-IsReading : IsReading memory_works 0 0 info 2 rest disk 1 manager file
unfolding bytes_per_cluster
manager-IsReading = record {
  file = refl;
  volume = refl;
  coherent = coherent;
  stored = refl;
  nth = 0;
  place = (omega arith, refl, refl);
  first = refl;
  within = omega arith;
}

read_file-bytes_example :
    (s : Manager Blocks) × (read_file 5002 700 manager
      ≡ (ok (file_bytes small_volume 2 rest disk 500 700), s))
    × HasRead memory_works 0 0 info 2 rest disk 1 s file 700
unfolding get_file_by_id get_volume_by_id
read_file-bytes_example =
    read_file-bytes memory_works 0 0 info 2 rest disk 1 5002 700 manager file file-HasClusters
      manager-IsReading refl refl
