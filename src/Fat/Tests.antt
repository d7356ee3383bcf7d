-- ===== src/Fat/Tests.antt =====
-- The FAT table at concrete values: a mounted FAT16 volume of 4085 clusters, the first of which is a file.
use stanix.Base.{ℕ, ◌<◌, ◌≡◌, ◌≢◌, refl, [], ◌∷◌, arith, some, none}
use stanix.Errno.{done, fail, enospc}
use stanix.Fat.{
  Disk, put, fat16, Superblock, eof, get_next, stored_at, store_at, set_next, set_copies,
}
use stanix.Fat.Table.{IsBytes}
use stanix.Fat.Mirror.{IsUpdated, no_fault, set_next-IsUpdated}
use stanix.Fat.Chain.{
  Volume, find_free, allocate_cluster, set_cluster, free_clusters, shrink, grow_run, grow,
}
use stanix.Fat.View.{IsSound}
use stanix.Fat.Mount.{
  BootSector, root_sectors, sectors_before_data, data_clusters, is_volume, superblock, mount,
}
use stanix.Fat.Placed.{IsPlaced, mount-IsPlaced}
use stanix.Fat.Alloc.{IsHinted}
use stanix.Fat.Walk.{IsChain, Every}
use stanix.Fat.Files.{NewFile, grow-NewFile, free_clusters-grow}
use stanix.Fat.Defects.{shrink_lem}

abbrev boot : BootSector
boot = record {
  byte_per_sector = 512;
  sector_per_cluster = 1;
  reserved_sectors = 1;
  fat_count = 2;
  root_entires_count = 16;
  sectors_count16 = 4119;
  sectors_count32 = 0;
  sectors_per_fat16 = 16;
  sectors_per_fat32 = 0;
  version = 0;
  signature = 0xaa55;
}

abbrev fs : Superblock
fs = record {
  fat_type = fat16;
  reserved_sectors = 1;
  sector_size = 512;
  sectors_per_fat = 0;
  cluster_size = 512;
  data_clusters = 4085;
  fat_count = 2;
  data_start = 17408;
}

fs_mounted : mount boot ≡ some fs
unfolding mount superblock is_volume data_clusters sectors_before_data root_sectors
fs_mounted = refl

-- A sector that is too small, and no signature.
no_mount :
    (mount (record boot { byte_per_sector = 256 }) ≡ none)
    × (mount (record boot { signature = 0 }) ≡ none)
unfolding mount is_volume
no_mount = (refl, refl)

-- The entry of cluster 2 is EOF.
abbrev disk : Disk
disk = put (put (λ a. 0) 516 0xf8) 517 0xff

abbrev volume : Volume
volume = record { disk = disk; hint = 2 }

disk-IsBytes : IsBytes disk
unfolding IsBytes
disk-IsBytes a = ground arith

mount-IsPlaced_example : IsPlaced boot fs
unfolding root_sectors
mount-IsPlaced_example = mount-IsPlaced boot fs fs_mounted (omega arith) (omega arith)

fs-IsSound : IsSound fs
fs-IsSound = record { wide = λ e. cc e; copies = omega arith; unset = refl; few = omega arith }

volume-IsHinted : IsHinted fs volume
volume-IsHinted c l u m e = absurd (omega arith)

find_at : allocate_cluster fs volume ≡ (3, 4)
unfolding allocate_cluster find_free get_next stored_at
find_at = refl

set_next-IsUpdated_example :
    ((set_next no_fault fs 3 4 disk).0 ≡ done tt)
    × IsUpdated fs 3 4 disk (set_next no_fault fs 3 4 disk).1
set_next-IsUpdated_example =
    set_next-IsUpdated fs 3 4 disk refl (omega arith) disk-IsBytes (omega arith) (omega arith)

grow-NewFile_example : NewFile fs volume 2 0 (grow no_fault fs 0 2 0 volume)
grow-NewFile_example = grow-NewFile fs fs-IsSound volume disk-IsBytes volume-IsHinted 2 0

-- The volume with a new file of the clusters 4 and 3.
abbrev grown : Volume
grown = (grow no_fault fs 0 2 0 volume).2

grow_at : grow no_fault fs 0 2 0 volume ≡ (done tt, 4, grown)
unfolding grow grow_run set_cluster allocate_cluster find_free get_next stored_at set_next
    set_copies store_at
grow_at = refl

-- Every entry is taken, and the search starts at the last cluster.
abbrev full : Volume
full = record { disk = λ a. 1; hint = 4086 }

full_at : (grow no_fault fs 0 1 0 full).0 ≡ fail enospc
unfolding grow grow_run set_cluster allocate_cluster find_free get_next stored_at set_next
    set_copies store_at
full_at = refl

free_clusters-grow_example :
    get_next fs ((free_clusters no_fault fs 4 grown).disk) 3 ≡ get_next fs disk 3
free_clusters-grow_example =
    free_clusters-grow fs fs-IsSound volume disk-IsBytes volume-IsHinted 2 0 4 grown grow_at
      (omega arith) 3 (omega arith)

-- A file of the clusters 5, 6 and 7, to be cut to two clusters, and another one of cluster 2 alone.
abbrev long_file : Volume
long_file = record {
  disk = put (put (put (put (put (put (λ a. 0) 516 0xf8) 517 0xff) 522 6) 524 7) 526 0xf8) 527 0xff;
  hint = 2;
}

long_file-IsBytes : IsBytes long_file.disk
unfolding IsBytes
long_file-IsBytes a = ground arith

shrink_lem_example :
    (get_next fs (((shrink no_fault fs 3 2 5 long_file).2).disk) 2 ≡ eof fat16)
    × (get_next fs (((shrink no_fault fs 3 2 5 long_file).2).disk) 6 ≡ 7)
    × (get_next fs (((shrink no_fault fs 3 2 5 long_file).2).disk) 7 ≡ 0)
    × ((c : ℕ)
        → c < 4087
        → 2 ≢ c
        → Every (λ d. d ≢ c) (7 ∷ [])
        → get_next fs (((shrink no_fault fs 3 2 5 long_file).2).disk) c
          ≡ get_next fs long_file.disk c)
unfolding IsChain get_next stored_at
shrink_lem_example =
    shrink_lem fs fs-IsSound long_file 5 (5 ∷ []) 6 7 [] long_file-IsBytes
      (λ c l u m e. absurd (omega arith))
      (
        refl,
        (omega arith, omega arith),
        (refl, (omega arith, omega arith), (refl, (omega arith, omega arith), refl)),
      )
      (omega arith, omega arith) (omega arith) (omega arith)
