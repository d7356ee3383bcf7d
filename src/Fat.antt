-- ===== src/Fat.antt =====
-- modules/fs/fat/fat.c: the allocation table of FAT12, FAT16 and FAT32 volumes, its chains of clusters,
-- and the dates of directory entries. The device is a function from offsets to bytes. Reads of it
-- succeed; `fault` says at which offsets a write fails. A mutex makes each call atomic.
pub mod Table
pub mod Mirror
pub mod Chain
pub mod View
pub mod Mount
pub mod Placed
pub mod Alloc
pub mod Walk
pub mod Grow
pub mod Release
pub mod Files
pub mod Offsets
pub mod Defects
mod Tests
use stanix.Base.{
  ℕ, zero, suc, ◌+◌, ◌-◌, ◌*◌, ◌/◌, ◌%◌, ◌^◌, Bool, true, false, ◌||◌, Option, none, some, ltb, leb,
  ◌==◌, if◌then◌else◌,
}
use stanix.Base.Int.{ℤ}
use stanix.Errno.{Result, done, fail, ◌>>=◌, Errno, eio, enospc}
use stanix.Time.{Date, date2time, time2date}

abbrev pub Disk : Type 0
Disk = ℕ → ℕ

abbrev pub put : Disk → (offset value : ℕ) → Disk
put disk offset value a = if a == offset then value else disk a

pub data FatType : Type 0 where
  fat12 fat16 fat32 : FatType

-- `fat_superblock_t`, but for `cluster_search_hint`, which changes. `fat_mount` makes one with 0 for
-- `sectors_per_fat` (see Mount).
pub record Superblock : Type 0 where
  pub fat_type : FatType
  pub reserved_sectors : ℕ
  pub sector_size : ℕ
  pub sectors_per_fat : ℕ
  pub cluster_size : ℕ
  pub data_clusters : ℕ
  pub fat_count : ℕ
  pub data_start : ℕ

-- `fat_cluster2offset` and `fat_offset2cluster`
unfoldable pub cluster2offset : Superblock → ℕ → ℕ
cluster2offset fs cluster = (cluster - 2) * fs.cluster_size % 2 ^ 32 + fs.data_start

unfoldable pub offset2cluster : Superblock → ℕ → ℕ
offset2cluster fs offset = ((offset - fs.data_start) / fs.cluster_size + 2) % 2 ^ 32

-- `fat_eof`
abbrev pub eof : FatType → ℕ
eof fat12 = 0xff8
eof fat16 = 0xfff8
eof fat32 = 0x0ffffff8

-- Where an entry starts in a table, and how many bytes of it are accessed.
abbrev pub entry_offset : FatType → ℕ → ℕ
entry_offset fat12 cluster = cluster * 3 % 2 ^ 32 / 2
entry_offset fat16 cluster = cluster * 2 % 2 ^ 32
entry_offset fat32 cluster = cluster * 4 % 2 ^ 32

abbrev pub entry_size : FatType → ℕ
entry_size fat12 = 3
entry_size fat16 = 2
entry_size fat32 = 4

-- The entry stored at `at`. `even`: whether the cluster's number is even.
unfoldable pub stored_at : FatType → (even : Bool) → Disk → (at : ℕ) → ℕ
stored_at fat12 true disk at = disk at + disk (at + 1) % 16 * 256
stored_at fat12 false disk at = disk (at + 1) / 16 + disk (at + 2) * 16
stored_at fat16 even disk at = disk at + disk (at + 1) * 256
stored_at fat32 even disk at =
    disk at + disk (at + 1) * 256 + disk (at + 2) * 65536 + disk (at + 3) * 16777216

abbrev pub is_even : ℕ → Bool
is_even cluster = cluster % 2 == 0

-- An entry of the table at `start`.
abbrev pub stored : FatType → Disk → (start cluster : ℕ) → ℕ
stored t disk start cluster = stored_at t (is_even cluster) disk (start + entry_offset t cluster)

-- What `fat_get_next_cluster` makes of it.
abbrev pub next_of : FatType → ℕ → ℕ
next_of fat12 entry = if leb 0xff8 entry then 0xff8 else entry
next_of fat16 entry = if leb 0xfff8 entry then 0xfff8 else entry
next_of fat32 entry = if leb 0x0ffffff8 entry then 0x0ffffff8 else entry % 2 ^ 28

abbrev pub fat_start : Superblock → ℕ
fat_start fs = fs.reserved_sectors * fs.sector_size

-- `fat_get_next_cluster`
unfoldable pub get_next : Superblock → Disk → ℕ → ℕ
get_next fs disk cluster = next_of fs.fat_type (stored fs.fat_type disk (fat_start fs) cluster)

-- The bytes that `fat_raw_set_next_cluster` writes.
unfoldable pub store_at : FatType → (even : Bool) → Disk → (at next : ℕ) → Disk
store_at fat12 true disk at next =
    put (put disk at (next % 256)) (at + 1) (disk (at + 1) / 16 % 16 * 16 + next / 256 % 16)
store_at fat12 false disk at next =
    put (put disk (at + 1) (next % 16 * 16 + disk (at + 1) % 16)) (at + 2) (next / 16 % 256)
store_at fat16 even disk at next = put (put disk at (next % 256)) (at + 1) (next / 256 % 256)
store_at fat32 even disk at next =
    put
      (put (put (put disk at (next % 256)) (at + 1) (next / 256 % 256)) (at + 2)
        (next / 65536 % 256))
      (at + 3) (next / 16777216 % 16)

abbrev pub store : FatType → Disk → (start cluster next : ℕ) → Disk
store t disk start cluster next =
    store_at t (is_even cluster) disk (start + entry_offset t cluster) next

-- Which writes fail, by their offset.
abbrev pub WriteFault : Type 0
WriteFault = ℕ → Bool

-- Where copy `i` of the table starts.
abbrev pub copy_start : Superblock → ℕ → ℕ
copy_start fs i = (fs.reserved_sectors + fs.sectors_per_fat * i) * fs.sector_size

-- The loop of `fat_set_next_cluster`, over the copies from `i` on. An error leaves the copies before.
unfoldable pub set_copies :
    WriteFault → Superblock → (cluster next : ℕ) → (left i : ℕ) → Disk → Result (Unit {0}) × Disk
set_copies fault fs cluster next zero i disk = (done tt, disk)
set_copies fault fs cluster next (suc left) i disk =
    if fault (copy_start fs i + entry_offset fs.fat_type cluster)
    then (fail eio, disk)
    else set_copies fault fs cluster next left (i + 1)
        (store fs.fat_type disk (copy_start fs i) cluster next)

-- `fat_set_next_cluster`
unfoldable pub set_next :
    WriteFault → Superblock → (cluster next : ℕ) → Disk → Result (Unit {0}) × Disk
set_next fault fs cluster next disk = set_copies fault fs cluster next fs.fat_count 0 disk
