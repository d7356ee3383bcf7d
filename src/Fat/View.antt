-- ===== src/Fat/View.antt =====
-- modules/fs/fat/fat.c: on FAT16 and FAT32 the volume's table is a map from clusters to clusters, which
-- `fat_set_next_cluster` updates at one cluster.
use stanix.Base.{ℕ, ◌+◌, ◌^◌, ◌≤◌, ◌<◌, ◌≡◌, refl, ap, ◌∙◌, ◌≢◌, arith}
use stanix.Fat.{FatType, fat12, fat16, fat32, Superblock, eof, next_of, get_next, set_next}
use stanix.Fat.Table.{IsBytes, Apart, entry_limit}
use stanix.Fat.Mirror.{IsUpdated, no_fault, set_next-IsUpdated}
use stanix.Fat.Chain.{Volume, write_next}

-- A FAT16 or FAT32 volume as `fat_mount` leaves it (see Mount): it has a copy of the table, the sectors of
-- a copy are not set, and the numbers of its clusters are below the end marks.
pub record IsSound (fs : Superblock) : Type 0 where
  pub wide : fs.fat_type ≢ fat12
  pub copies : 0 < fs.fat_count
  pub unset : fs.sectors_per_fat ≡ 0
  pub few : fs.data_clusters + 2 ≤ eof fs.fat_type

pub Apart-of_wide : (t : FatType) → t ≢ fat12 → (c c' : ℕ) → c ≢ c' → Apart t c c'
Apart-of_wide fat12 h c c' ne = absurd (h refl)
Apart-of_wide fat16 h c c' ne = ne
Apart-of_wide fat32 h c c' ne = ne

pub eof-lt : (t : FatType) (n : ℕ) → n ≤ eof t → t ≢ fat12 → n < entry_limit t
eof-lt fat12 n h ne = omega arith
eof-lt fat16 n h ne = omega arith
eof-lt fat32 n h ne = omega arith

pub next_of-small : (t : FatType) (n : ℕ) → n ≤ eof t → next_of t n ≡ n
next_of-small fat12 n h = ground arith
next_of-small fat16 n h = ground arith
next_of-small fat32 n h = ground arith

pub few-small : (t : FatType) (n c : ℕ) → n ≤ eof t → c < n → c < 2 ^ 28
few-small fat12 n c h l = omega arith
few-small fat16 n c h l = omega arith
few-small fat32 n c h l = omega arith

module _ (fs : Superblock) (sound : IsSound fs) (v : Volume) (b : IsBytes v.disk) (cluster next : ℕ)
    (c : cluster < fs.data_clusters + 2) (n : next ≤ eof fs.fat_type) where
  updated : IsUpdated fs cluster next v.disk (set_next no_fault fs cluster next v.disk).1
  updated =
      (set_next-IsUpdated fs cluster next v.disk sound.unset sound.copies b
        (few-small fs.fat_type _ cluster sound.few c) (eof-lt _ next n sound.wide)).1

  pub write_next-IsBytes : IsBytes ((write_next no_fault fs cluster next v).1).disk
  write_next-IsBytes = updated.bytes

  pub get_next-write_next :
      get_next fs (((write_next no_fault fs cluster next v).1).disk) cluster ≡ next
  unfolding get_next
  get_next-write_next = ap (next_of fs.fat_type) updated.changed ∙ next_of-small _ next n

  pub get_next-write_next_other :
      (other : ℕ)
      → other < fs.data_clusters + 2
      → cluster ≢ other
      → get_next fs (((write_next no_fault fs cluster next v).1).disk) other
        ≡ get_next fs v.disk other
  unfolding get_next
  get_next-write_next_other other o ne = ap (next_of fs.fat_type) (
      updated.others other (few-small fs.fat_type _ other sound.few o)
        (Apart-of_wide _ sound.wide cluster other ne))
