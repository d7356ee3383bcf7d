-- ===== src/Fat/Mount.antt =====
-- modules/fs/fat/fat.c: the superblock that `fat_mount` makes of a boot sector. It is zeroed first, and the
-- sectors of a copy of the table are never set.
use stanix.Base.{
  ℕ, ◌+◌, ◌-◌, ◌*◌, ◌/◌, ◌%◌, ◌^◌, ◌≡◌, refl, Bool, true, false, not, ◌&&◌, ◌||◌, Option, none,
  some, ltb, ◌==◌, if◌then◌else◌,
}
use stanix.Fat.{FatType, fat12, fat16, fat32, Superblock}

-- The fields of `fat_bpb_t` by which a volume is laid out.
pub record BootSector : Type 0 where
  pub byte_per_sector : ℕ
  pub sector_per_cluster : ℕ
  pub reserved_sectors : ℕ
  pub fat_count : ℕ
  pub root_entires_count : ℕ
  pub sectors_count16 : ℕ
  pub sectors_count32 : ℕ
  pub sectors_per_fat16 : ℕ
  pub sectors_per_fat32 : ℕ
  pub version : ℕ
  pub signature : ℕ

-- A 16-bit field, or the 32-bit one when it is zero.
abbrev pub or_wide : (narrow wide : ℕ) → ℕ
or_wide narrow wide = if narrow == 0 then wide else narrow

-- The sectors of the volume, and those that are reserved or in a copy of the table.
abbrev pub sectors_count : BootSector → ℕ
sectors_count bpb = or_wide bpb.sectors_count16 bpb.sectors_count32

abbrev pub reserved_and_tables : BootSector → ℕ
reserved_and_tables bpb =
    bpb.reserved_sectors + bpb.fat_count * or_wide bpb.sectors_per_fat16 bpb.sectors_per_fat32

unfoldable pub root_sectors : BootSector → ℕ
root_sectors bpb =
    (bpb.root_entires_count * 32 + bpb.byte_per_sector - 1) / bpb.byte_per_sector % 2 ^ 16

-- The sectors in front of the data.
unfoldable pub sectors_before_data : BootSector → ℕ
sectors_before_data bpb = (reserved_and_tables bpb + root_sectors bpb) % 2 ^ 32

unfoldable pub data_clusters : BootSector → ℕ
data_clusters bpb =
    (sectors_count bpb + 2 ^ 32 - sectors_before_data bpb) % 2 ^ 32 / bpb.sector_per_cluster

abbrev pub type_of : (clusters : ℕ) → FatType
type_of clusters = if ltb clusters 4085 then fat12 else if ltb clusters 65525 then fat16 else fat32

abbrev pub supported : FatType → (version : ℕ) → Bool
supported fat12 version = true
supported fat16 version = true
supported fat32 version = version == 0

-- What is read into the boot sector is fit for a volume.
unfoldable pub is_volume : BootSector → Bool
is_volume bpb =
    (bpb.signature == 0xaa55)
    && not (ltb bpb.byte_per_sector 512 || bpb.sector_per_cluster == 0)
    && supported (type_of (data_clusters bpb)) bpb.version

-- What `fat_mount` stores in the zeroed superblock.
unfoldable pub superblock : BootSector → Superblock
superblock bpb = record {
  fat_type = type_of (data_clusters bpb);
  reserved_sectors = bpb.reserved_sectors;
  sector_size = bpb.byte_per_sector;
  sectors_per_fat = 0;
  cluster_size = bpb.byte_per_sector * bpb.sector_per_cluster;
  data_clusters = data_clusters bpb;
  fat_count = bpb.fat_count;
  data_start = sectors_before_data bpb * bpb.byte_per_sector % 2 ^ 32;
}

-- `fat_mount` of a boot sector that was read in full and with memory for the superblock, up to the root
-- directory; nothing when it returns -EFTYPE.
unfoldable pub mount : BootSector → Option Superblock
mount bpb = if is_volume bpb then some (superblock bpb) else none

chosen_eq :
    (test : Bool) (made fs : Superblock)
    → (if test then some made else none) ≡ some fs
    → (made ≡ fs) × (test ≡ true)
chosen_eq true made fs h = (cc h, refl)
chosen_eq false made fs h = absurd (cc h)

-- A mounted volume has the superblock of its boot sector, which is fit for a volume.
pub mount-eq :
    (bpb : BootSector) (fs : Superblock)
    → mount bpb ≡ some fs
    → (superblock bpb ≡ fs) × (is_volume bpb ≡ true)
unfolding mount
mount-eq bpb fs h = chosen_eq (is_volume bpb) (superblock bpb) fs h
