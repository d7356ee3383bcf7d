-- ===== src/Fat/Placed.antt =====
-- modules/fs/fat/fat.c: where the clusters of a mounted volume lie (`fat_mount`, `fat_cluster2offset`).
use stanix.Base.{ℕ, ◌+◌, ◌-◌, ◌*◌, ◌/◌, ◌^◌, ◌≤◌, ◌<◌, ◌≡◌, subst, ap, true, some, arith}
use native.Mathlib.Nat.{mul-le-mul_left, mul-le-mul_right, div-mul-le_self}
use stanix.Fat.{Superblock, cluster2offset}
use stanix.Fat.Mount.{
  BootSector, sectors_count, reserved_and_tables, root_sectors, sectors_before_data, data_clusters,
  is_volume, superblock, mount, mount-eq,
}

-- Of the sectors before the data, which fit on the volume, and the sectors on it.
clusters_fit :
    (count before per bytes n : ℕ)
    → before ≤ count
    → n < (count - before) / per
    → before * bytes + n * (bytes * per) + bytes * per ≤ count * bytes
clusters_fit count before per bytes n le lt =
    let a = mul-le-mul_right {m = n + 1} {n = (count - before) / per} per (omega arith) in
    let c = div-mul-le_self (count - before) per in
    let b = mul-le-mul_right {m = (n + 1) * per + before} {n = count} bytes (omega arith) in
    omega arith

-- Every cluster is behind the copies of the table and within the volume, and shares no byte with another.
pub record IsPlaced (bpb : BootSector) (fs : Superblock) : Type 0 where
  pub behind_tables :
      (c : ℕ)
      → 2 ≤ c
      → c < fs.data_clusters + 2
      → reserved_and_tables bpb * bpb.byte_per_sector ≤ cluster2offset fs c
  pub within :
      (c : ℕ)
      → 2 ≤ c
      → c < fs.data_clusters + 2
      → cluster2offset fs c + fs.cluster_size ≤ sectors_count bpb * bpb.byte_per_sector
  pub apart :
      (c d : ℕ)
      → 2 ≤ c
      → c < d
      → d < fs.data_clusters + 2
      → cluster2offset fs c + fs.cluster_size ≤ cluster2offset fs d

is_volume-sector : (bpb : BootSector) → is_volume bpb ≡ true → 512 ≤ bpb.byte_per_sector
unfolding is_volume
is_volume-sector bpb h = ground arith

module _ (bpb : BootSector) (volume : is_volume bpb ≡ true)
    (fits : reserved_and_tables bpb + root_sectors bpb ≤ sectors_count bpb)
    (small : sectors_count bpb * bpb.byte_per_sector < 2 ^ 32) where
  abbrev before : ℕ
  before = reserved_and_tables bpb + root_sectors bpb

  count-small : sectors_count bpb < 2 ^ 32
  count-small =
      let h = is_volume-sector bpb volume in
      let m = mul-le-mul_left {m = 512} {n = bpb.byte_per_sector} (sectors_count bpb) h in
      omega arith

  sectors_before_data-eq : sectors_before_data bpb ≡ before
  unfolding sectors_before_data
  sectors_before_data-eq = let h = count-small in omega arith

  data_clusters-eq : data_clusters bpb ≡ (sectors_count bpb - before) / bpb.sector_per_cluster
  unfolding data_clusters
  data_clusters-eq =
      ap (λ n. n / bpb.sector_per_cluster)
        (let h = count-small in let e = sectors_before_data-eq in omega arith)

  data_start-eq : (superblock bpb).data_start ≡ before * bpb.byte_per_sector
  unfolding superblock
  data_start-eq =
      let e = sectors_before_data-eq in
      let m = mul-le-mul_right {m = before} {n = sectors_count bpb} bpb.byte_per_sector fits in
      rw e (omega arith)

  -- Where a cluster starts, without wrapping round.
  cluster2offset-eq :
      (c : ℕ)
      → 2 ≤ c
      → c < (superblock bpb).data_clusters + 2
      → (cluster2offset (superblock bpb) c
          ≡ before * bpb.byte_per_sector + (c - 2) * (bpb.byte_per_sector * bpb.sector_per_cluster))
        × (cluster2offset (superblock bpb) c + (superblock bpb).cluster_size
            ≤ sectors_count bpb * bpb.byte_per_sector)
  unfolding superblock cluster2offset
  cluster2offset-eq c l u =
      let e = data_clusters-eq in
      let fit =
        clusters_fit (sectors_count bpb) before bpb.sector_per_cluster bpb.byte_per_sector (c - 2)
          fits (omega arith) in
      let start = data_start-eq in (omega arith, omega arith)

  behind_tables :
      (c : ℕ)
      → 2 ≤ c
      → c < (superblock bpb).data_clusters + 2
      → reserved_and_tables bpb * bpb.byte_per_sector ≤ cluster2offset (superblock bpb) c
  behind_tables c l u =
      let m =
        mul-le-mul_right {m = reserved_and_tables bpb} {n = before} bpb.byte_per_sector
          (omega arith) in
      let (e, fit) = cluster2offset-eq c l u in omega arith

  clusters_apart :
      (c d : ℕ)
      → 2 ≤ c
      → c < d
      → d < (superblock bpb).data_clusters + 2
      → cluster2offset (superblock bpb) c + (superblock bpb).cluster_size
        ≤ cluster2offset (superblock bpb) d
  unfolding superblock cluster2offset
  clusters_apart c d l lt u =
      let size = bpb.byte_per_sector * bpb.sector_per_cluster in
      let m = mul-le-mul_right {m = c - 2 + 1} {n = d - 2} size (omega arith) in
      let (e, fit) = cluster2offset-eq c l (omega arith) in
      let (e', fit') = cluster2offset-eq d (omega arith) u in omega arith

-- Of a boot sector whose reserved sectors, tables and root directory fit on the volume, the volume
-- being below 4 GiB: when fat_mount accepts it, fat_cluster2offset puts every cluster behind all
-- copies of the table and within the volume, and two clusters share no byte.
pub mount-IsPlaced :
    (bpb : BootSector) (fs : Superblock)
    → mount bpb ≡ some fs
    → reserved_and_tables bpb + root_sectors bpb ≤ sectors_count bpb
    → sectors_count bpb * bpb.byte_per_sector < 2 ^ 32
    → IsPlaced bpb fs
mount-IsPlaced bpb fs h fits small =
    let (made, volume) = mount-eq bpb fs h in
    subst (IsPlaced bpb) made (record {
      behind_tables = behind_tables bpb volume fits small;
      within = λ c l u. (cluster2offset-eq bpb volume fits small c l u).1;
      apart = clusters_apart bpb volume fits small;
    })
