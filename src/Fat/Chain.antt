-- ===== src/Fat/Chain.antt =====
-- modules/fs/fat/fat.c: allocating and freeing clusters, and the chains that files are made of.
use stanix.Base.{
  ℕ, zero, suc, ◌+◌, ◌-◌, ◌%◌, ◌^◌, Bool, ◌||◌, Option, none, some, ltb, ◌==◌, if◌then◌else◌,
}
use stanix.Errno.{Result, done, fail, eio, enospc}
use stanix.Fat.{Disk, Superblock, eof, WriteFault, get_next, set_next}

-- What changes: the device, and `cluster_search_hint`.
pub record Volume : Type 0 where
  pub disk : Disk
  pub hint : ℕ

abbrev pub end_cluster : Superblock → ℕ
end_cluster fs = (fs.data_clusters + 2) % 2 ^ 32

-- The loop of `fat_allocate_cluster`, over `left` clusters from `cluster` on.
unfoldable pub find_free : Superblock → Disk → (left cluster : ℕ) → Option ℕ
find_free fs disk zero cluster = none
find_free fs disk (suc left) cluster =
    let rest = find_free fs disk left (cluster + 1) in
    if get_next fs disk cluster == 0 then some cluster else rest

abbrev pub first_tried : Superblock → Volume → ℕ
first_tried fs v = if ltb (end_cluster fs) v.hint || ltb v.hint 2 then 2 else v.hint

-- What `fat_allocate_cluster` returns, and the new hint.
abbrev pub allocated : Superblock → Option ℕ → ℕ × ℕ
allocated fs none = (eof fs.fat_type, end_cluster fs)
allocated fs (some cluster) = (cluster, cluster + 1)

-- `fat_allocate_cluster`: the cluster, and the new hint. Nothing is written.
unfoldable pub allocate_cluster : Superblock → Volume → ℕ × ℕ
allocate_cluster fs v =
    allocated fs (find_free fs v.disk (end_cluster fs - first_tried fs v) (first_tried fs v))

abbrev pub write_next :
    WriteFault → Superblock → (cluster next : ℕ) → Volume → Result (Unit {0}) × Volume
write_next fault fs cluster next v =
    let written = set_next fault fs cluster next v.disk in
    (written.0, record { disk = written.1; hint = v.hint })

-- `fat_free_cluster`
abbrev pub free_cluster : WriteFault → Superblock → ℕ → Volume → Result (Unit {0}) × Volume
free_cluster fault fs cluster v =
    write_next fault fs cluster 0
      (record { disk = v.disk; hint = if ltb cluster v.hint then cluster else v.hint })

abbrev pub is_end : Superblock → ℕ → Bool
is_end fs cluster = cluster == eof fs.fat_type || cluster == 0

-- `fat_get_cluster`, from the file's first cluster.
unfoldable pub get_cluster : Superblock → Disk → (first number : ℕ) → ℕ
get_cluster fs disk cluster zero = cluster
get_cluster fs disk cluster (suc number) =
    let rest = get_cluster fs disk (get_next fs disk cluster) number in
    if is_end fs cluster then cluster else rest

-- `fat_set_cluster`: of the file's first cluster and of the volume.
unfoldable pub set_cluster :
    WriteFault
    → Superblock
    → (prev cluster : ℕ) → (first : ℕ) → Volume
    → Result (Unit {0}) × ℕ × Volume
set_cluster fault fs prev cluster first v =
    if prev == 0
    then (done tt, cluster, v)
    else if is_end fs prev
    then (fail eio, first, v)
    else let written = write_next fault fs prev cluster v in (written.0, first, written.1)

-- The loop of `fat_shrink` and `fat_free_clusters`: where it stops, and the volume.
unfoldable pub free_run : WriteFault → Superblock → (left cluster : ℕ) → Volume → ℕ × Volume
free_run fault fs zero cluster v = (cluster, v)
free_run fault fs (suc left) cluster v =
    let rest =
      free_run fault fs left (get_next fs v.disk cluster) ((free_cluster fault fs cluster v).1) in
    if is_end fs cluster then (cluster, v) else rest

-- `fat_shrink`. Freeing ignores errors.
unfoldable pub shrink :
    WriteFault
    → Superblock
    → (current new : ℕ) → (first : ℕ) → Volume
    → Result (Unit {0}) × ℕ × Volume
shrink fault fs current new first v =
    set_cluster fault fs new (eof fs.fat_type) first
      ((free_run fault fs (current - new) (get_cluster fs v.disk first new) v).1)

-- `fat_free_clusters`
abbrev pub free_clusters : WriteFault → Superblock → (first : ℕ) → Volume → Volume
free_clusters fault fs first v = (free_run fault fs 10000 first v).1

abbrev pub set_hint : Volume → ℕ → Volume
set_hint v hint = record { disk = v.disk; hint = hint }

-- The loop of `fat_grow`: the first of the new clusters, unless there is none.
unfoldable pub grow_run : WriteFault → Superblock → (count cluster : ℕ) → Volume → Option ℕ × Volume
grow_run fault fs zero cluster v = (some cluster, v)
grow_run fault fs (suc count) cluster v =
    let found = allocate_cluster fs v in
    let v' = set_hint v (found.1) in
    let rest = grow_run fault fs count (found.0) ((write_next fault fs (found.0) cluster v').1) in
    if found.0 == eof fs.fat_type then (none, v') else rest

-- How `fat_grow` returns after its loop.
abbrev pub link_grown :
    WriteFault → Superblock → (prev first : ℕ) → Option ℕ × Volume → Result (Unit {0}) × ℕ × Volume
link_grown fault fs prev first (none, v) = (fail enospc, first, v)
link_grown fault fs prev first (some cluster, v) = set_cluster fault fs prev cluster first v

-- `fat_grow`
unfoldable pub grow :
    WriteFault
    → Superblock
    → (prev count : ℕ) → (first : ℕ) → Volume
    → Result (Unit {0}) × ℕ × Volume
grow fault fs prev count first v =
    link_grown fault fs prev first (grow_run fault fs count (eof fs.fat_type) v)
