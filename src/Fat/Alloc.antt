-- ===== src/Fat/Alloc.antt =====
-- modules/fs/fat/fat.c: `fat_allocate_cluster` takes the first free cluster.
use stanix.Base.{
  ℕ, zero, suc, ◌+◌, ◌^◌, ◌≤◌, ◌<◌, ◌≡◌, refl, subst, ◌≢◌, ◌⊎◌, inl, inr, eq_or_ne, eq_cases,
  lt_or_le, arith, Option, none, some,
}
use stanix.Fat.{Disk, Superblock, eof, FatType, fat12, fat16, fat32, get_next}
use stanix.Fat.Chain.{Volume, end_cluster, find_free, allocated, first_tried, allocate_cluster}

-- No cluster in [from, to) is free.
abbrev pub NoneFree : Superblock → Disk → (from to : ℕ) → Type 0
NoneFree fs disk from to = (c : ℕ) → from ≤ c → c < to → get_next fs disk c ≢ 0

-- No cluster of the volume below the hint is free.
abbrev pub IsHinted : Superblock → Volume → Type 0
IsHinted fs v = (c : ℕ) → 2 ≤ c → c < v.hint → c < fs.data_clusters + 2 → get_next fs v.disk c ≢ 0

NoneFree-extend :
    (fs : Superblock) (disk : Disk) (c to : ℕ)
    → get_next fs disk c ≢ 0
    → NoneFree fs disk (c + 1) to
    → NoneFree fs disk c to
NoneFree-extend fs disk c to ne h d l u = elim (eq_or_ne c d) [
  | inl e ↦ subst (λ d. get_next fs disk d ≢ 0) e ne
  | inr n ↦ h d (omega arith) u
]

-- How the search of `left` clusters from `c` on ends.
Found : Superblock → Disk → (left c : ℕ) → Option ℕ → Type 0
Found fs disk left c none = NoneFree fs disk c (c + left)
Found fs disk left c (some d) =
    (c ≤ d) × (d < c + left) × (get_next fs disk d ≡ 0) × NoneFree fs disk c d

Found-extend :
    (fs : Superblock) (disk : Disk) (left c : ℕ) (r : Option ℕ)
    → get_next fs disk c ≢ 0
    → Found fs disk left (c + 1) r
    → Found fs disk (suc left) c r
unfolding Found
Found-extend fs disk left c none ne h =
    NoneFree-extend fs disk c _ ne (λ d l u. h d l (omega arith))
Found-extend fs disk left c (some d) ne (l, u, free, h) =
    (omega arith, omega arith, free, NoneFree-extend fs disk c d ne h)

find_free-Found :
    (fs : Superblock) (disk : Disk) (left c : ℕ) → Found fs disk left c (find_free fs disk left c)
unfolding find_free Found
find_free-Found fs disk zero c = λ d l u. absurd (omega arith)
find_free-Found fs disk (suc left) c = elim (eq_cases (get_next fs disk c) 0) [
  | inl (t, e) ↦ rw t (omega arith, omega arith, e, λ d l u. absurd (omega arith))
  | inr (t, ne) ↦ rw t (Found-extend fs disk left c _ ne (find_free-Found fs disk left (c + 1)))
]

-- The cluster and the hint of `fat_allocate_cluster`: the first free cluster, or none.
abbrev pub IsAllocated : Superblock → Volume → ℕ × ℕ → Type 0
IsAllocated fs v (cluster, hint) =
    ((2 ≤ cluster)
      × (cluster < fs.data_clusters + 2)
      × (get_next fs v.disk cluster ≡ 0)
      × NoneFree fs v.disk 2 cluster
      × (hint ≡ cluster + 1))
    ⊎ ((cluster ≡ eof fs.fat_type) × NoneFree fs v.disk 2 (fs.data_clusters + 2))

below_eof : (t : FatType) → eof t < 2 ^ 32
below_eof fat12 = omega arith
below_eof fat16 = omega arith
below_eof fat32 = omega arith

-- The search starts at 2, or where the clusters before are taken.
first_tried_lem :
    (fs : Superblock) (v : Volume)
    → end_cluster fs ≡ fs.data_clusters + 2
    → IsHinted fs v
    → (2 ≤ first_tried fs v)
      × (first_tried fs v ≤ fs.data_clusters + 2)
      × NoneFree fs v.disk 2 (first_tried fs v)
first_tried_lem fs v e h =
    (ground arith, ground arith, λ c l u. h c l (ground arith) (ground arith))

allocated-IsAllocated :
    (fs : Superblock) (v : Volume) (left c : ℕ) (r : Option ℕ)
    → 2 ≤ c
    → c + left ≡ fs.data_clusters + 2
    → NoneFree fs v.disk 2 c
    → Found fs v.disk left c r
    → IsAllocated fs v (allocated fs r)
unfolding Found
allocated-IsAllocated fs v left c none l e before h =
    inr (
      refl,
      λ d p q. elim (lt_or_le d c) [ inl lt ↦ before d p lt | inr le ↦ h d le (omega arith) ],
    )
allocated-IsAllocated fs v left c (some d) l e before (p, q, free, h) = inl (
  omega arith,
  omega arith,
  free,
  (λ k m n. elim (lt_or_le k c) [ inl lt ↦ before k m lt | inr le ↦ h k le n ]),
  refl,
)

-- When no cluster below the hint is free, `fat_allocate_cluster` returns the free cluster with the
-- smallest number, and EOF just when no cluster is free.
pub allocate_cluster-IsAllocated :
    (fs : Superblock) (v : Volume)
    → fs.data_clusters + 2 ≤ eof fs.fat_type
    → IsHinted fs v
    → IsAllocated fs v (allocate_cluster fs v)
unfolding allocate_cluster
allocate_cluster-IsAllocated fs v few h =
    let small = below_eof fs.fat_type in
    let e : end_cluster fs ≡ fs.data_clusters + 2 = omega arith in
    let first = first_tried_lem fs v e h in
    allocated-IsAllocated fs v _ (first_tried fs v) _ (first.0) (let u = first.1 in omega arith)
      (first.2) (find_free-Found fs v.disk _ (first_tried fs v))
