-- ===== src/Fat/Offsets.antt =====
-- modules/fs/fat/fat.c: where clusters are on the device (`fat_cluster2offset`, `fat_offset2cluster`).
use stanix.Base.{ℕ, ◌+◌, ◌-◌, ◌*◌, ◌/◌, ◌%◌, ◌^◌, ◌≤◌, ◌<◌, ◌≡◌, ap, ◌∙◌, arith}
use native.Mathlib.Nat.{mul-add-div_right, div-eq_of_lt, mod-eq_of_lt}
use stanix.Fat.{Superblock, cluster2offset, offset2cluster}

-- `fat_offset2cluster` finds the cluster of every byte of a cluster that starts within 4 GiB of the data.
pub offset2cluster-cluster2offset :
    (fs : Superblock) (c o : ℕ)
    → 2 ≤ c
    → c < 2 ^ 32
    → (c - 2) * fs.cluster_size < 2 ^ 32
    → o < fs.cluster_size
    → offset2cluster fs (cluster2offset fs c + o) ≡ c
unfolding cluster2offset offset2cluster
offset2cluster-cluster2offset fs c o l u small lt =
    let s : ℕ = (c - 2) * fs.cluster_size in
    let start : s % 2 ^ 32 ≡ s = mod-eq_of_lt small in
    let inside : s % 2 ^ 32 + fs.data_start + o - fs.data_start ≡ s + o = omega arith in
    let quotient : (s + o) / fs.cluster_size ≡ c - 2 =
      mul-add-div_right (omega arith) (c - 2) o
      ∙ ap (λ q. c - 2 + q) (div-eq_of_lt lt)
      ∙ omega arith in
    rw (inside, quotient) (omega arith)

-- Clusters 4 GiB apart have the same offset, as the product has 32 bits.
pub cluster2offset-collides :
    (fs : Superblock) (c d : ℕ)
    → (d - 2) * fs.cluster_size ≡ (c - 2) * fs.cluster_size + 2 ^ 32
    → cluster2offset fs d ≡ cluster2offset fs c
unfolding cluster2offset
cluster2offset-collides fs c d e = omega arith
