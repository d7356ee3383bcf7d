-- ===== src/Fat/Walk.antt =====
-- modules/fs/fat/fat.c: the clusters of a file are the chain from its first one (`fat_get_cluster`).
use stanix.Base.{
  ℕ, zero, suc, ◌+◌, ◌≤◌, ◌<◌, ◌≡◌, refl, subst, ap, ap₂, ◌≢◌, ◌⊎◌, inl, inr, true, false, eq_or_ne,
  arith, List, [], ◌∷◌, ◌++◌, length, get_or,
}
use stanix.Fat.{Disk, FatType, fat12, fat16, fat32, Superblock, eof, get_next}
use stanix.Fat.Chain.{get_cluster, is_end}

abbrev pub InRange : Superblock → ℕ → Type 0
InRange fs c = (2 ≤ c) × (c < fs.data_clusters + 2)

-- The chain from `start` on has the clusters `cs`, and then EOF.
unfoldable pub IsChain : Superblock → Disk → (start : ℕ) → List ℕ → Type 0
IsChain fs disk start [] = start ≡ eof fs.fat_type
IsChain fs disk start (c ∷ cs) =
    (start ≡ c) × InRange fs c × IsChain fs disk (get_next fs disk c) cs

-- `P` holds of every cluster in the list.
unfoldable pub Every : (ℕ → Type 0) → List ℕ → Type 0
Every P [] = Unit
Every P (c ∷ cs) = P c × Every P cs

pub Every-map : (P Q : ℕ → Type 0) → ((c : ℕ) → P c → Q c) → (cs : List ℕ) → Every P cs → Every Q cs
unfolding Every
Every-map P Q f [] h = tt
Every-map P Q f (c ∷ cs) (p, h) = (f c p, Every-map P Q f cs h)

pub Every-map_both :
    (P Q R : ℕ → Type 0)
    → ((c : ℕ) → P c → Q c → R c)
    → (cs : List ℕ) → Every P cs
    → Every Q cs
    → Every R cs
unfolding Every
Every-map_both P Q R f [] h k = tt
Every-map_both P Q R f (c ∷ cs) (p, h) (q, k) = (f c p q, Every-map_both P Q R f cs h k)

pub Every-append_left : (P : ℕ → Type 0) (xs ys : List ℕ) → Every P (xs ++ ys) → Every P xs
unfolding Every
Every-append_left P [] ys h = tt
Every-append_left P (x ∷ xs) ys (p, h) = (p, Every-append_left P xs ys h)

pub eof-positive : (t : FatType) → 0 < eof t
eof-positive fat12 = omega arith
eof-positive fat16 = omega arith
eof-positive fat32 = omega arith

module _ (fs : Superblock) (few : fs.data_clusters + 2 ≤ eof fs.fat_type) where
  -- A cluster in range ends no chain.
  pub is_end_of_InRange : (c : ℕ) → InRange fs c → is_end fs c ≡ false
  is_end_of_InRange c (l, u) = ground arith

  pub is_end-eof : is_end fs (eof fs.fat_type) ≡ true
  is_end-eof = ground arith

  -- A link of a chain is EOF or a cluster in range.
  pub IsChain-start :
      (disk : Disk) (start : ℕ) (cs : List ℕ)
      → IsChain fs disk start cs
      → (start ≢ 0) × (start ≤ eof fs.fat_type)
  unfolding IsChain
  IsChain-start disk start [] h = let p = eof-positive fs.fat_type in (omega arith, omega arith)
  IsChain-start disk start (c ∷ cs) (e, (l, u), h) = (omega arith, omega arith)

  -- The clusters of a chain are not free.
  pub IsChain-taken :
      (disk : Disk) (start : ℕ) (cs : List ℕ)
      → IsChain fs disk start cs
      → Every (λ c. InRange fs c × (get_next fs disk c ≢ 0)) cs
  unfolding IsChain Every
  IsChain-taken disk start [] h = tt
  IsChain-taken disk start (c ∷ cs) (e, r, h) = (
    (r, (IsChain-start disk (get_next fs disk c) cs h).0),
    IsChain-taken disk (get_next fs disk c) cs h,
  )

  -- `fat_get_cluster` gives the clusters of a chain in order, and EOF past its last one.
  pub get_cluster-IsChain :
      (disk : Disk) (start : ℕ) (cs : List ℕ)
      → IsChain fs disk start cs
      → (n : ℕ) → get_cluster fs disk start n ≡ get_or cs n (eof fs.fat_type)
  unfolding IsChain get_cluster
  get_cluster-IsChain disk start [] h zero = h
  get_cluster-IsChain disk start [] h (suc n) = rw (h, is_end-eof) refl
  get_cluster-IsChain disk start (c ∷ cs) (e, r, h) zero = e
  get_cluster-IsChain disk start (c ∷ cs) (e, r, h) (suc n) =
      rw (e, is_end_of_InRange c r) (get_cluster-IsChain disk (get_next fs disk c) cs h n)

  -- What is left of a chain after its first clusters.
  pub get_cluster_append :
      (disk : Disk) (start : ℕ) (xs ys : List ℕ)
      → IsChain fs disk start (xs ++ ys)
      → IsChain fs disk (get_cluster fs disk start (length xs)) ys
  unfolding IsChain get_cluster
  get_cluster_append disk start [] ys h = h
  get_cluster_append disk start (x ∷ xs) ys (e, r, h) =
      rw (e, is_end_of_InRange x r) (get_cluster_append disk (get_next fs disk x) xs ys h)

-- A chain is kept when the entries of its clusters are.
pub IsChain-frame :
    (fs : Superblock) (disk disk' : Disk) (start : ℕ) (cs : List ℕ)
    → Every (λ c. get_next fs disk' c ≡ get_next fs disk c) cs
    → IsChain fs disk start cs
    → IsChain fs disk' start cs
unfolding IsChain Every
IsChain-frame fs disk disk' start [] k h = h
IsChain-frame fs disk disk' start (c ∷ cs) (e, k) (s, r, h) =
    (s, r, rw e (IsChain-frame fs disk disk' (get_next fs disk c) cs k h))

module _ (fs : Superblock) (few : fs.data_clusters + 2 ≤ eof fs.fat_type) (disk : Disk) where
  IsChain-unique :
      (start : ℕ) (xs ys : List ℕ) → IsChain fs disk start xs → IsChain fs disk start ys → xs ≡ ys
  unfolding IsChain
  IsChain-unique start [] [] h k = refl
  IsChain-unique start [] (y ∷ ys) h (e, (l, u), k) = absurd (omega arith)
  IsChain-unique start (x ∷ xs) [] (e, (l, u), h) k = absurd (omega arith)
  IsChain-unique start (x ∷ xs) (y ∷ ys) (e, r, h) (e', r', k) =
      let xy : x ≡ y = omega arith in
      ap₂ ◌∷◌ xy (
        IsChain-unique (get_next fs disk y) xs ys
          (subst (λ z. IsChain fs disk (get_next fs disk z) xs) xy h) k)

  -- A cluster is not in a chain, or starts its end.
  IsChain-tail :
      (c start : ℕ) (cs : List ℕ)
      → IsChain fs disk start cs
      → Every (λ d. c ≢ d) cs ⊎ ((zs : List ℕ) × IsChain fs disk c zs × (length zs ≤ length cs))
  unfolding IsChain Every
  IsChain-tail c start [] h = inl tt
  IsChain-tail c start (x ∷ xs) (e, r, h) = elim (eq_or_ne c x) [
    | inl k ↦ inr (x ∷ xs, (k, r, h), omega arith)
    | inr ne ↦ elim (IsChain-tail c (get_next fs disk x) xs h) [
      | inl p ↦ inl (ne, p)
      | inr (zs, k, l) ↦ inr (zs, k, omega arith)
    ]
  ]

  -- A chain does not come back to its first cluster.
  pub IsChain-fresh :
      (start c : ℕ) (cs : List ℕ) → IsChain fs disk start (c ∷ cs) → Every (λ d. c ≢ d) cs
  unfolding IsChain
  IsChain-fresh start c cs (e, r, h) = elim (IsChain-tail c (get_next fs disk c) cs h) [
    | inl p ↦ p
    | inr (zs, k, l) ↦
        let eq = ap length (IsChain-unique c zs (c ∷ cs) k (refl, r, h)) in absurd (omega arith)
  ]

-- The end of a chain is a chain, from where it starts on.
pub IsChain-append_right :
    (fs : Superblock) (disk : Disk) (start : ℕ) (xs ys : List ℕ)
    → IsChain fs disk start (xs ++ ys)
    → (start' : ℕ) × IsChain fs disk start' ys
unfolding IsChain
IsChain-append_right fs disk start [] ys h = (start, h)
IsChain-append_right fs disk start (x ∷ xs) ys (e, r, h) =
    IsChain-append_right fs disk (get_next fs disk x) xs ys h
