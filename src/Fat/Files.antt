-- ===== src/Fat/Files.antt =====
-- modules/fs/fat/fat.c: a new file's clusters, and their release, taken together.
use stanix.Base.{
  ℕ, ◌+◌, ◌≤◌, ◌<◌, ◌≡◌, refl, sym, subst, ◌∙◌, ◌≢◌, ◌⊎◌, inl, inr, eq_or_ne, arith, List, [], ◌∷◌,
  append-nil, length, get_or, Option, none, some,
}
use stanix.Errno.{Result, done, fail, enospc}
use stanix.Fat.{Superblock, eof, get_next}
use stanix.Fat.Table.{IsBytes}
use stanix.Fat.Mirror.{no_fault}
use stanix.Fat.Chain.{Volume, grow, get_cluster, free_clusters, link_grown, set_cluster}
use stanix.Fat.View.{IsSound}
use stanix.Fat.Alloc.{NoneFree, IsHinted}
use stanix.Fat.Walk.{InRange, IsChain, Every, Every-map_both, get_cluster-IsChain}
use stanix.Fat.Grow.{IsGrown, Grown, grow_run-Grown}
use stanix.Fat.Release.{free_clusters-IsFreed}

-- A cluster is not in the list, or has what all of the list have.
Every-or : (P : ℕ → Type 0) (c : ℕ) (xs : List ℕ) → Every P xs → Every (λ x. x ≢ c) xs ⊎ P c
unfolding Every
Every-or P c [] h = inl tt
Every-or P c (x ∷ xs) (p, h) = elim (eq_or_ne x c) [
  | inl e ↦ inr (subst P e p)
  | inr ne ↦ elim (Every-or P c xs h) [ inl k ↦ inl (ne, k) | inr q ↦ inr q ]
]

-- How `fat_grow` returns for a file with no cluster: its first cluster, and the volume.
abbrev pub NewFile :
    Superblock → Volume → (count first : ℕ) → Result (Unit {0}) × ℕ × Volume → Type 0
NewFile fs v count first (done t, first', v') = IsGrown fs v [] count first' v'
NewFile fs v count first (fail e, first', v') =
    (e ≡ enospc) × (first' ≡ first) × NoneFree fs v'.disk 2 (fs.data_clusters + 2)

link_grown-NewFile :
    (fs : Superblock) (v : Volume) (count first : ℕ) (r : Option ℕ × Volume)
    → Grown fs v [] count r
    → NewFile fs v count first (link_grown no_fault fs 0 first r)
unfolding set_cluster
link_grown-NewFile fs v count first (none, v') h = (refl, refl, h)
link_grown-NewFile fs v count first (some c, v') h = h

module _ (fs : Superblock) (sound : IsSound fs) (v : Volume) (b : IsBytes v.disk)
    (hint : IsHinted fs v) where
  -- On a FAT16 or FAT32 volume as fat_mount leaves it (IsSound of Fat/View), whose writes succeed,
  -- with no free cluster below the search hint: fat_grow for a file with no cluster gives it a
  -- chain of as many clusters as asked for, all free before, and keeps every other entry; or it
  -- fails with ENOSPC, the file unchanged, when no cluster is free any more. The hint stays right.
  pub grow-NewFile : (count first : ℕ) → NewFile fs v count first (grow no_fault fs 0 count first v)
  unfolding grow IsChain
  grow-NewFile count first =
      link_grown-NewFile fs v count first _
        (grow_run-Grown fs sound count (eof fs.fat_type) v [] b hint refl)

  IsGrown-grow :
      (count first first' : ℕ) (v' : Volume)
      → grow no_fault fs 0 count first v ≡ (done tt, first', v')
      → IsGrown fs v [] count first' v'
  IsGrown-grow count first first' v' e =
      subst (NewFile fs v count first) e (grow-NewFile count first)

  -- When `fat_grow` succeeds for a file with no cluster, `fat_get_cluster` gives the file's clusters: as
  -- many as were asked for, all free before, and then EOF.
  pub get_cluster-grow :
      (count first first' : ℕ) (v' : Volume)
      → grow no_fault fs 0 count first v ≡ (done tt, first', v')
      → (cs : List ℕ) × (length cs ≡ count)
        × Every (λ c. InRange fs c × (get_next fs v.disk c ≡ 0)) cs
        × ((n : ℕ) → get_cluster fs v'.disk first' n ≡ get_or cs n (eof fs.fat_type))
  get_cluster-grow count first first' v' e =
      let g = IsGrown-grow count first first' v' e in
      (
        g.added,
        g.count_added,
        g.were_free,
        get_cluster-IsChain fs sound.few v'.disk first' g.added
            (subst (IsChain fs v'.disk first') (append-nil g.added) g.chain),
      )

  -- On a FAT16 or FAT32 volume as fat_mount leaves it (IsSound of Fat/View), whose writes succeed,
  -- with no free cluster below the search hint: when fat_grow gives a file with no cluster at most
  -- 10000 of them, fat_free_clusters then makes the entry of every cluster what it was before.
  pub free_clusters-grow :
      (count first first' : ℕ) (v' : Volume)
      → grow no_fault fs 0 count first v ≡ (done tt, first', v')
      → count ≤ 10000
      → (c : ℕ) → c < fs.data_clusters + 2
      → get_next fs ((free_clusters no_fault fs first' v').disk) c ≡ get_next fs v.disk c
  free_clusters-grow count first first' v' e l c u =
      let g = IsGrown-grow count first first' v' e in
      let f =
        free_clusters-IsFreed fs sound g.added [] first' v' g.bytes g.hinted g.chain
          (inr (let n = g.count_added in omega arith, refl)) in
      elim (Every-or
        (λ c.
          (get_next fs ((free_clusters no_fault fs first' v').disk) c ≡ 0)
          × (InRange fs c × (get_next fs v.disk c ≡ 0)))
        c g.added (Every-map_both _ _ _ (λ c p q. (p, q)) g.added f.freed g.were_free)) [
          | inl away ↦ f.kept c u away ∙ g.kept c u away
          | inr (now, (r, free)) ↦ now ∙ sym free
        ]
