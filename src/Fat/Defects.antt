-- ===== src/Fat/Defects.antt =====
-- modules/fs/fat/fat.c: what `fat_shrink` does to the table, and FAT12 entries that overlap.
use stanix.Base.{
  ℕ, ◌+◌, ◌-◌, ◌*◌, ◌/◌, ◌%◌, ◌^◌, ◌<◌, ◌≡◌, refl, sym, subst, ◌∙◌, ◌≢◌, ne→test, arith, List, [],
  ◌∷◌, ◌++◌, append-nil, append_assoc, length, true, false,
}
use stanix.Fat.{
  Disk, fat12, Superblock, eof, get_next, stored, store, is_even, entry_offset, stored_at, store_at,
}
use stanix.Fat.Table.{IsBytes}
use stanix.Fat.Mirror.{no_fault}
use stanix.Fat.Chain.{Volume, shrink, set_cluster, free_run, get_cluster, write_next}
use stanix.Fat.View.{IsSound, get_next-write_next, get_next-write_next_other}
use stanix.Fat.Alloc.{IsHinted}
use stanix.Fat.Walk.{
  InRange, IsChain, Every, Every-map, Every-map_both, IsChain-taken, IsChain-fresh,
  IsChain-append_right, get_cluster_append, is_end_of_InRange,
}
use stanix.Fat.Release.{free_run-IsFreed}

odd_is_not_even : (k : ℕ) → is_even (2 * k + 1) ≡ false
odd_is_not_even k = ground arith

even_is_even : (k : ℕ) → is_even (2 * k + 2) ≡ true
even_is_even k = ground arith

odd_offset : (k : ℕ) → 2 * k + 2 < 2 ^ 28 → entry_offset fat12 (2 * k + 1) ≡ 3 * k + 1
odd_offset k lt = omega arith

even_offset : (k : ℕ) → 2 * k + 2 < 2 ^ 28 → entry_offset fat12 (2 * k + 2) ≡ 3 * k + 3
even_offset k lt = omega arith

add_sub : (m n : ℕ) → m + n - m ≡ n
add_sub m n = omega arith

-- Storing the FAT12 entry of a cluster with an odd number writes the low byte of the next cluster's entry.
pub stored-store_odd :
    (disk : Disk) (start k next : ℕ)
    → 2 * k + 2 < 2 ^ 28
    → stored fat12 (store fat12 disk start (2 * k + 1) next) start (2 * k + 2) % 256
      ≡ next / 16 % 256
unfolding stored_at store_at
stored-store_odd disk start k next lt =
    rw (odd_is_not_even k, even_is_even k, odd_offset k lt, even_offset k lt) (ground arith)

module _ (fs : Superblock) (sound : IsSound fs) where
  set_cluster_of_InRange :
      (prev cluster first : ℕ) (v : Volume)
      → InRange fs prev
      → (set_cluster no_fault fs prev cluster first v).2 ≡ (write_next no_fault fs prev cluster v).1
  unfolding set_cluster
  set_cluster_of_InRange prev cluster first v (l, u) =
      rw (is_end_of_InRange fs sound.few prev (l, u), ne→test prev 0 (omega arith)) refl

  -- What `fat_shrink` leaves of a file that keeps the clusters `xs` and loses the clusters `ys`.
  shrink_entries :
      (v : Volume) (first : ℕ) (xs ys : List ℕ)
      → IsBytes v.disk
      → IsHinted fs v
      → IsChain fs v.disk first (xs ++ ys)
      → InRange fs (length xs)
      → let v' = (shrink no_fault fs (length xs + length ys) (length xs) first v).2 in
        (get_next fs v'.disk (length xs) ≡ eof fs.fat_type)
        × Every (λ y. length xs ≢ y → get_next fs v'.disk y ≡ 0) ys
        × ((c : ℕ)
            → c < fs.data_clusters + 2
            → length xs ≢ c
            → Every (λ y. y ≢ c) ys
            → get_next fs v'.disk c ≡ get_next fs v.disk c)
  unfolding shrink
  shrink_entries v first xs ys b hint h (l, u) =
      let start = get_cluster fs v.disk first (length xs) in
      let tail = get_cluster_append fs sound.few v.disk first xs ys h in
      let freed =
        (free_run-IsFreed fs sound ys [] start v b hint
          (subst (IsChain fs v.disk start) (sym (append-nil ys)) tail)).0 in
      let run = (free_run no_fault fs (length ys) start v).1 in
      let kept =
        get_next-write_next_other fs sound run freed.bytes (length xs) (eof fs.fat_type) u
          (omega arith) in
      rw
        (
          add_sub (length xs) (length ys),
          set_cluster_of_InRange (length xs) (eof fs.fat_type) first run (l, u),
        )
        (
          get_next-write_next fs sound run freed.bytes (length xs) (eof fs.fat_type) u
              (omega arith),
          Every-map_both _ _ _ (λ y z (r, t) ne. kept y (r.1) ne ∙ z) ys freed.freed
              (IsChain-taken fs sound.few v.disk start ys tail),
          λ c m ne away. kept c m ne ∙ freed.kept c m away,
        )

  -- On a FAT16 or FAT32 volume as fat_mount leaves it (IsSound of Fat/View), whose writes succeed,
  -- with no free cluster below the search hint: a file has the clusters xs, last, y and ys, and
  -- fat_shrink cuts it to n clusters, those up to last, where n is the number of a cluster other
  -- than last and y. Then the entry of cluster n becomes EOF, whatever file it belongs to; last,
  -- with which the file should end, still points to y, which is free now; and every entry but those
  -- of n and of the clusters cut off is kept.
  pub shrink_lem :
      (v : Volume) (first : ℕ) (xs : List ℕ) (last y : ℕ) (ys : List ℕ)
      → IsBytes v.disk
      → IsHinted fs v
      → IsChain fs v.disk first ((xs ++ (last ∷ [])) ++ (y ∷ ys))
      → InRange fs (length (xs ++ (last ∷ [])))
      → length (xs ++ (last ∷ [])) ≢ last
      → length (xs ++ (last ∷ [])) ≢ y
      → let n = length (xs ++ (last ∷ [])) in
        let v' = (shrink no_fault fs (n + length (y ∷ ys)) n first v).2 in
        (get_next fs v'.disk n ≡ eof fs.fat_type)
        × (get_next fs v'.disk last ≡ y)
        × (get_next fs v'.disk y ≡ 0)
        × ((c : ℕ)
            → c < fs.data_clusters + 2
            → n ≢ c
            → Every (λ d. d ≢ c) (y ∷ ys)
            → get_next fs v'.disk c ≡ get_next fs v.disk c)
  unfolding IsChain Every
  shrink_lem v first xs last y ys b hint h r ne ne' =
      let (eof_at, freed, kept) = shrink_entries v first (xs ++ (last ∷ [])) (y ∷ ys) b hint h r in
      let (start, end) =
        IsChain-append_right fs v.disk first xs (last ∷ (y ∷ ys))
          (subst (IsChain fs v.disk first) (append_assoc xs (last ∷ []) (y ∷ ys)) h) in
      let (at_last, in_range, (link, y_range, more)) = end in
      let fresh = IsChain-fresh fs sound.few v.disk start last (y ∷ ys) end in
      (
        eof_at,
        kept last (in_range.1) ne (Every-map _ _ (λ d ne e. ne (sym e)) (y ∷ ys) fresh) ∙ link,
        freed.0 ne',
        kept,
      )
