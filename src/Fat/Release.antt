-- ===== src/Fat/Release.antt =====
-- modules/fs/fat/fat.c: freeing the clusters of a file (`fat_free_clusters`, and the loop of `fat_shrink`).
use stanix.Base.{
  ℕ, zero, suc, ◌+◌, ◌≤◌, ◌<◌, ◌≡◌, refl, sym, subst, ◌∙◌, ◌≢◌, ◌⊎◌, inl, inr, arith, List, [], ◌∷◌,
  ◌++◌, append-nil, length,
}
use stanix.Fat.{Superblock, eof, get_next}
use stanix.Fat.Table.{IsBytes}
use stanix.Fat.Mirror.{no_fault}
use stanix.Fat.Chain.{Volume, free_cluster, free_run, free_clusters}
use stanix.Fat.View.{IsSound, write_next-IsBytes, get_next-write_next, get_next-write_next_other}
use stanix.Fat.Alloc.{IsHinted}
use stanix.Fat.Walk.{
  InRange, IsChain, Every, Every-map, Every-map_both, Every-append_left, IsChain-taken,
  IsChain-frame, IsChain-fresh, is_end_of_InRange, is_end-eof,
}

-- The clusters `xs` are free in `v'`, and the other entries are as in `v`.
pub record IsFreed (fs : Superblock) (v : Volume) (xs : List ℕ) (v' : Volume) : Type 0 where
  pub bytes : IsBytes v'.disk
  pub hinted : IsHinted fs v'
  pub freed : Every (λ c. get_next fs v'.disk c ≡ 0) xs
  pub kept :
      (c : ℕ)
      → c < fs.data_clusters + 2
      → Every (λ x. x ≢ c) xs
      → get_next fs v'.disk c ≡ get_next fs v.disk c

module _ (fs : Superblock) (sound : IsSound fs) where
  module _ (v : Volume) (c : ℕ) (b : IsBytes v.disk) (hint : IsHinted fs v) (r : InRange fs c) where
    without : Volume
    without = (free_cluster no_fault fs c v).1

    without-entry : get_next fs without.disk c ≡ 0
    unfolding without
    without-entry = get_next-write_next fs sound v b c 0 (r.1) (omega arith)

    without-other :
        (d : ℕ)
        → d < fs.data_clusters + 2
        → c ≢ d
        → get_next fs without.disk d ≡ get_next fs v.disk d
    unfolding without
    without-other = get_next-write_next_other fs sound v b c 0 (r.1) (omega arith)

    without-IsBytes : IsBytes without.disk
    unfolding without
    without-IsBytes = write_next-IsBytes fs sound v b c 0 (r.1) (omega arith)

    without-hint : (without.hint ≤ c) × (without.hint ≤ v.hint)
    unfolding without
    without-hint = ground arith

    without-IsHinted : IsHinted fs without
    without-IsHinted d l u u' z =
        hint d l (let h = without-hint in omega arith) u'
          (sym (without-other d u' (let h = without-hint in omega arith)) ∙ z)

    without-IsFreed :
        (xs : List ℕ) (v' : Volume)
        → Every (λ d. c ≢ d) xs
        → IsFreed fs without xs v'
        → IsFreed fs v (c ∷ xs) v'
    unfolding Every
    without-IsFreed xs v' fresh g = record {
      bytes = g.bytes;
      hinted = g.hinted;
      freed =
          (g.kept c (r.1) (Every-map _ _ (λ d ne e. ne (sym e)) xs fresh) ∙ without-entry, g.freed);
      kept = λ d u (ne, h). g.kept d u h ∙ without-other d u ne;
    }

    without-IsChain :
        (start : ℕ) (cs : List ℕ)
        → Every (λ d. c ≢ d) cs
        → IsChain fs v.disk start cs
        → IsChain fs without.disk start cs
    without-IsChain start cs fresh h =
        IsChain-frame fs v.disk without.disk start cs
          (Every-map_both _ _ _ (λ d ne (p, t). without-other d (p.1) ne) cs fresh
            (IsChain-taken fs sound.few v.disk start cs h))
          h

  -- The loop that frees clusters, on a chain of at least as many as it may free: it frees the first ones,
  -- keeps the other entries, and stops where the rest of the chain starts.
  pub free_run-IsFreed :
      (xs ys : List ℕ) (start : ℕ) (v : Volume)
      → IsBytes v.disk
      → IsHinted fs v
      → IsChain fs v.disk start (xs ++ ys)
      → IsFreed fs v xs (free_run no_fault fs (length xs) start v).1
        × IsChain fs
            ((free_run no_fault fs (length xs) start v).1).disk
            ((free_run no_fault fs (length xs) start v).0)
            ys
  unfolding IsChain Every free_run without
  free_run-IsFreed [] ys start v b hint h =
      (record { bytes = b; hinted = hint; freed = tt; kept = λ c u e. refl }, h)
  free_run-IsFreed (x ∷ xs) ys start v b hint (e, r, h) =
      let fresh = IsChain-fresh fs sound.few v.disk x x (xs ++ ys) (refl, r, h) in
      let rest =
        free_run-IsFreed xs ys (get_next fs v.disk x) (without v x b hint r)
          (without-IsBytes v x b hint r) (without-IsHinted v x b hint r)
          (without-IsChain v x b hint r _ (xs ++ ys) fresh h) in
      rw (e, is_end_of_InRange fs sound.few x r)
        (without-IsFreed v x b hint r xs _ (Every-append_left _ xs ys fresh) (rest.0), rest.1)

  free_run-eof :
      (left start : ℕ) (v : Volume)
      → start ≡ eof fs.fat_type
      → free_run no_fault fs left start v ≡ (start, v)
  unfolding free_run
  free_run-eof zero start v h = refl
  free_run-eof (suc left) start v h = rw (h, is_end-eof fs sound.few) refl

  -- It stops at the end of the chain.
  free_run_beyond :
      (cs : List ℕ) (left start : ℕ) (v : Volume)
      → IsBytes v.disk
      → IsHinted fs v
      → length cs ≤ left
      → IsChain fs v.disk start cs
      → free_run no_fault fs left start v ≡ free_run no_fault fs (length cs) start v
  unfolding IsChain free_run without
  free_run_beyond [] left start v b hint l h = free_run-eof left start v h
  free_run_beyond (x ∷ xs) zero start v b hint l h = absurd (omega arith)
  free_run_beyond (x ∷ xs) (suc left) start v b hint l (e, r, h) =
      rw (e, is_end_of_InRange fs sound.few x r)
        (free_run_beyond xs left (get_next fs v.disk x) (without v x b hint r)
          (without-IsBytes v x b hint r) (without-IsHinted v x b hint r) (omega arith)
          (without-IsChain v x b hint r _ xs (IsChain-fresh fs sound.few v.disk x x xs (refl, r, h))
            h))

  -- `fat_free_clusters` frees the clusters of a chain of at most 10000, and the first 10000 clusters of a
  -- longer one. It keeps the other entries: those of the rest of a longer chain too.
  pub free_clusters-IsFreed :
      (xs ys : List ℕ) (first : ℕ) (v : Volume)
      → IsBytes v.disk
      → IsHinted fs v
      → IsChain fs v.disk first (xs ++ ys)
      → (length xs ≡ 10000) ⊎ ((length xs ≤ 10000) × (ys ≡ []))
      → IsFreed fs v xs (free_clusters no_fault fs first v)
  free_clusters-IsFreed xs ys first v b hint h (inl e) =
      subst (λ n. IsFreed fs v xs (free_run no_fault fs n first v).1) e
        ((free_run-IsFreed xs ys first v b hint h).0)
  free_clusters-IsFreed xs ys first v b hint h (inr (l, e)) =
      let whole =
        subst (IsChain fs v.disk first) (append-nil xs)
          (subst (λ zs. IsChain fs v.disk first (xs ++ zs)) e h) in
      rw (free_run_beyond xs 10000 first v b hint l whole, free_clusters)
        ((free_run-IsFreed xs ys first v b hint h).0)
