-- ===== src/Fat/Grow.antt =====
-- modules/fs/fat/fat.c: `fat_grow` makes a chain of clusters that were free, and changes no other entry.
use stanix.Base.{
  ℕ, zero, suc, ◌+◌, ◌<◌, ◌≡◌, refl, sym, subst, ap, ◌∙◌, ◌≢◌, inl, inr, eq_or_ne, ne→test, eq→test,
  arith, List, [], ◌∷◌, ◌++◌, append_assoc, length, Option, none, some,
}
use stanix.Fat.{Superblock, eof, get_next}
use stanix.Fat.Table.{IsBytes}
use stanix.Fat.Mirror.{no_fault}
use stanix.Fat.Chain.{Volume, write_next, allocate_cluster, set_hint, grow_run}
use stanix.Fat.View.{IsSound, write_next-IsBytes, get_next-write_next, get_next-write_next_other}
use stanix.Fat.Alloc.{NoneFree, IsHinted, allocate_cluster-IsAllocated}
use stanix.Fat.Walk.{
  InRange, IsChain, Every, Every-map, Every-append_left, IsChain-start, IsChain-taken,
  IsChain-frame,
}

pub record IsGrown (fs : Superblock) (v : Volume) (cs : List ℕ) (count first : ℕ) (v' : Volume)
    : Type 0 where
  pub bytes : IsBytes v'.disk
  pub hinted : IsHinted fs v'
  pub added : List ℕ
  pub count_added : length added ≡ count
  pub chain : IsChain fs v'.disk first (added ++ cs)
  pub were_free : Every (λ c. InRange fs c × (get_next fs v.disk c ≡ 0)) added
  pub kept :
      (c : ℕ)
      → c < fs.data_clusters + 2
      → Every (λ x. x ≢ c) added
      → get_next fs v'.disk c ≡ get_next fs v.disk c

abbrev pub Grown : Superblock → Volume → List ℕ → (count : ℕ) → Option ℕ × Volume → Type 0
Grown fs v cs count (none, v') = NoneFree fs v'.disk 2 (fs.data_clusters + 2)
Grown fs v cs count (some first, v') = IsGrown fs v cs count first v'

length-append-one : (xs : List ℕ) (c : ℕ) → length (xs ++ (c ∷ [])) ≡ suc (length xs)
length-append-one [] c = refl
length-append-one (x ∷ xs) c = ap suc (length-append-one xs c)

Every-append-one :
    (P : ℕ → Type 0) (xs : List ℕ) (c : ℕ) → Every P xs → P c → Every P (xs ++ (c ∷ []))
unfolding Every
Every-append-one P [] c h p = (p, tt)
Every-append-one P (x ∷ xs) c (q, h) p = (q, Every-append-one P xs c h p)

Every-last : (P : ℕ → Type 0) (xs : List ℕ) (c : ℕ) → Every P (xs ++ (c ∷ [])) → P c
unfolding Every
Every-last P [] c (p, h) = p
Every-last P (x ∷ xs) c (q, h) = Every-last P xs c h

module _ (fs : Superblock) (sound : IsSound fs) where
  -- One cluster more: `c` was free and now points to `start`.
  module _ (v : Volume) (c hint start : ℕ) (cs : List ℕ) (b : IsBytes v.disk) (r : InRange fs c)
      (free : get_next fs v.disk c ≡ 0) (h : IsChain fs v.disk start cs) where
    linked : Volume
    linked = (write_next no_fault fs c start (set_hint v hint)).1

    linked-entry : get_next fs linked.disk c ≡ start
    unfolding linked
    linked-entry =
        get_next-write_next fs sound (set_hint v hint) b c start (r.1)
          ((IsChain-start fs sound.few v.disk start cs h).1)

    linked-other :
        (d : ℕ)
        → d < fs.data_clusters + 2
        → c ≢ d
        → get_next fs linked.disk d ≡ get_next fs v.disk d
    unfolding linked
    linked-other =
        get_next-write_next_other fs sound (set_hint v hint) b c start (r.1)
          ((IsChain-start fs sound.few v.disk start cs h).1)

    linked-kept :
        (d : ℕ)
        → d < fs.data_clusters + 2
        → get_next fs v.disk d ≢ 0
        → get_next fs linked.disk d ≡ get_next fs v.disk d
    linked-kept d u ne = linked-other d u (λ e. ne (subst (λ k. get_next fs v.disk k ≡ 0) e free))

    linked-IsChain : IsChain fs linked.disk c (c ∷ cs)
    unfolding IsChain
    linked-IsChain = (
      refl,
      r,
      rw linked-entry (
          IsChain-frame fs v.disk linked.disk start cs
            (Every-map _ _ (λ d (p, ne). linked-kept d (p.1) ne) cs
              (IsChain-taken fs sound.few v.disk start cs h))
            h),
    )

    linked-IsBytes : IsBytes linked.disk
    unfolding linked
    linked-IsBytes =
        write_next-IsBytes fs sound (set_hint v hint) b c start (r.1)
          ((IsChain-start fs sound.few v.disk start cs h).1)

    linked-free :
        (d : ℕ)
        → d < fs.data_clusters + 2
        → get_next fs linked.disk d ≡ 0
        → get_next fs v.disk d ≡ 0
    linked-free d u e = elim (eq_or_ne (get_next fs v.disk d) 0) [
      | inl z ↦ z
      | inr ne ↦ sym (linked-kept d u ne) ∙ e
    ]

    linked-IsHinted : NoneFree fs v.disk 2 c → hint ≡ c + 1 → IsHinted fs linked
    unfolding linked
    linked-IsHinted taken e d l u u' z = elim (eq_or_ne c d) [
      | inl k ↦
          (IsChain-start fs sound.few v.disk start cs h).0
            (sym linked-entry ∙ subst (λ k. get_next fs linked.disk k ≡ 0) (sym k) z)
      | inr ne ↦ taken d l (omega arith) (linked-free d u' z)
    ]

    -- The clusters that are added to the longer chain are added to `cs`, with `c` as the last.
    linked-IsGrown :
        (count first : ℕ) (v' : Volume)
        → IsGrown fs linked (c ∷ cs) count first v'
        → IsGrown fs v cs (suc count) first v'
    linked-IsGrown count first v' g = record {
      bytes = g.bytes;
      hinted = g.hinted;
      added = g.added ++ (c ∷ []);
      count_added = length-append-one g.added c ∙ ap suc g.count_added;
      chain = subst (IsChain fs v'.disk first) (sym (append_assoc g.added (c ∷ []) cs)) g.chain;
      were_free =
          Every-append-one (λ d. InRange fs d × (get_next fs v.disk d ≡ 0)) g.added c
            (Every-map _ _ (λ d (p, e). (p, linked-free d (p.1) e)) g.added g.were_free) (r, free);
      kept = λ d u h.
          g.kept d u (Every-append_left _ g.added (c ∷ []) h)
          ∙ linked-other d u (Every-last (λ x. x ≢ d) g.added c h);
    }

    linked-Grown :
        (count : ℕ) (r : Option ℕ × Volume)
        → Grown fs linked (c ∷ cs) count r
        → Grown fs v cs (suc count) r
    linked-Grown count (none, v') g = g
    linked-Grown count (some first, v') g = linked-IsGrown count first v' g

  -- The loop of `fat_grow`, before a chain of clusters: it adds `count` clusters that were free, in front
  -- of the chain, and keeps the other entries. It gives up only when no
  -- cluster is free.
  pub grow_run-Grown :
      (count start : ℕ) (v : Volume) (cs : List ℕ)
      → IsBytes v.disk
      → IsHinted fs v
      → IsChain fs v.disk start cs
      → Grown fs v cs count (grow_run no_fault fs count start v)
  unfolding grow_run Every linked
  grow_run-Grown zero start v cs b hint h = record {
    bytes = b;
    hinted = hint;
    added = [];
    count_added = refl;
    chain = h;
    were_free = tt;
    kept = λ c u ne. refl;
  }
  grow_run-Grown (suc count) start v cs b hint h =
      elim (allocate_cluster-IsAllocated fs v sound.few hint) [
        | inl (l, u, free, taken, e) ↦
            let found = allocate_cluster fs v in
            rw (ne→test (found.0) (eof fs.fat_type) (let f = sound.few in omega arith)) (
              linked-Grown v (found.0) (found.1) start cs b (l, u) free h count _
                (grow_run-Grown count (found.0) _ ((found.0) ∷ cs)
                  (linked-IsBytes v (found.0) (found.1) start cs b (l, u) free h)
                  (linked-IsHinted v (found.0) (found.1) start cs b (l, u) free h taken e)
                  (linked-IsChain v (found.0) (found.1) start cs b (l, u) free h)))
        | inr (e, taken) ↦ rw (eq→test ((allocate_cluster fs v).0) (eof fs.fat_type) e) taken
      ]
