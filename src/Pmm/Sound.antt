-- ===== src/Pmm/Sound.antt =====
-- kernel/mem/pmm.c: the invariant of a zone, and freeing: the list that a merge removes a block from has it.
use stanix.Base.{
  ℕ, ◌+◌, ◌-◌, ◌^◌, ◌≤◌, ◌<◌, ◌≡◌, refl, sym, subst, ap, ◌∙◌, ◌≢◌, Bool, true, false, not, ◌&&◌,
  Option, none, some, ltb, leb, ◌==◌, if◌then◌else◌, arith, length,
}
use native.Mathlib.Nat.{one-le-pow}
use stanix.Word.{sub_size}
use stanix.Pmm.{
  order2count, Entries, set_at, append_at, set_free, Pmm, is_free, set_refs, set_free_pages,
}
use stanix.Pmm.Cover.{inside, cover, cover-append_at_all}
use stanix.Pmm.Blocks.{Blocks, Blocks-map, append_at-Blocks, length-append_at}
use stanix.Pmm.Quotient.{Aligned, bit, bit_le, IsZone}
use stanix.Pmm.Merge.{Merged, merge_loop-Merged}

-- Every listed block is aligned and its order noted; the free pages are those of the listed blocks, and
-- no page is in two of them.
pub record IsListed (free : ℕ → Bool) (noted : ℕ → ℕ) (entries : Entries) : Type 0 where
  pub lists : length entries ≡ 7
  pub blocks : Blocks (λ o p. (noted p ≡ o) × Aligned o p) 0 entries
  pub covered : (x : ℕ) → cover x 0 entries ≡ bit (free x)

abbrev pub Listed : (ℕ → Bool) → Option (Entries × (ℕ → ℕ)) → Type 0
Listed free none = ⊥
Listed free (some (entries, noted)) = IsListed free noted entries

pub inside_first : (x o : ℕ) → inside x x (2 ^ o) ≡ 1
inside_first x o = let p = one-le-pow o 2 (omega arith) in ground arith

pub set_at_same : (f : ℕ → ℕ) (p v : ℕ) → set_at f p v p ≡ v
set_at_same f p v = ground arith

pub set_at_other : (f : ℕ → ℕ) (p v q : ℕ) → q ≢ p → set_at f p v q ≡ f q
set_at_other f p v q ne = ground arith

-- Noting the order of a page that no block holds.
pub Blocks-set_at :
    (noted : ℕ → ℕ) (x v first : ℕ) (entries : Entries)
    → cover x first entries ≡ 0
    → Blocks (λ o p. (noted p ≡ o) × Aligned o p) first entries
    → Blocks (λ o p. (set_at noted x v p ≡ o) × Aligned o p) first entries
Blocks-set_at noted x v first entries z h =
    Blocks-map _ _ x
      (λ o p i (n, a). (
        set_at_other noted x v p (λ e.
              absurd
                (let s = inside_first x o in let k = ap (λ q. inside x q (2 ^ o)) e in omega arith))
            ∙ n,
        a,
      ))
      first entries z h

Listed-after :
    (free : ℕ → Bool) (noted : ℕ → ℕ) (top : ℕ) (before : Entries) (r : Option (ℕ × ℕ × Entries))
    → length before ≡ 7
    → top ≡ 6
    → Merged free noted top before r
    → Listed free (elim r [
      | none ↦ none
      | some (order', start', entries') ↦
          some (append_at order' start' entries', set_at noted start' order')
    ])
Listed-after free noted top before none l t m = m
Listed-after free noted top before (some (order, start, entries)) l t m =
    let z = m.zone in
    let short : order < length entries = (let a = m.lists in let b = m.bounded in omega arith) in
    let s = inside_first start order in
    let c = z.covered start in
    let alone : cover start 0 entries ≡ 0 = (let k = bit_le (free start) in omega arith) in
    record {
      lists = length-append_at order start entries ∙ m.lists ∙ l;
      blocks =
          append_at-Blocks _ 0 order start entries
            (
              set_at_same noted start order ∙ omega arith,
              subst (λ o. Aligned o start) {x = order} (omega arith) z.aligned,
            )
            (Blocks-set_at noted start order 0 entries alone z.blocks);
      covered = λ x. cover-append_at_all x order start entries short ∙ z.covered x;
    }

-- Freeing a block beside the listed ones: no list is without the page that a merge removes from it.
pub set_free-Listed :
    (free : ℕ → Bool) (noted : ℕ → ℕ) (order start : ℕ) (entries : Entries)
    → IsZone free noted order start entries
    → length entries ≡ 7
    → order ≤ 6
    → Listed free (set_free free noted order start entries)
unfolding set_free
set_free-Listed free noted order start entries z l o =
    Listed-after free noted (order + (6 - order)) entries _ l (omega arith)
      (merge_loop-Merged free noted (6 - order) order start entries z)

abbrev pub free_of : Pmm → ℕ → Bool
free_of m = is_free m.known m.reserved m.ref_count

abbrev pub IsSound : Pmm → Type 0
IsSound m = IsListed (free_of m) m.noted m.entries

abbrev pub IsInUse : Pmm → ℕ → Type 0
IsInUse m x = (m.known x ≡ true) × (m.reserved x ≡ false) × (m.ref_count x ≢ 0)

-- The `count` pages from `start` on are in use.
abbrev pub InUse : Pmm → (start count : ℕ) → Type 0
InUse m start count = (x : ℕ) → inside x start count ≢ 0 → IsInUse m x

-- What `pmm_set_free_pages` makes of the memory: exactly the pages of the block become free.
abbrev pub Freed : Pmm → (start order : ℕ) → Option Pmm → Type 0
Freed m start order none = ⊥
Freed m start order (some m') =
    IsSound m'
    × ((x : ℕ) → bit (free_of m' x) ≡ bit (free_of m x) + inside x start (order2count order))
    × ((x : ℕ) → inside x start (order2count order) ≡ 0 → IsInUse m x → IsInUse m' x)

freed_bit :
    (known reserved : Bool) (ref count : ℕ) (here : Bool)
    → (here ≡ true → (known ≡ true) × (reserved ≡ false) × (ref ≢ 0))
    → bit (known && ((if here then 0 else ref) == 0 && not reserved))
      ≡ bit (known && (ref == 0 && not reserved)) + (if here then 1 else 0)
freed_bit known reserved ref count true h = let (a, b, c) = h refl in rw (a, b) (ground arith)
freed_bit known reserved ref count false h = ground arith

pub outside_same :
    (f : ℕ → ℕ) (x s c : ℕ) → inside x s c ≡ 0 → (if leb s x && ltb x (s + c) then 0 else f x) ≡ f x
outside_same f x s c i = ground arith

pub inside_true : (x s c : ℕ) → (leb s x && ltb x (s + c)) ≡ true → inside x s c ≢ 0
inside_true x s c e = rw e (ground arith)

-- `pmm_set_free_pages` of an aligned block in use never breaks a list: it keeps the invariant, and the pages
-- that become free are those of the block.
pub set_free_pages-Freed :
    (m : Pmm) (start order : ℕ)
    → IsSound m
    → order ≤ 6
    → Aligned order start
    → InUse m start (order2count order)
    → Freed m start order (set_free_pages m start order)
unfolding set_free_pages is_free set_refs
set_free_pages-Freed m start order s o a u =
    let refs' : ℕ → ℕ = set_refs m.ref_count start (order2count order) 0 in
    let free' : ℕ → Bool = is_free m.known m.reserved refs' in
    let bits : (x : ℕ) → bit (free' x) ≡ bit (free_of m x) + inside x start (order2count order) =
      λ x.
        freed_bit (m.known x) (m.reserved x) (m.ref_count x) 0 _
          (λ e. u x (inside_true x start (order2count order) e)) in
    go (set_free free' m.noted order start m.entries) bits (
      set_free-Listed free' m.noted order start m.entries
        (record {
          aligned = a;
          blocks = s.blocks;
          covered = λ x. let c = s.covered x in let b = bits x in omega arith;
        })
        s.lists o)
  where
    go :
        (r : Option (Entries × (ℕ → ℕ)))
        → ((x : ℕ)
            → bit (is_free m.known m.reserved (set_refs m.ref_count start (order2count order) 0) x)
              ≡ bit (free_of m x) + inside x start (order2count order))
        → Listed (is_free m.known m.reserved (set_refs m.ref_count start (order2count order) 0)) r
        → Freed m start order (elim r [
          | none ↦ none
          | some (entries', noted') ↦ some (record {
            entries = entries';
            noted = noted';
            ref_count = set_refs m.ref_count start (order2count order) 0;
            reserved = m.reserved;
            known = m.known;
            used_pages = sub_size m.used_pages (order2count order);
            private_pages = sub_size m.private_pages (order2count order);
            shared_pages = m.shared_pages;
          })
        ])
    go none bits h = h
    go (some (entries', noted')) bits h = (
      h,
      bits,
      λ x i (a, b, c).
          (a, b, λ e. c (sym (outside_same m.ref_count x start (order2count order) i) ∙ e)),
    )
