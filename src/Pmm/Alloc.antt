-- ===== src/Pmm/Alloc.antt =====
-- kernel/mem/pmm.c: allocating splits a larger block, and keeps the invariant of the zone.
use stanix.Base.{
  ℕ, zero, suc, ◌+◌, ◌≤◌, ◌≡◌, refl, sym, subst, ap, ◌∙◌, ◌≢◌, Bool, true, false, not, ◌&&◌, Option,
  none, some, [], ◌∷◌, ltb, leb, ◌==◌, if◌then◌else◌, arith,
}
use stanix.Word.{add_size}
use stanix.Pmm.{
  order2count, Entries, set_at, split_from, raw_allocate, Pmm, is_free, set_refs, allocate_pages,
  set_free_pages,
}
use stanix.Pmm.Cover.{inside, cover, Taken, raw_allocate-Taken}
use stanix.Pmm.Quotient.{Aligned, bit, bit_le}
use stanix.Pmm.Sound.{IsSound, InUse, Freed, set_free_pages-Freed, free_of}
use stanix.Pmm.Split.{Split, raw_allocate-Split}

-- No block is on the lists from index `skip` on.
unfoldable pub IsEmptyFrom : (skip : ℕ) → Entries → Type 0
IsEmptyFrom skip [] = Unit
IsEmptyFrom zero (ps ∷ entries) = (ps ≡ []) × IsEmptyFrom 0 entries
IsEmptyFrom (suc skip) (ps ∷ entries) = IsEmptyFrom skip entries

abbrev EmptyIfNone : (skip : ℕ) → Entries → Option (ℕ × Entries × (ℕ → ℕ)) → Type 0
EmptyIfNone skip entries none = IsEmptyFrom skip entries
EmptyIfNone skip entries (some r) = Unit

split_from-EmptyIfNone :
    (order : ℕ) (entries : Entries) (noted : ℕ → ℕ)
    → EmptyIfNone 0 entries (split_from order entries noted)
unfolding split_from IsEmptyFrom
split_from-EmptyIfNone order [] noted = tt
split_from-EmptyIfNone order ((p ∷ ps) ∷ entries) noted = tt
split_from-EmptyIfNone order ([] ∷ entries) noted =
    go (split_from (order + 1) entries noted) (split_from-EmptyIfNone (order + 1) entries noted)
  where
    go :
        (r : Option (ℕ × Entries × (ℕ → ℕ)))
        → EmptyIfNone 0 entries r
        → EmptyIfNone 0 ([] ∷ entries) (elim r [
          | none ↦ none
          | some (p, entries', noted') ↦
              let unused = p + order2count order in
              some (p, (unused ∷ []) ∷ entries', set_at noted' unused order)
        ])
    go none h = (refl, h)
    go (some (p, entries', noted')) h = tt

raw_allocate-EmptyIfNone :
    (skip first : ℕ) (entries : Entries) (noted : ℕ → ℕ)
    → EmptyIfNone skip entries (raw_allocate skip first entries noted)
unfolding raw_allocate IsEmptyFrom
raw_allocate-EmptyIfNone zero first entries noted = split_from-EmptyIfNone first entries noted
raw_allocate-EmptyIfNone (suc skip) first [] noted = tt
raw_allocate-EmptyIfNone (suc skip) first (ps ∷ entries) noted =
    go (raw_allocate skip (first + 1) entries noted)
      (raw_allocate-EmptyIfNone skip (first + 1) entries noted)
  where
    go :
        (r : Option (ℕ × Entries × (ℕ → ℕ)))
        → EmptyIfNone skip entries r
        → EmptyIfNone
            (suc skip)
            (ps ∷ entries)
            (elim r [ none ↦ none | some (p, entries', noted') ↦ some (p, ps ∷ entries', noted') ])
    go none h = h
    go (some (p, entries', noted')) h = tt

-- What `pmm_helper_allocate_pages` returns: an aligned block of pages that were free and are no more.
abbrev pub Allocated : Pmm → (order : ℕ) → Option (ℕ × Pmm) → Type 0
Allocated m order none = IsEmptyFrom order m.entries
Allocated m order (some (page, m')) =
    IsSound m'
    × Aligned order page
    × InUse m' page (order2count order)
    × ((x : ℕ) → bit (free_of m x) ≡ bit (free_of m' x) + inside x page (order2count order))

usable :
    (known reserved : Bool) (ref : ℕ)
    → bit (known && (ref == 0 && not reserved)) ≢ 0
    → (known ≡ true) × (reserved ≡ false)
usable true false ref h = (refl, refl)
usable true true ref h = absurd (h (ground arith))
usable false reserved ref h = absurd (h refl)

set_inside :
    (f : ℕ → ℕ) (x s c : ℕ) → inside x s c ≢ 0 → (if leb s x && ltb x (s + c) then 1 else f x) ≢ 0
set_inside f x s c i = ground arith

taken_bit :
    (known reserved : Bool) (ref : ℕ) (here : Bool) (left : ℕ)
    → left + (if here then 1 else 0) ≡ bit (known && (ref == 0 && not reserved))
    → left ≡ bit (known && ((if here then 1 else ref) == 0 && not reserved))
taken_bit known reserved ref true left h = ground arith
taken_bit known reserved ref false left h = ground arith

-- `pmm_helper_allocate_pages` keeps the invariant and takes one aligned block of free pages; it fails only
-- when no block of the order or a larger one is free.
pub allocate_pages-Allocated :
    (m : Pmm) (order : ℕ) → IsSound m → Allocated m order (allocate_pages m order)
unfolding allocate_pages is_free set_refs
allocate_pages-Allocated m order s =
    let once : (x : ℕ) → cover x 0 m.entries ≤ 1 =
      λ x. let c = s.covered x in let l = bit_le (free_of m x) in omega arith in
    go (raw_allocate order 0 m.entries m.noted) (raw_allocate-EmptyIfNone order 0 m.entries m.noted)
      (λ x.
        subst (λ o. Taken x 0 o m.entries (raw_allocate order 0 m.entries m.noted)) {x = 0 + order}
          (omega arith) (raw_allocate-Taken x order 0 m.entries m.noted))
      (subst (λ o. Split 0 o m.entries m.noted (raw_allocate order 0 m.entries m.noted))
        {x = 0 + order} (omega arith) (raw_allocate-Split order 0 m.entries m.noted once s.blocks))
  where
    go :
        (r : Option (ℕ × Entries × (ℕ → ℕ)))
        → EmptyIfNone order m.entries r
        → ((x : ℕ) → Taken x 0 order m.entries r)
        → Split 0 order m.entries m.noted r
        → Allocated m order (elim r [
          | none ↦ none
          | some (page, entries', noted') ↦ some (
            page,
            record {
              entries = entries';
              noted = noted';
              ref_count = set_refs m.ref_count page (order2count order) 1;
              reserved = m.reserved;
              known = m.known;
              used_pages = add_size m.used_pages (order2count order);
              private_pages = add_size m.private_pages (order2count order);
              shared_pages = m.shared_pages;
            },
          )
        ])
    go none e t k = e
    go (some (page, entries', noted')) e t k =
        let bits : (x : ℕ)
            → cover x 0 entries'
              ≡ bit
                  (is_free m.known m.reserved (set_refs m.ref_count page (order2count order) 1) x) =
          λ x.
            taken_bit (m.known x) (m.reserved x) (m.ref_count x) _ (cover x 0 entries')
              (sym (t x) ∙ s.covered x) in
        (
          record { lists = k.lists ∙ s.lists; blocks = k.blocks; covered = bits },
          k.aligned,
          (λ x i.
              let (a, r) =
                usable (m.known x) (m.reserved x) (m.ref_count x)
                  (λ z. i (let e1 = t x in let e2 = s.covered x in omega arith)) in
              (a, r, set_inside m.ref_count x page (order2count order) i)),
          λ x. sym (s.covered x) ∙ t x ∙ ap (λ c. c + inside x page (order2count order)) (bits x),
        )

-- The same pages are free as before.
pub Restored : Pmm → Option Pmm → Type 0
Restored m none = ⊥
Restored m (some m') = IsSound m' × ((x : ℕ) → bit (free_of m' x) ≡ bit (free_of m x))

-- Freeing the block that was just allocated breaks no list and keeps the invariant, and the same pages are
-- free as before the allocation.
pub set_free_pages-allocate_pages :
    (m m' : Pmm) (order page : ℕ)
    → IsSound m
    → order ≤ 6
    → allocate_pages m order ≡ some (page, m')
    → Restored m (set_free_pages m' page order)
unfolding Restored
set_free_pages-allocate_pages m m' order page s o e =
    let (s', a, u, bits) = subst (Allocated m order) e (allocate_pages-Allocated m order s) in
    go (set_free_pages m' page order) (set_free_pages-Freed m' page order s' o a u) bits
  where
    go :
        (r : Option Pmm)
        → Freed m' page order r
        → ((x : ℕ) → bit (free_of m x) ≡ bit (free_of m' x) + inside x page (order2count order))
        → Restored m r
    go none f bits = f
    go (some m'') (s'', more, kept) bits = (s'', λ x. more x ∙ sym (bits x))
