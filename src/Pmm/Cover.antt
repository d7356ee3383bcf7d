-- ===== src/Pmm/Cover.antt =====
-- kernel/mem/pmm.c: which pages are free. Allocating takes the pages of one block away, and freeing adds
-- them, however blocks are split and merged.
use stanix.Base.{
  ℕ, zero, suc, ◌+◌, ◌<◌, ◌≡◌, subst, ap, ◌∙◌, inl, inr, ◌&&◌, Option, none, some, List, [], ◌∷◌,
  ltb, leb, if◌then◌else◌, eq_cases, arith, length,
}
use native.Mathlib.Nat.{two-pow-succ}
use stanix.Pmm.{
  order2count, Entries, set_at, split_from, raw_allocate, list_remove, remove_at, append_at,
}

-- 1 if `page` is one of the `count` pages from `start` on.
abbrev pub inside : (page start count : ℕ) → ℕ
inside page start count = if leb start page && ltb page (start + count) then 1 else 0

-- How many free blocks of the order hold the page.
unfoldable pub cover_list : (page order : ℕ) → List ℕ → ℕ
cover_list page order [] = 0
cover_list page order (p ∷ ps) = inside page p (order2count order) + cover_list page order ps

-- Of all orders from `order` on.
unfoldable pub cover : (page order : ℕ) → Entries → ℕ
cover page order [] = 0
cover page order (ps ∷ entries) = cover_list page order ps + cover page (order + 1) entries

inside-add :
    (page start m n : ℕ)
    → inside page start (m + n) ≡ inside page start m + inside page (start + m) n
inside-add page start m n = ground arith

-- A block of the next order is two blocks.
pub inside-halves :
    (page start order : ℕ)
    → inside page start (order2count (order + 1))
      ≡ inside page start (order2count order)
        + inside page (start + order2count order) (order2count order)
inside-halves page start order =
    ap (λ o. inside page start (order2count o)) {x = order + 1} {y = suc order} (omega arith)
    ∙ ap (inside page start) (two-pow-succ order)
    ∙ inside-add page start (order2count order) (order2count order)

-- The block that an allocation takes was free; the other pages are free as before.
abbrev pub Taken : (page order wanted : ℕ) → Entries → Option (ℕ × Entries × (ℕ → ℕ)) → Type 0
Taken page order wanted entries none = Unit
Taken page order wanted entries (some (p, entries', noted')) =
    cover page order entries ≡ cover page order entries' + inside page p (order2count wanted)

pub split_from-Taken :
    (page order : ℕ) (entries : Entries) (noted : ℕ → ℕ)
    → Taken page order order entries (split_from order entries noted)
unfolding split_from cover cover_list
split_from-Taken page order [] noted = tt
split_from-Taken page order ((p ∷ ps) ∷ entries) noted = omega arith
split_from-Taken page order ([] ∷ entries) noted =
    go (split_from (order + 1) entries noted) (split_from-Taken page (order + 1) entries noted)
  where
    go :
        (r : Option (ℕ × Entries × (ℕ → ℕ)))
        → Taken page (order + 1) (order + 1) entries r
        → Taken page order order ([] ∷ entries) (elim r [
          | none ↦ none
          | some (p, entries', noted') ↦
              let unused = p + order2count order in
              some (p, (unused ∷ []) ∷ entries', set_at noted' unused order)
        ])
    go none h = tt
    go (some (p, entries', noted')) h = let e = inside-halves page p order in omega arith

pub raw_allocate-Taken :
    (page skip first : ℕ) (entries : Entries) (noted : ℕ → ℕ)
    → Taken page first (first + skip) entries (raw_allocate skip first entries noted)
unfolding raw_allocate cover
raw_allocate-Taken page zero first entries noted =
    subst (λ o. Taken page first o entries (split_from first entries noted)) (omega arith)
      (split_from-Taken page first entries noted)
raw_allocate-Taken page (suc skip) first [] noted = tt
raw_allocate-Taken page (suc skip) first (ps ∷ entries) noted =
    go (raw_allocate skip (first + 1) entries noted) (
      subst (λ o. Taken page (first + 1) o entries (raw_allocate skip (first + 1) entries noted))
        (omega arith) (raw_allocate-Taken page skip (first + 1) entries noted))
  where
    go :
        (r : Option (ℕ × Entries × (ℕ → ℕ)))
        → Taken page (first + 1) (first + suc skip) entries r
        → Taken page first
            (first + suc skip)
            (ps ∷ entries)
            (elim r [ none ↦ none | some (p, entries', noted') ↦ some (p, ps ∷ entries', noted') ])
    go none h = tt
    go (some (p, entries', noted')) h = omega arith

-- Taking a block off its list.
pub RemovedList : (page order p : ℕ) → List ℕ → Option (List ℕ) → Type 0
RemovedList page order p ps none = Unit
RemovedList page order p ps (some ps') =
    cover_list page order ps ≡ cover_list page order ps' + inside page p (order2count order)

list_remove-RemovedList :
    (page order p : ℕ) (ps : List ℕ) → RemovedList page order p ps (list_remove p ps)
unfolding RemovedList list_remove cover_list
list_remove-RemovedList page order p [] = tt
list_remove-RemovedList page order p (q ∷ ps) = elim (eq_cases p q) [
  | inl (t, e) ↦ rw t (let k = ap (λ z. inside page z (order2count order)) e in omega arith)
  | inr (t, ne) ↦ rw t (go (list_remove p ps) (list_remove-RemovedList page order p ps))
]
  where
    go :
        (r : Option (List ℕ))
        → RemovedList page order p ps r
        → RemovedList page order p (q ∷ ps) (elim r [ none ↦ none | some ps' ↦ some (q ∷ ps') ])
    go none h = tt
    go (some ps') h = omega arith

pub Removed : (page first order p : ℕ) → Entries → Option Entries → Type 0
Removed page first order p entries none = Unit
Removed page first order p entries (some entries') =
    cover page first entries ≡ cover page first entries' + inside page p (order2count order)

pub remove_at-Removed :
    (page first order p : ℕ) (entries : Entries)
    → Removed page first (first + order) p entries (remove_at order p entries)
unfolding Removed RemovedList remove_at cover
remove_at-Removed page first zero p [] = tt
remove_at-Removed page first (suc order) p [] = tt
remove_at-Removed page first zero p (ps ∷ entries) =
    subst (λ o. Removed page first o p (ps ∷ entries) (remove_at 0 p (ps ∷ entries))) {x = first}
      (omega arith) (go (list_remove p ps) (list_remove-RemovedList page first p ps))
  where
    go :
        (r : Option (List ℕ))
        → RemovedList page first p ps r
        → Removed page first first p
            (ps ∷ entries)
            (elim r [ none ↦ none | some ps' ↦ some (ps' ∷ entries) ])
    go none h = tt
    go (some ps') h = omega arith
remove_at-Removed page first (suc order) p (ps ∷ entries) = go (remove_at order p entries) (
    subst (λ o. Removed page (first + 1) o p entries (remove_at order p entries)) (omega arith)
      (remove_at-Removed page (first + 1) order p entries))
  where
    go :
        (r : Option Entries)
        → Removed page (first + 1) (first + suc order) p entries r
        → Removed page first
            (first + suc order)
            p
            (ps ∷ entries)
            (elim r [ none ↦ none | some entries' ↦ some (ps ∷ entries') ])
    go none h = tt
    go (some entries') h = omega arith

-- Putting a block on the list of its order.
pub cover-append_at :
    (page first order p : ℕ) (entries : Entries)
    → order < length entries
    → cover page first (append_at order p entries)
      ≡ cover page first entries + inside page p (order2count (first + order))
unfolding append_at cover cover_list
cover-append_at page first order p [] h = absurd (omega arith)
cover-append_at page first zero p (ps ∷ entries) h =
    let e = ap (λ o. inside page p (order2count o)) {x = first} {y = first + 0} (omega arith) in
    omega arith
cover-append_at page first (suc order) p (ps ∷ entries) h =
    let e =
      ap (λ o. inside page p (order2count o)) {x = first + 1 + order} {y = first + suc order}
        (omega arith) in
    let k = cover-append_at page (first + 1) order p entries (omega arith) in omega arith

-- The same on the lists of all orders.
pub cover-remove_at :
    (page order p : ℕ) (entries entries' : Entries)
    → remove_at order p entries ≡ some entries'
    → cover page 0 entries ≡ cover page 0 entries' + inside page p (order2count order)
unfolding Removed
cover-remove_at page order p entries entries' e = subst (Removed page 0 order p entries) e (
    subst (λ o. Removed page 0 o p entries (remove_at order p entries)) {x = 0 + order}
      (omega arith) (remove_at-Removed page 0 order p entries))

pub cover-append_at_all :
    (page order p : ℕ) (entries : Entries)
    → order < length entries
    → cover page 0 (append_at order p entries)
      ≡ cover page 0 entries + inside page p (order2count order)
cover-append_at_all page order p entries h =
    cover-append_at page 0 order p entries h
    ∙ ap (λ o. cover page 0 entries + inside page p (order2count o)) {x = 0 + order} (omega arith)
