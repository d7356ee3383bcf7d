-- ===== src/Pmm.antt =====
-- kernel/mem/pmm.c, kernel/include/mem/pmm.h: the buddy allocator of physical pages. A page is its number,
-- the address over PAGE_SIZE. The free blocks of a zone are a list for each order, the last node of
-- the kernel's list first.
pub mod Cover
pub mod Buddy
pub mod Blocks
pub mod Quotient
pub mod Merge
pub mod Range
pub mod Refs
pub mod Race
pub mod Sound
pub mod Split
pub mod Alloc
mod Tests
use stanix.Base.{
  ℕ, zero, suc, ◌+◌, ◌-◌, ◌*◌, ◌/◌, ◌%◌, ◌^◌, min, Bool, true, false, not, ◌&&◌, ◌||◌, Option, none,
  some, List, [], ◌∷◌, ltb, leb, ◌==◌, if◌then◌else◌,
}
use stanix.Word.{add_size, sub_size}

-- `ORDER2COUNT`
abbrev pub order2count : ℕ → ℕ
order2count order = 2 ^ order

abbrev pub Entries : Type 0
Entries = List (List ℕ)

abbrev pub set_at : (ℕ → ℕ) → (page value : ℕ) → ℕ → ℕ
set_at f page value p = if p == page then value else f p

-- `pmm_raw_helper_allocate_pages`, on the lists of the orders from `order` on: the first page, the lists,
-- and the orders noted of the pages. `none` stands for PAGE_INVALID.
unfoldable pub split_from : (order : ℕ) → Entries → (ℕ → ℕ) → Option (ℕ × Entries × (ℕ → ℕ))
split_from order [] noted = none
split_from order ((page ∷ pages) ∷ entries) noted = some (page, pages ∷ entries, noted)
split_from order ([] ∷ entries) noted = elim (split_from (order + 1) entries noted) [
  | none ↦ none
  | some (page, entries', noted') ↦
      let unused = page + order2count order in
      some (page, (unused ∷ []) ∷ entries', set_at noted' unused order)
]

-- The same on the lists of all orders, the first of which has order `first`.
unfoldable pub raw_allocate : (skip first : ℕ) → Entries → (ℕ → ℕ) → Option (ℕ × Entries × (ℕ → ℕ))
raw_allocate zero first entries noted = split_from first entries noted
raw_allocate (suc skip) first [] noted = none
raw_allocate (suc skip) first (pages ∷ entries) noted =
    elim (raw_allocate skip (first + 1) entries noted) [
      | none ↦ none
      | some (page, entries', noted') ↦ some (page, pages ∷ entries', noted')
    ]

-- `list_remove`: nothing if the page is not in the list, where the kernel's list would break.
unfoldable pub list_remove : ℕ → List ℕ → Option (List ℕ)
list_remove page [] = none
list_remove page (p ∷ ps) =
    let rest = list_remove page ps in
    if page == p then some ps else elim rest [ none ↦ none | some ps' ↦ some (p ∷ ps') ]

-- On the list of an order.
unfoldable pub remove_at : (order page : ℕ) → Entries → Option Entries
remove_at order page [] = none
remove_at zero page (pages ∷ entries) = elim (list_remove page pages) [
  | none ↦ none
  | some pages' ↦ some (pages' ∷ entries)
]
remove_at (suc order) page (pages ∷ entries) = elim (remove_at order page entries) [
  | none ↦ none
  | some entries' ↦ some (pages ∷ entries')
]

-- `list_append` to the list of an order.
unfoldable pub append_at : (order page : ℕ) → Entries → Entries
append_at order page [] = []
append_at zero page (pages ∷ entries) = (page ∷ pages) ∷ entries
append_at (suc order) page (pages ∷ entries) = pages ∷ append_at order page entries

-- `start ^ (ORDER2COUNT(order) * PAGE_SIZE)`
unfoldable pub buddy : (order start : ℕ) → ℕ
buddy order start =
    if start / order2count order % 2 == 0
    then start + order2count order
    else start - order2count order

-- The loop of `pmm_zone_set_free_pages`, for at most `left` merges. `is_free` is what `pmm_is_free` says of
-- a page with a `page_t`.
unfoldable pub merge_loop :
    (is_free : ℕ → Bool) (noted : ℕ → ℕ) (left order start : ℕ) → Entries → Option (ℕ × ℕ × Entries)
merge_loop is_free noted zero order start entries = some (order, start, entries)
merge_loop is_free noted (suc left) order start entries =
    let merging = buddy order start in
    let merged : Option (ℕ × ℕ × Entries) = elim (remove_at order merging entries) [
      | none ↦ none
      | some entries' ↦
          merge_loop is_free noted left (order + 1) (if ltb merging start then merging else start)
            entries'
    ] in
    if is_free merging && noted merging == order then merged else some (order, start, entries)

-- `pmm_zone_set_free_pages`, but for the counts of pages: the lists and the orders noted.
unfoldable pub set_free :
    (is_free : ℕ → Bool) (noted : ℕ → ℕ) (order start : ℕ) → Entries → Option (Entries × (ℕ → ℕ))
set_free is_free noted order start entries =
    elim (merge_loop is_free noted (6 - order) order start entries) [
      | none ↦ none
      | some (order', start', entries') ↦
          some (append_at order' start' entries', set_at noted start' order')
    ]

-- The pages of a zone, and the counters. `known` tells the pages that have a `page_t`.
pub record Pmm : Type 0 where
  pub entries : Entries
  pub noted : ℕ → ℕ
  pub ref_count : ℕ → ℕ
  pub reserved : ℕ → Bool
  pub known : ℕ → Bool
  pub used_pages : ℕ
  pub private_pages : ℕ
  pub shared_pages : ℕ

-- `pmm_is_free`
unfoldable pub is_free : (known reserved : ℕ → Bool) (ref_count : ℕ → ℕ) → ℕ → Bool
is_free known reserved ref_count page = known page && (ref_count page == 0 && not (reserved page))

-- The loops over the pages of a block that store their count of references. What is stored for a page
-- with no `page_t` is never read.
unfoldable pub set_refs : (ℕ → ℕ) → (start count value : ℕ) → ℕ → ℕ
set_refs ref_count start count value page =
    if leb start page && ltb page (start + count) then value else ref_count page

-- `pmm_helper_allocate_pages`. The flags of the pages other than those of `reserved`, and `private`, are left
-- out.
unfoldable pub allocate_pages : Pmm → (order : ℕ) → Option (ℕ × Pmm)
allocate_pages m order = elim (raw_allocate order 0 m.entries m.noted) [
  | none ↦ none
  | some (page, entries', noted') ↦ some (
    page,
    record {
      entries = entries';
      noted = noted';
      ref_count = set_refs m.ref_count page (order2count order) 1;
      reserved = m.reserved;
      known = m.known;
      used_pages = add_size m.used_pages (order2count order);
      private_pages = add_size m.private_pages (order2count order);
      shared_pages = m.shared_pages;
    },
  )
]

-- `pmm_set_free_pages`
unfoldable pub set_free_pages : Pmm → (start order : ℕ) → Option Pmm
set_free_pages m start order =
    let ref_count' = set_refs m.ref_count start (order2count order) 0 in
    elim (set_free (is_free m.known m.reserved ref_count') m.noted order start m.entries) [
      | none ↦ none
      | some (entries', noted') ↦ some (record {
        entries = entries';
        noted = noted';
        ref_count = ref_count';
        reserved = m.reserved;
        known = m.known;
        used_pages = sub_size m.used_pages (order2count order);
        private_pages = sub_size m.private_pages (order2count order);
        shared_pages = m.shared_pages;
      })
    ]

-- The inner loop of `pmm_set_free_pages_range`: the first order below `order` that fits, from above.
unfoldable pub fit_order : (order start count : ℕ) → Option ℕ
fit_order zero start count = none
fit_order (suc order) start count =
    let rest = fit_order order start count in
    if ltb count (order2count order) || not (start % order2count order == 0)
    then rest
    else some order

-- `pmm_set_free_pages_range`, in at most `fuel` rounds. `none`: not done, or a list is broken.
unfoldable pub set_free_range : (fuel : ℕ) → Pmm → (start count : ℕ) → Option Pmm
set_free_range fuel m start zero = some m
set_free_range zero m start (suc count) = none
set_free_range (suc fuel) m start (suc count) = elim (fit_order 7 start (suc count)) [
  | none ↦ set_free_range fuel m start (suc count)
  | some order ↦ elim (set_free_pages m start order) [
    | none ↦ none
    | some m' ↦ set_free_range fuel m' (start + order2count order) (suc count - order2count order)
  ]
]

-- Storing a page's count of references, with the counters.
abbrev pub recount : Pmm → (page refs private shared : ℕ) → Pmm
recount m page refs private shared = record {
  entries = m.entries;
  noted = m.noted;
  ref_count = set_at m.ref_count page refs;
  reserved = m.reserved;
  known = m.known;
  used_pages = m.used_pages;
  private_pages = private;
  shared_pages = shared;
}

-- `pmm_retain` of a page with a `page_t`: whether the page has a reference more.
unfoldable pub retain : Pmm → ℕ → Bool × Pmm
retain m page =
    let old = m.ref_count page in
    if old == 0
    then (false, m)
    else if old == 1
    then (
      true,
      recount m page ((old + 1) % 2 ^ 32) (sub_size m.private_pages 1) (add_size m.shared_pages 1),
    )
    else (true, recount m page ((old + 1) % 2 ^ 32) m.private_pages m.shared_pages)

-- The `atomic_fetch_sub` of `pmm_release_page`, of a page with a reference.
abbrev pub drop_ref : Pmm → ℕ → Pmm
drop_ref m page = recount m page (m.ref_count page - 1) m.private_pages m.shared_pages

-- `pmm_release_page`, of a page with a `page_t` and a reference.
unfoldable pub release_page : Pmm → ℕ → Option Pmm
release_page m page =
    let ref = m.ref_count page in
    if not (ref == 1)
    then if ref == 2
      then some (recount m page (ref - 1) (add_size m.private_pages 1) (sub_size m.shared_pages 1))
      else some (drop_ref m page)
    else set_free_pages (drop_ref m page) page 0
