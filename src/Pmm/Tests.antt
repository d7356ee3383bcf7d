-- ===== src/Pmm/Tests.antt =====
-- The page allocator at concrete values: memory of eight pages.
use stanix.Base.{ℕ, ◌≡◌, refl, false, Option, none, some, [], ◌∷◌, ltb, arith}
use stanix.Pmm.{
  Entries, Pmm, split_from, raw_allocate, list_remove, remove_at, append_at, buddy, merge_loop,
  set_free, is_free, set_refs, allocate_pages, set_free_pages, fit_order, set_free_range, drop_ref,
}
use stanix.Pmm.Cover.{cover, cover_list}
use stanix.Pmm.Blocks.{Blocks, EveryPage}
use stanix.Pmm.Sound.{IsSound, Freed, set_free_pages-Freed}
use stanix.Pmm.Alloc.{Allocated, allocate_pages-Allocated, Restored, set_free_pages-allocate_pages}
use stanix.Pmm.Range.{FreedRange, set_free_range-FreedRange}
use stanix.Pmm.Race.{set_free_pages-race}

-- All pages are in use, with one reference.
abbrev busy : Pmm
busy = record {
  entries = [] ∷ [] ∷ [] ∷ [] ∷ [] ∷ [] ∷ [] ∷ [];
  noted = λ x. 0;
  ref_count = λ x. 1;
  reserved = λ x. false;
  known = λ x. ltb x 8;
  used_pages = 8;
  private_pages = 8;
  shared_pages = 0;
}

-- One free block of eight pages.
abbrev idle : Pmm
idle = record {
  entries = [] ∷ [] ∷ [] ∷ (0 ∷ []) ∷ [] ∷ [] ∷ [] ∷ [];
  noted = λ x. 3;
  ref_count = λ x. 0;
  reserved = λ x. false;
  known = λ x. ltb x 8;
  used_pages = 0;
  private_pages = 0;
  shared_pages = 0;
}

busy-IsSound : IsSound busy
unfolding Blocks EveryPage cover cover_list is_free
busy-IsSound = record {
  lists = refl;
  blocks = (tt, (tt, (tt, (tt, (tt, (tt, (tt, tt)))))));
  covered = λ x. ground arith;
}

idle-IsSound : IsSound idle
unfolding Blocks EveryPage cover cover_list is_free
idle-IsSound = record {
  lists = refl;
  blocks = (tt, (tt, (tt, (((refl, (0, refl)), tt), (tt, (tt, (tt, tt)))))));
  covered = λ x. ground arith;
}

allocate_pages-Allocated_example : Allocated idle 1 (allocate_pages idle 1)
allocate_pages-Allocated_example = allocate_pages-Allocated idle 1 idle-IsSound

set_free_pages-Freed_example : Freed busy 4 2 (set_free_pages busy 4 2)
set_free_pages-Freed_example =
    set_free_pages-Freed busy 4 2 busy-IsSound (omega arith) (1, refl)
      (λ x i. (ground arith, refl, λ e. absurd (omega arith)))

set_free_range-FreedRange_example : FreedRange busy 1 6 (set_free_range 6 busy 1 6)
set_free_range-FreedRange_example =
    set_free_range-FreedRange 6 busy 1 6 (omega arith) busy-IsSound
      (λ x i. (ground arith, refl, λ e. absurd (omega arith)))

-- The lists that the range of pages from 1 to 6 leaves: blocks of one, two, two and one pages.
abbrev lists_of : Option Pmm → Entries
lists_of none = []
lists_of (some m) = m.entries

range_at :
    lists_of (set_free_range 6 busy 1 6) ≡ (6 ∷ 1 ∷ []) ∷ (4 ∷ 2 ∷ []) ∷ [] ∷ [] ∷ [] ∷ [] ∷ [] ∷ []
unfolding set_free_range fit_order set_free_pages set_free merge_loop is_free set_refs buddy
    append_at remove_at list_remove
range_at = refl

-- The last merge makes one block of the eight pages.
merged_at : lists_of (set_free_range 8 busy 0 8) ≡ [] ∷ [] ∷ [] ∷ (0 ∷ []) ∷ [] ∷ [] ∷ [] ∷ []
unfolding set_free_range fit_order set_free_pages set_free merge_loop is_free set_refs buddy
    append_at remove_at list_remove
merged_at = refl

abbrev memory_of : Option (ℕ × Pmm) → Pmm
memory_of none = idle
memory_of (some (page, m)) = m

allocated_at : allocate_pages idle 1 ≡ some (0, memory_of (allocate_pages idle 1))
unfolding allocate_pages raw_allocate split_from
allocated_at = refl

set_free_pages-allocate_pages_example :
    Restored idle (set_free_pages (memory_of (allocate_pages idle 1)) 0 1)
set_free_pages-allocate_pages_example =
    set_free_pages-allocate_pages idle (memory_of (allocate_pages idle 1)) 1 0 idle-IsSound
      (omega arith) allocated_at

set_free_pages-race_example : set_free_pages (drop_ref busy 4) 5 0 ≡ none
set_free_pages-race_example =
    set_free_pages-race busy 2 busy-IsSound (refl, refl, omega arith) refl refl
