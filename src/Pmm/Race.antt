-- ===== src/Pmm/Race.antt =====
-- kernel/mem/pmm.c: two buddies released at the same time.
use stanix.Base.{
  ℕ, suc, ◌+◌, ◌-◌, ◌≡◌, refl, ◌∙◌, inl, inr, Bool, true, false, not, ◌&&◌, none, ◌==◌,
  if◌then◌else◌, eq→test, Option-cases, arith,
}
use stanix.Pmm.{
  order2count, Entries, remove_at, buddy, merge_loop, set_free, set_refs, is_free, Pmm, drop_ref,
  set_free_pages,
}
use stanix.Pmm.Cover.{cover, cover-remove_at}
use stanix.Pmm.Sound.{IsSound, IsInUse, inside_first, set_at_same}

-- Taking a page that no block holds off a list.
remove_at_uncovered :
    (order p : ℕ) (entries : Entries) → cover p 0 entries ≡ 0 → remove_at order p entries ≡ none
remove_at_uncovered order p entries z = elim (Option-cases (remove_at order p entries)) [
  | inl e ↦ e
  | inr (entries', e) ↦ absurd (
      let c = cover-remove_at p order p entries entries' e in
      let i = inside_first p order in omega arith)
]

odd_buddy : (k : ℕ) → buddy 0 (k + k + 1) ≡ k + k
unfolding buddy
odd_buddy k = ground arith

broken_merge :
    (free : ℕ → Bool) (noted : ℕ → ℕ) (left start : ℕ) (entries : Entries)
    → free (buddy 0 start) ≡ true
    → noted (buddy 0 start) ≡ 0
    → remove_at 0 (buddy 0 start) entries ≡ none
    → merge_loop free noted (suc left) 0 start entries ≡ none
unfolding merge_loop
broken_merge free noted left start entries f n r =
    rw (f, eq→test (noted (buddy 0 start)) 0 n, r) refl

-- A page whose last reference was dropped is free, and so it is when another page is marked.
dropped_free :
    (known reserved : Bool) (ref : ℕ) (here : Bool)
    → known ≡ true
    → reserved ≡ false
    → ref ≡ 1
    → (known && ((if here then 0 else ref - 1) == 0 && not reserved)) ≡ true
dropped_free known reserved ref true k r e = rw (k, r) refl
dropped_free known reserved ref false k r e = rw (k, r, e) refl

-- One processor has dropped the last reference of an even page, noted with order 0, and not taken the lock
-- yet. Another one then frees the next page, and merges it with a page that is on no list.
pub set_free_pages-race :
    (m : Pmm) (k : ℕ)
    → IsSound m
    → IsInUse m (k + k)
    → m.ref_count (k + k) ≡ 1
    → m.noted (k + k) ≡ 0
    → set_free_pages (drop_ref m (k + k)) (k + k + 1) 0 ≡ none
unfolding set_free_pages set_free is_free set_refs
set_free_pages-race m k s (known, reserved, used) one n =
    let p : ℕ = k + k in
    let q : ℕ = k + k + 1 in
    let m' = drop_ref m p in
    let free' : ℕ → Bool = is_free m.known m.reserved (set_refs m'.ref_count q (order2count 0) 0) in
    let gone : cover p 0 m.entries ≡ 0 = s.covered p ∙ rw (known, reserved, one) refl in
    let b = odd_buddy k in
    let free_now : free' p ≡ true =
      rw (set_at_same m.ref_count p (m.ref_count p - 1))
        (dropped_free (m.known p) (m.reserved p) (m.ref_count p) _ known reserved one) in
    rw
      (
        broken_merge free' m.noted 5 q m.entries (rw b free_now) (rw b n)
            (rw b (remove_at_uncovered 0 p m.entries gone)),
        set_free_pages,
      )
      refl
