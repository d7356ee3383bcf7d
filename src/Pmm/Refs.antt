-- ===== src/Pmm/Refs.antt =====
-- kernel/mem/pmm.c: counts of references (`pmm_retain`, `pmm_release_page`).
use stanix.Base.{
  ℕ, ◌+◌, ◌-◌, ◌%◌, ◌^◌, ◌<◌, ◌<◌, ◌≡◌, ◌≢◌, refl, ap, inl, inr, true, Option, none, some, eq_cases,
  eq→test, ne→test, arith,
}
use stanix.Pmm.Sound.{set_at_same}
use stanix.Pmm.{set_at, Pmm, retain, release_page}

-- The same memory, but for how the counts are written down.
pub Same : Pmm → Option Pmm → Type 0
Same m none = ⊥
Same m (some m') =
    ((x : ℕ) → m'.ref_count x ≡ m.ref_count x)
    × (m'.entries ≡ m.entries)
    × (m'.private_pages ≡ m.private_pages)
    × (m'.shared_pages ≡ m.shared_pages)
    × (m'.used_pages ≡ m.used_pages)

back : (f : ℕ → ℕ) (page v x : ℕ) → v ≡ f page + 1 → set_at (set_at f page v) page (v - 1) x ≡ f x
back f page v x h = elim (eq_cases x page) [
  | inl (t, e) ↦ rw t (let k = ap f e in omega arith)
  | inr (t, ne) ↦ rw t refl
]

-- A reference that is taken and given back, when no counter overflows, leaves the counts of all pages, the
-- lists and the counters as they were.
pub release_page-retain :
    (m : Pmm) (page : ℕ)
    → m.ref_count page ≢ 0
    → m.ref_count page + 1 < 2 ^ 32
    → m.private_pages < 2 ^ 64
    → m.shared_pages < 2 ^ 64
    → ((retain m page).0 ≡ true) × Same m (release_page ((retain m page).1) page)
unfolding retain release_page Same
release_page-retain m page used small private shared =
    let v : ℕ = (m.ref_count page + 1) % 2 ^ 32 in
    let same : v ≡ m.ref_count page + 1 = omega arith in
    elim (eq_cases (m.ref_count page) 1) [
      | inl (t, e) ↦
          rw
            (
              ne→test (m.ref_count page) 0 used,
              t,
              set_at_same m.ref_count page v,
              ne→test v 1 (omega arith),
              eq→test v 2 (omega arith),
            )
            (refl, ((λ x. back m.ref_count page v x same), refl, omega arith, omega arith, refl))
      | inr (f, ne) ↦
          rw
            (
              ne→test (m.ref_count page) 0 used,
              f,
              set_at_same m.ref_count page v,
              ne→test v 1 (omega arith),
              ne→test v 2 (omega arith),
            )
            (refl, ((λ x. back m.ref_count page v x same), refl, refl, refl, refl))
    ]
