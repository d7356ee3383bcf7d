-- ===== src/Pmm/Blocks.antt =====
-- kernel/mem/pmm.c: a predicate of every block on the lists, and the block that holds a free page.
use stanix.Base.{
  ℕ, zero, suc, ◌+◌, ◌≡◌, refl, subst, ap, ◌≢◌, inl, inr, Option, none, some, List, [], ◌∷◌,
  eq_cases, eq_or_ne, eq→test, arith, length,
}
use stanix.Pmm.{order2count, Entries, list_remove, remove_at, append_at}
use stanix.Pmm.Cover.{inside, cover_list, cover}

-- `P` holds of every page of a list.
unfoldable pub EveryPage : (ℕ → Type 0) → List ℕ → Type 0
EveryPage P [] = Unit
EveryPage P (p ∷ ps) = P p × EveryPage P ps

-- `P` holds of the order and the first page of every block, on lists of the orders from `first` on.
unfoldable pub Blocks : (ℕ → ℕ → Type 0) → (first : ℕ) → Entries → Type 0
Blocks P first [] = Unit
Blocks P first (ps ∷ entries) = EveryPage (P first) ps × Blocks P (first + 1) entries

-- A block in a list that holds `x`.
find_page :
    (P : ℕ → Type 0) (x order : ℕ) (ps : List ℕ)
    → EveryPage P ps
    → cover_list x order ps ≢ 0
    → (p : ℕ) × P p
      × (inside x p (order2count order) ≢ 0)
      × ((ps' : List ℕ) × (list_remove p ps ≡ some ps'))
unfolding EveryPage cover_list list_remove
find_page P x order [] h ne = absurd (ne refl)
find_page P x order (q ∷ ps) (hq, h) ne = elim (eq_or_ne (inside x q (order2count order)) 0) [
  | inl z ↦
      let (p, hp, i, (ps', e)) = find_page P x order ps h (λ k. ne (omega arith)) in
      elim (eq_cases p q) [
        | inl (t, k) ↦ (p, hp, i, (ps, rw t refl))
        | inr (t, k) ↦ (p, hp, i, (q ∷ ps', rw (t, e) refl))
      ]
  | inr i ↦ (q, hq, i, (ps, rw (eq→test q q refl) refl))
]

pub find_block :
    (P : ℕ → ℕ → Type 0) (x first : ℕ) (entries : Entries)
    → Blocks P first entries
    → cover x first entries ≢ 0
    → (j : ℕ) × (p : ℕ) × P (first + j) p
      × (inside x p (order2count (first + j)) ≢ 0)
      × ((entries' : Entries) × (remove_at j p entries ≡ some entries'))
unfolding Blocks cover remove_at
find_block P x first [] h ne = absurd (ne refl)
find_block P x first (ps ∷ entries) (hp, h) ne = elim (eq_or_ne (cover_list x first ps) 0) [
  | inl z ↦
      let (j, p, hj, i, (entries', e)) =
        find_block P x (first + 1) entries h (λ k. ne (omega arith)) in
      let o : first + 1 + j ≡ first + suc j = omega arith in
      (
        suc j,
        p,
        subst (λ n. P n p) o hj,
        subst (λ n. inside x p (order2count n) ≢ 0) o i,
        (ps ∷ entries', rw (e, remove_at) refl),
      )
  | inr i ↦
      let (p, hj, k, (ps', e)) = find_page (P first) x first ps hp i in
      let o : first ≡ first + 0 = omega arith in
      (
        0,
        p,
        subst (λ n. P n p) o hj,
        subst (λ n. inside x p (order2count n) ≢ 0) o k,
        (ps' ∷ entries, rw (e, remove_at) refl),
      )
]

-- Taking a block off a list keeps what holds of the others.
AllOf : (ℕ → Type 0) → Option (List ℕ) → Type 0
AllOf P none = Unit
AllOf P (some ps) = EveryPage P ps

list_remove-AllOf :
    (P : ℕ → Type 0) (p : ℕ) (ps : List ℕ) → EveryPage P ps → AllOf P (list_remove p ps)
unfolding AllOf EveryPage list_remove
list_remove-AllOf P p [] h = tt
list_remove-AllOf P p (q ∷ ps) (hq, h) = elim (eq_cases p q) [
  | inl (t, e) ↦ rw t h
  | inr (t, ne) ↦ rw t (go (list_remove p ps) (list_remove-AllOf P p ps h))
]
  where
    go :
        (r : Option (List ℕ))
        → AllOf P r
        → AllOf P (elim r [ none ↦ none | some ps' ↦ some (q ∷ ps') ])
    go none k = tt
    go (some ps') k = (hq, k)

pub Rest : (P : ℕ → ℕ → Type 0) → (first : ℕ) → Entries → Option Entries → Type 0
Rest P first entries none = Unit
Rest P first entries (some entries') = Blocks P first entries' × (length entries' ≡ length entries)

pub remove_at-Rest :
    (P : ℕ → ℕ → Type 0) (first order p : ℕ) (entries : Entries)
    → Blocks P first entries
    → Rest P first entries (remove_at order p entries)
unfolding Rest AllOf Blocks remove_at
remove_at-Rest P first zero p [] h = tt
remove_at-Rest P first (suc order) p [] h = tt
remove_at-Rest P first zero p (ps ∷ entries) (hp, h) =
    go (list_remove p ps) (list_remove-AllOf (P first) p ps hp)
  where
    go :
        (r : Option (List ℕ))
        → AllOf (P first) r
        → Rest P first (ps ∷ entries) (elim r [ none ↦ none | some ps' ↦ some (ps' ∷ entries) ])
    go none k = tt
    go (some ps') k = ((k, h), refl)
remove_at-Rest P first (suc order) p (ps ∷ entries) (hp, h) =
    go (remove_at order p entries) (remove_at-Rest P (first + 1) order p entries h)
  where
    go :
        (r : Option Entries)
        → Rest P (first + 1) entries r
        → Rest P first
            (ps ∷ entries)
            (elim r [ none ↦ none | some entries' ↦ some (ps ∷ entries') ])
    go none k = tt
    go (some entries') (k, l) = ((hp, k), ap suc l)

pub append_at-Blocks :
    (P : ℕ → ℕ → Type 0) (first order p : ℕ) (entries : Entries)
    → P (first + order) p
    → Blocks P first entries
    → Blocks P first (append_at order p entries)
unfolding Blocks EveryPage append_at
append_at-Blocks P first order p [] hp h = tt
append_at-Blocks P first zero p (ps ∷ entries) hp (k, h) =
    ((subst (λ n. P n p) (omega arith) hp, k), h)
append_at-Blocks P first (suc order) p (ps ∷ entries) hp (k, h) =
    (k, append_at-Blocks P (first + 1) order p entries (subst (λ n. P n p) (omega arith) hp) h)

pub length-append_at :
    (order p : ℕ) (entries : Entries) → length (append_at order p entries) ≡ length entries
unfolding append_at
length-append_at order p [] = refl
length-append_at zero p (ps ∷ entries) = refl
length-append_at (suc order) p (ps ∷ entries) = ap suc (length-append_at order p entries)

-- What holds of every block but those that hold `x`, where no block holds it.
EveryPage-map :
    (P Q : ℕ → Type 0) (x order : ℕ)
    → ((p : ℕ) → inside x p (order2count order) ≡ 0 → P p → Q p)
    → (ps : List ℕ) → cover_list x order ps ≡ 0
    → EveryPage P ps
    → EveryPage Q ps
unfolding EveryPage cover_list
EveryPage-map P Q x order f [] z h = tt
EveryPage-map P Q x order f (p ∷ ps) z (hp, h) =
    (f p (omega arith) hp, EveryPage-map P Q x order f ps (omega arith) h)

pub Blocks-map :
    (P Q : ℕ → ℕ → Type 0) (x : ℕ)
    → ((o p : ℕ) → inside x p (order2count o) ≡ 0 → P o p → Q o p)
    → (first : ℕ) (entries : Entries) → cover x first entries ≡ 0
    → Blocks P first entries
    → Blocks Q first entries
unfolding Blocks cover
Blocks-map P Q x f first [] z h = tt
Blocks-map P Q x f first (ps ∷ entries) z (hp, h) = (
  EveryPage-map (P first) (Q first) x first (f first) ps (omega arith) hp,
  Blocks-map P Q x f (first + 1) entries (omega arith) h,
)

pub Blocks-remove_at :
    (P : ℕ → ℕ → Type 0) (order p : ℕ) (entries entries' : Entries)
    → remove_at order p entries ≡ some entries'
    → Blocks P 0 entries
    → Blocks P 0 entries' × (length entries' ≡ length entries)
unfolding Rest
Blocks-remove_at P order p entries entries' e h =
    subst (Rest P 0 entries) e (remove_at-Rest P 0 order p entries h)
