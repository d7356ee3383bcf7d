-- ===== src/Sleep/Timeout.antt =====
-- The list of sleeping tasks is kept in the order of wake-up.
use mathlib.Core.List.{Perm}
use mathlib.Core.List.Perm
use stanix.Base.{◌≡◌, true, false, inl, inr, Bool-cases, List, [], ◌∷◌, arith}
use stanix.Sleep.{Timespec, timespec_cmp, Sleeper, is_lt, sleep_add_timeout}

-- `s` wakes up no later than `t`.
abbrev pub NotAfter : Timespec → Timespec → Type 0
NotAfter s t = is_lt (timespec_cmp t s) ≡ false

-- No task of the list wakes up before `t`, and the list is sorted.
abbrev pub SortedFrom : Timespec → List Sleeper → Type 0
SortedFrom t [] = Unit {0}
SortedFrom t (s ∷ l) = NotAfter t s.wakeup_time × SortedFrom s.wakeup_time l

abbrev pub IsSorted : List Sleeper → Type 0
IsSorted [] = Unit {0}
IsSorted (s ∷ l) = SortedFrom s.wakeup_time l

NotAfter-of_lt : (s t : Timespec) → is_lt (timespec_cmp s t) ≡ true → NotAfter s t
unfolding timespec_cmp
NotAfter-of_lt s t h = ground arith

add-SortedFrom :
    (s : Sleeper) (t : Timespec) (l : List Sleeper)
    → NotAfter t s.wakeup_time
    → SortedFrom t l
    → SortedFrom t (sleep_add_timeout s l)
unfolding sleep_add_timeout
add-SortedFrom s t [] h sorted = (h, tt)
add-SortedFrom s t (u ∷ l) h sorted =
    elim (Bool-cases (is_lt (timespec_cmp s.wakeup_time u.wakeup_time))) [
      | inl e ↦ rw e (h, (NotAfter-of_lt s.wakeup_time u.wakeup_time e, sorted.1))
      | inr e ↦ rw e (sorted.0, add-SortedFrom s u.wakeup_time l e sorted.1)
    ]

add-IsSorted : (s : Sleeper) (l : List Sleeper) → IsSorted l → IsSorted (sleep_add_timeout s l)
unfolding sleep_add_timeout
add-IsSorted s [] sorted = tt
add-IsSorted s (u ∷ l) sorted =
    elim (Bool-cases (is_lt (timespec_cmp s.wakeup_time u.wakeup_time))) [
      | inl e ↦ rw e (NotAfter-of_lt s.wakeup_time u.wakeup_time e, sorted)
      | inr e ↦ rw e (add-SortedFrom s u.wakeup_time l e sorted)
    ]

add-perm : (s : Sleeper) (l : List Sleeper) → Perm (sleep_add_timeout s l) (s ∷ l)
unfolding sleep_add_timeout
add-perm s [] = Perm.refl _
add-perm s (u ∷ l) = elim (Bool-cases (is_lt (timespec_cmp s.wakeup_time u.wakeup_time))) [
  | inl e ↦ rw e (Perm.refl _)
  | inr e ↦ rw e (Perm.trans (Perm.cons u (add-perm s l)) (Perm.swap s u l))
]

-- `sleep_add_timeout` keeps the list of sleeping tasks sorted by the time of wake-up, and adds the new
-- task to it, losing none.
pub sleep_add_timeout_lem :
    (s : Sleeper) (l : List Sleeper)
    → IsSorted l
    → IsSorted (sleep_add_timeout s l) × Perm (sleep_add_timeout s l) (s ∷ l)
sleep_add_timeout_lem s l sorted = (add-IsSorted s l sorted, add-perm s l)
