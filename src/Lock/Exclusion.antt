-- ===== src/Lock/Exclusion.antt =====
-- Mutual exclusion, over every sequence of calls.
use stanix.Base.{
  subst, ℕ, ◌-◌, ◌≡◌, refl, Bool, true, false, Option, none, some, ltb, ◌==◌, arith, Bool-cases,
  inl, inr,
}
use stanix.Lock.{
  Rwsem, rwsem_init, Wakeup, rwsem_acquire_read, rwsem_release_read, rwsem_queue_write,
  rwsem_start_write, rwsem_write_again, rwsem_release_write,
}

-- One step of a task on the lock.
pub data Step : Rwsem → Rwsem → Type 0 where
  acquire_read : {s s' : Rwsem} (task : ℕ) → rwsem_acquire_read task s ≡ some s' → Step s s'
  release_read :
      {s s' : Rwsem} (task : ℕ) (w : Wakeup) → rwsem_release_read task s ≡ some (w, s') → Step s s'
  queue_write : {s s' : Rwsem} (task : ℕ) → rwsem_queue_write task s ≡ some s' → Step s s'
  start_write : {s s' : Rwsem} (task : ℕ) → rwsem_start_write task s ≡ some s' → Step s s'
  write_again : {s s' : Rwsem} (task : ℕ) → rwsem_write_again task s ≡ some s' → Step s s'
  release_write :
      {s s' : Rwsem} (task : ℕ) (w : Wakeup) → rwsem_release_write task s ≡ some (w, s') → Step s s'

-- What can be reached from `rwsem_init`.
pub data Reachable : Rwsem → Type 0 where
  initial : Reachable rwsem_init
  after : {s s' : Rwsem} → Reachable s → Step s s' → Reachable s'

-- While there is a writer nobody reads.
abbrev Excludes : Option ℕ → (readers depth : ℕ) → Type 0
Excludes none readers depth = depth ≡ 0
Excludes (some task) readers depth = readers ≡ 0

abbrev pub IsExclusive : Rwsem → Type 0
IsExclusive s = Excludes s.writer_active s.readers_count s.lock_depth

-- The same of what a call returns.
abbrev Keeps : Option Rwsem → Type 0
Keeps none = Path Bool true true
Keeps (some s) = IsExclusive s

abbrev KeepsToo : Option (Wakeup × Rwsem) → Type 0
KeepsToo none = Path Bool true true
KeepsToo (some (w, s)) = IsExclusive s

abbrev lock_of : (waiting readers depth : ℕ) → Option ℕ → Rwsem
lock_of waiting readers depth owner = record {
  waiting_writers_count = waiting;
  readers_count = readers;
  lock_depth = depth;
  writer_active = owner;
}

acquire_read-Keeps :
    (task waiting readers depth : ℕ) (owner : Option ℕ)
    → Excludes owner readers depth
    → Keeps (rwsem_acquire_read task (lock_of waiting readers depth owner))
unfolding rwsem_acquire_read
acquire_read-Keeps task waiting readers depth none v = elim (Bool-cases (waiting == 0)) [
  | inl e ↦ rw e v
  | inr e ↦ rw e refl
]
acquire_read-Keeps task waiting readers depth (some o) v = elim (Bool-cases (o == task)) [
  | inl e ↦ rw e v
  | inr e ↦ elim (Bool-cases (waiting == 0)) [ inl e' ↦ rw (e, e') refl | inr e' ↦ rw (e, e') refl ]
]

release_read-KeepsToo :
    (task waiting readers depth : ℕ) (owner : Option ℕ)
    → Excludes owner readers depth
    → KeepsToo (rwsem_release_read task (lock_of waiting readers depth owner))
unfolding rwsem_release_read
release_read-KeepsToo task waiting readers depth none v = elim (Bool-cases (ltb 0 readers)) [
  | inl e ↦ rw e v
  | inr e ↦ rw e refl
]
release_read-KeepsToo task waiting readers depth (some o) v = elim (Bool-cases (o == task)) [
  | inl e ↦ elim (Bool-cases (ltb 0 depth)) [ inl e' ↦ rw (e, e') v | inr e' ↦ rw (e, e') refl ]
  | inr e ↦ let idle : ltb 0 readers ≡ false = ground (arith, v) in rw (e, idle) refl
]

queue_write-Keeps :
    (task waiting readers depth : ℕ) (owner : Option ℕ)
    → Excludes owner readers depth
    → Keeps (rwsem_queue_write task (lock_of waiting readers depth owner))
unfolding rwsem_queue_write
queue_write-Keeps task waiting readers depth none v = v
queue_write-Keeps task waiting readers depth (some o) v = elim (Bool-cases (o == task)) [
  | inl e ↦ rw e refl
  | inr e ↦ rw e v
]

start_write-Keeps :
    (task waiting readers depth : ℕ) (owner : Option ℕ)
    → Excludes owner readers depth
    → Keeps (rwsem_start_write task (lock_of waiting readers depth owner))
unfolding rwsem_start_write
start_write-Keeps task waiting readers depth none v = elim (Bool-cases (ltb 0 waiting)) [
  | inl e ↦ elim (Bool-cases (readers == 0)) [
    | inl e' ↦ let nobody : readers ≡ 0 = ground arith in rw (e, e') nobody
    | inr e' ↦ rw (e, e') refl
  ]
  | inr e ↦ rw e refl
]
start_write-Keeps task waiting readers depth (some o) v = elim (Bool-cases (ltb 0 waiting)) [
  | inl e ↦ elim (Bool-cases (readers == 0)) [ inl e' ↦ rw (e, e') refl | inr e' ↦ rw (e, e') refl ]
  | inr e ↦ rw e refl
]

write_again-Keeps :
    (task waiting readers depth : ℕ) (owner : Option ℕ)
    → Excludes owner readers depth
    → Keeps (rwsem_write_again task (lock_of waiting readers depth owner))
unfolding rwsem_write_again
write_again-Keeps task waiting readers depth none v = refl
write_again-Keeps task waiting readers depth (some o) v = elim (Bool-cases (o == task)) [
  | inl e ↦ rw e v
  | inr e ↦ rw e refl
]

release_write-KeepsToo :
    (task waiting readers depth : ℕ) (owner : Option ℕ)
    → Excludes owner readers depth
    → KeepsToo (rwsem_release_write task (lock_of waiting readers depth owner))
unfolding rwsem_release_write
release_write-KeepsToo task waiting readers depth none v = refl
release_write-KeepsToo task waiting readers depth (some o) v = elim (Bool-cases (o == task)) [
  | inl e ↦ elim (Bool-cases (ltb 0 depth)) [
    | inl e' ↦ elim (Bool-cases (depth - 1 == 0)) [
      | inl e'' ↦ let out : depth - 1 ≡ 0 = ground (arith, e'') in rw (e, e', e'') out
      | inr e'' ↦ rw (e, e', e'') v
    ]
    | inr e' ↦ rw (e, e') refl
  ]
  | inr e ↦ rw e refl
]

Step-IsExclusive : {s s' : Rwsem} → IsExclusive s → Step s s' → IsExclusive s'
Step-IsExclusive {s = s} v (acquire_read task h) =
    subst Keeps h (
      acquire_read-Keeps task s.waiting_writers_count s.readers_count s.lock_depth s.writer_active
        v)
Step-IsExclusive {s = s} v (release_read task w h) = subst KeepsToo h (
    release_read-KeepsToo task s.waiting_writers_count s.readers_count s.lock_depth s.writer_active
      v)
Step-IsExclusive {s = s} v (queue_write task h) =
    subst Keeps h (
      queue_write-Keeps task s.waiting_writers_count s.readers_count s.lock_depth s.writer_active v)
Step-IsExclusive {s = s} v (start_write task h) =
    subst Keeps h (
      start_write-Keeps task s.waiting_writers_count s.readers_count s.lock_depth s.writer_active v)
Step-IsExclusive {s = s} v (write_again task h) =
    subst Keeps h (
      write_again-Keeps task s.waiting_writers_count s.readers_count s.lock_depth s.writer_active v)
Step-IsExclusive {s = s} v (release_write task w h) = subst KeepsToo h (
    release_write-KeepsToo task s.waiting_writers_count s.readers_count s.lock_depth s.writer_active
      v)

-- However the calls of all tasks follow each other after `rwsem_init`: while the lock has a writer it
-- has no readers, and while it has none its depth is 0.
pub Reachable-IsExclusive : {s : Rwsem} → Reachable s → IsExclusive s
Reachable-IsExclusive initial = refl
Reachable-IsExclusive (after r step) = Step-IsExclusive (Reachable-IsExclusive r) step
