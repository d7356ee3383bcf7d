-- ===== src/Lock/Wakeups.antt =====
-- A release wakes those whose condition it makes true; the mutex counts how often its owner took it.
use mathlib.Core.Bool.{true≢false}
use stanix.Base.{
  sym, ap, ◌∙◌, zero, ◌&&◌, ℕ, suc, ◌+◌, ◌-◌, ◌<◌, ◌^◌, ◌≡◌, refl, Bool, true, false, Option, none,
  some, ltb, ◌==◌, arith, Bool-cases, inl, inr,
}
use stanix.Word.{add_size, sub_size}
use stanix.Lock.{
  Rwsem, Wakeup, wake_writer, wake_readers, may_read, may_write, rwsem_release_read,
  rwsem_release_write, Mutex, mutex_try_acquire, mutex_release,
}

abbrev pub Wakes : Rwsem → Option (Wakeup × Rwsem) → Type 0
Wakes s none = Path Bool true true
Wakes s (some (w, s')) =
    (may_write s ≡ false → may_write s' ≡ true → 0 < s'.waiting_writers_count → w ≡ wake_writer)
    × (may_read s ≡ false → may_read s' ≡ true → w ≡ wake_readers)

abbrev lock_of : (waiting readers depth : ℕ) → Option ℕ → Rwsem
lock_of waiting readers depth owner = record {
  waiting_writers_count = waiting;
  readers_count = readers;
  lock_depth = depth;
  writer_active = owner;
}

owned_out : {A : Type 0} (b : Bool) → (b && false) ≡ true → A
owned_out true h = absurd (true≢false (sym h))
owned_out false h = absurd (true≢false (sym h))

release_read-Wakes :
    (task waiting readers depth : ℕ) (owner : Option ℕ)
    → Wakes
        (lock_of waiting readers depth owner)
        (rwsem_release_read task (lock_of waiting readers depth owner))
unfolding rwsem_release_read
release_read-Wakes task waiting readers depth none = elim (Bool-cases (ltb 0 readers)) [
  | inl e ↦ rw e (λ h k l. ground arith, λ h k. ground arith)
  | inr e ↦ rw e refl
]
release_read-Wakes task waiting readers depth (some o) = elim (Bool-cases (o == task)) [
  | inl e ↦ elim (Bool-cases (ltb 0 depth)) [
    | inl e' ↦ rw (e, e') (λ h k l. owned_out _ k, λ h k. owned_out _ k)
    | inr e' ↦ rw (e, e') refl
  ]
  | inr e ↦ elim (Bool-cases (ltb 0 readers)) [
    | inl e' ↦ rw (e, e') (λ h k l. owned_out _ k, λ h k. owned_out _ k)
    | inr e' ↦ rw (e, e') refl
  ]
]

release_write-Wakes :
    (task waiting readers depth : ℕ) (owner : Option ℕ)
    → Wakes
        (lock_of waiting readers depth owner)
        (rwsem_release_write task (lock_of waiting readers depth owner))
unfolding rwsem_release_write
release_write-Wakes task waiting readers depth none = refl
release_write-Wakes task waiting readers depth (some o) = elim (Bool-cases (o == task)) [
  | inl e ↦ elim (Bool-cases (ltb 0 depth)) [
    | inl e' ↦ elim (Bool-cases (depth - 1 == 0)) [
      | inl e'' ↦ rw (e, e', e'') (λ h k l. ground arith, λ h k. ground arith)
      | inr e'' ↦ rw (e, e', e'') (λ h k l. owned_out _ k, λ h k. owned_out _ k)
    ]
    | inr e' ↦ rw (e, e') refl
  ]
  | inr e ↦ rw e refl
]

-- When a release makes the condition that writers sleep on true, and one of them waits, it wakes the
-- writers' queue; when it makes the condition that readers sleep on true, it wakes the readers'.
pub release-Wakes :
    (task : ℕ) (s : Rwsem)
    → Wakes s (rwsem_release_read task s) × Wakes s (rwsem_release_write task s)
release-Wakes task s = (
  release_read-Wakes task s.waiting_writers_count s.readers_count s.lock_depth s.writer_active,
  release_write-Wakes task s.waiting_writers_count s.readers_count s.lock_depth s.writer_active,
)

-- The owner takes the mutex `n` times more, or releases it `n` times.
abbrev pub take_again : ℕ → ℕ → Mutex → Mutex
take_again zero task m = m
take_again (suc n) task m = take_again n task (mutex_try_acquire task m).1

abbrev pub give_back : ℕ → Mutex → Mutex
give_back zero m = m
give_back (suc n) m = give_back n (mutex_release m).1

abbrev pub owned : ℕ → ℕ → Mutex
owned task depth = record { lock = some task; depth = depth }

take_again-owned :
    (n task depth : ℕ)
    → n + depth < 2 ^ 64
    → take_again n task (owned task depth) ≡ owned task (n + depth)
unfolding mutex_try_acquire
take_again-owned zero task depth b = ap (owned task) (omega arith)
take_again-owned (suc n) task depth b =
    let mine : (task == task) ≡ true = ground arith in
    let next : add_size depth 1 ≡ depth + 1 = omega arith in
    rw (mine, next)
      (take_again-owned n task (depth + 1) (omega arith) ∙ ap (owned task) (omega arith))

give_back-owned :
    (n task depth : ℕ)
    → 0 < depth
    → n + depth < 2 ^ 64
    → give_back n (owned task (n + depth)) ≡ owned task depth
unfolding mutex_release
give_back-owned zero task depth h b = ap (owned task) (omega arith)
give_back-owned (suc n) task depth h b =
    let next : sub_size (suc n + depth) 1 ≡ n + depth = omega arith in
    let more : (n + depth == 0) ≡ false = ground arith in
    rw (next, more) (give_back-owned n task depth h (omega arith))

-- When a task that holds the mutex takes it `n` times more, and the count does not overflow: another
-- task cannot take it, and after `n` releases the mutex is held as before.
pub give_back-take_again :
    (n task other depth : ℕ)
    → 0 < depth
    → n + depth < 2 ^ 64
    → (other == task) ≡ false
    → (mutex_try_acquire other (take_again n task (owned task depth))
        ≡ (false, take_again n task (owned task depth)))
      × (give_back n (take_again n task (owned task depth)) ≡ owned task depth)
unfolding mutex_try_acquire
give_back-take_again n task other depth h b different =
    let theirs : (task == other) ≡ false = ground (arith, different) in
    (
      rw (take_again-owned n task depth b, theirs) refl,
      rw (take_again-owned n task depth b) (give_back-owned n task depth h b),
    )
