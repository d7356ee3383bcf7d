-- ===== src/Sleep/Queue.antt =====
-- Wait queues are served in the order of arrival.
use stanix.Base.{
  ℕ, zero, suc, ◌≡◌, refl, List, [], ◌∷◌, ◌++◌, ◌==◌, if◌then◌else◌, length, min, arith,
}
use stanix.Sleep.{Task, wakeup_queue}

-- `wakeup_queue` wakes the longest waiters, in order, and leaves the others in order: `count` of
-- them, or all there are if these are fewer or `count` is 0.
pub wakeup_queue_lem :
    (waiters : List Task) (count : ℕ)
    → let (woken, left) = wakeup_queue waiters count in
      (woken ++ left ≡ waiters)
      × (length woken ≡ (if count == 0 then length waiters else min count (length waiters)))
unfolding wakeup_queue
wakeup_queue_lem [] zero = (refl, refl)
wakeup_queue_lem [] (suc count) = (refl, ground arith)
wakeup_queue_lem (t ∷ waiters) zero = ground (arith, wakeup_queue_lem waiters zero)
wakeup_queue_lem (t ∷ waiters) (suc zero) = ground arith
wakeup_queue_lem (t ∷ waiters) (suc (suc count)) =
    ground (arith, wakeup_queue_lem waiters (suc count))

pub wakeup_queue-zero : (waiters : List Task) → wakeup_queue waiters 0 ≡ (waiters, [])
unfolding wakeup_queue
wakeup_queue-zero [] = refl
wakeup_queue-zero (t ∷ waiters) = ground (arith, wakeup_queue-zero waiters)
