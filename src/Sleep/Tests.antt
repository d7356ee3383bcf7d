-- ===== src/Sleep/Tests.antt =====
-- The theorems about waiting at small queues.
use stanix.Base.{ℕ, ◌≡◌, refl, some, List, [], ◌∷◌}
use stanix.Sleep.{
  Sleeper, sleep_add_to_queue, sleep_remove_from_queue, wakeup_queue, timespec_cmp,
  sleep_add_timeout, nano_sleep_until, sleep_seconds_until,
}
use stanix.Sleep.Timeout.{IsSorted}

abbrev sleeper : ℕ → ℕ → ℕ → Sleeper
sleeper task sec nsec = record {
  task = task;
  wakeup_time = record { tv_sec = sec; tv_nsec = nsec };
}

abbrev sleeping : List Sleeper
sleeping = sleeper 1 5 0 ∷ sleeper 2 5 9 ∷ sleeper 3 7 0 ∷ []

wakeup_runs : wakeup_queue (4 ∷ 5 ∷ 6 ∷ []) 2 ≡ (4 ∷ 5 ∷ [], 6 ∷ [])
unfolding wakeup_queue
wakeup_runs = refl

queue_runs : sleep_remove_from_queue 4 (sleep_add_to_queue 6 (4 ∷ 5 ∷ [])) ≡ 5 ∷ 6 ∷ []
unfolding sleep_remove_from_queue sleep_add_to_queue
queue_runs = refl

-- Equal times wake up in the order of arrival.
add_runs :
    sleep_add_timeout (sleeper 4 5 9) sleeping
    ≡ sleeper 1 5 0 ∷ sleeper 2 5 9 ∷ sleeper 4 5 9 ∷ sleeper 3 7 0 ∷ []
unfolding sleep_add_timeout timespec_cmp
add_runs = refl

one_second :
    sleep_seconds_until (record { tv_sec = 3; tv_nsec = 7 }) 1
    ≡ some (record { tv_sec = 4; tv_nsec = 7 })
unfolding sleep_seconds_until nano_sleep_until
one_second = refl

sleeping-IsSorted : IsSorted sleeping
unfolding timespec_cmp
sleeping-IsSorted = (refl, (refl, tt))
