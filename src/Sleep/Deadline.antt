-- ===== src/Sleep/Deadline.antt =====
-- Deadlines are exact and normalised.
use stanix.Base.{ℕ, ◌+◌, ◌*◌, ◌<◌, ◌≡◌, some, arith}
use stanix.Sleep.{Timespec, nano_sleep_until}

abbrev pub nanoseconds : Timespec → ℕ
nanoseconds t = t.tv_sec * 1_000_000_000 + t.tv_nsec

-- `nano_sleep` of at least 100 ns waits until exactly that much after `now`, a normalised time.
pub nano_sleep_until-exact :
    (now : Timespec) (nano_seconds : ℕ) {t : Timespec}
    → now.tv_nsec < 1_000_000_000
    → nano_sleep_until now nano_seconds ≡ some t
    → (nanoseconds t ≡ nanoseconds now + nano_seconds) × (t.tv_nsec < 1_000_000_000)
unfolding nano_sleep_until
nano_sleep_until-exact now nano_seconds h e = ground arith
