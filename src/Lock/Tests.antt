-- ===== src/Lock/Tests.antt =====
-- The locks at concrete values.
use stanix.Base.{◌≡◌, refl, none, some}
use stanix.Lock.{Rwsem, rwsem_init, rwsem_acquire_read, rwsem_release_read, rwsem_release_write}
use stanix.Lock.Exclusion.{acquire_read, initial, after, IsExclusive, Reachable-IsExclusive}
use stanix.Lock.Wakeups.{Wakes, release-Wakes}

abbrev one_reader : Rwsem
one_reader = record {
  waiting_writers_count = 0;
  readers_count = 1;
  lock_depth = 0;
  writer_active = none;
}

reads : rwsem_acquire_read 4 rwsem_init ≡ some one_reader
unfolding rwsem_acquire_read
reads = refl

Reachable-IsExclusive_example : IsExclusive one_reader
Reachable-IsExclusive_example = Reachable-IsExclusive (after initial (acquire_read 4 reads))

abbrev queued : Rwsem
queued = record {
  waiting_writers_count = 1;
  readers_count = 1;
  lock_depth = 0;
  writer_active = none;
}

release-Wakes_example :
    Wakes queued (rwsem_release_read 4 queued) × Wakes queued (rwsem_release_write 4 queued)
release-Wakes_example = release-Wakes 4 queued
