-- ===== src/Fat/Mirror.antt =====
-- modules/fs/fat/fat.c: what `fat_set_next_cluster` writes on a volume whose superblock says 0 sectors for
-- each copy of the table, as `fat_mount` leaves it: every copy starts where the first one does.
use stanix.Base.{ℕ, zero, suc, ◌+◌, ◌^◌, ◌≤◌, ◌<◌, ◌≡◌, refl, sym, subst, ◌∙◌, ◌⊎◌, false, arith}
use stanix.Errno.{done}
use stanix.Fat.{
  Disk, Superblock, entry_offset, entry_size, is_even, stored, store, fat_start, copy_start,
  WriteFault, set_copies, set_next,
}
use stanix.Fat.Table.{
  IsBytes, entry_limit, Apart, store_at-IsBytes, stored_at-store_at, stored-store_other,
  store_at_frame,
}

pub copy_start-unset :
    (fs : Superblock) (i : ℕ) → fs.sectors_per_fat ≡ 0 → copy_start fs i ≡ fat_start fs
copy_start-unset fs i unset = rw unset (omega arith)

-- `disk'` is `disk` with one entry of the first table changed. Outside the bytes of this entry nothing is
-- written: the bytes where the other copies lie are as before.
pub record IsUpdated (fs : Superblock) (cluster next : ℕ) (disk disk' : Disk) : Type 0 where
  pub bytes : IsBytes disk'
  pub changed : stored fs.fat_type disk' (fat_start fs) cluster ≡ next
  pub others :
      (other : ℕ)
      → other < 2 ^ 28
      → Apart fs.fat_type cluster other
      → stored fs.fat_type disk' (fat_start fs) other ≡ stored fs.fat_type disk (fat_start fs) other
  pub frame :
      (a : ℕ)
      → (a < fat_start fs + entry_offset fs.fat_type cluster)
        ⊎ (fat_start fs + entry_offset fs.fat_type cluster + entry_size fs.fat_type ≤ a)
      → disk' a ≡ disk a

abbrev pub no_fault : WriteFault
no_fault a = false

set_copies-done :
    (fs : Superblock) (cluster next : ℕ) (left i : ℕ) (disk : Disk)
    → (set_copies no_fault fs cluster next left i disk).0 ≡ done tt
unfolding set_copies
set_copies-done fs cluster next zero i disk = refl
set_copies-done fs cluster next (suc left) i disk = set_copies-done fs cluster next left (i + 1) _

module _ (fs : Superblock) (unset : fs.sectors_per_fat ≡ 0) (cluster next : ℕ)
    (small : cluster < 2 ^ 28) (lt : next < entry_limit fs.fat_type) (disk : Disk)
    (b : IsBytes disk) where
  write_first : Disk → Disk
  write_first d = store fs.fat_type d (fat_start fs) cluster next

  write_first-IsUpdated : IsUpdated fs cluster next disk (write_first disk)
  unfolding write_first
  write_first-IsUpdated = record {
    bytes = store_at-IsBytes fs.fat_type (is_even cluster) disk _ next b;
    changed = stored_at-store_at fs.fat_type (is_even cluster) disk _ next b lt;
    others = λ other l ne.
        stored-store_other fs.fat_type disk (fat_start fs) cluster other next b small l ne;
    frame = λ a h. store_at_frame fs.fat_type (is_even cluster) disk _ next a h;
  }

  write_again-IsUpdated :
      (d : Disk) → IsUpdated fs cluster next disk d → IsUpdated fs cluster next disk (write_first d)
  unfolding write_first
  write_again-IsUpdated d u = record {
    bytes = store_at-IsBytes fs.fat_type (is_even cluster) d _ next u.bytes;
    changed = stored_at-store_at fs.fat_type (is_even cluster) d _ next u.bytes lt;
    others = λ other l ne.
        stored-store_other fs.fat_type d (fat_start fs) cluster other next u.bytes small l ne
        ∙ u.others other l ne;
    frame = λ a h. store_at_frame fs.fat_type (is_even cluster) d _ next a h ∙ u.frame a h;
  }

  -- Writing copy `i` is writing the first one.
  write_copy-IsUpdated :
      (i : ℕ) (d : Disk)
      → IsUpdated fs cluster next disk (write_first d)
      → IsUpdated fs cluster next disk (store fs.fat_type d (copy_start fs i) cluster next)
  unfolding write_first
  write_copy-IsUpdated i d =
      subst (λ s. IsUpdated fs cluster next disk (store fs.fat_type d s cluster next))
        (sym (copy_start-unset fs i unset))

  set_copies-IsUpdated :
      (left i : ℕ) (d : Disk)
      → IsUpdated fs cluster next disk d
      → IsUpdated fs cluster next disk (set_copies no_fault fs cluster next left i d).1
  unfolding set_copies
  set_copies-IsUpdated zero i d u = u
  set_copies-IsUpdated (suc left) i d u =
      set_copies-IsUpdated left (i + 1) _ (write_copy-IsUpdated i d (write_again-IsUpdated d u))

  set_copies-IsUpdated_first :
      (count : ℕ)
      → 0 < count
      → IsUpdated fs cluster next disk (set_copies no_fault fs cluster next count 0 disk).1
  unfolding set_copies
  set_copies-IsUpdated_first zero h = absurd (omega arith)
  set_copies-IsUpdated_first (suc left) h =
      set_copies-IsUpdated left 1 _ (write_copy-IsUpdated 0 disk write_first-IsUpdated)

-- Of a volume with at least one copy of the table, whose superblock says 0 sectors for each copy,
-- as fat_mount leaves it: when no write fails, fat_set_next_cluster stores the entry of a cluster
-- in the first copy, for all three types, and keeps every entry that shares no byte with it. It
-- writes no byte outside this entry: the other copies of the table are never written.
pub set_next-IsUpdated :
    (fs : Superblock) (cluster next : ℕ) (disk : Disk)
    → fs.sectors_per_fat ≡ 0
    → 0 < fs.fat_count
    → IsBytes disk
    → cluster < 2 ^ 28
    → next < entry_limit fs.fat_type
    → ((set_next no_fault fs cluster next disk).0 ≡ done tt)
      × IsUpdated fs cluster next disk (set_next no_fault fs cluster next disk).1
unfolding set_next
set_next-IsUpdated fs cluster next disk unset some_copy b small lt = (
  set_copies-done fs cluster next fs.fat_count 0 disk,
  set_copies-IsUpdated_first fs unset cluster next small lt disk b fs.fat_count some_copy,
)
