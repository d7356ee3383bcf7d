-- ===== src/Fat/Table.antt =====
-- modules/fs/fat/fat.c: a table's entry is what was stored there last. The entries of FAT12 share bytes.
use stanix.Base.{ℕ, ◌+◌, ◌*◌, ◌/◌, ◌^◌, ◌≤◌, ◌<◌, ◌≡◌, refl, ◌≢◌, ◌⊎◌, Bool, true, false, arith}
use stanix.Fat.{
  Disk, put, FatType, fat12, fat16, fat32, entry_offset, entry_size, is_even, stored_at, store_at,
  stored, store,
}

unfoldable pub IsBytes : Disk → Type 0
IsBytes disk = (a : ℕ) → disk a < 256

-- One more than the largest entry.
abbrev pub entry_limit : FatType → ℕ
entry_limit fat12 = 2 ^ 12
entry_limit fat16 = 2 ^ 16
entry_limit fat32 = 2 ^ 28

put-IsBytes : (disk : Disk) (at v : ℕ) → IsBytes disk → v < 256 → IsBytes (put disk at v)
unfolding IsBytes
put-IsBytes disk at v h lt a = let b : disk a < 256 = h a in ground arith

pub store_at-IsBytes :
    (t : FatType) (even : Bool) (disk : Disk) (at next : ℕ)
    → IsBytes disk
    → IsBytes (store_at t even disk at next)
unfolding store_at
store_at-IsBytes fat12 true disk at next h =
    put-IsBytes _ _ _ (put-IsBytes _ _ _ h (omega arith)) (omega arith)
store_at-IsBytes fat12 false disk at next h =
    put-IsBytes _ _ _ (put-IsBytes _ _ _ h (omega arith)) (omega arith)
store_at-IsBytes fat16 even disk at next h =
    put-IsBytes _ _ _ (put-IsBytes _ _ _ h (omega arith)) (omega arith)
store_at-IsBytes fat32 even disk at next h =
    put-IsBytes _ _ _
      (put-IsBytes _ _ _ (put-IsBytes _ _ _ (put-IsBytes _ _ _ h (omega arith)) (omega arith))
        (omega arith))
      (omega arith)

pub stored_at-store_at :
    (t : FatType) (even : Bool) (disk : Disk) (at next : ℕ)
    → IsBytes disk
    → next < entry_limit t
    → stored_at t even (store_at t even disk at next) at ≡ next
unfolding IsBytes store_at stored_at
stored_at-store_at fat12 true disk at next h lt =
    let b : disk (at + 1) < 256 = h (at + 1) in ground arith
stored_at-store_at fat12 false disk at next h lt =
    let b : disk (at + 1) < 256 = h (at + 1) in ground arith
stored_at-store_at fat16 even disk at next h lt = ground arith
stored_at-store_at fat32 even disk at next h lt = ground arith

-- The entries of two clusters have no byte in common. Of FAT12, the code keeps the high nibble of the
-- entry of cluster 2k - 1 where the entry of cluster 2k starts.
abbrev pub Apart : FatType → (cluster other : ℕ) → Type 0
Apart fat12 cluster other = (cluster + 1) / 2 ≢ (other + 1) / 2
Apart fat16 cluster other = cluster ≢ other
Apart fat32 cluster other = cluster ≢ other

stored_at-store_at_other :
    (even even' : Bool) (disk : Disk) (start at other next : ℕ) (k k' : ℕ)
    → ((even ≡ true) × (at ≡ start + 3 * k)) ⊎ ((even ≡ false) × (at + 2 ≡ start + 3 * k))
    → ((even' ≡ true) × (other ≡ start + 3 * k')) ⊎ ((even' ≡ false) × (other + 2 ≡ start + 3 * k'))
    → k ≢ k'
    → IsBytes disk
    → stored_at fat12 even' (store_at fat12 even disk at next) other
      ≡ stored_at fat12 even' disk other
unfolding IsBytes store_at stored_at
stored_at-store_at_other true true disk start at other next k k' h h' ne b = ground arith
stored_at-store_at_other true false disk start at other next k k' h h' ne b = ground arith
stored_at-store_at_other false true disk start at other next k k' h h' ne b = ground arith
stored_at-store_at_other false false disk start at other next k k' h h' ne b = ground arith

-- FAT12 keeps an entry in a group of three bytes.
group :
    (start cluster : ℕ)
    → cluster < 2 ^ 28
    → ((is_even cluster ≡ true)
        × (start + entry_offset fat12 cluster ≡ start + 3 * ((cluster + 1) / 2)))
      ⊎ ((is_even cluster ≡ false)
          × (start + entry_offset fat12 cluster + 2 ≡ start + 3 * ((cluster + 1) / 2)))
group start cluster lt = ground arith

-- Storing an entry keeps the entries with no byte in common.
pub stored-store_other :
    (t : FatType) (disk : Disk) (start cluster other next : ℕ)
    → IsBytes disk
    → cluster < 2 ^ 28
    → other < 2 ^ 28
    → Apart t cluster other
    → stored t (store t disk start cluster next) start other ≡ stored t disk start other
unfolding store_at stored_at
stored-store_other fat12 disk start cluster other next b lt lt' h =
    stored_at-store_at_other (is_even cluster) (is_even other) disk start _ _ next _ _
      (group start cluster lt) (group start other lt') h b
stored-store_other fat16 disk start cluster other next b lt lt' h = ground arith
stored-store_other fat32 disk start cluster other next b lt lt' h = ground arith

-- The bytes that are written, and those an entry is read from.
pub store_at_frame :
    (t : FatType) (even : Bool) (disk : Disk) (at next a : ℕ)
    → (a < at) ⊎ (at + entry_size t ≤ a)
    → store_at t even disk at next a ≡ disk a
unfolding store_at
store_at_frame fat12 true disk at next a h = ground arith
store_at_frame fat12 false disk at next a h = ground arith
store_at_frame fat16 even disk at next a h = ground arith
store_at_frame fat32 even disk at next a h = ground arith

pub stored_at_ext :
    (t : FatType) (even : Bool) (disk disk' : Disk) (at : ℕ)
    → ((a : ℕ) → at ≤ a → a < at + entry_size t → disk' a ≡ disk a)
    → stored_at t even disk' at ≡ stored_at t even disk at
unfolding stored_at
stored_at_ext fat12 true disk disk' at h =
    rw (h at (omega arith) (omega arith), h (at + 1) (omega arith) (omega arith)) refl
stored_at_ext fat12 false disk disk' at h =
    rw (h (at + 1) (omega arith) (omega arith), h (at + 2) (omega arith) (omega arith)) refl
stored_at_ext fat16 even disk disk' at h =
    rw (h at (omega arith) (omega arith), h (at + 1) (omega arith) (omega arith)) refl
stored_at_ext fat32 even disk disk' at h =
    rw
      (
        h at (omega arith) (omega arith),
        h (at + 1) (omega arith) (omega arith),
        h (at + 2) (omega arith) (omega arith),
        h (at + 3) (omega arith) (omega arith),
      )
      refl
