-- ===== src/Xarray/Exchange.antt =====
-- `xarray_raw_cmpxchg` of kernel/klib/xarray.c.
use stanix.Base.{ℕ, ◌^◌, ◌<◌, ◌≡◌, refl, Option, if◌then◌else◌, inl, inr, Bool-cases}
use stanix.Xarray.{Entry, raw_get}
use stanix.Xarray.Seek.{same_value, raw_cmpxchg}
use stanix.Xarray.Lookup.{IsXarray}
use stanix.Xarray.Store.{changed, raw_set-Sets}

-- Of an index below 2 ^ 60, on a well-formed array: xarray_raw_cmpxchg returns what was there. If that
-- is what was expected, the index has the new value and every other index what it had; if not, nothing
-- changes. The array stays well-formed.
pub raw_cmpxchg_lem :
    (root : Entry) (index : ℕ) (expected new : Option ℕ)
    → IsXarray root
    → index < 2 ^ 60
    → IsXarray ((raw_cmpxchg root index expected new).1)
      × ((raw_cmpxchg root index expected new).0 ≡ raw_get root index)
      × ((j : ℕ)
          → raw_get ((raw_cmpxchg root index expected new).1) j ≡ (
              if same_value (raw_get root index) expected
              then changed (raw_get root) index new j
              else raw_get root j))
unfolding raw_cmpxchg
raw_cmpxchg_lem root index expected new x h =
    elim (Bool-cases (same_value (raw_get root index) expected)) [
      | inl e ↦ rw e (raw_set-Sets root index new x h)
      | inr e ↦ rw e (x, refl, λ j. refl)
    ]
