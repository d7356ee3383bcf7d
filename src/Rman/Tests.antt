-- ===== src/Rman/Tests.antt =====
-- The resource manager at concrete values.
use stanix.Base.{◌≡◌, refl, true, some, List, [], ◌∷◌, arith}
use stanix.Rman.{
  allocate_walk, fit, split, split_or, split_behind, give, Seg, Request, Memory, allocate, granted,
  free_seg,
}
use stanix.Rman.Cover.{cover}
use stanix.Rman.Allocate.{Allocates, allocate-Allocates, Restores, free-allocate}

-- Two regions of ports, the second taken by device 7.
abbrev ports : List Seg
ports = free_seg 0 32 ∷ record { start = 32; size = 8; devnode = some 7 } ∷ []

abbrev plenty : Memory
plenty = record { front = true; behind = true; resource = true }

abbrev request : Request
request = record { start = 4; end = 30; size = 4; align = 4 }

granted_at :
    allocate plenty 9 request ports
    ≡ granted
        (free_seg 0 4 ∷ [])
        (record { start = 4; size = 4; devnode = some 9 })
        (free_seg 8 24 ∷ record { start = 32; size = 8; devnode = some 7 } ∷ [])
unfolding allocate allocate_walk fit split split_or split_behind give
granted_at = refl

allocate-Allocates_example :
    Allocates request 9 (λ p a. cover p ports a) (allocate plenty 9 request ports)
allocate-Allocates_example =
    allocate-Allocates plenty 9 request ports (ground arith) (ground arith)
      (ground arith, (ground arith, refl))

free-allocate_example : Restores ports (allocate plenty 9 request ports)
free-allocate_example =
    free-allocate plenty 9 request ports (ground arith) (ground arith)
      (ground arith, (ground arith, refl))
