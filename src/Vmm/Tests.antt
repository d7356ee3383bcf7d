-- ===== src/Vmm/Tests.antt =====
-- kernel/mem/vmm.c at a space of two segments.
use stanix.Base.{◌≡◌, refl, true, false, none, some, List, [], ◌∷◌, arith}
use stanix.Vmm.{
  VmmFlags, VmmSegment, Refuse, split_segment, seek, cut_front, cut_back, protect_walk,
  protect_range,
}
use stanix.Vmm.Fault.{LastFault, IsPredicted, predict, predict-IsPredicted}

abbrev private_file : VmmFlags
private_file = record { anonymous = false; private = true; shared = false; io = false }

abbrev code : VmmSegment
code = record { start = 8192; end = 24576; prot = 1; flags = private_file; fd = some 3; offset = 0 }

abbrev stack : VmmSegment
stack = record { start = 40960; end = 49152; prot = 3; flags = private_file; fd = none; offset = 0 }

abbrev space : List VmmSegment
space = code ∷ stack ∷ []

abbrev never : Refuse
never s cut = none

-- The middle of the first segment gets another protection.
protect_middle : protect_range never never 12288 16384 5 space ≡ record {
  error = none;
  segs =
      record code { end = 12288 }
      ∷ record code { start = 12288; end = 16384; prot = 5; offset = 4096 }
      ∷ record code { start = 16384; offset = 8192 }
      ∷ stack
      ∷ [];
}
unfolding protect_range protect_walk seek cut_front cut_back split_segment
protect_middle = refl

abbrev last : LastFault
last = record { page = 8192; size = 8192; counter = 1 }

predict-IsPredicted_example : IsPredicted 12288 24576 (predict last 12288 24576)
predict-IsPredicted_example =
    predict-IsPredicted last 12288 24576
      (record { pages = refl; most = omega arith; small = omega arith }) refl refl (omega arith)
      (omega arith)
