-- ===== src/Vmm/Fault.antt =====
-- The prediction of `vmm_handle_fault` in kernel/mem/vmm.c: how many bytes a page fault maps.
use stanix.Base.{
  ℕ, ◌+◌, ◌-◌, ◌*◌, ◌%◌, ◌^◌, ◌≤◌, ◌<◌, ◌≡◌, refl, Bool, ◌&&◌, leb, ltb, if◌then◌else◌, Bool-cases,
  inl, inr, arith,
}
use stanix.Word.{add_size, sub_size}

-- What faults leave in a segment.
pub record LastFault : Type 0 where
  pub page : ℕ
  pub size : ℕ
  pub counter : ℕ

abbrev pub default_fault_size : ℕ
default_fault_size = 2 * 4096

abbrev pub max_fault_size : ℕ
max_fault_size = 64 * 4096

-- Whether a fault follows the one before.
abbrev pub continues : LastFault → (vpage : ℕ) → Bool
continues last vpage = ltb last.page vpage && leb vpage (add_size last.page last.size)

-- The size before the next stage, and the counter.
abbrev pub predicted : LastFault → (vpage : ℕ) → ℕ × ℕ
predicted last vpage =
    if continues last vpage then (last.size, add_size last.counter 1) else (default_fault_size, 0)

-- The next stage, after as many faults as the size has pages.
abbrev pub doubled : ℕ → ℕ
doubled size = if ltb max_fault_size (size * 2 % 2 ^ 64) then max_fault_size else size * 2 % 2 ^ 64

abbrev pub staged : ℕ × ℕ → ℕ × ℕ
staged (size, counter) =
    if leb size (counter * 4096 % 2 ^ 64) then (doubled size, 0) else (size, counter)

-- No further than the end of the segment.
abbrev pub capped : (vpage end size : ℕ) → ℕ
capped vpage end size = if ltb end (add_size vpage size) then sub_size end vpage else size

-- The size of the fault, with what is kept for the next one.
pub predict : LastFault → (vpage end : ℕ) → LastFault
predict last vpage end =
    let stage = staged (predicted last vpage) in
    record { page = vpage; size = capped vpage end stage.0; counter = stage.1 }

-- How many bytes are preloaded.
pub preload_size : LastFault → ℕ
preload_size fault = sub_size (fault.size * 2 % 2 ^ 64) default_fault_size

-- A size of whole pages, up to the largest, on a page that leaves it in the address space.
pub record IsFault (f : LastFault) : Type 0 where
  pub pages : f.size % 4096 ≡ 0
  pub most : f.size ≤ max_fault_size
  pub small : f.page + max_fault_size < 2 ^ 64

-- What a fault maps is at least the page that faulted, and lies in the segment; what is preloaded is twice
-- as much, less the default.
pub record IsPredicted (vpage end : ℕ) (f : LastFault) : Type 0 where
  pub fault : IsFault f
  pub here : f.page ≡ vpage
  pub some_page : 4096 ≤ f.size
  pub inside : vpage + f.size ≤ end
  pub preload : preload_size f + default_fault_size ≡ 2 * f.size

record IsStage (size : ℕ) : Type 0 where
  pub pages : size % 4096 ≡ 0
  pub most : size ≤ max_fault_size
  pub least : 4096 ≤ size

predicted-IsStage :
    (last : LastFault) (vpage : ℕ) → IsFault last → IsStage ((predicted last vpage).0)
predicted-IsStage last vpage f = elim (Bool-cases (continues last vpage)) [
  | inl e ↦
      let pages = f.pages in
      let most = f.most in
      let small = f.small in
      let least : 4096 ≤ last.size = ground (arith, e) in
      rw e (record { pages = pages; most = most; least = least })
  | inr e ↦ rw e (record { pages = refl; most = omega arith; least = omega arith })
]

staged-IsStage : (size counter : ℕ) → IsStage size → IsStage ((staged (size, counter)).0)
staged-IsStage size counter s =
    let pages = s.pages in
    let most = s.most in
    let least = s.least in
    elim (Bool-cases (leb size (counter * 4096 % 2 ^ 64))) [
      | inl e ↦ rw e (record { pages = ground arith; most = ground arith; least = ground arith })
      | inr e ↦ rw e s
    ]

record IsCapped (vpage end size : ℕ) : Type 0 where
  pub pages : size % 4096 ≡ 0
  pub most : size ≤ max_fault_size
  pub least : 4096 ≤ size
  pub inside : vpage + size ≤ end
  pub preload : sub_size (size * 2 % 2 ^ 64) default_fault_size + default_fault_size ≡ 2 * size

capped-IsCapped :
    (vpage end size : ℕ)
    → IsStage size
    → vpage % 4096 ≡ 0
    → end % 4096 ≡ 0
    → vpage < end
    → end + max_fault_size < 2 ^ 64
    → IsCapped vpage end (capped vpage end size)
capped-IsCapped vpage end size s p q h b =
    let pages = s.pages in
    let most = s.most in
    let least = s.least in
    let sum : add_size vpage size ≡ vpage + size = ground arith in
    elim (Bool-cases (ltb end (vpage + size))) [
      | inl e ↦
          let left : sub_size end vpage ≡ end - vpage = ground arith in
          rw (sum, e, left)
            (record {
              pages = omega arith;
              most = ground arith;
              least = omega arith;
              inside = omega arith;
              preload = ground arith;
            })
      | inr e ↦
          rw (sum, e)
            (record {
              pages = pages;
              most = most;
              least = least;
              inside = ground arith;
              preload = ground arith;
            })
    ]

-- Of a page of a segment that ends more than 256 KiB below 2 ^ 64, after a fault of whole pages, at most
-- 64, on a page more than 256 KiB below 2 ^ 64: the size that is predicted is at least a page, at most 64,
-- of whole pages, and ends within the segment, so that the count of what is preloaded does not wrap round;
-- and it is fit for the next prediction.
pub predict-IsPredicted :
    (last : LastFault) (vpage end : ℕ)
    → IsFault last
    → vpage % 4096 ≡ 0
    → end % 4096 ≡ 0
    → vpage < end
    → end + max_fault_size < 2 ^ 64
    → IsPredicted vpage end (predict last vpage end)
unfolding predict preload_size
predict-IsPredicted last vpage end f p q h b =
    let before = predicted last vpage in
    let s = staged-IsStage before.0 before.1 (predicted-IsStage last vpage f) in
    let c = capped-IsCapped vpage end ((staged before).0) s p q h b in
    record {
      fault = record { pages = c.pages; most = c.most; small = omega arith };
      here = refl;
      some_page = c.least;
      inside = c.inside;
      preload = c.preload;
    }
