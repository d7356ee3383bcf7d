-- ===== src/Kheap/Cut.antt =====
-- The end of `kmalloc_flags` of kernel/mem/kheap.c: a free segment is cut and taken.
use stanix.Base.{
  ℕ, ◌+◌, ◌-◌, ◌%◌, ◌^◌, ◌≤◌, ◌<◌, ◌≡◌, refl, sym, ap, ap₂, subst, ◌∙◌, Bool, true, false, List, [],
  ◌∷◌, leb, Bool-cases, inl, inr, arith,
}
use stanix.Word.{add_size, sub_size}
use stanix.Kheap.{HeapSegment, header, put_back, cut, merge_with_next}
use stanix.Kheap.Layout.{
  seg_end, Behind, InFront, blocks, put_back-Behind, InFront-allocated, Behind-allocated,
  Behind-below,
}

-- A free segment, cut for an amount: the block, and what is behind it then.
pub record IsCut (amount : ℕ) (s : HeapSegment) (back : List HeapSegment) (end : ℕ)
    (out : List HeapSegment) : Type 0 where
  pub block : HeapSegment
  pub rest : List HeapSegment
  pub shape : out ≡ block ∷ rest
  pub at : block.address ≡ s.address
  pub used : block.free ≡ false
  pub room : amount ≤ block.length
  pub whole : block.length % 16 ≡ 0
  pub behind : Behind (seg_end block) false rest end
  pub kept : blocks rest ≡ blocks back
  pub undone : merge_with_next (record block { free = true }) rest ≡ s ∷ back

cut_rest :
    (amount : ℕ) (s : HeapSegment) (back : List HeapSegment) (end : ℕ)
    → s.length % 16 ≡ 0
    → amount % 16 ≡ 0
    → amount + 48 ≤ s.length
    → seg_end s < 2 ^ 64
    → Behind (seg_end s) true back end
    → Behind
        (s.address + 32 + amount)
        false
        (record {
          address = s.address + 32 + amount;
          length = s.length - (32 + amount);
          free = true;
        }
          ∷ back)
        end
cut_rest amount s back end w a room bound b = (
  refl,
  omega arith,
  refl,
  subst (λ x. Behind x true back end) {x = seg_end s}
      {y = s.address + 32 + amount + 32 + (s.length - (32 + amount))} (omega arith) b,
)

whole_again :
    (s : HeapSegment) (l : ℕ)
    → l ≡ s.length
    → s.free ≡ true
    → record { address = s.address; length = l; free = true } ≡ s
whole_again s l e f =
    let make : ℕ → Bool → HeapSegment =
      λ x y. record { address = s.address; length = x; free = y } in
    ap₂ make e (sym f)

-- Behind a free segment there is nothing to merge it with.
unmerged :
    (s : HeapSegment) (back : List HeapSegment) (address end : ℕ)
    → Behind address true back end
    → merge_with_next s back ≡ s ∷ back
unfolding merge_with_next
unmerged s [] address end b = refl
unmerged s (next ∷ back) address end (at, w, apart, more) =
    let used : next.free ≡ false = apart in simp used refl

rejoined :
    (amount : ℕ) (s : HeapSegment) (back : List HeapSegment)
    → s.free ≡ true
    → amount + 48 ≤ s.length
    → s.length < 2 ^ 64
    → merge_with_next
        (record { address = s.address; length = amount; free = true })
        (record {
          address = s.address + 32 + amount;
          length = s.length - (32 + amount);
          free = true;
        }
          ∷ back)
      ≡ s ∷ back
unfolding merge_with_next
rejoined amount s back f large bound =
    let sum : add_size amount (add_size (s.length - (32 + amount)) header) ≡ s.length =
      ground arith in
    ap (λ t. t ∷ back) (whole_again s _ sum f)

pub cut-IsCut :
    (amount : ℕ) (s : HeapSegment) (back : List HeapSegment) (end : ℕ)
    → s.free ≡ true
    → s.length % 16 ≡ 0
    → amount % 16 ≡ 0
    → amount ≤ s.length
    → end < 2 ^ 64
    → amount + 48 < 2 ^ 64
    → Behind (seg_end s) true back end
    → IsCut amount s back end (cut amount s back)
unfolding cut
cut-IsCut amount s back end f w a room bound small b =
    let below = Behind-below (seg_end s) true back end b in
    let need : add_size (add_size amount header) 16 ≡ amount + 48 = ground arith in
    elim (Bool-cases (leb (amount + 48) s.length)) [
      | inl e ↦
          let large : amount + 48 ≤ s.length = ground (arith, e) in
          let place : add_size (add_size s.address amount) header ≡ s.address + 32 + amount =
            ground arith in
          let left : sub_size s.length (add_size header amount) ≡ s.length - (32 + amount) =
            ground arith in
          rw (need, e, place, left)
            (record {
              block = record { address = s.address; length = amount; free = false };
              rest = _;
              shape = refl;
              at = refl;
              used = refl;
              room = omega arith;
              whole = a;
              behind = cut_rest amount s back end w a large (omega arith) b;
              kept = refl;
              undone = rejoined amount s back f large (omega arith);
            })
      | inr e ↦
          rw (need, e)
            (record {
              block = record s { free = false };
              rest = back;
              shape = refl;
              at = refl;
              used = refl;
              room = room;
              whole = w;
              behind = Behind-allocated (seg_end s) true back end b;
              kept = refl;
              undone =
                  unmerged (record s { free = true }) back (seg_end s) end b
                  ∙ ap (λ t. t ∷ back) (whole_again s s.length refl f);
            })
    ]

pub cut-layout :
    (start amount : ℕ) (front : List HeapSegment) (s : HeapSegment) (back : List HeapSegment)
    (end : ℕ) (out : List HeapSegment)
    → IsCut amount s back end out
    → InFront start front s.address true
    → Behind start false (put_back front out) end
cut-layout start amount front s back end out d f =
    subst (λ l. Behind start false (put_back front l) end) (sym d.shape)
      (put_back-Behind start end front d.block d.rest
        (subst (λ x. InFront start front d.block.address x) (sym d.used)
          (subst (λ a. InFront start front a false) (sym d.at)
            (InFront-allocated start front s.address true f)))
        d.whole (subst (λ x. Behind (seg_end d.block) x d.rest end) (sym d.used) d.behind))
