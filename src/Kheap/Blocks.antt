-- ===== src/Kheap/Blocks.antt =====
-- The allocated segments of the heap of kernel/mem/kheap.c, and their places in the list.
use stanix.Base.{
  ◌≡◌, refl, sym, ap, ap₂, ◌∙◌, true, false, List, [], ◌∷◌, ◌++◌, append_assoc, Bool-cases, inl,
  inr,
}
use stanix.Kheap.{HeapSegment, put_back}
use stanix.Kheap.Layout.{blocks, blocks-used}

-- The lists that a place in the list stands for.
pub put_back-append :
    (front back : List HeapSegment) → put_back front back ≡ put_back front [] ++ back
put_back-append [] back = refl
put_back-append (s ∷ front) back =
    put_back-append front (s ∷ back)
    ∙ sym (append_assoc (put_back front []) (s ∷ []) back)
    ∙ ap (λ l. l ++ back) (sym (put_back-append front (s ∷ [])))

pub put_back-put_back :
    (front behind back : List HeapSegment)
    → put_back (put_back front behind) back ≡ put_back behind (front ++ back)
put_back-put_back [] behind back = refl
put_back-put_back (s ∷ front) behind back = put_back-put_back front (s ∷ behind) back

-- A block is a segment that is not free, at a place in the list.
pub record IsPlaced (segs before after : List HeapSegment) (b : HeapSegment) : Type 0 where
  pub pre : List HeapSegment
  pub post : List HeapSegment
  pub split : segs ≡ pre ++ (b ∷ post)
  pub earlier : blocks pre ≡ before
  pub later : blocks post ≡ after
  pub used : b.free ≡ false

further-IsPlaced :
    (s : HeapSegment) (segs before after : List HeapSegment) (b : HeapSegment)
    → IsPlaced segs before after b
    → s.free ≡ true
    → IsPlaced (s ∷ segs) before after b
further-IsPlaced s segs before after b p h = record {
  pre = s ∷ p.pre;
  post = p.post;
  split = ap (λ l. s ∷ l) p.split;
  earlier = rw h p.earlier;
  later = p.later;
  used = p.used;
}

IsPlaced-used :
    (s : HeapSegment) (segs before after : List HeapSegment) (b : HeapSegment)
    → s.free ≡ false
    → s ∷ blocks segs ≡ before ++ (b ∷ after)
    → ((x y : List HeapSegment) → blocks segs ≡ x ++ (b ∷ y) → IsPlaced segs x y b)
    → IsPlaced (s ∷ segs) before after b
IsPlaced-used s segs [] after b u h more =
    let same : s ≡ b = cc h in
    let rest : blocks segs ≡ after = cc h in
    record {
      pre = [];
      post = segs;
      split = ap (λ x. x ∷ segs) same;
      earlier = refl;
      later = rest;
      used = sym (ap (λ x. x.free) same) ∙ u;
    }
IsPlaced-used s segs (x ∷ before) after b u h more =
    let same : s ≡ x = cc h in
    let p = more before after (cc h) in
    record {
      pre = s ∷ p.pre;
      post = p.post;
      split = ap (λ l. s ∷ l) p.split;
      earlier = blocks-used s p.pre u ∙ ap₂ ◌∷◌ same p.earlier;
      later = p.later;
      used = p.used;
    }

pub placed :
    (segs before after : List HeapSegment) (b : HeapSegment)
    → blocks segs ≡ before ++ (b ∷ after)
    → IsPlaced segs before after b
placed [] [] after b h = absurd (cc h)
placed [] (x ∷ before) after b h = absurd (cc h)
placed (s ∷ segs) before after b h = elim (Bool-cases s.free) [
  | inl e ↦
      further-IsPlaced s segs before after b (placed segs before after b (sym (rw e refl) ∙ h)) e
  | inr e ↦ IsPlaced-used s segs before after b e (sym (rw e refl) ∙ h) (λ x y. placed segs x y b)
]
