-- ===== src/Kheap/Choose.antt =====
-- The segment that `kmalloc_flags` of kernel/mem/kheap.c takes, and by how much the heap grows for it.
use stanix.Base.{
  ℕ, ◌+◌, ◌-◌, ◌*◌, ◌/◌, ◌%◌, ◌^◌, ◌≤◌, ◌<◌, ◌≡◌, ◌⊎◌, refl, sym, ap, subst, ◌∙◌, Bool, true, false,
  List, [], ◌∷◌, leb, Bool-cases, inl, inr, arith,
}
use stanix.Word.{add_size, sub_size}
use stanix.Kheap.{
  HeapSegment, Chosen, header, put_back, suits, page_align_up, growth_free, growth_behind,
  change_kheap_size, extend, choose,
}
use stanix.Kheap.Layout.{seg_end, Behind, InFront, blocks, blocks-put_back}

-- The segment is free and large enough, at a place in a heap without gaps, and no block is gained or
-- lost; the segments are as before, or the heap has grown.
pub record IsChosen (start amount : ℕ) (old : List HeapSegment) (length : ℕ) (c : Chosen)
    : Type 0 where
  pub free : c.seg.free ≡ true
  pub whole : c.seg.length % 16 ≡ 0
  pub front : InFront start c.front c.seg.address true
  pub behind : Behind (seg_end c.seg) true c.back (start + c.length)
  pub room : amount ≤ c.seg.length
  pub bounded : start + c.length < 2 ^ 64
  pub kept : blocks (put_back c.front (c.seg ∷ c.back)) ≡ blocks old
  pub same : ((put_back c.front (c.seg ∷ c.back) ≡ old) × (c.length ≡ length)) ⊎ (length < c.length)

record IsGrowth (x g : ℕ) : Type 0 where
  pub enough : x ≤ g
  pub little : g < x + 4096
  pub pages : g / 4096 * 4096 ≡ g

page_align_up-IsGrowth : (x : ℕ) → x + 4096 < 2 ^ 64 → IsGrowth x (page_align_up x)
page_align_up-IsGrowth x h = record {
  enough = ground arith;
  little = ground arith;
  pages = ground arith;
}

change-IsGrowth :
    (length x g : ℕ) → IsGrowth x g → length + g < 2 ^ 64 → change_kheap_size length g ≡ length + g
change-IsGrowth length x g h k = let p = h.pages in ground arith

blocks-extend :
    (front old new : List HeapSegment)
    → blocks new ≡ blocks old
    → blocks (put_back front new) ≡ blocks (put_back front old)
blocks-extend front old new h =
    blocks-put_back front new ∙ ap (put_back (blocks front)) h ∙ sym (blocks-put_back front old)

abbrev last : (address length : ℕ) → Bool → HeapSegment
last address length free = record { address = address; length = length; free = free }

extend-IsChosen :
    (start amount : ℕ) (front : List HeapSegment) (address len : ℕ) (free : Bool) (length : ℕ)
    → InFront start front address free
    → len % 16 ≡ 0
    → address + 32 + len ≡ start + length
    → suits amount (last address len free) ≡ false
    → amount % 16 ≡ 0
    → start + length + amount + 8192 < 2 ^ 64
    → IsChosen start amount
        (put_back front (last address len free ∷ []))
        length
        (extend amount front (last address len free) length)
unfolding extend
extend-IsChosen start amount front address len true length f w e short whole bound =
    let g = growth_free amount (last address len true) in
    let below : len < amount = ground (arith, short) in
    let more : add_size (sub_size amount len) (header + 16) ≡ amount - len + 48 = ground arith in
    let growth : IsGrowth (amount - len + 48) g =
      rw more (page_align_up-IsGrowth (amount - len + 48) (omega arith)) in
    let enough = growth.enough in
    let little = growth.little in
    let pages = growth.pages in
    let larger : change_kheap_size length g ≡ length + g =
      change-IsGrowth length _ g growth (omega arith) in
    let long : add_size len g ≡ len + g = ground arith in
    let done : IsChosen start amount (put_back front (last address len true ∷ [])) length (record {
      front = front;
      seg = last address (len + g) true;
      back = [];
      length = length + g;
    }) =
      record {
        free = refl;
        whole = omega arith;
        front = f;
        behind = omega arith;
        room = omega arith;
        bounded = omega arith;
        kept = blocks-extend front _ _ refl;
        same = inr (omega arith);
      } in
    rw (long, larger) done
extend-IsChosen start amount front address len false length f w e short whole bound =
    let g = growth_behind amount in
    let more : add_size amount (header * 2 + 16) ≡ amount + 80 = ground arith in
    let growth : IsGrowth (amount + 80) g =
      rw more (page_align_up-IsGrowth (amount + 80) (omega arith)) in
    let enough = growth.enough in
    let little = growth.little in
    let pages = growth.pages in
    let larger : change_kheap_size length g ≡ length + g =
      change-IsGrowth length _ g growth (omega arith) in
    let long : sub_size g header ≡ g - 32 = ground arith in
    let at : add_size (add_size address len) header ≡ address + 32 + len = ground arith in
    let s = last address len false in
    let done : IsChosen start amount (put_back front (s ∷ [])) length (record {
      front = s ∷ front;
      seg = last (address + 32 + len) (g - 32) true;
      back = [];
      length = length + g;
    }) =
      record {
        free = refl;
        whole = omega arith;
        front = (refl, w, refl, f);
        behind = omega arith;
        room = omega arith;
        bounded = omega arith;
        kept = blocks-extend front _ _ refl;
        same = inr (omega arith);
      } in
    rw (larger, long, at) done

suits_lem :
    (amount : ℕ) (s : HeapSegment) → suits amount s ≡ true → (s.free ≡ true) × (amount ≤ s.length)
suits_lem amount s h = elim (Bool-cases (leb amount s.length)) [
  | inl e ↦ (sym (rw e refl) ∙ h, ground arith)
  | inr e ↦ absurd (ground (arith, h, e))
]

suits-IsChosen :
    (start amount : ℕ) (front : List HeapSegment) (s : HeapSegment) (back : List HeapSegment)
    (length : ℕ)
    → InFront start front s.address s.free
    → s.length % 16 ≡ 0
    → Behind (seg_end s) s.free back (start + length)
    → suits amount s ≡ true
    → start + length < 2 ^ 64
    → IsChosen start amount
        (put_back front (s ∷ back))
        length
        (record { front = front; seg = s; back = back; length = length })
suits-IsChosen start amount front s back length f w b h bound =
    let (free, room) = suits_lem amount s h in
    record {
      free = free;
      whole = w;
      front = subst (λ x. InFront start front s.address x) free f;
      behind = subst (λ x. Behind (seg_end s) x back (start + length)) free b;
      room = room;
      bounded = bound;
      kept = refl;
      same = inl (refl, refl);
    }

pub choose-IsChosen :
    (start amount : ℕ) (front : List HeapSegment) (s : HeapSegment) (back : List HeapSegment)
    (length : ℕ)
    → InFront start front s.address s.free
    → s.length % 16 ≡ 0
    → Behind (seg_end s) s.free back (start + length)
    → amount % 16 ≡ 0
    → start + length + amount + 8192 < 2 ^ 64
    → IsChosen start amount (put_back front (s ∷ back)) length (choose amount front s back length)
unfolding choose
choose-IsChosen start amount front s [] length f w b whole bound =
    elim (Bool-cases (suits amount s)) [
      | inl e ↦ rw e (suits-IsChosen start amount front s [] length f w b e (omega arith))
      | inr e ↦
          rw e (
            extend-IsChosen start amount front s.address s.length s.free length f w b e whole bound)
    ]
choose-IsChosen start amount front s (next ∷ back) length f w b whole bound =
    elim (Bool-cases (suits amount s)) [
      | inl e ↦
          rw e (suits-IsChosen start amount front s (next ∷ back) length f w b e (omega arith))
      | inr e ↦
          let (at, w', apart, more) = b in
          rw e (
            choose-IsChosen start amount (s ∷ front) next back length (sym at, w, apart, f) w' more
              whole bound)
    ]
