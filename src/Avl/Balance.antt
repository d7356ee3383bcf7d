-- ===== src/Avl/Balance.antt =====
-- Rebalancing a tree that one insertion has made too high on one side.
use stanix.Base.{
  ℕ, ◌+◌, ◌≤◌, ◌<◌, ◌≡◌, refl, sym, ap, ◌∙◌, false, Option, some, List, [], ◌∷◌, ◌++◌, append_assoc,
  max, ltb, leb, if◌then◌else◌, Bool-cases, inl, inr, ◌⊎◌, arith,
}
use stanix.Base.Int.{pos, negsuc, sub_ℕ}
use stanix.Avl.{
  Tree, leaf, node, Ops, height, compute_height, rotate_left, rotate_right, Side, on_left, on_right,
  with_child, rebalance_by, rebalance, is_positive, is_negative,
}

pick-max : (a b : ℕ) → (if ltb b a then a else b) ≡ max a b
pick-max a b = ground arith

factor_calm :
    (a b : ℕ)
    → a ≤ b + 1
    → b ≤ a + 1
    → (sub_ℕ b a ≡ negsuc 0) ⊎ (sub_ℕ b a ≡ pos 0) ⊎ (sub_ℕ b a ≡ pos 1)
factor_calm a b h h' = ground arith

factor_left : (a b : ℕ) → a ≡ b + 2 → sub_ℕ b a ≡ negsuc 1
factor_left a b h = ground arith

factor_right : (a b : ℕ) → b ≡ a + 2 → sub_ℕ b a ≡ pos 2
factor_right a b h = ground arith

leans_right : (a b : ℕ) → is_positive (sub_ℕ b a) ≡ ltb a b
leans_right a b = ground arith

ltb_zero : (a : ℕ) → ltb a 0 ≡ false
ltb_zero a = ground arith

flat_left :
    {A : Type 0} (a c d r : List A) (y z x : A)
    → (a ++ (y ∷ (c ++ (z ∷ d)))) ++ (x ∷ r) ≡ a ++ (y ∷ (c ++ (z ∷ (d ++ (x ∷ r)))))
flat_left a c d r y z x =
    append_assoc a (y ∷ (c ++ (z ∷ d))) (x ∷ r)
    ∙ ap (λ l. a ++ (y ∷ l)) (append_assoc c (z ∷ d) (x ∷ r))

leans_left : (a b : ℕ) → is_negative (sub_ℕ b a) ≡ ltb b a
leans_left a b = ground arith

module _ {A : Type 0} {B : Type 0} {K : Type 0} (ops : Ops A B K) where
  abbrev pub inorder : Tree A B → List A
  inorder leaf = []
  inorder (node left x right h kept) = inorder left ++ (x ∷ inorder right)

  -- Each height is right, and the heights of two children differ by one at most.
  abbrev pub IsAvl : Tree A B → Type 0
  IsAvl leaf = Path ℕ 0 0
  IsAvl (node left x right h kept) =
      IsAvl left
      × IsAvl right
      × (h ≡ max (height left) (height right) + 1)
      × (height left ≤ height right + 1)
      × (height right ≤ height left + 1)

  -- A rebalanced tree: balanced, with the same elements, and as high as the higher child or by one
  -- higher.
  abbrev pub Rebalanced : (before : List A) → (low high : ℕ) → Option (Tree A B) → Type 0
  Rebalanced before low high out =
      (t : Tree A B) × (out ≡ some t)
      × IsAvl t
      × (inorder t ≡ before)
      × (low ≤ height t)
      × (height t ≤ high)

  node-IsAvl :
      (left right : Tree A B) (x : A)
      → IsAvl left
      → IsAvl right
      → height left ≤ height right + 1
      → height right ≤ height left + 1
      → IsAvl (compute_height ops left x right)
  node-IsAvl left right x v w h h' =
      (v, w, ap (λ n. n + 1) (pick-max (height left) (height right)), h, h')

  node-height :
      (left right : Tree A B) (x : A)
      → height (compute_height ops left x right) ≡ max (height left) (height right) + 1
  node-height left right x = ap (λ n. n + 1) (pick-max (height left) (height right))

  calm :
      (side : Side) (left right : Tree A B) (x : A)
      → IsAvl left
      → IsAvl right
      → height left ≤ height right + 1
      → height right ≤ height left + 1
      → Rebalanced
          (inorder left ++ (x ∷ inorder right))
          (max (height left) (height right) + 1)
          (max (height left) (height right) + 1)
          (rebalance ops side left x right)
  unfolding rebalance rebalance_by
  calm side left right x v w h h' =
      let whole = node-IsAvl left right x v w h h' in
      let high = node-height left right x in
      (
        compute_height ops left x right,
        elim (factor_calm (height left) (height right) h h') [
          | inl e ↦ rw e refl
          | inr (inl e) ↦ rw e refl
          | inr (inr e) ↦ rw e refl
        ],
        whole,
        refl,
        rw high (omega arith),
        rw high (omega arith),
      )

  -- What the rotation of a node whose left child is too high makes.
  rotated_right :
      (a b right : Tree A B) (x y : A) (hl : ℕ)
      → IsAvl a
      → IsAvl b
      → IsAvl right
      → hl ≡ max (height a) (height b) + 1
      → hl ≡ height right + 2
      → height b ≤ height a
      → height a ≤ height b + 1
      → Rebalanced
          ((inorder a ++ (y ∷ inorder b)) ++ (x ∷ inorder right))
          hl
          (hl + 1)
          (some (compute_height ops a y (compute_height ops b x right)))
  rotated_right a b right x y hl va vb w e h lo hi =
      let inner = compute_height ops b x right in
      let at = node-height b right x in
      let top = node-height a inner y in
      (
        compute_height ops a y inner,
        refl,
        node-IsAvl a inner y va (node-IsAvl b right x vb w (omega arith) (omega arith))
            (rw at (omega arith)) (rw at (omega arith)),
        sym (append_assoc (inorder a) (y ∷ inorder b) (x ∷ inorder right)),
        rw (top, at) (omega arith),
        rw (top, at) (omega arith),
      )

  -- And with the turn of the child before it.
  rotated_twice :
      (a c d right : Tree A B) (x y z : A) (high hl : ℕ) (before : List A)
      → IsAvl a
      → IsAvl c
      → IsAvl d
      → IsAvl right
      → height a + 1 ≡ high
      → height right + 1 ≡ high
      → max (height c) (height d) + 1 ≡ high
      → height c ≤ height d + 1
      → height d ≤ height c + 1
      → hl ≡ high + 1
      → inorder a ++ (y ∷ (inorder c ++ (z ∷ (inorder d ++ (x ∷ inorder right))))) ≡ before
      → Rebalanced before hl
          (hl + 1)
          (some (compute_height ops (compute_height ops a y c) z (compute_height ops d x right)))
  rotated_twice a c d right x y z high hl before va vc vd w ea er e lo hi eh flat =
      let left = compute_height ops a y c in
      let right' = compute_height ops d x right in
      let at = node-height a c y in
      let at' = node-height d right x in
      let top = node-height left right' z in
      (
        compute_height ops left z right',
        refl,
        node-IsAvl left right' z (node-IsAvl a c y va vc (omega arith) (omega arith))
            (node-IsAvl d right x vd w (omega arith) (omega arith)) (rw (at, at') (omega arith))
            (rw (at, at') (omega arith)),
        append_assoc (inorder a) (y ∷ inorder c) (z ∷ (inorder d ++ (x ∷ inorder right))) ∙ flat,
        rw (top, at, at') (omega arith),
        rw (top, at, at') (omega arith),
      )

  left_heavy :
      (left right : Tree A B) (x : A)
      → IsAvl left
      → IsAvl right
      → height left ≡ height right + 2
      → Rebalanced
          (inorder left ++ (x ∷ inorder right))
          (height left)
          (height left + 1)
          (rebalance ops on_left left x right)
  unfolding rebalance rebalance_by with_child rotate_left rotate_right
  left_heavy leaf right x v w h = absurd (omega arith)
  left_heavy (node a y leaf hl k) right x (va, vb, e, lo, hi) w h =
      rw (factor_left hl (height right) h, leans_right (height a) 0, ltb_zero (height a))
        (rotated_right a leaf right x y hl va vb w e h (omega arith) lo)
  left_heavy (node a y (node c z d hb kb) hl k) right x (va, vb, e, lo, hi) w h =
      rw (factor_left hl (height right) h, leans_right (height a) hb)
        (elim (Bool-cases (ltb (height a) hb)) [
          | inl t ↦ rw t (
              let up : height a < hb = ground arith in
              rotated_twice a c d right x y z hb hl
                ((inorder a ++ (y ∷ (inorder c ++ (z ∷ inorder d)))) ++ (x ∷ inorder right)) va vb.0
                vb.1 w (omega arith) (omega arith) (omega arith) vb.3 vb.4 (omega arith)
                (sym (flat_left (inorder a) (inorder c) (inorder d) (inorder right) y z x)))
          | inr t ↦
              rw t (rotated_right a (node c z d hb kb) right x y hl va vb w e h (ground arith) lo)
        ])

  -- The mirror images.
  rotated_left :
      (left a b : Tree A B) (x y : A) (hr : ℕ)
      → IsAvl left
      → IsAvl a
      → IsAvl b
      → hr ≡ max (height a) (height b) + 1
      → hr ≡ height left + 2
      → height a ≤ height b
      → height b ≤ height a + 1
      → Rebalanced
          (inorder left ++ (x ∷ (inorder a ++ (y ∷ inorder b))))
          hr
          (hr + 1)
          (some (compute_height ops (compute_height ops left x a) y b))
  rotated_left left a b x y hr w va vb e h lo hi =
      let inner = compute_height ops left x a in
      let at = node-height left a x in
      let top = node-height inner b y in
      (
        compute_height ops inner y b,
        refl,
        node-IsAvl inner b y (node-IsAvl left a x w va (omega arith) (omega arith)) vb
            (rw at (omega arith)) (rw at (omega arith)),
        append_assoc (inorder left) (x ∷ inorder a) (y ∷ inorder b),
        rw (top, at) (omega arith),
        rw (top, at) (omega arith),
      )

  right_heavy :
      (left right : Tree A B) (x : A)
      → IsAvl left
      → IsAvl right
      → height right ≡ height left + 2
      → Rebalanced
          (inorder left ++ (x ∷ inorder right))
          (height right)
          (height right + 1)
          (rebalance ops on_right left x right)
  unfolding rebalance rebalance_by with_child rotate_left rotate_right
  right_heavy left leaf x w v h = absurd (omega arith)
  right_heavy left (node leaf y b hr k) x w (va, vb, e, lo, hi) h =
      rw (factor_right (height left) hr h, leans_left 0 (height b))
        (rw (ltb_zero (height b)) (rotated_left left leaf b x y hr w va vb e h (omega arith) hi))
  right_heavy left (node (node c z d ha ka) y b hr k) x w (va, vb, e, lo, hi) h =
      rw (factor_right (height left) hr h, leans_left ha (height b))
        (elim (Bool-cases (ltb (height b) ha)) [
          | inl t ↦ rw t (
              let up : height b < ha = ground arith in
              rotated_twice left c d b y x z ha hr
                (inorder left ++ (x ∷ ((inorder c ++ (z ∷ inorder d)) ++ (y ∷ inorder b)))) w va.0
                va.1 vb (omega arith) (omega arith) (omega arith) va.3 va.4 (omega arith)
                (ap (λ l. inorder left ++ (x ∷ l))
                  (sym (append_assoc (inorder c) (z ∷ inorder d) (y ∷ inorder b)))))
          | inr t ↦
              rw t (rotated_left left (node c z d ha ka) b x y hr w va vb e h (ground arith) hi)
        ])

  -- The interval of heights, made wider.
  widened :
      (before : List A) (low high low' high' : ℕ) (out : Option (Tree A B))
      → low' ≤ low
      → high ≤ high'
      → Rebalanced before low high out
      → Rebalanced before low' high' out
  widened before low high low' high' out h h' (t, e, v, same, lo, hi) =
      (t, e, v, same, omega arith, omega arith)

  -- Rebalancing after the left child, or the right one, grew by one at most.
  pub grown_left :
      (left right : Tree A B) (x : A) (old : ℕ)
      → IsAvl left
      → IsAvl right
      → old ≤ height left
      → height left ≤ old + 1
      → old ≤ height right + 1
      → height right ≤ old + 1
      → Rebalanced
          (inorder left ++ (x ∷ inorder right))
          (max old (height right) + 1)
          (max old (height right) + 2)
          (rebalance ops on_left left x right)
  grown_left left right x old v w lo hi h h' =
      elim (Bool-cases (leb (height left) (height right + 1))) [
        | inl e ↦
            (let small : height left ≤ height right + 1 = ground arith in
              widened _ _ _ _ _ (rebalance ops on_left left x right) (omega arith) (omega arith)
                (calm on_left left right x v w small (omega arith)))
        | inr e ↦
            (let two : height left ≡ height right + 2 = ground arith in
              widened _ _ _ _ _ (rebalance ops on_left left x right) (omega arith) (omega arith)
                (left_heavy left right x v w two))
      ]

  pub grown_right :
      (left right : Tree A B) (x : A) (old : ℕ)
      → IsAvl left
      → IsAvl right
      → old ≤ height right
      → height right ≤ old + 1
      → height left ≤ old + 1
      → old ≤ height left + 1
      → Rebalanced
          (inorder left ++ (x ∷ inorder right))
          (max (height left) old + 1)
          (max (height left) old + 2)
          (rebalance ops on_right left x right)
  grown_right left right x old v w lo hi h h' =
      elim (Bool-cases (leb (height right) (height left + 1))) [
        | inl e ↦
            (let small : height right ≤ height left + 1 = ground arith in
              widened _ _ _ _ _ (rebalance ops on_right left x right) (omega arith) (omega arith)
                (calm on_right left right x v w (omega arith) small))
        | inr e ↦
            (let two : height right ≡ height left + 2 = ground arith in
              widened _ _ _ _ _ (rebalance ops on_right left x right) (omega arith) (omega arith)
                (right_heavy left right x v w two))
      ]
