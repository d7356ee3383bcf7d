-- ===== src/Base/Tabulate.antt =====
-- Lists given by a function of the index, and pieces of a byte array as such lists.
use stanix.Base.Lists.{length, take, drop, get_or}
use Prim.Native.Nat.add
use Prim.Native.Nat.{ℕ, zero, suc, ◌+◌, ◌-◌, ◌≤◌, ◌<◌, min}
use native.Mathlib.Nat.{sub-zero, suc-sub-suc, suc-min-suc, zero-min, min-zero}
use mathlib.Core.Path.{◌≡◌, refl, ap, ap₂, ◌∙◌}
use mathlib.Core.List.{List, [], ◌∷◌, ◌++◌}
use native.Mathlib.Omega.{arith}

module _ {ℓ} {A : Type ℓ} where
  abbrev pub tabulate : ℕ → (ℕ → A) → List A
  tabulate zero f = []
  tabulate (suc n) f = f 0 ∷ tabulate n (λ i. f (suc i))

  pub length-tabulate : (n : ℕ) (f : ℕ → A) → length (tabulate n f) ≡ n
  length-tabulate zero f = refl
  length-tabulate (suc n) f = ap suc (length-tabulate n _)

  pub tabulate_ext :
      (n : ℕ) (f g : ℕ → A) → ((i : ℕ) → i < n → f i ≡ g i) → tabulate n f ≡ tabulate n g
  tabulate_ext zero f g h = refl
  tabulate_ext (suc n) f g h =
      ap₂ ◌∷◌ (h 0 (omega arith)) (tabulate_ext n _ _ (λ i p. h (suc i) (omega arith)))

  pub tabulate-append :
      (m n : ℕ) (f : ℕ → A) → tabulate m f ++ tabulate n (λ i. f (m + i)) ≡ tabulate (m + n) f
  tabulate-append zero n f = simp add.zero
  tabulate-append (suc m) n f = simp add.suc (ap (λ l. f 0 ∷ l) (tabulate-append m n _))

  pub take-tabulate : (k n : ℕ) (f : ℕ → A) → take k (tabulate n f) ≡ tabulate (min k n) f
  take-tabulate zero n f = rw zero-min
  take-tabulate (suc k) zero f = rw min-zero
  take-tabulate (suc k) (suc n) f = rw suc-min-suc (ap (λ l. f 0 ∷ l) (take-tabulate k n _))

  pub drop-tabulate :
      (k n : ℕ) (f : ℕ → A) → drop k (tabulate n f) ≡ tabulate (n - k) (λ i. f (k + i))
  drop-tabulate zero n f = simp (add.zero, sub-zero)
  drop-tabulate (suc k) zero f = ap (λ m. tabulate m (λ i. f (suc k + i))) {x = 0} (omega arith)
  drop-tabulate (suc k) (suc n) f = drop-tabulate k n (λ i. f (suc i)) ∙ simp (add.suc, suc-sub-suc)

  -- The `n` elements from index `off` on.
  abbrev pub slice : List A → ℕ → ℕ → List A
  slice xs off n = take n (drop off xs)

  -- `memcpy` into an array: the elements of `src` from index `off` on.
  abbrev pub splice : List A → ℕ → List A → List A
  splice [] off src = []
  splice (x ∷ xs) (suc off) src = x ∷ splice xs off src
  splice (x ∷ xs) zero [] = x ∷ xs
  splice (x ∷ xs) zero (s ∷ src) = s ∷ splice xs zero src

  pub take-eq-tabulate :
      (n : ℕ) (xs : List A) (d : A) → n ≤ length xs → take n xs ≡ tabulate n (λ i. get_or xs i d)
  take-eq-tabulate zero xs d h = refl
  take-eq-tabulate (suc n) [] d h = absurd (omega arith)
  take-eq-tabulate (suc n) (x ∷ xs) d h = ap (λ l. x ∷ l) (take-eq-tabulate n xs d (omega arith))

  pub get_or-drop :
      (off : ℕ) (xs : List A) (i : ℕ) (d : A) → get_or (drop off xs) i d ≡ get_or xs (off + i) d
  get_or-drop zero xs i d = ap (λ k. get_or xs k d) (omega arith)
  get_or-drop (suc off) [] i d = refl
  get_or-drop (suc off) (x ∷ xs) i d =
      get_or-drop off xs i d ∙ ap (λ k. get_or (x ∷ xs) k d) {x = suc (off + i)} (omega arith)

  pub length-splice :
      (xs : List A) (off : ℕ) (src : List A) → length (splice xs off src) ≡ length xs
  length-splice [] off src = refl
  length-splice (x ∷ xs) (suc off) src = ap suc (length-splice xs off src)
  length-splice (x ∷ xs) zero [] = refl
  length-splice (x ∷ xs) zero (s ∷ src) = ap suc (length-splice xs zero src)

  pub get_or-splice_in :
      (xs : List A) (off : ℕ) (src : List A) (i : ℕ) (d : A)
      → i < length xs
      → off ≤ i
      → i < off + length src
      → get_or (splice xs off src) i d ≡ get_or src (i - off) d
  get_or-splice_in [] off src i d h lo hi = absurd (omega arith)
  get_or-splice_in (x ∷ xs) (suc off) src zero d h lo hi = absurd (omega arith)
  get_or-splice_in (x ∷ xs) (suc off) src (suc i) d h lo hi =
      get_or-splice_in xs off src i d (omega arith) (omega arith) (omega arith)
      ∙ ap (λ k. get_or src k d) (omega arith)
  get_or-splice_in (x ∷ xs) zero [] i d h lo hi = absurd (omega arith)
  get_or-splice_in (x ∷ xs) zero (s ∷ src) zero d h lo hi = refl
  get_or-splice_in (x ∷ xs) zero (s ∷ src) (suc i) d h lo hi =
      get_or-splice_in xs zero src i d (omega arith) (omega arith) (omega arith)
      ∙ ap (λ k. get_or (s ∷ src) k d) {x = suc (i - 0)} (omega arith)

  pub get_or-splice_before :
      (xs : List A) (off : ℕ) (src : List A) (i : ℕ) (d : A)
      → i < off
      → get_or (splice xs off src) i d ≡ get_or xs i d
  get_or-splice_before [] off src i d h = refl
  get_or-splice_before (x ∷ xs) (suc off) src zero d h = refl
  get_or-splice_before (x ∷ xs) (suc off) src (suc i) d h =
      get_or-splice_before xs off src i d (omega arith)
  get_or-splice_before (x ∷ xs) zero src i d h = absurd (omega arith)

  pub get_or-splice_after :
      (xs : List A) (off : ℕ) (src : List A) (i : ℕ) (d : A)
      → off + length src ≤ i
      → get_or (splice xs off src) i d ≡ get_or xs i d
  get_or-splice_after [] off src i d h = refl
  get_or-splice_after (x ∷ xs) (suc off) src zero d h = absurd (omega arith)
  get_or-splice_after (x ∷ xs) (suc off) src (suc i) d h =
      get_or-splice_after xs off src i d (omega arith)
  get_or-splice_after (x ∷ xs) zero [] i d h = refl
  get_or-splice_after (x ∷ xs) zero (s ∷ src) zero d h = absurd (omega arith)
  get_or-splice_after (x ∷ xs) zero (s ∷ src) (suc i) d h =
      get_or-splice_after xs zero src i d (omega arith)
