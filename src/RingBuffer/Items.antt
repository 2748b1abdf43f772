-- ===== src/RingBuffer/Items.antt =====
-- Lists of elements round a ring, and the last elements of a list.
use libgimbal.Common.{
  ℕ, zero, suc, ◌+◌, ◌%◌, ◌≤◌, ◌<◌, ◌≡◌, ◌≢◌, refl, ap, ap₂, List, [], ◌∷◌, ◌++◌, arith, length,
  get_elem?, some, leb, if◌then◌else◌, length-append, ◌∙◌,
}
use mathlib.Core.Path.{subst}
use libgimbal.Memory.{update}
use libgimbal.RingBuffer.Inv.{items, mod-ne}

pub mod-round : (f cap : ℕ) → 0 < cap → (f + cap) % cap ≡ f % cap
mod-round f cap h = grind arith

module _ {A : Type 0} where
  update-other : (s : ℕ → A) (a b : ℕ) (v : A) → b ≢ a → update s a v b ≡ s b
  unfolding update
  update-other s a b v h = ground arith

  pub update-same : (s : ℕ → A) (a : ℕ) (v : A) → update s a v a ≡ v
  unfolding update
  update-same s a v = ground arith

  -- The last `cap` elements.
  unfoldable pub latest : (cap : ℕ) → List A → List A
  latest cap [] = []
  latest cap (x ∷ xs) = if leb cap (length xs) then latest cap xs else x ∷ xs

  pub latest-small : (cap : ℕ) (xs : List A) → length xs ≤ cap → latest cap xs ≡ xs
  unfolding latest
  latest-small cap [] h = refl
  latest-small cap (x ∷ xs) h = ground arith

  pub latest-over : (cap : ℕ) (x : A) (xs : List A) → length xs ≡ cap → latest cap (x ∷ xs) ≡ xs
  unfolding latest
  latest-over cap x xs h = ground (arith, latest-small cap xs)

  pub latest-append :
      (cap : ℕ) (xs ys : List A) → latest cap (latest cap xs ++ ys) ≡ latest cap (xs ++ ys)
  unfolding latest
  latest-append cap [] ys = refl
  latest-append cap (x ∷ xs) ys = ground (arith, latest-append cap xs ys, length-append xs ys)

  -- One round further is the same position.
  pub items-round : (s : ℕ → A) (cap f n : ℕ) → 0 < cap → items s cap (f + cap) n ≡ items s cap f n
  unfolding items
  items-round s cap f zero h = refl
  items-round s cap f (suc n) h =
      ap₂ (λ i (xs : List A). s i ∷ xs) (mod-round f cap h)
        (subst (λ g. items s cap g n ≡ items s cap (f + 1) n) (omega arith)
          (items-round s cap (f + 1) n h))

  pub items-frame :
      (s : ℕ → A) (v : A) (cap p f n : ℕ)
      → f + n ≤ p
      → p < f + cap
      → items (update s (p % cap) v) cap f n ≡ items s cap f n
  unfolding items
  items-frame s v cap p f zero h k = refl
  items-frame s v cap p f (suc n) h k =
      ap₂ (◌∷◌) (update-other s (p % cap) (f % cap) v (mod-ne f p cap (omega arith) k))
        (items-frame s v cap p (f + 1) n (omega arith) (omega arith))

  pub items-snoc :
      (s : ℕ → A) (cap f n : ℕ) → items s cap f (suc n) ≡ items s cap f n ++ s ((f + n) % cap) ∷ []
  unfolding items
  items-snoc s cap f zero = ap (λ i. s (i % cap) ∷ []) (omega arith)
  items-snoc s cap f (suc n) =
      ap (λ (xs : List A). s (f % cap) ∷ xs)
        (items-snoc s cap (f + 1) n
          ∙ ap (λ i. items s cap (f + 1) n ++ s (i % cap) ∷ []) (omega arith))

  -- A write behind `n` elements appends one.
  pub items-write :
      (s : ℕ → A) (v : A) (cap f n : ℕ)
      → n < cap
      → items (update s ((f + n) % cap) v) cap f (suc n) ≡ items s cap f n ++ v ∷ []
  items-write s v cap f n h =
      items-snoc (update s ((f + n) % cap) v) cap f n
      ∙ ap₂ (λ (xs : List A) x. xs ++ x ∷ [])
          (items-frame s v cap (f + n) f n (omega arith) (omega arith))
          (update-same s ((f + n) % cap) v)

  pub items-get_elem? :
      (s : ℕ → A) (cap f n i : ℕ) → i < n → get_elem? (items s cap f n) i ≡ some (s ((f + i) % cap))
  unfolding items
  items-get_elem? s cap f zero i h = absurd (omega arith)
  items-get_elem? s cap f (suc n) zero h = ap (λ j. some (s (j % cap))) (omega arith)
  items-get_elem? s cap f (suc n) (suc i) h =
      items-get_elem? s cap (f + 1) n i (omega arith) ∙ ap (λ j. some (s (j % cap))) (omega arith)
