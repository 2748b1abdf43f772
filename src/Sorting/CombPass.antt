-- ===== src/Sorting/CombPass.antt =====
-- The next gap of gblSortComb, and a pass of it over the array.
use libgimbal.Common.{
  ℕ, zero, suc, ◌^◌, ◌*◌, ◌/◌, ◌+◌, ◌-◌, ◌≤◌, ◌<◌, ◌≡◌, refl, Bool, true, false, inl, inr, arith,
  Bool-cases, ==_iff, ◌==◌, ltb, leb, if◌then◌else◌, ◌||◌,
}
use libgimbal.Common.Int.{ℤ, is_positive}
use libgimbal.Memory.{ok}
use libgimbal.Sorting.{exchange, comb_pass, next_gap}
use libgimbal.Sorting.Order.{
  IsLe, IsOrder, IsTopped, IsRearranged, IsRearranged-refl, IsRearranged-trans,
  exchange-IsRearranged,
}
use libgimbal.Sorting.Bubble.{IsLast, exchange-IsTopped, exchange-IsLast, kept-IsLast}

-- What `next_gap` gives where it does not overflow.
abbrev pub smaller : ℕ → ℕ
smaller gap = if ltb (gap * 10 / 13) 1 then 1 else gap * 10 / 13

pub next_gap-smaller : (gap : ℕ) → gap * 10 < 2 ^ 31 → next_gap gap ≡ ok (smaller gap)
unfolding next_gap
next_gap-smaller gap h = let fits : ltb (gap * 10) (2 ^ 31) ≡ true = ground arith in rw fits refl

module _ {A : Type 0} (cmp : A → A → ℤ) where
  -- What `comb_pass` gives where it does not overflow.
  unfoldable pub combed : (n gap i : ℕ) → Bool → (ℕ → A) → (ℕ → A) × Bool
  combed zero gap i swapped s = (s, swapped)
  combed (suc n) gap i swapped s =
      let test = is_positive (cmp (s i) (s (i + gap))) in
      combed n gap (i + 1) (test || swapped) (if test then exchange s i (i + gap) else s)

  pub comb_pass-combed :
      (n gap i : ℕ) (swapped : Bool) (s : ℕ → A)
      → i + n + gap < 2 ^ 31
      → comb_pass cmp n gap i swapped s ≡ ok (combed n gap i swapped s)
  unfolding comb_pass combed
  comb_pass-combed zero gap i swapped s h = refl
  comb_pass-combed (suc n) gap i swapped s h =
      let fits : ltb (i + gap) (2 ^ 31) ≡ true = ground arith in
      let test = is_positive (cmp (s i) (s (i + gap))) in
      rw fits (
        comb_pass-combed n gap (i + 1) (test || swapped)
          (if test then exchange s i (i + gap) else s) (omega arith))

  -- A pass over `n` elements from `i` on.
  pub record IsCombed (n gap i : ℕ) (swapped : Bool) (s : ℕ → A) (r : (ℕ → A) × Bool) (count : ℕ)
      : Type 0 where
    pub rearranged : IsRearranged s r.0 count
    pub quiet : ((c : ℕ) → i ≤ c → c < i + n → IsLe cmp (s c) (s (c + gap))) → r.1 ≡ swapped
    pub old : r.1 ≡ false → swapped ≡ false
    pub settled :
        r.1 ≡ false
        → ((c : ℕ) → r.0 c ≡ s c) × ((c : ℕ) → i ≤ c → c < i + n → IsLe cmp (s c) (s (c + gap)))

  pub combed-IsCombed :
      (n gap i : ℕ) (swapped : Bool) (s : ℕ → A) (count : ℕ)
      → i + n + gap ≤ count
      → IsCombed n gap i swapped s (combed n gap i swapped s) count
  unfolding combed
  combed-IsCombed zero gap i swapped s count h = record {
    rearranged = IsRearranged-refl s count;
    quiet = λ q. refl;
    old = λ e. e;
    settled = λ e. ((λ c. refl), λ c p q. absurd (omega arith));
  }
  combed-IsCombed (suc n) gap i swapped s count h =
      elim (Bool-cases (is_positive (cmp (s i) (s (i + gap))))) [
        | inl e ↦
            let s' = exchange s i (i + gap) in
            let rest = combed-IsCombed n gap (i + 1) true s' count (omega arith) in
            let first = exchange-IsRearranged s i (i + gap) count (omega arith) (omega arith) in
            rw e (record {
              rearranged = IsRearranged-trans first rest.rearranged;
              quiet = λ q. absurd (ground (arith, q i (omega arith) (omega arith)));
              old = λ f. absurd (ground (arith, rest.old f));
              settled = λ f. absurd (ground (arith, rest.old f));
            })
        | inr e ↦
            let rest = combed-IsCombed n gap (i + 1) swapped s count (omega arith) in
            rw e (record {
              rearranged = rest.rearranged;
              quiet = λ q. rest.quiet (λ c k l. q c (omega arith) (omega arith));
              settled = λ f.
                  let (same, le) = rest.settled f in
                  (
                    same,
                    λ c k l. elim (Bool-cases (c == i)) [
                      | inl g ↦ rw ((==_iff c i).0 g) e
                      | inr g ↦ le c (ground arith) (ground arith)
                    ],
                  );
              old = rest.old;
            })
      ]

module _ {A : Type 0} (cmp : A → A → ℤ) (order : IsOrder cmp) where
  -- The state of a pass with a gap of 1 over `count` elements, of which those from `m` on were in their
  -- places: the largest so far is at `i`, and behind `m` nothing is exchanged.
  abbrev pub IsCombing : (ℕ → A) → (m i count : ℕ) → Type 0
  IsCombing s m i count =
      IsLast cmp order s i × IsTopped cmp s m count × (m ≤ i + 1 → IsTopped cmp s (m - 1) count)

  last-IsTopped :
      (s : ℕ → A) (j m count : ℕ)
      → suc j ≡ m
      → IsLast cmp order s j
      → IsTopped cmp s m count
      → IsTopped cmp s (m - 1) count
  last-IsTopped s j m count e last top a b k l p = elim (Bool-cases (b == j)) [
    | inl f ↦ rw ((==_iff b j).0 f) (last a (ground arith))
    | inr f ↦ top a b k l (ground arith)
  ]

  exchange-IsCombing :
      (s : ℕ → A) (i m count : ℕ)
      → suc i < count
      → IsCombing s m i count
      → is_positive (cmp (s i) (s (suc i))) ≡ true
      → IsCombing (exchange s i (suc i)) m (suc i) count
  exchange-IsCombing s i m count h (last, top, more) f = elim (Bool-cases (ltb (suc i) m)) [
    | inl g ↦
        let last' = exchange-IsLast cmp order s i last f in
        let top' = exchange-IsTopped cmp order s i m count (ground arith) top in
        (last', top', λ l. last-IsTopped _ (suc i) m count (ground arith) last' top')
    | inr g ↦ absurd (ground (arith, top i (suc i)))
  ]

  kept-IsCombing :
      (s : ℕ → A) (i m count : ℕ)
      → IsCombing s m i count
      → is_positive (cmp (s i) (s (suc i))) ≡ false
      → IsCombing s m (suc i) count
  kept-IsCombing s i m count (last, top, more) f =
      let last' = kept-IsLast cmp order s i last f in
      (
        last',
        top,
        λ l. elim (Bool-cases (leb m (i + 1))) [
          | inl g ↦ more (ground arith)
          | inr g ↦ last-IsTopped s (suc i) m count (ground arith) last' top
        ],
      )

  pub combed-IsTopped :
      (n i m : ℕ) (swapped : Bool) (s : ℕ → A) (count : ℕ)
      → i + n + 1 ≡ count
      → m ≤ count
      → IsCombing s m i count
      → IsTopped cmp (combed cmp n 1 i swapped s).0 (m - 1) count
  unfolding combed
  combed-IsTopped zero i m swapped s count e h (last, top, more) = more (omega arith)
  combed-IsTopped (suc n) i m swapped s count e h combing =
      let next : suc i ≡ i + 1 = omega arith in
      elim (Bool-cases (is_positive (cmp (s i) (s (i + 1))))) [
        | inl f ↦
            rw (combed, f)
              (combed-IsTopped n (i + 1) m true (exchange s i (i + 1)) count (omega arith) h
                (rw next at (exchange-IsCombing s i m count (omega arith) combing (rw next f))))
        | inr f ↦
            rw (combed, f)
              (combed-IsTopped n (i + 1) m swapped s count (omega arith) h
                (rw next at (kept-IsCombing s i m count combing (rw next f))))
      ]
