-- ===== src/ArrayHeap/Push.antt =====
-- GblArrayHeap_push: the new element rises to its place.
use mathlib.Core.Path.{subst}
use mathlib.Core.List.{Perm, perm_append_singleton}
use mathlib.Core.List.Perm
use libgimbal.Common.{
  ℕ, ◌*◌, zero, suc, ◌+◌, ◌-◌, ◌^◌, ◌≤◌, ◌<◌, ◌≡◌, ◌≢◌, refl, ap, sym, ◌∙◌, inl, inr, arith,
  if◌then◌else◌, Bool-cases, ◌==◌, ltb, List, [], ◌∷◌, ◌++◌, append-nil, length, length-append,
}
use libgimbal.Common.Int.{ℤ, is_negative}
use libgimbal.Memory.{update, ok}
use libgimbal.Sorting.{exchange}
use libgimbal.Sorting.Order.{
  IsLe, IsOrder, IsRearranged, IsRearranged-refl, IsRearranged-trans, exchange_at,
  exchange-IsRearranged,
}
use libgimbal.Sorting.Heap.{IsHeapFrom}
use libgimbal.ArrayList
use libgimbal.ArrayList.{ArrayList, add_size, insert}
use libgimbal.ArrayList.Calls
use libgimbal.ArrayList.Room.{IsArray, segment, elements, length-segment, segment-last}
use libgimbal.ArrayList.Reserve.{reserve-IsRoomy}
use libgimbal.ArrayList.Edit.{insert-between}
use libgimbal.ArrayHeap.{success, parent, entry, compare_at, rise, push}

module _ {A : Type 0} where
  pub compare_at_lem :
      (cmp : A → A → ℤ) (r : ArrayList A) (a b : ℕ)
      → a < r.size
      → b < r.size
      → compare_at cmp r a b ≡ ok (cmp (r.slots a) (r.slots b))
  unfolding compare_at entry ArrayList.at
  compare_at_lem cmp r a b h l = ground arith

  pub segment_at :
      (s t : ℕ → A) (i n m : ℕ) → segment s i n ≡ segment t i n → m < n → s (i + m) ≡ t (i + m)
  unfolding segment
  segment_at s t i zero m e h = absurd (omega arith)
  segment_at s t i (suc n) zero e h =
      let same : s i ≡ t i = cc in ap s (omega arith) ∙ same ∙ ap t (omega arith)
  segment_at s t i (suc n) (suc m) e h =
      let others : segment s (i + 1) n ≡ segment t (i + 1) n = cc in
      ap s (omega arith) ∙ segment_at s t (i + 1) n m others (omega arith) ∙ ap t (omega arith)

  -- What an array list with one more element holds.
  appended :
      (r t : ArrayList A) (v : A)
      → elements t ≡ elements r ++ v ∷ []
      → ((c : ℕ) → c ≤ r.size → t.slots c ≡ (if c == r.size then v else r.slots c))
        × (t.size ≡ suc r.size)
  unfolding elements update
  appended r t v e =
      let size : t.size ≡ r.size + 1 =
        sym (length-segment t.slots 0 t.size)
        ∙ ap length e
        ∙ length-append (segment r.slots 0 r.size) (v ∷ [])
        ∙ ap (λ n. n + 1) (length-segment r.slots 0 r.size) in
      let same : segment t.slots 0 (r.size + 1) ≡ segment (update r.slots r.size v) 0 (r.size + 1) =
        ap (segment t.slots 0) (sym size) ∙ e ∙ sym (segment-last r.slots r.size v) in
      (
        (λ c h.
            ap t.slots {x = c} {y = 0 + c} (omega arith)
            ∙ segment_at t.slots (update r.slots r.size v) 0 (r.size + 1) c same (omega arith)
            ∙ ap (update r.slots r.size v) {x = 0 + c} {y = c} (omega arith)
            ∙ refl),
        omega arith,
      )

  push_back-last :
      (zeros : A) (fresh : ℕ → A) (r : ArrayList A) (v : A)
      → IsArray r
      → r.size + 1 ≤ 2 ^ 63
      → (r.capacity < r.size + 1 → (r.size + 1) * r.element_size < 2 ^ 63)
      → (t : ArrayList A) × (Calls.push_back zeros fresh r v ≡ ok (ArrayList.success, t))
        × IsArray t
        × (elements t ≡ elements r ++ v ∷ [])
  unfolding Calls.push_back elements segment
  push_back-last zeros fresh r v i h w =
      let (t, run, array, list) =
        insert-between zeros fresh r (λ c. v) 1 (elements r) [] i (sym (append-nil (elements r)))
          (omega arith) h w in
      let count : length (elements r) ≡ r.size = length-segment r.slots 0 r.size in
      (t, rw (rw count at run) refl, array, list)

module _ {A : Type 0} (cmp : A → A → ℤ) where
  abbrev pub IsHeap : ArrayList A → Type 0
  IsHeap r = IsHeapFrom cmp 0 r.slots r.size

  -- Only the entry at `i` may be above its parent, and not its children above that.
  record IsRising (s : ℕ → A) (n i : ℕ) : Type 0 where
    inside : i < n
    edges : (c : ℕ) → 0 < c → c < n → c ≢ i → IsLe cmp (s c) (s (parent c))
    bridged : (c : ℕ) → 0 < c → c < n → parent c ≡ i → 0 < i → IsLe cmp (s c) (s (parent i))

  module _ (order : IsOrder cmp) where
    exchange-IsRising :
        (s : ℕ → A) (n i : ℕ)
        → IsRising s n i
        → 0 < i
        → IsLe cmp (s (parent i)) (s i)
        → IsRising (exchange s (parent i) i) n (parent i)
    exchange-IsRising s n i v h le = record {
      inside = omega (arith, v.inside);
      edges = λ c p q d. ground (
        arith,
        exchange_at s (parent i) i c,
        exchange_at s (parent i) i (parent c),
        v.edges c,
        v.bridged c,
        order.trans (s c) (s (parent i)) (s i),
      );
      bridged = λ c p q d z. ground (
        arith,
        exchange_at s (parent i) i c,
        exchange_at s (parent i) i (parent (parent i)),
        v.edges c,
        v.edges (parent i),
        order.trans (s c) (s (parent i)) (s (parent (parent i))),
      );
    }

    rise-IsHeap :
        (fuel : ℕ) (r : ArrayList A) (i : ℕ)
        → i < fuel
        → IsRising r.slots r.size i
        → (s : ℕ → A) × (rise fuel cmp r i ≡ ok (record r { slots = s }))
          × IsHeapFrom cmp 0 s r.size
          × IsRearranged r.slots s r.size
    unfolding rise
    rise-IsHeap zero r i f v = absurd (omega arith)
    rise-IsHeap (suc fuel) r i f v = elim (Bool-cases (ltb 0 i)) [
      | inl e ↦
          let run = compare_at_lem cmp r (parent i) i (omega (arith, v.inside)) v.inside in
          elim (Bool-cases (is_negative (cmp (r.slots (parent i)) (r.slots i)))) [
            | inl g ↦
                let le =
                  order.asym (r.slots i) (r.slots (parent i))
                    (sym (order.flip (r.slots (parent i)) (r.slots i)) ∙ g) in
                let next = exchange r.slots (parent i) i in
                let (s, run', heap, same) =
                  rise-IsHeap fuel (record r { slots = next }) (parent i) (ground arith)
                    (exchange-IsRising r.slots r.size i v (ground arith) le) in
                let first =
                  exchange-IsRearranged r.slots (parent i) i r.size (omega (arith, v.inside))
                    v.inside in
                (s, rw (e, run) (rw g run'), heap, IsRearranged-trans first same)
            | inr g ↦ (
              r.slots,
              rw (e, run) (rw g refl),
              (λ c p q d. elim (Bool-cases (c == i)) [
                | inl k ↦
                    subst (λ b. IsLe cmp (r.slots b) (r.slots (parent b))) {x = i} {y = c}
                      (ground arith) (sym (order.flip (r.slots (parent i)) (r.slots i)) ∙ g)
                | inr k ↦ v.edges c p q (ground arith)
              ]),
              IsRearranged-refl r.slots r.size,
            )
          ]
      | inr e ↦ (
        r.slots,
        rw e refl,
        (λ c p q d. v.edges c p q (ground arith)),
        IsRearranged-refl r.slots r.size,
      )
    ]

  module _ (order : IsOrder cmp) (zeros : A) (fresh : ℕ → A) where
    -- With a total preorder, and more rounds of its loop allowed than there are elements, of which
    -- there are fewer than 2 ^ 62, and with the new one, if they are more than the capacity, fewer
    -- than 2 ^ 63 bytes, `GblArrayHeap_push` on a heap whose array list satisfies its invariant
    -- succeeds, and makes a heap of the elements that there were and the new one, whose
    -- array list satisfies the invariant.
    pub push-IsHeap :
        (fuel : ℕ) (r : ArrayList A) (v : A)
        → IsArray r
        → IsHeap r
        → r.size < 2 ^ 62
        → (r.capacity < r.size + 1 → (r.size + 1) * r.element_size < 2 ^ 63)
        → r.size < fuel
        → (r' : ArrayList A) × (push zeros fresh fuel (record { list = r; cmp = cmp }) v
            ≡ ok (success, record { list = r'; cmp = cmp }))
          × IsArray r'
          × IsHeap r'
          × Perm (elements r') (v ∷ elements r)
    unfolding push elements
    push-IsHeap fuel r v i heap h w f =
        let (s, made, roomy) = reserve-IsRoomy zeros fresh r (r.size + 1) i w in
        let (t, pushed, array, list) =
          push_back-last zeros fresh s v roomy.array (omega (arith, roomy.size))
            (λ m. absurd (omega (arith, roomy.size, roomy.room))) in
        let (written, size) =
          appended r t v (list ∙ ap (λ (xs : List A). xs ++ v ∷ []) roomy.list) in
        let rising : IsRising t.slots t.size r.size = record {
          inside = omega arith;
          edges = λ c p q d. ground (arith, written c, written (parent c), heap c);
          bridged = λ c p q d z. absurd (omega arith);
        } in
        let (slots, risen, heap', same) = rise-IsHeap order fuel t r.size f rising in
        let last : t.size - 1 ≡ r.size = omega arith in
        let sum : add_size r.size 1 ≡ r.size + 1 = omega arith in
        (
          record t { slots = slots },
          rw (sum, made) (rw pushed (rw last (rw risen refl))),
          record {
            some_bytes = array.some_bytes;
            fits = array.fits;
            roomy = array.roomy;
            not_both = array.not_both;
          },
          heap',
          Perm.trans same.same (rw (list, roomy.list) (perm_append_singleton v (elements r))),
        )
