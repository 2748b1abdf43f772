-- ===== src/ArrayDeque/Ends.antt =====
-- Adding and removing elements at the back of a deque.
use mathlib.Core.Path.{subst}
use libgimbal.Common.{
  ℕ, suc, ◌+◌, ◌*◌, ◌-◌, ◌%◌, ◌^◌, ◌≤◌, ◌<◌, ◌≡◌, ap, sym, ◌∙◌, inl, inr, List, [], ◌∷◌, ◌++◌,
  arith, false, some, none, length, length-append,
}
use libgimbal.Memory.{Run, ok, ◌>>=◌}
use libgimbal.RingBuffer.{RingBuffer, success, out_of_range, store, add_size}
use libgimbal.RingBuffer as Ring
use libgimbal.RingBuffer.Inv.{IsValid, items, contents, length-items}
use libgimbal.RingBuffer.Items.{latest-small, items-snoc}
use libgimbal.RingBuffer.Refine.{empty_lem, push_back_lem, back_lem, push_back-latest}
use libgimbal.ArrayDeque.{ArrayDeque, reserve, reserve_, pop_back, emplace_back, push_back}
use libgimbal.ArrayDeque.Reserve.{IsReserved, reserve-IsReserved}
use libgimbal.ArrayDeque.Grow.{IsDeque}

module _ {A : Type 0} where
  pub length-contents : (r : ArrayDeque A) → length (contents r) ≡ r.size
  unfolding contents
  length-contents r = length-items r.slots r.capacity r.front_pos r.size

  IsDeque-IsValid : (r : ArrayDeque A) → IsDeque r → 0 < r.capacity → IsValid r
  IsDeque-IsValid r i h = record {
    some_slot = h;
    small = i.small;
    fits = i.fits;
    front_in = omega (arith, i.front_in);
    storage = i.storage;
  }

  IsValid-IsDeque :
      (r r' : ArrayDeque A) → IsDeque r → IsValid r' → r'.capacity ≡ r.capacity → IsDeque r'
  IsValid-IsDeque r r' i v e = record {
    small = v.small;
    fits = v.fits;
    front_in = omega (arith, v.front_in);
    storage = v.storage;
    rounded = elim i.rounded [ inl z ↦ inl (e ∙ z) | inr power ↦ inr (power.0, e ∙ power.1) ];
  }

  -- Room for one more: an empty deque has a slot or starts at the first.
  pub one_more :
      (r : ArrayDeque A) (fresh : ℕ → A)
      → IsDeque r
      → r.size < 2 ^ 63
      → (r.capacity < r.size + 1 → 0 < r.element_size)
      → (r.capacity < r.size + 1 → (r.size + 1) * r.element_size < 2 ^ 63)
      → (r' : ArrayDeque A) × (reserve_ r fresh (add_size r.size 1) false ≡ ok r')
        × IsReserved r r' (r.size + 1)
  unfolding reserve
  one_more r fresh i h p w =
      subst
        (λ n.
          (r' : ArrayDeque A) × (reserve_ r fresh n false ≡ ok r') × IsReserved r r' (r.size + 1))
        {x = r.size + 1} {y = add_size r.size 1} (omega arith)
        (reserve-IsReserved r fresh (r.size + 1) i (λ l e. omega (arith, i.front_in, i.fits)) p w)

  push_back-ring :
      (r : ArrayDeque A) (fresh : ℕ → A) (v : A) (s : ArrayDeque A)
      → reserve_ r fresh (add_size r.size 1) false ≡ ok s
      → push_back r fresh v ≡ Ring.push_back s v
  unfolding push_back emplace_back
  push_back-ring r fresh v s e =
      let finish = λ (m : Run (ArrayDeque A)). (m >>= (λ r'. Ring.emplace_back r')) >>= (λ p.
        ok (elim p.0 [ some slot ↦ (success, store slot v p.1) | none ↦ (out_of_range, p.1) ])) in
      ap finish e ∙ sym (push_back_lem s v)

  -- `GblArrayDeque_pushBack` on a deque that satisfies the invariant and has fewer than 2 ^ 63
  -- elements, and, if it is full, elements of at least one byte, which with the new one have fewer
  -- than 2 ^ 63 bytes, succeeds, preserves the invariant and appends the element; it drops none.
  pub push_back-contents :
      (r : ArrayDeque A) (fresh : ℕ → A) (v : A)
      → IsDeque r
      → r.size < 2 ^ 63
      → (r.capacity < r.size + 1 → 0 < r.element_size)
      → (r.capacity < r.size + 1 → (r.size + 1) * r.element_size < 2 ^ 63)
      → (r' : ArrayDeque A) × (push_back r fresh v ≡ ok (success, r'))
        × IsDeque r'
        × (contents r' ≡ contents r ++ v ∷ [])
  push_back-contents r fresh v i h p w =
      let (s, run, made) = one_more r fresh i h p w in
      let (r', pushed, valid, same, list) =
        push_back-latest s v (IsDeque-IsValid s made.deque (omega (arith, made.room))) in
      let few : length (contents s ++ v ∷ []) ≤ s.capacity =
        omega
          (arith, length-append (contents s) (v ∷ []), length-contents s, made.room, made.size) in
      (
        r',
        push_back-ring r fresh v s run ∙ pushed,
        IsValid-IsDeque s r' made.deque valid same,
        list
            ∙ latest-small s.capacity (contents s ++ v ∷ []) few
            ∙ ap (λ (xs : List A). xs ++ v ∷ []) made.list,
      )

  -- `GblArrayDeque_popBack` on a deque that satisfies the invariant and has an element returns the
  -- slot that holds the last, and leaves the others in their order. It preserves the invariant.
  pub pop_back-last :
      (r : ArrayDeque A)
      → IsDeque r
      → 0 < r.size
      → (slot : ℕ) × (r' : ArrayDeque A) × (pop_back r ≡ ok (some slot, r'))
        × IsDeque r'
        × (contents r ≡ contents r' ++ r.slots slot ∷ [])
  unfolding pop_back contents
  pop_back-last r i h = (
    (r.front_pos + (r.size - 1)) % r.capacity,
    record r { size = r.size - 1 },
    ground (arith, empty_lem r h, back_lem r (IsDeque-IsValid r i (omega (arith, i.fits))) h),
    record {
      small = i.small;
      fits = omega (arith, i.fits);
      front_in = i.front_in;
      storage = i.storage;
      rounded = i.rounded;
    },
    ap (items r.slots r.capacity r.front_pos) {x = r.size} {y = suc (r.size - 1)} (omega arith)
        ∙ items-snoc r.slots r.capacity r.front_pos (r.size - 1),
  )
