-- ===== src/Ref/Counted.antt =====
-- What any sequence of allocations, acquisitions and releases keeps: the number of references
-- allocated is the count of active ones, and each of them has a count that is not 0.
use libgimbal.Common.{
  ℕ, suc, ◌+◌, ◌-◌, ◌^◌, ◌<◌, ◌≡◌, ◌≢◌, refl, ap, sym, ◌∙◌, Bool, true, false, inl, inr, arith,
  if◌then◌else◌, Bool-cases, ==_iff, ◌==◌, ==_ne, List, [], ◌∷◌, length,
}
use libgimbal.Memory.{Ptr, null, update, ok, fault, out_of_fuel}
use libgimbal.Ref.{
  Store, add_one, sub_one, alloc_with_context, free_header, destroy, release_with_dtor, release,
  acquire, active_count,
}

-- What a program does that holds references: no reference is used that is not allocated, and no
-- counter reaches 2 ^ 16.
pub data Step (s t : Store) : Type 0 where
  allocated :
      (size : ℕ) (ctx memory : Ptr)
      → 0 < size
      → memory ≢ null
      → s.live memory ≡ false
      → s.active + 1 < 2 ^ 16
      → alloc_with_context size ctx memory s ≡ (memory, t)
      → Step s t
  acquired :
      (p : Ptr) → s.live p ≡ true → s.counts p + 1 < 2 ^ 16 → acquire p s ≡ ok (p, t) → Step s t
  released : (p : Ptr) (n : ℕ) → s.live p ≡ true → release p s ≡ ok (n, t) → Step s t

pub data Reach (s : Store) : Store → Type 0 where
  here : Reach s s
  next : {m t : Store} → Reach s m → Step m t → Reach s t

-- Whether `p` is one of `ps`, and the others.
abbrev pub member : Ptr → List Ptr → Bool
member p [] = false
member p (q ∷ ps) = if p == q then true else member p ps

abbrev without : Ptr → List Ptr → List Ptr
without p [] = []
without p (q ∷ ps) = if p == q then ps else q ∷ without p ps

abbrev pub AreDifferent : List Ptr → Type 0
AreDifferent [] = Unit
AreDifferent (p ∷ ps) = (member p ps ≡ false) × AreDifferent ps

-- `ps` are the references allocated.
pub record IsCounted (s : Store) (ps : List Ptr) : Type 0 where
  pub different : AreDifferent ps
  pub allocated : (p : Ptr) → s.live p ≡ member p ps
  pub count : s.active ≡ length ps
  pub small : length ps < 2 ^ 16
  pub positive : (p : Ptr) → s.live p ≡ true → (0 < s.counts p) × (s.counts p < 2 ^ 16)
  pub not_null : s.live null ≡ false

member-without :
    (p : Ptr) (ps : List Ptr) (q : Ptr)
    → AreDifferent ps
    → member q (without p ps) ≡ (if q == p then false else member q ps)
member-without p [] q d = ground arith
member-without p (r ∷ ps) q d = ground (arith, member-without p ps q d.1)

without-AreDifferent : (p : Ptr) (ps : List Ptr) → AreDifferent ps → AreDifferent (without p ps)
without-AreDifferent p [] d = tt
without-AreDifferent p (q ∷ ps) d = elim (Bool-cases (p == q)) [
  | inl e ↦ rw e d.1
  | inr e ↦ rw e (ground (arith, member-without p ps q d.1), without-AreDifferent p ps d.1)
]

length-without :
    (p : Ptr) (ps : List Ptr) → member p ps ≡ true → suc (length (without p ps)) ≡ length ps
length-without p [] h = absurd cc
length-without p (q ∷ ps) h = ground (arith, length-without p ps)

module _ (s : Store) (ps : List Ptr) (i : IsCounted s ps) where
  made : (ctx memory : Ptr) → Store
  made ctx memory = record s {
    counts = update s.counts memory 1;
    contexts = update s.contexts memory ctx;
    live = update s.live memory true;
    active = add_one s.active;
  }

  made-IsCounted :
      (ctx memory : Ptr)
      → memory ≢ null
      → s.live memory ≡ false
      → s.active + 1 < 2 ^ 16
      → IsCounted (made ctx memory) (memory ∷ ps)
  unfolding made update
  made-IsCounted ctx memory n f h = record {
    different = (sym (i.allocated memory) ∙ f, i.different);
    allocated = λ p. ground (arith, i.allocated p);
    count = omega (arith, i.count);
    small = omega (arith, i.count);
    positive = λ p l. ground (arith, i.positive p);
    not_null = ground (arith, i.not_null);
  }

  counted : Ptr → ℕ → Store
  counted p n = record s { counts = update s.counts p n }

  counted-IsCounted : (p : Ptr) (n : ℕ) → 0 < n → n < 2 ^ 16 → IsCounted (counted p n) ps
  unfolding counted update
  counted-IsCounted p n h l = record {
    different = i.different;
    allocated = i.allocated;
    count = i.count;
    small = i.small;
    positive = λ q m. ground (arith, i.positive q);
    not_null = i.not_null;
  }

  freed : Ptr → Store
  freed p = record s {
    counts = update s.counts p 0;
    live = update s.live p false;
    active = sub_one s.active;
  }

  freed-IsCounted : (p : Ptr) → s.live p ≡ true → IsCounted (freed p) (without p ps)
  unfolding freed update
  freed-IsCounted p l =
      let fewer = length-without p ps (sym (i.allocated p) ∙ l) in
      record {
        different = without-AreDifferent p ps i.different;
        allocated = λ q. ground (arith, i.allocated q, member-without p ps q i.different);
        count = omega (arith, i.count, i.small, fewer);
        small = omega (arith, i.small, fewer);
        positive = λ q m. ground (arith, i.positive q);
        not_null = ground (arith, i.not_null);
      }

  live-not_null : (p : Ptr) → s.live p ≡ true → p ≢ null
  live-not_null p l e = absurd (ground (arith, i.not_null, ap s.live e))

  -- What releasing does to a reference, by its count.
  release-more :
      (p : Ptr)
      → s.live p ≡ true
      → 1 < s.counts p
      → release p s ≡ ok (s.counts p - 1, counted p (s.counts p - 1))
  unfolding release release_with_dtor counted
  release-more p l h =
      let fewer : sub_one (s.counts p) ≡ s.counts p - 1 = omega (arith, i.positive p l) in
      let some_left : (s.counts p - 1 == 0) ≡ false = ground arith in
      rw (==_ne (live-not_null p l), l, fewer, some_left) refl

  release-last : (p : Ptr) → s.live p ≡ true → s.counts p ≡ 1 → release p s ≡ ok (0, freed p)
  unfolding release release_with_dtor destroy free_header freed
  release-last p l h =
      let fewer : sub_one (s.counts p) ≡ 0 = omega (arith, h) in
      let some_active : (s.active == 0) ≡ false =
        ground (arith, i.count, length-without p ps (sym (i.allocated p) ∙ l)) in
      rw (==_ne (live-not_null p l), l, fewer, some_active) refl

  acquire_lem :
      (p : Ptr)
      → s.live p ≡ true
      → s.counts p + 1 < 2 ^ 16
      → acquire p s ≡ ok (p, counted p (s.counts p + 1))
  unfolding acquire counted
  acquire_lem p l h =
      let more : add_one (s.counts p) ≡ s.counts p + 1 = omega arith in
      rw (==_ne (live-not_null p l), l, more) refl

  alloc_lem :
      (size : ℕ) (ctx memory : Ptr)
      → 0 < size
      → memory ≢ null
      → alloc_with_context size ctx memory s ≡ (memory, made ctx memory)
  unfolding alloc_with_context made
  alloc_lem size ctx memory h n =
      let some_size : (size == 0) ≡ false = ground arith in rw (some_size, ==_ne n) refl

  release-IsCounted :
      (p : Ptr)
      → s.live p ≡ true
      → (n : ℕ) × (t : Store) × (qs : List Ptr) × (release p s ≡ ok (n, t)) × IsCounted t qs
  release-IsCounted p l = elim (Bool-cases (s.counts p == 1)) [
    | inl e ↦ (
      0,
      freed p,
      without p ps,
      release-last p l ((==_iff (s.counts p) 1).0 e),
      freed-IsCounted p l,
    )
    | inr e ↦
        let more : 1 < s.counts p = ground (arith, i.positive p l) in
        (
          s.counts p - 1,
          counted p (s.counts p - 1),
          ps,
          release-more p l more,
          counted-IsCounted p (s.counts p - 1) (omega arith) (omega (arith, i.positive p l)),
        )
  ]

ok_inj : {A : Type 0} {x y : A} → ok x ≡ ok y → x ≡ y
ok_inj {A} {x} e = ap (λ r. elim r [ ok z ↦ z | fault ↦ x | out_of_fuel ↦ x ]) e

Step-IsCounted :
    (s t : Store) (ps : List Ptr) → IsCounted s ps → Step s t → (qs : List Ptr) × IsCounted t qs
Step-IsCounted s t ps i (allocated size ctx memory h n f small e) =
    let same : t ≡ made s ps i ctx memory =
      ap (λ r. r.1) (sym e ∙ alloc_lem s ps i size ctx memory h n) in
    (memory ∷ ps, rw same (made-IsCounted s ps i ctx memory n f small))
Step-IsCounted s t ps i (acquired p l small e) =
    let same : t ≡ counted s ps i p (s.counts p + 1) =
      ap (λ r. r.1) (ok_inj (sym e ∙ acquire_lem s ps i p l small)) in
    (ps, rw same (counted-IsCounted s ps i p (s.counts p + 1) (omega arith) small))
Step-IsCounted s t ps i (released p n l e) =
    let (m, u, qs, run, j) = release-IsCounted s ps i p l in
    let same : t ≡ u = ap (λ r. r.1) (ok_inj (sym e ∙ run)) in (qs, rw same j)

Reach-IsCounted :
    (s t : Store) (ps : List Ptr) → IsCounted s ps → Reach s t → (qs : List Ptr) × IsCounted t qs
Reach-IsCounted s t ps i here = (ps, i)
Reach-IsCounted s t ps i (next {m} r st) =
    let (qs, j) = Reach-IsCounted s m ps i r in Step-IsCounted m t qs j st

-- From a store in which the references `ps` are allocated and counted, any sequence of allocations
-- that get memory, acquisitions and releases of references that are allocated, in which no counter
-- reaches 2 ^ 16, leads to one in which the count of active references is the number of those that are
-- allocated, each with a count that is not 0, and in which releasing any of them does not fault.
pub Reach-counts :
    (s t : Store) (ps : List Ptr)
    → IsCounted s ps
    → Reach s t
    → (qs : List Ptr) × (active_count t ≡ length qs)
      × ((p : Ptr) → t.live p ≡ member p qs)
      × AreDifferent qs
      × ((p : Ptr) → t.live p ≡ true → 0 < t.counts p)
      × ((p : Ptr) → t.live p ≡ true → (n : ℕ) × (u : Store) × (release p t ≡ ok (n, u)))
Reach-counts s t ps i r =
    let (qs, j) = Reach-IsCounted s t ps i r in
    (
      qs,
      j.count,
      j.allocated,
      j.different,
      (λ p l. (j.positive p l).0),
      (λ p l. let (n, u, rest, run, k) = release-IsCounted t qs j p l in (n, u, run)),
    )
