-- ===== src/ArrayList/Calls.antt =====
-- The functions of array lists that pass their arguments on: the constructors with fewer of them, and
-- those that insert and erase at the ends.
use libgimbal.Common.{ℕ, ◌-◌, ◌^◌, Bool, true, false, Option, none, some, if◌then◌else◌}
use libgimbal.Memory.{Run, ok, fault, ◌>>=◌}
use libgimbal.ArrayList.{
  ArrayList, Result, success, invalid_arg, out_of_range, add_size, at, construct_7, insert, erase,
}

module _ {A : Type 0} where
  -- `wanted` tells whether `pOut` is not NULL; the element that it gets comes with the result.
  unfoldable pub read : ArrayList A → (wanted : Bool) (index : ℕ) → Run (Option A)
  read r wanted index =
      if wanted
      then elim (at r index) [ some slot ↦ ok (some (r.slots slot)) | none ↦ fault ]
      else ok none

  -- Insertion at either end fails only for no elements.
  abbrev result : Option ℕ × ArrayList A → Result × ArrayList A
  result (some slot, r) = (success, r)
  result (none, r) = (invalid_arg, r)

module _ {A : Type 0} (zeros : A) (fresh : ℕ → A) where
  -- Without a context.
  pub construct_6 :
      (old : ArrayList A) (element_size count : ℕ) (source : Option (ℕ → A)) (extra : Option ℕ)
      (zero_terminated : Bool)
      → Run (Result × ArrayList A)
  construct_6 old element_size count source extra zero_terminated =
      construct_7 zeros fresh old element_size count source extra zero_terminated

  pub construct_5 :
      (old : ArrayList A) (element_size count : ℕ) (source : Option (ℕ → A)) (extra : Option ℕ)
      → Run (Result × ArrayList A)
  construct_5 old element_size count source extra =
      construct_6 old element_size count source extra false

  pub construct_4 :
      (old : ArrayList A) (element_size count : ℕ) (source : Option (ℕ → A))
      → Run (Result × ArrayList A)
  construct_4 old element_size count source = construct_5 old element_size count source (some 0)

  pub construct_3 : (old : ArrayList A) (element_size count : ℕ) → Run (Result × ArrayList A)
  construct_3 old element_size count = construct_4 old element_size count none

  pub construct_2 : (old : ArrayList A) (element_size : ℕ) → Run (Result × ArrayList A)
  construct_2 old element_size = construct_3 old element_size 0

  -- Whether the pointer to the structure is returned, or NULL.
  pub create_in_place :
      (old : ArrayList A) (element_size count : ℕ) (source : Option (ℕ → A)) (extra : Option ℕ)
      (zero_terminated : Bool)
      → Run (Bool × ArrayList A)
  create_in_place old element_size count source extra zero_terminated = do
    (result, made) ← construct_7 zeros fresh old element_size count source extra zero_terminated
    ok (elim result [
      | success ↦ (true, made)
      | invalid_arg ↦ (false, made)
      | out_of_range ↦ (false, made)
    ])

  unfoldable pub pop_front : ArrayList A → (wanted : Bool) → Run (Option A × (Result × ArrayList A))
  pop_front r wanted = do
    element ← read r wanted 0
    erased ← erase zeros fresh r 0 1
    ok (element, erased)

  pub pop_back : ArrayList A → (wanted : Bool) → Run (Option A × (Result × ArrayList A))
  pop_back r wanted = do
    element ← read r wanted (add_size r.size (2 ^ 64 - 1))
    erased ← erase zeros fresh r (add_size r.size (2 ^ 64 - 1)) 1
    ok (element, erased)

  pub append : ArrayList A → (source : Option (ℕ → A)) (count : ℕ) → Run (Result × ArrayList A)
  append r source count = do
    inserted ← insert zeros fresh r r.size count source
    ok (result inserted)

  pub prepend : ArrayList A → (source : Option (ℕ → A)) (count : ℕ) → Run (Result × ArrayList A)
  prepend r source count = do inserted ← insert zeros fresh r 0 count source; ok (result inserted)

  unfoldable pub push_back : ArrayList A → A → Run (Result × ArrayList A)
  push_back r v = do inserted ← insert zeros fresh r r.size 1 (some (λ i. v)); ok (result inserted)

  pub push_front : ArrayList A → A → Run (Result × ArrayList A)
  push_front r v = do inserted ← insert zeros fresh r 0 1 (some (λ i. v)); ok (result inserted)

  pub emplace_back : ArrayList A → Run (Option ℕ × ArrayList A)
  emplace_back r = insert zeros fresh r r.size 1 none

  pub emplace_front : ArrayList A → Run (Option ℕ × ArrayList A)
  emplace_front r = insert zeros fresh r 0 1 none

  pub emplace : ArrayList A → ℕ → Run (Option ℕ × ArrayList A)
  emplace r index = insert zeros fresh r index 1 none
