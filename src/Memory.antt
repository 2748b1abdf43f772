-- ===== src/Memory.antt =====
-- Pointers to nodes, and chains of nodes linked through one pointer field.
--
-- An intrusive node is allocated by the caller and its address is never computed, so an address is
-- a number, a pointer field is a function from addresses to addresses, and a write through
-- `p->field = q` is `update field p q`. The run of a function that loops over nodes is a `Run`: its
-- result, a fault (a NULL pointer is dereferenced), or the end of the fuel.
pub mod Distinct
pub mod Chain
pub mod Apart
use libgimbal.Common.{ℕ, ◌==◌, if◌then◌else◌}

abbrev pub Ptr : Type 0
Ptr = ℕ

abbrev pub null : Ptr
null = 0

abbrev pub Field : Type 0
Field = Ptr → Ptr

unfoldable pub update {ℓ} : {A : Type ℓ} → (Ptr → A) → Ptr → A → Ptr → A
update f p v q = if q == p then v else f q

pub data Run {ℓ} (A : Type ℓ) : Type ℓ where
  ok : A → Run A
  fault : Run A
  out_of_fuel : Run A

infixl 5 ◌>>=◌
abbrev pub ◌>>=◌ {ℓ κ} : {A : Type ℓ} {B : Type κ} → Run A → (A → Run B) → Run B
ok a >>= f = f a
fault >>= f = fault
out_of_fuel >>= f = out_of_fuel
