-- ===== src/Ref/Tests.antt =====
-- The theorems on references at one that is allocated.
use libgimbal.Common.{ℕ, ◌≡◌, ◌<◌, ◌==◌, refl, true, false, arith, none, some, List, [], length}
use libgimbal.Memory.{Ptr, null, ok}
use libgimbal.Ref.{
  Store, sub_one, Destructor, alloc_with_context, active_count, release, release_with_dtor,
}
use libgimbal.Ref.Counted.{
  allocated, Reach, here, next, member, AreDifferent, IsCounted, Reach-counts,
}
use libgimbal.Ref.Live.{release_times, release_times-frees, release_with_dtor-revives}

abbrev nothing : Store
nothing = record { counts = λ p. 0; contexts = λ p. null; live = λ p. false; active = 0 }

abbrev one : Store
one = (alloc_with_context 8 null 64 nothing).1

abbrev two_holds : Store
two_holds = record { counts = λ p. 2; contexts = λ p. null; live = λ p. p == 64; active = 1 }

abbrev one_hold : Store
one_hold = record two_holds { counts = λ p. 1 }

abbrev failing : Destructor
failing p s = ok (false, s)

nothing-IsCounted : IsCounted nothing []
nothing-IsCounted = record {
  different = tt;
  allocated = λ p. refl;
  count = refl;
  small = omega arith;
  positive = λ p l. cc;
  not_null = refl;
}

one-Reach : Reach nothing one
unfolding alloc_with_context
one-Reach = next here (allocated 8 null 64 (omega arith) (λ e. omega arith) refl (omega arith) refl)

Reach-counts_example :
    (qs : List Ptr) × (active_count one ≡ length qs)
    × ((p : Ptr) → one.live p ≡ member p qs)
    × AreDifferent qs
    × ((p : Ptr) → one.live p ≡ true → 0 < one.counts p)
    × ((p : Ptr) → one.live p ≡ true → (n : ℕ) × (u : Store) × (release p one ≡ ok (n, u)))
Reach-counts_example = Reach-counts nothing one [] nothing-IsCounted one-Reach

release_times-frees_example :
    (t : Store) × (release_times 2 64 none two_holds ≡ ok (0, t))
    × (t.live 64 ≡ false)
    × (t.active ≡ sub_one two_holds.active)
release_times-frees_example =
    release_times-frees 64 none 1 two_holds (λ e. omega arith) refl refl (omega arith) (omega arith)
      tt

release_with_dtor-revives_example :
    (t : Store) × (release_with_dtor 64 (some failing) one_hold ≡ ok (1, t))
    × ((q : Ptr) → t.counts q ≡ one_hold.counts q)
    × (t.live ≡ one_hold.live)
    × (t.active ≡ one_hold.active)
release_with_dtor-revives_example =
    release_with_dtor-revives 64 failing one_hold (λ e. omega arith) refl refl (omega arith)
      (λ t. refl)
