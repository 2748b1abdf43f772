-- ===== src/Ref/Live.antt =====
-- Releasing a reference until it is freed.
use libgimbal.Common.{
  ℕ, zero, suc, ◌^◌, ◌<◌, ◌≡◌, ◌≢◌, refl, ap, true, false, arith, if◌then◌else◌, ◌==◌, ==_ne,
  Option, none, some,
}
use libgimbal.Memory.{Ptr, null, update, Run, ok, ◌>>=◌}
use libgimbal.Ref.{
  Store, Destructor, add_one, sub_one, free_header, revive, destroy, release_with_dtor,
}

-- Releasing `n` times, and the last result.
abbrev pub release_times : ℕ → Ptr → Option Destructor → Store → Run (ℕ × Store)
release_times zero p dtor s = ok (s.counts p, s)
release_times (suc n) p dtor s = do
  (count, s') ← release_with_dtor p dtor s
  let last = ok (count, s')
  if n == 0 then last else release_times n p dtor s'

-- A destructor, if there is one, that succeeds and leaves the references alone.
abbrev pub Succeeds : Option Destructor → Ptr → Type 0
Succeeds none p = Unit
Succeeds (some dtor) p = (t : Store) → dtor p t ≡ ok (true, t)

destroy_lem :
    (p : Ptr) (dtor : Option Destructor) (s : Store)
    → Succeeds dtor p
    → destroy p dtor s ≡ free_header p s
unfolding destroy
destroy_lem p none s h = refl
destroy_lem p (some dtor) s h = rw (h s) refl

module _ (p : Ptr) (dtor : Option Destructor) where
  counted : ℕ → Store → Store
  counted n s = record s { counts = update s.counts p n }

  freed : Store → Store
  freed s = record s {
    counts = update s.counts p 0;
    live = update s.live p false;
    active = sub_one s.active;
  }

  release-more :
      (s : Store) (n : ℕ)
      → p ≢ null
      → s.live p ≡ true
      → s.counts p ≡ suc (suc n)
      → suc n < 2 ^ 16
      → release_with_dtor p dtor s ≡ ok (suc n, counted (suc n) s)
  unfolding release_with_dtor counted
  release-more s n d l e h =
      let fewer : sub_one (s.counts p) ≡ suc n = omega (arith, e) in
      let some_left : (suc n == 0) ≡ false = ground arith in rw (==_ne d, l, fewer, some_left) refl

  release-last :
      (s : Store)
      → p ≢ null
      → s.live p ≡ true
      → s.counts p ≡ 1
      → 0 < s.active
      → Succeeds dtor p
      → release_with_dtor p dtor s ≡ ok (0, freed s)
  unfolding release_with_dtor free_header freed counted
  release-last s d l e a good =
      let fewer : sub_one (s.counts p) ≡ 0 = omega (arith, e) in
      let some_active : (s.active == 0) ≡ false = ground arith in
      rw (==_ne d, l, fewer, some_active) (rw (destroy_lem p dtor (counted 0 s) good) (rw l refl))

  -- Releasing a reference that is allocated, is not NULL, and has a count of n + 1, below 2 ^ 16, while
  -- some are active, n + 1 times, with a destructor, if any, that succeeds and leaves the references
  -- alone, frees it at the last one, which returns 0.
  pub release_times-frees :
      (n : ℕ) (s : Store)
      → p ≢ null
      → s.live p ≡ true
      → s.counts p ≡ suc n
      → suc n < 2 ^ 16
      → 0 < s.active
      → Succeeds dtor p
      → (t : Store) × (release_times (suc n) p dtor s ≡ ok (0, t))
        × (t.live p ≡ false)
        × (t.active ≡ sub_one s.active)
  unfolding counted freed update
  release_times-frees zero s d l e h a good =
      (freed s, rw (release-last s d l e a good) refl, ground arith, refl)
  release_times-frees (suc n) s d l e h a good =
      let (t, run, gone, count) =
        release_times-frees n (counted (suc n) s) d l (ground arith) (omega arith) a good in
      let some_left : (suc n == 0) ≡ false = ground arith in
      (t, rw (release-more s n d l e (omega arith)) (rw some_left run), gone, count)

-- Releasing the last hold on a reference that is allocated and not NULL, while some are active, with a
-- destructor that fails and leaves the references alone, does not free it: the result is 1, and all
-- counts, the references allocated and the number of active ones are as before.
pub release_with_dtor-revives :
    (p : Ptr) (dtor : Destructor) (s : Store)
    → p ≢ null
    → s.live p ≡ true
    → s.counts p ≡ 1
    → 0 < s.active
    → ((t : Store) → dtor p t ≡ ok (false, t))
    → (t : Store) × (release_with_dtor p (some dtor) s ≡ ok (1, t))
      × ((q : Ptr) → t.counts q ≡ s.counts q)
      × (t.live ≡ s.live)
      × (t.active ≡ s.active)
unfolding release_with_dtor destroy revive update
release_with_dtor-revives p dtor s d l e a fails =
    let fewer : sub_one (s.counts p) ≡ 0 = omega (arith, e) in
    let some_active : (s.active == 0) ≡ false = ground arith in
    let released : Store = record s { counts = update s.counts p 0 } in
    let back : add_one (released.counts p) ≡ 1 = ground arith in
    (
      record released { counts = update released.counts p 1 },
      rw (==_ne d, l, fewer, some_active) (rw (fails released, l, back) refl),
      (λ q. ground (arith, ap s.counts {x = q} {y = p})),
      refl,
      refl,
    )
