-- ===== src/Base/Loops.antt =====
-- The loop that collects what it selects from a slice, up to a limit.
use Prim.Native.Nat.{ℕ, zero, suc, ◌+◌, ◌≤◌}
use mathlib.Core.Path.{◌≡◌, refl}
use mathlib.Core.Bool.{Bool, true, false}
use mathlib.Core.Option.{Option, none, some}
use mathlib.Core.List.{List, [], ◌∷◌}
use native.Mathlib.Omega.{arith}
use payment_service.Base.Tests.{◌==◌, if◌then◌else◌}
use payment_service.Base.Lists.{take, All}

module _ {ℓ κ} {A : Type ℓ} {B : Type κ} (select : A → Option B) where
  -- With the number of elements collected so far: `break` once they are as many as the limit.
  unfoldable pub collect_from : ℕ → ℕ → List A → List B
  collect_from limit n [] = []
  collect_from limit n (x ∷ xs) =
      let skipped = collect_from limit n xs in
      let rest = collect_from limit (n + 1) xs in
      elim (select x) [ none ↦ skipped | some y ↦ y ∷ (if n + 1 == limit then [] else rest) ]

  abbrev pub select_all : List A → List B
  select_all [] = []
  select_all (x ∷ xs) = elim (select x) [ none ↦ select_all xs | some y ↦ y ∷ select_all xs ]

  collect_from-eq-take :
      (limit n k : ℕ) (xs : List A)
      → n + suc k ≡ limit
      → collect_from limit n xs ≡ take (suc k) (select_all xs)
  unfolding collect_from
  collect_from-eq-take limit n k [] h = refl
  collect_from-eq-take limit n zero (x ∷ xs) h =
      ground (arith, collect_from-eq-take limit n zero xs h)
  collect_from-eq-take limit n (suc k) (x ∷ xs) h =
      ground
        (arith, collect_from-eq-take limit n (suc k) xs h, collect_from-eq-take limit (n + 1) k xs)

  chosen-All :
      {P : B → Type κ} (o : Option B) (last : Bool) (skipped rest : List B)
      → ((y : B) → o ≡ some y → P y)
      → All P skipped
      → All P rest
      → All P (elim o [ none ↦ skipped | some y ↦ y ∷ (if last then [] else rest) ])
  chosen-All none last skipped rest h hs hr = hs
  chosen-All (some y) true skipped rest h hs hr = (h y refl, tt)
  chosen-All (some y) false skipped rest h hs hr = (h y refl, hr)

  collect_from-All :
      {P : B → Type κ} (limit n : ℕ) (xs : List A)
      → ((x : A) (y : B) → select x ≡ some y → P y)
      → All P (collect_from limit n xs)
  unfolding collect_from
  collect_from-All limit n [] h = tt
  collect_from-All limit n (x ∷ xs) h =
      chosen-All (select x) (n + 1 == limit) (collect_from limit n xs)
        (collect_from limit (n + 1) xs) (h x) (collect_from-All limit n xs h)
        (collect_from-All limit (n + 1) xs h)

  unfoldable pub collect : ℕ → List A → List B
  unfolding collect_from
  collect limit xs = collect_from limit 0 xs

  pub collect-eq-take :
      (limit : ℕ) (xs : List A) → 1 ≤ limit → collect limit xs ≡ take limit (select_all xs)
  unfolding collect
  collect-eq-take zero xs h = absurd (omega arith)
  collect-eq-take (suc k) xs h = collect_from-eq-take (suc k) 0 k xs (omega arith)

  -- A property of everything selected is one of everything collected.
  pub collect-All :
      {P : B → Type κ} (limit : ℕ) (xs : List A)
      → ((x : A) (y : B) → select x ≡ some y → P y)
      → All P (collect limit xs)
  unfolding collect
  collect-All {P} limit xs h = collect_from-All limit 0 xs h
