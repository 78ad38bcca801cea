-- ===== src/Base/Map/Weight.antt =====
-- Sums over a family whose keys are distinct.
use Prim.Native.Nat.{ℕ, ◌+◌, ◌≤◌}
use agentcall.Base.Tests.{Equality}
use agentcall.Base.Map.{lookup, put, delete}
use agentcall.Base.Map.Laws.{lookup-put, lookup-delete}
use mathlib.Core.Path.{◌≡◌, refl}
use mathlib.Core.Option.{Option, none, some}
use mathlib.Core.List.{List, [], ◌∷◌}
use native.Mathlib.Omega.{arith}

abbrev pub weight_of {κ} : {V : Type κ} → (V → ℕ) → Option V → ℕ
weight_of f none = 0
weight_of f (some v) = f v

module _ {ℓ κ} {K : Type ℓ} {V : Type κ} ⦃e : Equality K⦄ where
  abbrev pub Distinct : List (K × V) → Type κ
  Distinct [] = Unit
  Distinct ((k, v) ∷ m) = (lookup k m ≡ none) × Distinct m

  unfoldable pub weight : (V → ℕ) → List (K × V) → ℕ
  weight f [] = 0
  weight f ((k, v) ∷ m) = f v + weight f m

  pub Distinct-put : (k : K) (v : V) (m : List (K × V)) → Distinct m → Distinct (put k v m)
  unfolding put lookup
  Distinct-put k v [] d = (refl, tt)
  Distinct-put k v ((j, w) ∷ m) d =
      ground (arith, e.equal_iff j k, e.equal_iff k j, lookup-put k j v m, Distinct-put k v m d.1)

  pub Distinct-delete : (k : K) (m : List (K × V)) → Distinct m → Distinct (delete k m)
  unfolding delete
  Distinct-delete k [] d = tt
  Distinct-delete k ((j, w) ∷ m) d = ground (arith, lookup-delete k j m, Distinct-delete k m d.1)

  pub weight-put :
      (f : V → ℕ) (k : K) (v : V) (m : List (K × V))
      → weight f (put k v m) + weight_of f (lookup k m) ≡ weight f m + f v
  unfolding weight put lookup
  weight-put f k v [] = omega arith
  weight-put f k v ((j, w) ∷ m) = ground (arith, weight-put f k v m)

  delete_absent : (k : K) (m : List (K × V)) → lookup k m ≡ none → delete k m ≡ m
  unfolding delete lookup
  delete_absent k [] h = refl
  delete_absent k ((j, w) ∷ m) h = ground (arith, delete_absent k m)

  pub weight-delete :
      (f : V → ℕ) (k : K) (m : List (K × V))
      → Distinct m
      → weight f (delete k m) + weight_of f (lookup k m) ≡ weight f m
  unfolding weight delete lookup
  weight-delete f k [] d = omega arith
  weight-delete f k ((j, w) ∷ m) d =
      ground (arith, e.equal_iff j k, delete_absent k m, weight-delete f k m d.1)

  -- An entry weighs no more than the family.
  pub weight_of-le-weight :
      (f : V → ℕ) (k : K) (m : List (K × V)) → Distinct m → weight_of f (lookup k m) ≤ weight f m
  weight_of-le-weight f k m d = omega (arith, weight-delete f k m d)
