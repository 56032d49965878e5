-- ===== src/Common/Maps.antt =====
-- Go's `map[K]V` as an association list: the first entry with a key is the map's value there.
use click_dog.Common.Tests.{if◌then◌else◌}
use click_dog.Common.Sets.{Equality}
use mathlib.Core.Path.{◌≡◌, refl}
use mathlib.Core.Bool.{Bool}
use mathlib.Core.Option.{Option, none, some}
use mathlib.Core.List.{List, [], ◌∷◌}
use native.Mathlib.Omega.{arith}

module _ {ℓ κ} {K : Type ℓ} {V : Type κ} ⦃q : Equality K⦄ where
  unfoldable pub lookup : K → List (K × V) → Option V
  lookup k [] = none
  lookup k ((j, v) ∷ m) = if q.same j k then some v else lookup k m

  -- `m[k]`, with the zero value for a missing key.
  unfoldable pub lookup_or : V → K → List (K × V) → V
  lookup_or d k [] = d
  lookup_or d k ((j, v) ∷ m) = if q.same j k then v else lookup_or d k m

  -- `m[k] = v`
  unfoldable pub put : K → V → List (K × V) → List (K × V)
  put k v [] = (k, v) ∷ []
  put k v ((j, w) ∷ m) = if q.same j k then (k, v) ∷ m else (j, w) ∷ put k v m

  -- `for k, v := range m { if drop(k, v) { delete(m, k) } }`
  unfoldable pub drop_if : (K → V → Bool) → List (K × V) → List (K × V)
  drop_if p [] = []
  drop_if p ((j, w) ∷ m) = let rest = drop_if p m in if p j w then rest else (j, w) ∷ rest

  -- `delete(m, k)`
  unfoldable pub delete : K → List (K × V) → List (K × V)
  unfolding drop_if
  delete k = drop_if (λ j w. q.same j k)

  pub lookup-put :
      (k j : K) (v : V) (m : List (K × V))
      → lookup j (put k v m) ≡ (if q.same k j then some v else lookup j m)
  unfolding lookup put
  lookup-put k j v [] = refl
  lookup-put k j v ((i, w) ∷ m) =
      ground (arith, q.same_iff k j, q.same_iff i k, q.same_iff i j, lookup-put k j v m)

  pub lookup-delete :
      (k j : K) (m : List (K × V))
      → lookup j (delete k m) ≡ (if q.same k j then none else lookup j m)
  unfolding lookup delete drop_if
  lookup-delete k j [] = ground arith
  lookup-delete k j ((i, w) ∷ m) =
      ground (arith, q.same_iff k j, q.same_iff i k, q.same_iff i j, lookup-delete k j m)
