-- ===== src/Common/JsMap.antt =====
-- A JavaScript `Map`: an association list in insertion order. `set` on a known key replaces the
-- value in place, on a new one appends; `delete` removes the key.
use mathlib.Core.Path.{◌≡◌, refl}
use mathlib.Core.List.{List, [], ◌∷◌}
use mathlib.Core.Option.{Option, none, some}
use native.Mathlib.Omega.{arith}
use eyeflow.Common.Tests.{if◌then◌else◌}
use eyeflow.Common.Eq.{Eq, ◌==◌}

module _ {ℓ κ} {K : Type ℓ} {V : Type κ} ⦃e : Eq K⦄ where
  unfoldable pub lookup : K → List (K × V) → Option V
  lookup key [] = none
  lookup key ((k, value) ∷ entries) = if k == key then some value else lookup key entries

  unfoldable pub insert : K → V → List (K × V) → List (K × V)
  insert key new [] = (key, new) ∷ []
  insert key new ((k, value) ∷ entries) =
      if k == key then (k, new) ∷ entries else (k, value) ∷ insert key new entries

  unfoldable pub delete : K → List (K × V) → List (K × V)
  delete k [] = []
  delete k ((j, v) ∷ m) = if j == k then delete k m else (j, v) ∷ delete k m

  -- Reading after `set`.
  pub lookup-insert :
      (written read : K) (new : V) (entries : List (K × V))
      → lookup read (insert written new entries)
        ≡ (if written == read then some new else lookup read entries)
  unfolding insert lookup
  lookup-insert written read new [] = refl
  lookup-insert written read new ((key, old) ∷ entries) =
      let ih = lookup-insert written read new entries in
      ground (arith, e.test_iff key written, e.test_iff key read, e.test_iff written read)

  pub lookup-delete :
      (k j : K) (m : List (K × V)) → lookup j (delete k m) ≡ (if k == j then none else lookup j m)
  unfolding lookup delete
  lookup-delete k j [] = ground arith
  lookup-delete k j ((i, w) ∷ m) =
      ground (arith, e.test_iff k j, e.test_iff i k, e.test_iff i j, lookup-delete k j m)

  pub delete-insert : (k : K) (v : V) (m : List (K × V)) → delete k (insert k v m) ≡ delete k m
  unfolding delete insert
  delete-insert k v [] = ground (arith, e.test_iff k k)
  delete-insert k v ((i, w) ∷ m) = ground (arith, e.test_iff i k, delete-insert k v m)
