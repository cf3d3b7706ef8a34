-- ===== src/Prelude/Dicts.antt =====
-- A `Map` with string keys: entries in the order of their first insertion.
use mathlib.Core.Path.{◌≡◌, refl}
use mathlib.Core.Option.{Option, none, some}
use mathlib.Core.List.{List, [], ◌∷◌}
use native.Mathlib.Omega.{arith}
use ctxlite.Prelude.Tests.{if◌then◌else◌}
use ctxlite.Prelude.Strings.{Text, text_eq, text_eq_iff}

abbrev pub Dict {ℓ} : Type ℓ → Type ℓ
Dict V = List (Text × V)

module _ {ℓ} {V : Type ℓ} where
  -- `map.get(k)`
  unfoldable pub dict_get : Text → Dict V → Option V
  dict_get k [] = none
  dict_get k ((j, v) ∷ m) = if text_eq j k then some v else dict_get k m

  -- `map.set(k, v)`
  unfoldable pub dict_set : Text → V → Dict V → Dict V
  dict_set k v [] = (k, v) ∷ []
  dict_set k v ((j, w) ∷ m) = if text_eq j k then (j, v) ∷ m else (j, w) ∷ dict_set k v m

  -- `map.delete(k)`
  unfoldable pub dict_delete : Text → Dict V → Dict V
  dict_delete k [] = []
  dict_delete k ((j, w) ∷ m) =
      let rest = dict_delete k m in if text_eq j k then rest else (j, w) ∷ rest

  pub get-set :
      (k j : Text) (v : V) (m : Dict V)
      → dict_get j (dict_set k v m) ≡ (if text_eq k j then some v else dict_get j m)
  unfolding dict_get dict_set
  get-set k j v [] = refl
  get-set k j v ((i, w) ∷ m) =
      ground (arith, text_eq_iff k j, text_eq_iff i k, text_eq_iff i j, get-set k j v m)

  pub get-delete :
      (k j : Text) (m : Dict V)
      → dict_get j (dict_delete k m) ≡ (if text_eq k j then none else dict_get j m)
  unfolding dict_get dict_delete
  get-delete k j [] = ground arith
  get-delete k j ((i, w) ∷ m) =
      ground (arith, text_eq_iff k j, text_eq_iff i k, text_eq_iff i j, get-delete k j m)
