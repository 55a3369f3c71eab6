-- ===== src/Prelude/Map.antt =====
-- Go's map with string keys, as an association list. Go leaves the order of iteration open; here it
-- is the order of the entries, and the theorems range over every list of entries.
use mathlib.Core.Path.{◌≡◌, refl}
use mathlib.Core.Option.{Option, none, some}
use mathlib.Core.List.{List, [], ◌∷◌}
use native.Mathlib.Omega.{arith}
use parser_go.Prelude.Tests.{if◌then◌else◌}
use parser_go.Prelude.Strings.{Text, text_eq, text_eq_iff}

pub record Entry {ℓ} (V : Type ℓ) : Type ℓ where
  pub key : Text
  pub value : V

abbrev pub Map {ℓ} : Type ℓ → Type ℓ
Map V = List (Entry V)

module _ {ℓ} {V : Type ℓ} where
  -- `v, ok := m[k]`
  unfoldable pub get : Text → Map V → Option V
  get k [] = none
  get k (e ∷ m) = if text_eq e.key k then some e.value else get k m

  -- `m[k] = v`
  unfoldable pub put : Text → V → Map V → Map V
  put k v [] = record { key = k; value = v } ∷ []
  put k v (e ∷ m) = if text_eq e.key k then record { key = k; value = v } ∷ m else e ∷ put k v m

  -- `delete(m, k)`
  unfoldable pub delete : Text → Map V → Map V
  delete k [] = []
  delete k (e ∷ m) = let rest = delete k m in if text_eq e.key k then rest else e ∷ rest

  -- The values, in the order of iteration.
  unfoldable pub values : Map V → List V
  values [] = []
  values (e ∷ m) = e.value ∷ values m

  pub get-put :
      (k j : Text) (v : V) (m : Map V)
      → get j (put k v m) ≡ (if text_eq k j then some v else get j m)
  unfolding get put
  get-put k j v [] = refl
  get-put k j v (e ∷ m) =
      ground (arith, text_eq_iff k j, text_eq_iff e.key k, text_eq_iff e.key j, get-put k j v m)

  pub get-delete :
      (k j : Text) (m : Map V) → get j (delete k m) ≡ (if text_eq k j then none else get j m)
  unfolding get delete
  get-delete k j [] = ground arith
  get-delete k j (e ∷ m) =
      ground (arith, text_eq_iff k j, text_eq_iff e.key k, text_eq_iff e.key j, get-delete k j m)

pub ruleset map_laws = (get-put, get-delete)
