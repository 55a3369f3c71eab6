-- ===== src/Prelude/Keys.antt =====
-- Maps with one entry for each key, which is what Go's maps are and what `put` and `delete` keep.
use mathlib.Core.Path.{◌≡◌, refl, subst₂}
use mathlib.Core.Logic.{inl, inr}
use mathlib.Core.Bool.{true, false}
use mathlib.Core.Option.{none, some}
use mathlib.Core.List.{[], ◌∷◌}
use native.Mathlib.Omega.{arith}
use parser_go.Prelude.Tests.{if◌then◌else◌, Bool-cases, some-inv}
use parser_go.Prelude.Strings.{Text, text_eq, text_eq→eq, text_eq_iff}
use parser_go.Prelude.Map.{Map, get, put, delete, get-put, get-delete}

module _ {ℓ} {V : Type ℓ} where
  -- No key has a second entry.
  abbrev pub IsUnique : Map V → Type ℓ
  IsUnique [] = Unit
  IsUnique (e ∷ m) = (get e.key m ≡ none) × IsUnique m

  pub put-IsUnique : (k : Text) (v : V) (m : Map V) → IsUnique m → IsUnique (put k v m)
  unfolding put get
  put-IsUnique k v [] u = (refl, tt)
  put-IsUnique k v (e ∷ m) u =
      ground (
        arith,
        text_eq_iff e.key k,
        text_eq_iff k e.key,
        get-put k e.key v m,
        put-IsUnique k v m u.1,
      )

  pub delete-IsUnique : (k : Text) (m : Map V) → IsUnique m → IsUnique (delete k m)
  unfolding delete
  delete-IsUnique k [] u = tt
  delete-IsUnique k (e ∷ m) u = ground (arith, get-delete k e.key m, delete-IsUnique k m u.1)

  -- Each entry satisfies a predicate on its key and its value.
  abbrev pub AllEntries {κ} : (Text → V → Type κ) → Map V → Type κ
  AllEntries P [] = Unit
  AllEntries P (e ∷ m) = P e.key e.value × AllEntries P m

module _ {ℓ κ} {V : Type ℓ} (P : Text → V → Type κ) where
  pub put-AllEntries :
      (k : Text) (v : V) (m : Map V) → P k v → AllEntries P m → AllEntries P (put k v m)
  unfolding put
  put-AllEntries k v [] p a = (p, tt)
  put-AllEntries k v (e ∷ m) p a = elim (Bool-cases (text_eq e.key k)) [
    | inl h ↦ rw h (p, a.1)
    | inr h ↦ rw h (a.0, put-AllEntries k v m p a.1)
  ]

  pub delete-AllEntries : (k : Text) (m : Map V) → AllEntries P m → AllEntries P (delete k m)
  unfolding delete
  delete-AllEntries k [] a = tt
  delete-AllEntries k (e ∷ m) a = elim (Bool-cases (text_eq e.key k)) [
    | inl h ↦ rw h (delete-AllEntries k m a.1)
    | inr h ↦ rw h (a.0, delete-AllEntries k m a.1)
  ]

  pub get-AllEntries : (k : Text) (v : V) (m : Map V) → get k m ≡ some v → AllEntries P m → P k v
  unfolding get
  get-AllEntries k v [] h a = cc
  get-AllEntries k v (e ∷ m) h a = elim (Bool-cases (text_eq e.key k)) [
    | inl q ↦ subst₂ P (text_eq→eq e.key k q) (some-inv (first e.key e.value q h)) a.0
    | inr q ↦ get-AllEntries k v m (later e.key e.value q h) a.1
  ]
    where
      first :
          (key : Text) (value : V)
          → text_eq key k ≡ true
          → (if text_eq key k then some value else get k m) ≡ some v
          → some value ≡ some v
      first key value q h = rw q at h

      later :
          (key : Text) (value : V)
          → text_eq key k ≡ false
          → (if text_eq key k then some value else get k m) ≡ some v
          → get k m ≡ some v
      later key value q h = rw q at h
