-- ===== src/Prelude/Sorting.antt =====
-- sort.SliceStable and sort.Slice as a stable insertion sort by a Boolean order, and why the
-- result does not depend on the order of the input where incomparable elements are equal.
use mathlib.Core.Path.{◌≡◌, refl, ap, ◌∙◌, sym}
use mathlib.Core.Logic.{inl, inr, ∥∥₁_elim}
use mathlib.Core.List.{List, [], ◌∷◌, map, Perm, Permᴰ}
use mathlib.Core.List.Perm
use mathlib.Core.Bool.{Bool, true, false}
use mathlib.Core.HLevel.{hedberg}
use native.Mathlib.Omega.{arith}
use parser_go.Prelude.Tests.{if◌then◌else◌, Bool-cases}

module _ {ℓ} {A : Type ℓ} (before : A → A → Bool) where
  -- The new element goes before all that it does not come after, so that it stays before its equals.
  unfoldable pub insert : A → List A → List A
  insert x [] = x ∷ []
  insert x (y ∷ ys) = if before y x then y ∷ insert x ys else x ∷ y ∷ ys

  unfoldable pub sort : List A → List A
  unfolding insert
  sort [] = []
  sort (x ∷ xs) = insert x (sort xs)

  -- No element comes after a later one.
  abbrev pub NoneBefore : A → List A → Type 0
  NoneBefore x [] = Unit {0}
  NoneBefore x (y ∷ ys) = (before y x ≡ false) × NoneBefore x ys

  abbrev pub IsSorted : List A → Type 0
  IsSorted [] = Unit {0}
  IsSorted (x ∷ xs) = NoneBefore x xs × IsSorted xs

-- A strict order in which incomparable elements are equal.
pub record IsStrictTotal {ℓ} {A : Type ℓ} (before : A → A → Bool) : Type ℓ where
  pub irrefl : (x : A) → before x x ≡ false
  pub trans : (x y z : A) → before x y ≡ true → before y z ≡ true → before x z ≡ true
  pub total : (x y : A) → before x y ≡ false → before y x ≡ false → x ≡ y

module _ {ℓ} {A : Type ℓ} {before : A → A → Bool} (o : IsStrictTotal before) where
  asym : (x y : A) → before x y ≡ true → before y x ≡ false
  asym x y h = elim (Bool-cases (before y x)) [
    | inl k ↦ cc (o.trans x y x h k, o.irrefl x)
    | inr k ↦ k
  ]

  insert-insert_lt :
      (x y : A) (l : List A)
      → before x y ≡ true
      → insert before x (insert before y l) ≡ insert before y (insert before x l)
  unfolding insert
  insert-insert_lt x y [] h = ground (arith, asym x y h)
  insert-insert_lt x y (z ∷ zs) h =
      ground (arith, asym x y h, o.trans z x y, insert-insert_lt x y zs h)

  insert-insert :
      (x y : A) (l : List A)
      → insert before x (insert before y l) ≡ insert before y (insert before x l)
  insert-insert x y l = elim (Bool-cases (before x y)) [
    | inl h ↦ insert-insert_lt x y l h
    | inr h ↦ elim (Bool-cases (before y x)) [
      | inl k ↦ sym (insert-insert_lt y x l k)
      | inr k ↦ cc (o.total x y h k)
    ]
  ]

  sort-permᴰ : {xs ys : List A} → Permᴰ xs ys → sort before xs ≡ sort before ys
  unfolding sort
  sort-permᴰ Permᴰ.nil = refl
  sort-permᴰ (Permᴰ.cons {a} {b} {l₁} {l₂} e p) = cc (e, sort-permᴰ p)
  sort-permᴰ (Permᴰ.swap {a} {b} {a'} {b'} {l} e e') = cc (e, e', insert-insert a b (sort before l))
  sort-permᴰ (Permᴰ.trans p q) = sort-permᴰ p ∙ sort-permᴰ q

  -- Sorting forgets the order of its input.
  pub sort-perm :
      Discrete (List A) → {xs ys : List A} → Perm xs ys → sort before xs ≡ sort before ys
  sort-perm d {xs} {ys} p = ∥∥₁_elim p (hedberg d _ _) sort-permᴰ

  not_before : (x y z : A) → before y x ≡ false → before z y ≡ false → before z x ≡ false
  not_before x y z h k = elim (Bool-cases (before z x)) [
    | inr e ↦ e
    | inl e ↦ elim (Bool-cases (before x y)) [
      | inl f ↦ cc (o.trans z x y e f)
      | inr f ↦ cc (o.total x y f h)
    ]
  ]

  NoneBefore-le :
      (x y : A) (l : List A) → before y x ≡ false → NoneBefore before y l → NoneBefore before x l
  NoneBefore-le x y [] h n = tt
  NoneBefore-le x y (z ∷ zs) h n = (not_before x y z h n.0, NoneBefore-le x y zs h n.1)

  NoneBefore-insert :
      (x y : A) (l : List A)
      → before x y ≡ false
      → NoneBefore before y l
      → NoneBefore before y (insert before x l)
  unfolding insert
  NoneBefore-insert x y [] h n = (h, tt)
  NoneBefore-insert x y (z ∷ zs) h n = ground (arith, NoneBefore-insert x y zs h n.1)

  insert-IsSorted : (x : A) (l : List A) → IsSorted before l → IsSorted before (insert before x l)
  unfolding insert
  insert-IsSorted x [] s = (tt, tt)
  insert-IsSorted x (y ∷ ys) s = elim (Bool-cases (before y x)) [
    | inl h ↦ rw h (NoneBefore-insert x y ys (asym y x h) s.0, insert-IsSorted x ys s.1)
    | inr h ↦ rw h ((h, NoneBefore-le x y ys h s.0), s)
  ]

  -- After sorting, no element comes after a later one.
  pub sort-IsSorted : (l : List A) → IsSorted before (sort before l)
  unfolding sort
  sort-IsSorted [] = tt
  sort-IsSorted (x ∷ xs) = insert-IsSorted x (sort before xs) (sort-IsSorted xs)

-- An order that a map keeps and reflects is sorted alike on both sides.
module _ {ℓ κ} {A : Type ℓ} {B : Type κ} (f : A → B) (before : A → A → Bool)
    (before' : B → B → Bool) (alike : (a b : A) → before' (f a) (f b) ≡ before a b) where
  insert-map : (x : A) (l : List A) → insert before' (f x) (map f l) ≡ map f (insert before x l)
  unfolding insert
  insert-map x [] = refl
  insert-map x (y ∷ ys) = elim (Bool-cases (before y x)) [
    | inl h ↦ rw (alike y x, h) (ap (λ t. f y ∷ t) (insert-map x ys))
    | inr h ↦ rw (alike y x, h) refl
  ]

  pub sort-map : (l : List A) → sort before' (map f l) ≡ map f (sort before l)
  unfolding sort
  sort-map [] = refl
  sort-map (x ∷ xs) = rw (sort-map xs) (insert-map x (sort before xs))

  NoneBefore-map : (x : A) (l : List A) → NoneBefore before x l → NoneBefore before' (f x) (map f l)
  NoneBefore-map x [] n = tt
  NoneBefore-map x (y ∷ ys) n = (alike y x ∙ n.0, NoneBefore-map x ys n.1)

  pub IsSorted-map : (l : List A) → IsSorted before l → IsSorted before' (map f l)
  IsSorted-map [] s = tt
  IsSorted-map (x ∷ xs) s = (NoneBefore-map x xs s.0, IsSorted-map xs s.1)

module _ {ℓ} {A : Type ℓ} (before : A → A → Bool) where
  pub insert-perm : (x : A) (l : List A) → Perm (insert before x l) (x ∷ l)
  unfolding insert
  insert-perm x [] = Perm.refl (x ∷ [])
  insert-perm x (y ∷ ys) = elim (Bool-cases (before y x)) [
    | inl h ↦ rw h (Perm.trans (Perm.cons y (insert-perm x ys)) (Perm.swap x y ys))
    | inr h ↦ rw h (Perm.refl (x ∷ y ∷ ys))
  ]

  pub sort-perm_self : (l : List A) → Perm (sort before l) l
  unfolding sort
  sort-perm_self [] = Perm.nil
  sort-perm_self (x ∷ xs) =
      Perm.trans (insert-perm x (sort before xs)) (Perm.cons x (sort-perm_self xs))

  insert-NoneBefore : (x : A) (l : List A) → NoneBefore before x l → insert before x l ≡ x ∷ l
  unfolding insert
  insert-NoneBefore x [] n = refl
  insert-NoneBefore x (y ∷ ys) n = rw n.0 refl

  -- A list in order stays as it is.
  pub sort-IsSorted_id : (l : List A) → IsSorted before l → sort before l ≡ l
  unfolding sort
  sort-IsSorted_id [] s = refl
  sort-IsSorted_id (x ∷ xs) s = rw (sort-IsSorted_id xs s.1) (insert-NoneBefore x xs s.0)

-- A relation holds from each element to all later ones.
module _ {ℓ} {A : Type ℓ} (R : A → A → Type 0) where
  abbrev pub RelatesAll : A → List A → Type 0
  RelatesAll x [] = Unit {0}
  RelatesAll x (y ∷ ys) = R x y × RelatesAll x ys

  abbrev pub InOrder : List A → Type 0
  InOrder [] = Unit {0}
  InOrder (x ∷ xs) = RelatesAll x xs × InOrder xs

-- What a sorted list has in order, if the relation is what the comparison leaves.
module _ {ℓ} {A : Type ℓ} (R : A → A → Type 0) (before : A → A → Bool)
    (leaves : (x y : A) → before y x ≡ false → R x y) where
  NoneBefore-RelatesAll : (x : A) (l : List A) → NoneBefore before x l → RelatesAll R x l
  NoneBefore-RelatesAll x [] n = tt
  NoneBefore-RelatesAll x (y ∷ ys) n = (leaves x y n.0, NoneBefore-RelatesAll x ys n.1)

  pub IsSorted-InOrder : (l : List A) → IsSorted before l → InOrder R l
  IsSorted-InOrder [] s = tt
  IsSorted-InOrder (x ∷ xs) s = (NoneBefore-RelatesAll x xs s.0, IsSorted-InOrder xs s.1)
