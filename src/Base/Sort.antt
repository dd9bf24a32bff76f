-- ===== src/Base/Sort.antt =====
-- `list.sort` with a Boolean order: the result is in order and has the same rows.
use mathlib.Core.Path.{◌≡◌}
use mathlib.Core.Logic.{inl, inr}
use mathlib.Core.Bool.{Bool, true, false}
use mathlib.Core.List.{List, [], ◌∷◌, Perm, map}
use mathlib.Core.List.Perm
use guitar_online.Base.Tests.{if◌then◌else◌, Bool-cases}
use guitar_online.Base.Lists.{All, All-map}

module _ {ℓ} {A : Type ℓ} (le : A → A → Bool) where
  -- Behind the rows that are no greater: the sort is stable.
  unfoldable pub insert : A → List A → List A
  insert x [] = x ∷ []
  insert x (y ∷ ys) = let rest = insert x ys in if le x y then x ∷ y ∷ ys else y ∷ rest

  unfoldable pub sort : List A → List A
  sort [] = []
  sort (x ∷ xs) = insert x (sort xs)

  abbrev pub IsSorted : List A → Type ℓ
  IsSorted [] = Unit
  IsSorted (x ∷ xs) = All (λ y. le x y ≡ true) xs × IsSorted xs

  pub insert-perm : (x : A) (xs : List A) → Perm (insert x xs) (x ∷ xs)
  unfolding insert
  insert-perm x [] = Perm.refl _
  insert-perm x (y ∷ ys) = elim (Bool-cases (le x y)) [
    | inl first ↦ rw first (Perm.refl _)
    | inr later ↦ rw later (Perm.trans (Perm.cons y (insert-perm x ys)) (Perm.swap x y ys))
  ]

  pub sort-perm : (xs : List A) → Perm (sort xs) xs
  unfolding sort
  sort-perm [] = Perm.refl _
  sort-perm (x ∷ xs) = Perm.trans (insert-perm x (sort xs)) (Perm.cons x (sort-perm xs))

  pub All-insert {κ} : (P : A → Type κ) (x : A) (xs : List A) → P x → All P xs → All P (insert x xs)
  unfolding insert
  All-insert P x [] h a = (h, tt)
  All-insert P x (y ∷ ys) h a = elim (Bool-cases (le x y)) [
    | inl first ↦ rw first (h, a)
    | inr later ↦ rw later (a.0, All-insert P x ys h a.1)
  ]

  pub All-sort {κ} : (P : A → Type κ) (xs : List A) → All P xs → All P (sort xs)
  unfolding sort
  All-sort P [] a = tt
  All-sort P (x ∷ xs) a = All-insert P x (sort xs) a.0 (All-sort P xs a.1)

  module _ (total : (x y : A) → le x y ≡ false → le y x ≡ true)
      (trans : (x y z : A) → le x y ≡ true → le y z ≡ true → le x z ≡ true) where
    insert-IsSorted : (x : A) (xs : List A) → IsSorted xs → IsSorted (insert x xs)
    unfolding insert
    insert-IsSorted x [] h = (tt, tt)
    insert-IsSorted x (y ∷ ys) h = elim (Bool-cases (le x y)) [
      | inl first ↦ rw first ((first, All-map _ _ ys (λ z. trans x y z first) h.0), h)
      | inr later ↦
          rw later
            (All-insert (λ z. le y z ≡ true) x ys (total x y later) h.0, insert-IsSorted x ys h.1)
    ]

    pub sort-IsSorted : (xs : List A) → IsSorted (sort xs)
    unfolding sort
    sort-IsSorted [] = tt
    sort-IsSorted (x ∷ xs) = insert-IsSorted x (sort xs) (sort-IsSorted xs)

-- The images of the sorted rows are those of the rows.
module _ {ℓ κ} {A : Type ℓ} {B : Type κ} (le : A → A → Bool) (f : A → B) where
  map-insert-perm : (x : A) (xs : List A) → Perm (map f (insert le x xs)) (f x ∷ map f xs)
  unfolding insert
  map-insert-perm x [] = Perm.refl _
  map-insert-perm x (y ∷ ys) = elim (Bool-cases (le x y)) [
    | inl first ↦ rw first (Perm.refl _)
    | inr later ↦
        rw later
          (Perm.trans (Perm.cons (f y) (map-insert-perm x ys)) (Perm.swap (f x) (f y) (map f ys)))
  ]

  pub map-sort-perm : (xs : List A) → Perm (map f (sort le xs)) (map f xs)
  unfolding sort
  map-sort-perm [] = Perm.refl _
  map-sort-perm (x ∷ xs) =
      Perm.trans (map-insert-perm x (sort le xs)) (Perm.cons (f x) (map-sort-perm xs))
