-- ===== src/Base/Saves.antt =====
-- A loop that saves one row after another.
use Prim.Native.Nat.{ℕ}
use mathlib.Core.Path.{◌≡◌, refl, ap, ◌∙◌}
use mathlib.Core.Logic.{◌≢◌, inl, inr}
use mathlib.Core.Bool.{Bool}
use mathlib.Core.Option.{none}
use mathlib.Core.List.{List, [], ◌∷◌, map}
use native.Mathlib.Omega.{arith}
use guitar_online.Base.Tests.{if◌then◌else◌, Bool-cases}
use guitar_online.Base.Lists.{select, All}
use guitar_online.Base.Table.{find, save, IsKeyed}

module _ {ℓ} {A : Type ℓ} (key : A → ℕ) where
  unfoldable pub saves : List A → List A → List A
  saves [] xs = xs
  saves (r ∷ rest) xs = saves rest (save key r xs)

  saves_skip :
      (rs : List A) (x : A) (xs : List A)
      → All (λ r. key x ≢ key r) rs
      → saves rs (x ∷ xs) ≡ x ∷ saves rs xs
  unfolding saves save
  saves_skip [] x xs h = refl
  saves_skip (r ∷ rs) x xs h = ground (arith, saves_skip rs x (save key r xs) h.1)

  save_head : (r x : A) (xs : List A) → key r ≡ key x → save key r (x ∷ xs) ≡ r ∷ xs
  unfolding save
  save_head r x xs h = ground arith

module _ {ℓ} {A : Type ℓ} (key : A → ℕ) (f : A → A) (same : (x : A) → key (f x) ≡ key x)
    (p : A → Bool) where
  abbrev pub change : A → A
  change x = if p x then f x else x

  others :
      (x : A) (xs : List A)
      → find key (key x) xs ≡ none
      → All (λ r. key x ≢ key r) (map f (select p xs))
  unfolding find
  others x [] h = tt
  others x (y ∷ ys) h = elim (Bool-cases (p y)) [
    | inl hit ↦ rw hit (ground (arith, same y), others x ys (ground arith))
    | inr miss ↦ rw miss (others x ys (ground arith))
  ]

  -- Saving the changed rows of a query is changing them in place.
  pub saves-select :
      (xs : List A) → IsKeyed key xs → saves key (map f (select p xs)) xs ≡ map change xs
  unfolding saves save
  saves-select [] h = refl
  saves-select (x ∷ xs) h = elim (Bool-cases (p x)) [
    | inl hit ↦ rw hit (
        ap (saves key (map f (select p xs))) (save_head key (f x) x xs (same x))
        ∙ saves_skip key (map f (select p xs)) (f x) xs (rw (same x) (others x xs h.0))
        ∙ ap (λ l. f x ∷ l) (saves-select xs h.1))
    | inr miss ↦ rw miss (
        saves_skip key (map f (select p xs)) x xs (others x xs h.0)
        ∙ ap (λ l. x ∷ l) (saves-select xs h.1))
  ]
