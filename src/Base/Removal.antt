-- ===== src/Base/Removal.antt =====
-- What a query selects behind its first row, once that row is saved as another.
use Prim.Native.Nat.{ℕ}
use mathlib.Core.Path.{◌≡◌, refl, sym, ap, ◌∙◌}
use mathlib.Core.Logic.{◌≢◌, inl, inr}
use mathlib.Core.Bool.{Bool, false, not}
use mathlib.Core.Option.{none}
use mathlib.Core.List.{List, [], ◌∷◌}
use native.Mathlib.Omega.{arith}
use guitar_online.Base.Tests.{◌==◌, Bool-cases}
use guitar_online.Base.Lists.{select}
use guitar_online.Base.Table.{find, save, IsKeyed, IsKeyed-select, find-select-none}
use guitar_online.Base.Sort.{insert, sort}

module _ {ℓ} {A : Type ℓ} (key : A → ℕ) where
  -- The rows but those with a key.
  abbrev without : ℕ → List A → List A
  without k = select (λ x. not (key x == k))

  without_absent : (k : ℕ) (xs : List A) → find key k xs ≡ none → without k xs ≡ xs
  unfolding find
  without_absent k [] h = refl
  without_absent k (x ∷ xs) h = ground (arith, without_absent k xs)

  without_self : (x : A) (xs : List A) → find key (key x) xs ≡ none → without (key x) (x ∷ xs) ≡ xs
  without_self x xs h = ground (arith, without_absent (key x) xs h)

  without_other : (k : ℕ) (x : A) (xs : List A) → key x ≢ k → without k (x ∷ xs) ≡ x ∷ without k xs
  without_other k x xs h = ground arith

  select-save :
      (p : A → Bool) (r : A) (xs : List A)
      → IsKeyed key xs
      → p r ≡ false
      → select p (save key r xs) ≡ without (key r) (select p xs)
  unfolding save find
  select-save p r [] h no_row = refl
  select-save p r (x ∷ xs) h no_row = elim (Bool-cases (key x == key r)) [
    | inl hit ↦
        let same : key x ≡ key r = ground arith in
        let gone : find key (key r) xs ≡ none = rw (← same) h.0 in
        let absent =
          without_absent (key r) (select p xs) (find-select-none key p (key r) xs gone) in
        ground (arith, hit, no_row, absent)
    | inr miss ↦ ground (arith, miss, select-save p r xs h.1 no_row)
  ]

  module _ (le : A → A → Bool) where
    find-insert :
        (k : ℕ) (x : A) (xs : List A)
        → find key k xs ≡ none
        → key x ≢ k
        → find key k (insert le x xs) ≡ none
    unfolding find insert
    find-insert k x [] h other = ground arith
    find-insert k x (y ∷ ys) h other = ground (arith, find-insert k x ys)

    find-sort : (k : ℕ) (xs : List A) → find key k xs ≡ none → find key k (sort le xs) ≡ none
    unfolding find sort
    find-sort k [] h = refl
    find-sort k (x ∷ xs) h =
        find-insert k x (sort le xs) (find-sort k xs (ground arith)) (ground arith)

    -- Removing the first of the sorted rows leaves the others, in their order.
    sort-without_first :
        (x : A) (xs s : List A) (y : A) (ys : List A)
        → find key (key x) xs ≡ none
        → find key (key x) s ≡ none
        → s ≡ sort le xs
        → ((z : A) (zs : List A) → s ≡ z ∷ zs → sort le (without (key z) xs) ≡ zs)
        → insert le x s ≡ y ∷ ys
        → sort le (without (key y) (x ∷ xs)) ≡ ys
    unfolding find insert sort
    sort-without_first x xs [] y ys fresh apart sorted rest h =
        let head : x ≡ y = cc in
        let tail : [] ≡ ys = cc in
        ap (λ w. sort le (without (key w) (x ∷ xs))) (sym head)
        ∙ ap (sort le) (without_self x xs fresh)
        ∙ sym sorted
        ∙ tail
    sort-without_first x xs (z ∷ zs) y ys fresh apart sorted rest h = elim (Bool-cases (le x z)) [
      | inl first ↦
          let same : x ∷ z ∷ zs ≡ y ∷ ys = ground (arith, first, h) in
          let head : x ≡ y = cc in
          let tail : z ∷ zs ≡ ys = cc in
          ap (λ w. sort le (without (key w) (x ∷ xs))) (sym head)
          ∙ ap (sort le) (without_self x xs fresh)
          ∙ sym sorted
          ∙ tail
      | inr later ↦
          let same : z ∷ insert le x zs ≡ y ∷ ys = ground (arith, later, h) in
          let head : z ≡ y = cc in
          let tail : insert le x zs ≡ ys = cc in
          let other : key x ≢ key z = ground arith in
          ap (λ w. sort le (without (key w) (x ∷ xs))) (sym head)
          ∙ ap (sort le) (without_other (key z) x xs other)
          ∙ ap (insert le x) (rest z zs refl)
          ∙ tail
    ]

    sort-tail :
        (xs : List A) (y : A) (ys : List A)
        → IsKeyed key xs
        → sort le xs ≡ y ∷ ys
        → sort le (without (key y) xs) ≡ ys
    unfolding sort
    sort-tail [] y ys keyed h = cc
    sort-tail (x ∷ xs) y ys keyed h =
        sort-without_first x xs (sort le xs) y ys keyed.0 (find-sort (key x) xs keyed.0) refl
          (λ z zs. sort-tail xs z zs keyed.1) h

    -- The first of the rows that a query selects, in order, is saved as one that it does not select:
    -- then it selects the others.
    pub sort-select-save :
        (p : A → Bool) (r e : A) (rest xs : List A)
        → IsKeyed key xs
        → p r ≡ false
        → key r ≡ key e
        → sort le (select p xs) ≡ e ∷ rest
        → sort le (select p (save key r xs)) ≡ rest
    sort-select-save p r e rest xs keyed gone same h =
        ap (sort le) (select-save p r xs keyed gone)
        ∙ ap (λ k. sort le (without k (select p xs))) same
        ∙ sort-tail (select p xs) e rest (IsKeyed-select key p xs keyed) h
