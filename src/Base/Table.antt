-- ===== src/Base/Table.antt =====
-- A database table: the rows that the session sees, newest first. A row has a primary key, read by
-- the `key` that the table is given. `find` is `SELECT … WHERE id = …`, `insert` is `session.add`
-- followed by a flush, `save` is the flush of a row that was loaded and changed.
use Prim.Native.Nat.{ℕ, ◌+◌}
use mathlib.Core.Path.{◌≡◌, refl, ap, subst, ◌∙◌}
use mathlib.Core.Logic.{◌≢◌, inl, inr}
use mathlib.Core.Bool.{Bool, true}
use mathlib.Core.Option.{Option, none, some}
use mathlib.Core.List.{List, [], ◌∷◌}
use native.Mathlib.Omega.{arith}
use guitar_online.Base.Tests.{◌==◌, if◌then◌else◌, Bool-cases, ==→eq, ==→ne}
use guitar_online.Base.Lists.{mark, tally, select, All, All-map}

module _ {ℓ} {A : Type ℓ} (key : A → ℕ) where
  unfoldable pub find : ℕ → List A → Option A
  find k [] = none
  find k (x ∷ xs) = if key x == k then some x else find k xs

  unfoldable pub save : A → List A → List A
  save r [] = []
  save r (x ∷ xs) = if key x == key r then r ∷ xs else x ∷ save r xs

  pub find-save_self :
      (r old : A) (xs : List A) → find (key r) xs ≡ some old → find (key r) (save r xs) ≡ some r
  unfolding find save
  find-save_self r old [] h = cc
  find-save_self r old (x ∷ xs) h = ground (arith, find-save_self r old xs)

  pub find-save_ne : (k : ℕ) (r : A) (xs : List A) → key r ≢ k → find k (save r xs) ≡ find k xs
  unfolding find save
  find-save_ne k r [] h = refl
  find-save_ne k r (x ∷ xs) h = ground (arith, find-save_ne k r xs h)

  pub find-save-none : (k : ℕ) (r : A) (xs : List A) → find k xs ≡ none → find k (save r xs) ≡ none
  unfolding find save
  find-save-none k r [] h = refl
  find-save-none k r (x ∷ xs) h = ground (arith, find-save-none k r xs)

  -- A save makes no row disappear.
  pub find-save-some :
      (k : ℕ) (r x : A) (xs : List A) → find k xs ≡ some x → (y : A) × (find k (save r xs) ≡ some y)
  find-save-some k r x xs h = elim (Bool-cases (key r == k)) [
    | inl hit ↦ (r, rw (← ==→eq (key r) k hit) (find-save_self r x xs (rw (==→eq (key r) k hit) h)))
    | inr miss ↦ (x, find-save_ne k r xs (==→ne (key r) k miss) ∙ h)
  ]

  -- What is found under a key has that key.
  pub key-find : (k : ℕ) (r : A) (xs : List A) → find k xs ≡ some r → key r ≡ k
  unfolding find
  key-find k r [] h = cc
  key-find k r (x ∷ xs) h = ground (arith, key-find k r xs)

  pub find_own : (k : ℕ) (r : A) (xs : List A) → find k xs ≡ some r → find (key r) xs ≡ some r
  find_own k r xs h = rw (key-find k r xs h) h

  -- A reference to a key is one to the row that is found under it.
  pub refers :
      (o : Option ℕ) (k : ℕ) (r : A) (xs : List A)
      → o ≡ some k
      → find k xs ≡ some r
      → o ≡ some (key r)
  refers o k r xs e h = rw (key-find k r xs h) e

  -- A save replaces one row: each count moves by what the old and the new row weigh.
  pub tally-save :
      (p : A → Bool) (r old : A) (xs : List A)
      → find (key r) xs ≡ some old
      → tally p (save r xs) + mark (p old) ≡ tally p xs + mark (p r)
  unfolding find save tally
  tally-save p r old [] h = cc
  tally-save p r old (x ∷ xs) h = ground (arith, tally-save p r old xs)

  -- Of two saves under one key the later counts.
  pub save-save : (r q : A) (xs : List A) → key q ≡ key r → save r (save q xs) ≡ save r xs
  unfolding save
  save-save r q [] h = refl
  save-save r q (x ∷ xs) h = ground (arith, save-save r q xs h)

  pub All-find {κ} :
      (P : A → Type κ) (k : ℕ) (r : A) (xs : List A) → All P xs → find k xs ≡ some r → P r
  unfolding find
  All-find P k r [] a h = cc
  All-find P k r (x ∷ xs) a h = elim (Bool-cases (key x == k)) [
    | inl hit ↦ subst P (ground arith) a.0
    | inr miss ↦ All-find P k r xs a.1 (ground arith)
  ]

  pub All-save {κ} : (P : A → Type κ) (r : A) (xs : List A) → All P xs → P r → All P (save r xs)
  unfolding save
  All-save P r [] a h = tt
  All-save P r (x ∷ xs) a h = elim (Bool-cases (key x == key r)) [
    | inl hit ↦ rw hit (h, a.1)
    | inr miss ↦ rw miss (a.0, All-save P r xs a.1 h)
  ]

  -- A primary key: no two rows have one.
  abbrev pub IsKeyed : List A → Type ℓ
  IsKeyed [] = Unit
  IsKeyed (x ∷ xs) = (find (key x) xs ≡ none) × IsKeyed xs

  pub find-select-none :
      (p : A → Bool) (k : ℕ) (xs : List A) → find k xs ≡ none → find k (select p xs) ≡ none
  unfolding find
  find-select-none p k [] h = refl
  find-select-none p k (x ∷ xs) h = ground (arith, find-select-none p k xs)

  pub IsKeyed-select : (p : A → Bool) (xs : List A) → IsKeyed xs → IsKeyed (select p xs)
  IsKeyed-select p [] h = tt
  IsKeyed-select p (x ∷ xs) h =
      ground (arith, IsKeyed-select p xs h.1, find-select-none p (key x) xs h.0)

  pub IsKeyed-save : (r : A) (xs : List A) → IsKeyed xs → IsKeyed (save r xs)
  unfolding save
  IsKeyed-save r [] h = tt
  IsKeyed-save r (x ∷ xs) h = ground (arith, IsKeyed-save r xs h.1, find-save-none (key x) r xs)

  -- The rows that a query selects are rows of the table, and pass its test.
  abbrev pub IsSelected : (A → Bool) → List A → A → Type ℓ
  IsSelected p xs r = (find (key r) xs ≡ some r) × (p r ≡ true)

  IsSelected-cons :
      (p : A → Bool) (x : A) (xs : List A) (r : A)
      → find (key x) xs ≡ none
      → IsSelected p xs r
      → IsSelected p (x ∷ xs) r
  unfolding find
  IsSelected-cons p x xs r fresh h = ground (arith, ap (λ k. find k xs))

  pub select-IsSelected :
      (p : A → Bool) (xs : List A) → IsKeyed xs → All (IsSelected p xs) (select p xs)
  unfolding find
  select-IsSelected p [] h = tt
  select-IsSelected p (x ∷ xs) h =
      let rest =
        All-map (IsSelected p xs) (IsSelected p (x ∷ xs)) (select p xs)
          (λ r. IsSelected-cons p x xs r h.0) (select-IsSelected p xs h.1) in
      elim (Bool-cases (p x)) [
        | inl hit ↦ rw hit ((ground arith, hit), rest)
        | inr miss ↦ rw miss rest
      ]
