-- ===== src/Base/Lists.antt =====
-- Lists over the native numbers: length, filters by a Boolean test, counting, and `All`.
use Prim.Native.Nat.{ℕ, zero, suc, ◌+◌}
use mathlib.Core.Path.{◌≡◌, subst}
use mathlib.Core.Logic.{inl, inr}
use mathlib.Core.Bool.{Bool, true, false}
use mathlib.Core.Option.{Option, none, some}
use mathlib.Core.List.{List, [], ◌∷◌, ◌++◌}
use native.Mathlib.Omega.{arith}
use guitar_online.Base.Tests.{◌==◌, if◌then◌else◌, Bool-cases}

-- 1 for a row that passes the test, and 0 for one that does not.
abbrev pub mark : Bool → ℕ
mark true = 1
mark false = 0

-- `n in ns`
unfoldable pub contains : ℕ → List ℕ → Bool
contains n [] = false
contains n (m ∷ ms) = if n == m then true else contains n ms

module _ {ℓ} {A : Type ℓ} where
  abbrev pub length : List A → ℕ
  length [] = 0
  length (x ∷ xs) = suc (length xs)

  -- The rows that pass a test, in order.
  abbrev pub select : (A → Bool) → List A → List A
  select p [] = []
  select p (x ∷ xs) = let rest = select p xs in if p x then x ∷ rest else rest

  -- The first row that passes a test: `ORDER BY created_at DESC LIMIT 1` over rows newest first.
  unfoldable pub first_match : (A → Bool) → List A → Option A
  first_match p [] = none
  first_match p (x ∷ xs) = if p x then some x else first_match p xs

  -- How many rows pass a test.
  unfoldable pub tally : (A → Bool) → List A → ℕ
  tally p [] = 0
  tally p (x ∷ xs) = if p x then suc (tally p xs) else tally p xs

  -- `LIMIT n`
  abbrev pub take : ℕ → List A → List A
  take zero xs = []
  take (suc n) [] = []
  take (suc n) (x ∷ xs) = x ∷ take n xs

  -- The rows in reverse order, in front of others.
  unfoldable pub reverse_onto : List A → List A → List A
  reverse_onto [] ys = ys
  reverse_onto (x ∷ xs) ys = reverse_onto xs (x ∷ ys)

  abbrev pub All {κ} : (A → Type κ) → List A → Type κ
  All P [] = Unit
  All P (x ∷ xs) = P x × All P xs

  pub length-append : (xs ys : List A) → length (xs ++ ys) ≡ length xs + length ys
  length-append [] ys = omega arith
  length-append (x ∷ xs) ys = omega (arith, length-append xs ys)

  pub All-append {κ} : (P : A → Type κ) (xs ys : List A) → All P xs → All P ys → All P (xs ++ ys)
  All-append P [] ys hx hy = hy
  All-append P (x ∷ xs) ys hx hy = (hx.0, All-append P xs ys hx.1 hy)

  pub All-map {κ μ} :
      (P : A → Type κ) (Q : A → Type μ) (xs : List A) → ((x : A) → P x → Q x) → All P xs → All Q xs
  All-map P Q [] f h = tt
  All-map P Q (x ∷ xs) f h = (f x h.0, All-map P Q xs f h.1)

  pub All-first_match {κ} :
      (P : A → Type κ) (p : A → Bool) (r : A) (xs : List A)
      → All P xs
      → first_match p xs ≡ some r
      → P r
  unfolding first_match
  All-first_match P p r [] a h = cc
  All-first_match P p r (x ∷ xs) a h = elim (Bool-cases (p x)) [
    | inl hit ↦ subst P (ground arith) a.0
    | inr miss ↦ All-first_match P p r xs a.1 (ground arith)
  ]

  -- The rows that a query selects pass its test.
  pub All-select {κ} :
      (P : A → Type κ) (p : A → Bool) (xs : List A)
      → All P xs
      → All (λ x. (p x ≡ true) × P x) (select p xs)
  All-select P p [] h = tt
  All-select P p (x ∷ xs) h = elim (Bool-cases (p x)) [
    | inl hit ↦ rw hit ((hit, h.0), All-select P p xs h.1)
    | inr miss ↦ rw miss (All-select P p xs h.1)
  ]
