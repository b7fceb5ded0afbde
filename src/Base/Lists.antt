-- ===== src/Base/Lists.antt =====
-- Lists measured by native numbers, predicates on all elements, and the queries of a table.
use Prim.Native.Nat.{ℕ, suc}
use mathlib.Core.Bool.{Bool, true, false}
use mathlib.Core.List.{List, [], ◌∷◌}
use mathlib.Core.Option.{Option, none, some}
use mathlib.Core.Path.{◌≡◌}
use mathlib.Core.Logic.{inl, inr}
use native.Mathlib.Omega.{arith}
use infernal_law.Base.Bools.{if◌then◌else◌, ◌==◌, Bool-cases}

abbrev pub All {ℓ κ} : {A : Type ℓ} → (A → Type κ) → List A → Type κ
All P [] = Unit
All P (x ∷ xs) = P x × All P xs

module _ {ℓ} {A : Type ℓ} where
  abbrev pub length : List A → ℕ
  length [] = 0
  length (x ∷ xs) = suc (length xs)

  -- The rows that a `WHERE` clause keeps.
  unfoldable pub where_rows : (A → Bool) → List A → List A
  where_rows p [] = []
  where_rows p (x ∷ xs) = let rest = where_rows p xs in if p x then x ∷ rest else rest

  -- The first row that a `WHERE` clause keeps.
  unfoldable pub find_row : (A → Bool) → List A → Option A
  find_row p [] = none
  find_row p (x ∷ xs) = if p x then some x else find_row p xs

  unfoldable pub any_row : (A → Bool) → List A → Bool
  any_row p [] = false
  any_row p (x ∷ xs) = if p x then true else any_row p xs

  -- `UPDATE … SET change` of the rows that a `WHERE` clause keeps.
  unfoldable pub update_rows : (A → Bool) → (A → A) → List A → List A
  update_rows p change [] = []
  update_rows p change (x ∷ xs) =
      let rest = update_rows p change xs in if p x then change x ∷ rest else x ∷ rest

-- `ids.contains(&id)`.
abbrev pub contains : List ℕ → ℕ → Bool
contains xs a = any_row (λ x. x == a) xs

pub any_row-false {ℓ} :
    {A : Type ℓ} (p : A → Bool) (xs : List A) → any_row p xs ≡ false → All (λ x. p x ≡ false) xs
unfolding any_row
any_row-false p [] h = tt
any_row-false p (x ∷ xs) h = elim (Bool-cases (p x)) [
  | inl hit ↦ absurd (ground (arith, hit))
  | inr miss ↦ (miss, any_row-false p xs (ground (arith, miss)))
]

pub All-map {ℓ κ} :
    {A : Type ℓ} {P Q : A → Type κ} (f : (a : A) → P a → Q a) (xs : List A) → All P xs → All Q xs
All-map f [] h = tt
All-map f (x ∷ xs) h = (f x h.0, All-map f xs h.1)

pub find_row-holds {ℓ} :
    {A : Type ℓ} (p : A → Bool) (xs : List A) {a : A} → find_row p xs ≡ some a → p a ≡ true
unfolding find_row
find_row-holds p [] h = absurd (ground (arith, h))
find_row-holds p (x ∷ xs) {a} h = elim (Bool-cases (p x)) [
  | inl hit ↦ ground (arith, h, hit)
  | inr miss ↦ find_row-holds p xs (ground (arith, h, miss))
]

-- What any row has, any row has that follows from it.
pub any_row_weaken {ℓ} :
    {A : Type ℓ} (p q : A → Bool)
    → ((x : A) → p x ≡ true → q x ≡ true)
    → (xs : List A) → any_row p xs ≡ true
    → any_row q xs ≡ true
unfolding any_row
any_row_weaken p q f [] h = absurd (ground (arith, h))
any_row_weaken p q f (x ∷ xs) h = elim (Bool-cases (p x)) [
  | inl hit ↦ let now = f x hit in ground (arith, now)
  | inr miss ↦ let ih = any_row_weaken p q f xs (ground (arith, h, miss)) in ground (arith, ih)
]

pub any_row-find_row {ℓ} :
    {A : Type ℓ} (p : A → Bool) (xs : List A) {a : A} → find_row p xs ≡ some a → any_row p xs ≡ true
unfolding find_row any_row
any_row-find_row p [] h = absurd (ground (arith, h))
any_row-find_row p (x ∷ xs) {a} h = elim (Bool-cases (p x)) [
  | inl hit ↦ ground (arith, hit)
  | inr miss ↦
      let ih = any_row-find_row p xs {a = a} (ground (arith, h, miss)) in ground (arith, miss, ih)
]

-- An update that takes the mark `q` off no row leaves a marked row; one that sets it on the rows
-- that it changes, of which there is one, makes a marked row.
module _ {ℓ} {A : Type ℓ} (p : A → Bool) (change : A → A) (q : A → Bool) where
  pub update_rows_keeps :
      ((x : A) → p x ≡ true → q x ≡ true → q (change x) ≡ true)
      → (xs : List A) → any_row q xs ≡ true
      → any_row q (update_rows p change xs) ≡ true
  unfolding any_row update_rows
  update_rows_keeps f [] h = h
  update_rows_keeps f (x ∷ xs) h = elim (Bool-cases (q x)) [
    | inl hit ↦ elim (Bool-cases (p x)) [
      | inl changes ↦ let still = f x changes hit in ground (arith, changes, still)
      | inr stays ↦ ground (arith, stays, hit)
    ]
    | inr miss ↦
        let ih = update_rows_keeps f xs (ground (arith, h, miss)) in ground (arith, miss, ih)
  ]

  pub update_rows_sets :
      ((x : A) → p x ≡ true → q (change x) ≡ true)
      → (xs : List A) → any_row p xs ≡ true
      → any_row q (update_rows p change xs) ≡ true
  unfolding any_row update_rows
  update_rows_sets f [] h = absurd (ground (arith, h))
  update_rows_sets f (x ∷ xs) h = elim (Bool-cases (p x)) [
    | inl hit ↦ let now = f x hit in ground (arith, hit, now)
    | inr miss ↦
        let ih = update_rows_sets f xs (ground (arith, h, miss)) in ground (arith, miss, ih)
  ]
