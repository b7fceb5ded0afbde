-- ===== src/Base/Queries.antt =====
-- What the queries of a table keep: ORDER BY, and which rows a filtered or ordered list holds.
use Prim.Native.Nat.{ℕ}
use mathlib.Core.Bool.{Bool, true, ◌&&◌, ◌||◌}
use mathlib.Core.List.{List, [], ◌∷◌, map}
use mathlib.Core.Path.{◌≡◌, refl}
use native.Mathlib.Omega.{arith}
use infernal_law.Base.Bools.{if◌then◌else◌, ◌==◌, leb}
use infernal_law.Base.Int.{ℤ, ltb_ℤ, eqb_ℤ}
use infernal_law.Base.Lists.{All, where_rows, any_row, contains}

module _ {ℓ} {A : Type ℓ} (comes_first : A → A → Bool) where
  unfoldable pub insert_by : A → List A → List A
  insert_by a [] = a ∷ []
  insert_by a (x ∷ xs) =
      let rest = insert_by a xs in if comes_first a x then a ∷ x ∷ xs else x ∷ rest

  -- ORDER BY: an insertion sort.
  unfoldable pub order_by : List A → List A
  order_by [] = []
  order_by (x ∷ xs) = insert_by x (order_by xs)

-- ORDER BY created_at, id.
abbrev pub by_creation {ℓ} : {A : Type ℓ} → (A → ℤ) → (A → ℕ) → A → A → Bool
by_creation created_at id a b =
    ltb_ℤ (created_at a) (created_at b)
    || (eqb_ℤ (created_at a) (created_at b) && leb (id a) (id b))

module _ {ℓ} {A : Type ℓ} (p : A → Bool) where
  any_row-insert_by :
      (first : A → A → Bool) (a : A) (xs : List A)
      → any_row p (insert_by first a xs) ≡ any_row p (a ∷ xs)
  unfolding any_row insert_by
  any_row-insert_by first a [] = refl
  any_row-insert_by first a (x ∷ xs) = let ih = any_row-insert_by first a xs in ground (arith, ih)

  -- An ordered list holds the rows of the list.
  pub any_row-order_by :
      (first : A → A → Bool) (xs : List A) → any_row p (order_by first xs) ≡ any_row p xs
  unfolding any_row order_by
  any_row-order_by first [] = refl
  any_row-order_by first (x ∷ xs) =
      let ih = any_row-order_by first xs in
      let step = any_row-insert_by first x (order_by first xs) in ground (arith, ih, step)

  pub any_row-where_rows :
      (q : A → Bool) (xs : List A) → any_row p (where_rows q xs) ≡ any_row (λ x. q x && p x) xs
  unfolding any_row where_rows
  any_row-where_rows q [] = refl
  any_row-where_rows q (x ∷ xs) = let ih = any_row-where_rows q xs in ground (arith, ih)

  pub any_row-congr :
      (q : A → Bool) (xs : List A) → ((x : A) → p x ≡ q x) → any_row p xs ≡ any_row q xs
  unfolding any_row
  any_row-congr q [] same = refl
  any_row-congr q (x ∷ xs) same =
      let ih = any_row-congr q xs same in let here = same x in ground (arith, ih, here)

  -- Two filters that agree on the rows of a list keep the same ones.
  pub where_rows-congr :
      (q : A → Bool) (xs : List A) → All (λ x. p x ≡ q x) xs → where_rows p xs ≡ where_rows q xs
  unfolding where_rows
  where_rows-congr q [] same = refl
  where_rows-congr q (x ∷ xs) (here, there) =
      let ih = where_rows-congr q xs there in ground (arith, ih, here)

-- Whether an id is among those of the rows that a query keeps.
pub contains-map {ℓ} :
    {A : Type ℓ} (id : A → ℕ) (xs : List A) (n : ℕ)
    → contains (map id xs) n ≡ any_row (λ x. id x == n) xs
unfolding any_row
contains-map id [] n = refl
contains-map id (x ∷ xs) n = let ih = contains-map id xs n in ground (arith, ih)

-- Every row's id is among the ids of a list that starts with others.
pub All-contained {ℓ} :
    {A : Type ℓ} (id : A → ℕ) (seen : List ℕ) (xs : List A)
    → ((n : ℕ) → any_row (λ x. id x == n) xs ≡ true → contains seen n ≡ true)
    → All (λ x. contains seen (id x) ≡ true) xs
unfolding any_row
All-contained id seen [] h = tt
All-contained id seen (x ∷ xs) h =
    (h (id x) (ground arith), All-contained id seen xs (λ n there. h n (ground (arith, there))))
