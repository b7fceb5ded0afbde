-- ===== src/Base/Spent.antt =====
-- Tables of rows that have a key and are spent once: the challenges that an UPDATE consumes.
use Prim.Native.Nat.{ℕ}
use mathlib.Core.Bool.{Bool, true, false, not, ◌&&◌}
use mathlib.Core.List.{List, [], ◌∷◌}
use mathlib.Core.Option.{none}
use mathlib.Core.Path.{◌≡◌, refl, ◌∙◌, subst}
use mathlib.Core.Logic.{inl, inr}
use native.Mathlib.Omega.{arith}
use infernal_law.Base.Bools.{◌==◌, ==_iff, Bool-cases}
use infernal_law.Base.Lists.{any_row, find_row, update_rows}

module _ {ℓ} {A : Type ℓ} (key : A → ℕ) (spent : A → Bool) where
  abbrev pub has_key : ℕ → A → Bool
  has_key k a = key a == k

  abbrev pub is_open : ℕ → A → Bool
  is_open k a = key a == k && not (spent a)

  -- The key is a primary key.
  abbrev pub HasKey : List A → Type 0
  HasKey [] = Unit
  HasKey (a ∷ xs) = (any_row (has_key (key a)) xs ≡ false) × HasKey xs

  -- A row has the key `k`, and every row that has it is spent.
  abbrev pub Spent : ℕ → List A → Type 0
  Spent k xs = (any_row (has_key k) xs ≡ true) × (any_row (is_open k) xs ≡ false)

  -- A row of another key changes nothing.
  pub cons-Spent :
      (k : ℕ) (a : A) (xs : List A)
      → Spent k xs
      → any_row (has_key (key a)) xs ≡ false
      → Spent k (a ∷ xs)
  unfolding any_row
  cons-Spent k a xs (there, closed) fresh = elim (Bool-cases (has_key k a)) [
    | inl same ↦
        let absent =
          subst (λ n. any_row (has_key n) xs ≡ false) ((==_iff (key a) k).0 same) fresh in
        absurd (ground (arith, absent, there))
    | inr other ↦ (ground (arith, other, there), ground (arith, other, closed))
  ]

  closed_of_absent :
      (k : ℕ) (xs : List A) → any_row (has_key k) xs ≡ false → any_row (is_open k) xs ≡ false
  unfolding any_row
  closed_of_absent k [] h = refl
  closed_of_absent k (a ∷ xs) h =
      let ih = closed_of_absent k xs (ground (arith, h)) in ground (arith, h, ih)

  module _ (p : A → Bool) where
    -- No row that an UPDATE asks for is left.
    pub Spent-none :
        (k : ℕ)
        → ((a : A) → p a ≡ true → is_open k a ≡ true)
        → (xs : List A) → Spent k xs
        → (find_row p xs ≡ none) × (any_row p xs ≡ false)
    unfolding any_row find_row
    Spent-none k needs xs (_, h) = go xs h
      where
        go :
            (xs : List A)
            → any_row (is_open k) xs ≡ false
            → (find_row p xs ≡ none) × (any_row p xs ≡ false)
        go [] h = (refl, refl)
        go (a ∷ xs) h = elim (Bool-cases (p a)) [
          | inl hit ↦ absurd (ground (arith, h, needs a hit))
          | inr miss ↦
              let (found, any) = go xs (ground (arith, h)) in
              (ground (arith, miss, found), ground (arith, miss, any))
        ]

    find-none_of_absent :
        (k : ℕ)
        → ((a : A) → p a ≡ true → is_open k a ≡ true)
        → (xs : List A) → any_row (has_key k) xs ≡ false
        → any_row p xs ≡ false
    unfolding any_row
    find-none_of_absent k needs [] h = refl
    find-none_of_absent k needs (a ∷ xs) h = elim (Bool-cases (p a)) [
      | inl hit ↦ absurd (ground (arith, h, needs a hit))
      | inr miss ↦
          let ih = find-none_of_absent k needs xs (ground (arith, h)) in ground (arith, miss, ih)
    ]

    module _ (spend : A → A) (same_key : (a : A) → key (spend a) ≡ key a)
        (spends : (a : A) → spent (spend a) ≡ true) where
      pub any-updated :
          (k : ℕ) (xs : List A)
          → any_row (has_key k) (update_rows p spend xs) ≡ any_row (has_key k) xs
      unfolding any_row update_rows
      any-updated k [] = refl
      any-updated k (a ∷ xs) =
          let ih = any-updated k xs in let same = same_key a in ground (arith, ih, same)

      open-updated :
          (k : ℕ) (xs : List A)
          → any_row (is_open k) xs ≡ false
          → any_row (is_open k) (update_rows p spend xs) ≡ false
      unfolding any_row update_rows
      open-updated k [] h = refl
      open-updated k (a ∷ xs) h =
          let ih = open-updated k xs (ground (arith, h)) in
          let gone = spends a in
          elim (Bool-cases (p a)) [
            | inl hit ↦ ground (arith, hit, ih, gone)
            | inr miss ↦ ground (arith, miss, ih, h)
          ]

      -- What is spent stays so.
      pub update-Spent : (k : ℕ) (xs : List A) → Spent k xs → Spent k (update_rows p spend xs)
      update-Spent k xs (there, closed) = (any-updated k xs ∙ there, open-updated k xs closed)

      pub update-HasKey : (xs : List A) → HasKey xs → HasKey (update_rows p spend xs)
      unfolding update_rows
      update-HasKey [] h = tt
      update-HasKey (a ∷ xs) (fresh, h) =
          let ih = update-HasKey xs h in
          let there = any-updated (key a) xs in
          let same = same_key a in ground (arith, ih, there, same, fresh)

      -- An UPDATE that finds its row spends the key.
      pub spend-Spent :
          (k : ℕ)
          → ((a : A) → p a ≡ true → is_open k a ≡ true)
          → (xs : List A) → HasKey xs
          → any_row p xs ≡ true
          → Spent k (update_rows p spend xs)
      unfolding any_row update_rows
      spend-Spent k needs [] h found = absurd (ground (arith, found))
      spend-Spent k needs (a ∷ xs) (fresh, h) found = elim (Bool-cases (p a)) [
        | inl hit ↦
            let opens = needs a hit in
            let same : key a ≡ k = ground (arith, opens) in
            let absent : any_row (has_key k) (update_rows p spend xs) ≡ false =
              any-updated k xs ∙ subst (λ n. any_row (has_key n) xs ≡ false) same fresh in
            let closed = closed_of_absent k (update_rows p spend xs) absent in
            let kept = same_key a in
            let gone = spends a in
            (ground (arith, hit, kept, same), ground (arith, hit, gone, closed))
        | inr miss ↦
            let later : any_row p xs ≡ true = ground (arith, found, miss) in
            let (there, closed) = spend-Spent k needs xs h later in
            elim (Bool-cases (has_key k a)) [
              | inr other ↦ (ground (arith, miss, there), ground (arith, miss, other, closed))
              | inl same ↦
                  let absent = find-none_of_absent k needs xs (
                    subst (λ n. any_row (has_key n) xs ≡ false) ((==_iff (key a) k).0 same)
                      fresh) in
                  absurd (ground (arith, absent, later))
            ]
      ]
