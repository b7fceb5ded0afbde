-- ===== src/Base/Trim.antt =====
-- `str::trim` removes nothing more when it is called again.
use mathlib.Core.Bool.{false}
use mathlib.Core.List.{[], ◌∷◌, ◌++◌, reverse, reverse-reverse, reverse-append, reverse-cons}
use mathlib.Core.Path.{◌≡◌, refl, ap, ◌∙◌, sym}
use native.Mathlib.Omega.{arith}
use mathlib.Core.Logic.{◌⊎◌, inl, inr}
use Prim.Native.Nat.{ℕ}
use infernal_law.Base.Bools.{Bool-cases}
use infernal_law.Base.Strings.{Text, trim_start, trim, is_whitespace}

-- What is left starts with another character, or nothing is left.
trim_start-cases :
    (s : Text)
    → (trim_start s ≡ [])
      ⊎ ((c : ℕ) × (r : Text) × (is_whitespace c ≡ false) × (trim_start s ≡ c ∷ r))
unfolding trim_start
trim_start-cases [] = inl refl
trim_start-cases (c ∷ s) = elim (Bool-cases (is_whitespace c)) [
  | inl space ↦ elim (trim_start-cases s) [
    | inl e ↦ inl (ground (arith, space, e))
    | inr (d, r, stays, e) ↦ inr (d, r, stays, ground (arith, space, e))
  ]
  | inr other ↦ inr (c, s, other, ground (arith, other))
]

trim_start_stops : (c : ℕ) (s : Text) → is_whitespace c ≡ false → trim_start (c ∷ s) ≡ c ∷ s
unfolding trim_start
trim_start_stops c s h = ground (arith, h)

trim_start_idem : (s : Text) → trim_start (trim_start s) ≡ trim_start s
unfolding trim_start
trim_start_idem s = elim (trim_start-cases s) [
  | inl e ↦ ap trim_start e ∙ sym e
  | inr (c, r, stays, e) ↦ ap trim_start e ∙ trim_start_stops c r stays ∙ sym e
]

-- Nothing is removed beyond a last character that stays.
trim_start-snoc :
    (s : Text) (c : ℕ)
    → is_whitespace c ≡ false
    → (t : Text) × (trim_start (s ++ c ∷ []) ≡ t ++ c ∷ [])
unfolding trim_start
trim_start-snoc [] c stays = ([], ground (arith, stays))
trim_start-snoc (d ∷ s) c stays = elim (Bool-cases (is_whitespace d)) [
  | inl space ↦ let (t, e) = trim_start-snoc s c stays in (t, ground (arith, space, e))
  | inr other ↦ (d ∷ s, ground (arith, other))
]

-- What `trim` does behind the characters that `trim_start` leaves.
abbrev trim_end : Text → Text
trim_end s = reverse (trim_start (reverse s))

trim_end_idem : (s : Text) → trim_end (trim_end s) ≡ trim_end s
trim_end_idem s =
    ap (λ (t : Text). reverse (trim_start t)) (reverse-reverse (trim_start (reverse s)))
    ∙ ap reverse (trim_start_idem (reverse s))

-- A first character that stays is first when the end is trimmed.
trim_end_first :
    (c : ℕ) (s : Text) → is_whitespace c ≡ false → (t : Text) × (trim_end (c ∷ s) ≡ c ∷ t)
trim_end_first c s stays =
    let (t, e) = trim_start-snoc (reverse s) c stays in
    (
      reverse t,
      ap (λ (u : Text). reverse (trim_start u)) (reverse-cons c s)
          ∙ ap reverse e
          ∙ reverse-append t (c ∷ []),
    )

nil_end : trim_start (trim_end []) ≡ trim_end []
unfolding trim_start
nil_end = refl

trim_start-end : (s : Text) → trim_start (trim_end (trim_start s)) ≡ trim_end (trim_start s)
trim_start-end s = elim (trim_start-cases s) [
  | inl e ↦ ap (λ (u : Text). trim_start (trim_end u)) e ∙ nil_end ∙ sym (ap trim_end e)
  | inr (c, r, stays, e) ↦
      let (t, f) = trim_end_first c r stays in
      let whole : trim_end (trim_start s) ≡ c ∷ t = ap trim_end e ∙ f in
      ap trim_start whole ∙ trim_start_stops c t stays ∙ sym whole
]

pub trim_idem : (s : Text) → trim (trim s) ≡ trim s
unfolding trim
trim_idem s = ap trim_end (trim_start-end s) ∙ trim_end_idem (trim_start s)
