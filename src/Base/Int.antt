-- ===== src/Base/Int.antt =====
-- Signed integers over the native numbers: the values of an `i64`, with the arithmetic of
-- `i64::checked_add`, `i64::saturating_add` and the wrapping `+`.
use Prim.Native.Nat.{ℕ, suc, ◌+◌, ◌-◌, ◌≤◌, ◌<◌}
use mathlib.Core.Path.{◌≡◌}
use mathlib.Core.Bool.{Bool}
use mathlib.Core.Option.{Option, none, some}
use native.Mathlib.Omega.{arith}
use infernal_law.Base.Bools.{ltb, leb, ◌==◌, if◌then◌else◌}

-- `negsuc n` is -(n + 1).
pub data ℤ : Type 0 where
  pos : ℕ → ℤ
  negsuc : ℕ → ℤ

abbrev pub pos_part : ℤ → ℕ
pos_part (pos n) = n
pos_part (negsuc n) = 0

abbrev pub neg_part : ℤ → ℕ
neg_part (pos n) = 0
neg_part (negsuc n) = suc n

-- a - b, as an integer.
abbrev pub sub_ℕ : ℕ → ℕ → ℤ
sub_ℕ a b = if leb b a then pos (a - b) else negsuc (b - a - 1)

infixl 65 ◌+ℤ◌ ◌-ℤ◌
infix 50 ◌≤ℤ◌ ◌<ℤ◌
unfoldable pub ◌+ℤ◌ : ℤ → ℤ → ℤ
a +ℤ b = sub_ℕ (pos_part a + pos_part b) (neg_part a + neg_part b)

unfoldable pub ◌-ℤ◌ : ℤ → ℤ → ℤ
a -ℤ b = sub_ℕ (pos_part a + neg_part b) (neg_part a + pos_part b)

abbrev pub ◌≤ℤ◌ : ℤ → ℤ → Type 0
a ≤ℤ b = pos_part a + neg_part b ≤ pos_part b + neg_part a

abbrev pub ◌<ℤ◌ : ℤ → ℤ → Type 0
a <ℤ b = pos_part a + neg_part b < pos_part b + neg_part a

abbrev pub ltb_ℤ : ℤ → ℤ → Bool
ltb_ℤ a b = ltb (pos_part a + neg_part b) (pos_part b + neg_part a)

abbrev pub leb_ℤ : ℤ → ℤ → Bool
leb_ℤ a b = leb (pos_part a + neg_part b) (pos_part b + neg_part a)

abbrev pub eqb_ℤ : ℤ → ℤ → Bool
eqb_ℤ a b = (pos_part a + neg_part b) == (pos_part b + neg_part a)

abbrev pub i64_max : ℤ
i64_max = pos 0x7fffffffffffffff

abbrev pub i64_min : ℤ
i64_min = negsuc 0x7fffffffffffffff

abbrev pub two_pow_64 : ℤ
two_pow_64 = pos 0x10000000000000000

-- `i64::checked_add`.
unfoldable pub checked_add : ℤ → ℤ → Option ℤ
unfolding ◌+ℤ◌
checked_add a b =
    let s = a +ℤ b in if ltb_ℤ i64_max s then none else if ltb_ℤ s i64_min then none else some s

-- `i64::saturating_add`.
unfoldable pub saturating_add : ℤ → ℤ → ℤ
unfolding ◌+ℤ◌
saturating_add a b =
    let s = a +ℤ b in if ltb_ℤ i64_max s then i64_max else if ltb_ℤ s i64_min then i64_min else s

-- `a + b` of a release build, which wraps around.
unfoldable pub wrapping_add : ℤ → ℤ → ℤ
unfolding ◌+ℤ◌ ◌-ℤ◌
wrapping_add a b =
    let s = a +ℤ b in
    if ltb_ℤ i64_max s then s -ℤ two_pow_64 else if ltb_ℤ s i64_min then s +ℤ two_pow_64 else s

unfoldable pub min_ℤ : ℤ → ℤ → ℤ
min_ℤ a b = if ltb_ℤ a b then a else b

pub +ℤ_parts :
    (a b : ℤ)
    → pos_part (a +ℤ b) + neg_part a + neg_part b ≡ neg_part (a +ℤ b) + pos_part a + pos_part b
unfolding ◌+ℤ◌
+ℤ_parts a b = ground arith

pub eq_of_parts : (a b : ℤ) → pos_part a + neg_part b ≡ pos_part b + neg_part a → a ≡ b
eq_of_parts a b h = ground arith

pub checked_add-ok : (a b : ℤ) {c : ℤ} → checked_add a b ≡ some c → (c ≡ a +ℤ b) × (c ≤ℤ i64_max)
unfolding checked_add
checked_add-ok a b h = ground (arith, h)

pub +ℤ_mono : (a b c : ℤ) → b ≤ℤ c → a +ℤ b ≤ℤ a +ℤ c
+ℤ_mono a b c h = omega (arith, h, +ℤ_parts a b, +ℤ_parts a c)
