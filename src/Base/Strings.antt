-- ===== src/Base/Strings.antt =====
-- Rust's `str` as the list of its characters, each the number of its code point, with the
-- operations of the standard library that the code calls.
use Prim.Native.Char.{code}
use Prim.Native.String.{String}
use Prim.Native.Nat.{ℕ, ◌+◌, ◌/◌, ◌%◌}
use mathlib.Core.Path.{◌≡◌, refl}
use mathlib.Core.Bool.{Bool, true, false, ◌&&◌, ◌||◌}
use mathlib.Core.List.{List, [], ◌∷◌, ◌++◌, reverse}
use native.Mathlib.Omega.{arith}
use infernal_law.Base.Bools.{ltb, leb, ◌==◌, if◌then◌else◌}

abbrev pub Text : Type 0
Text = List ℕ

abbrev pub codes : String → Text
codes String.[] = []
codes (String.◌∷◌ c s) = code c ∷ codes s

-- `str::starts_with`.
unfoldable pub starts_with : Text → Text → Bool
starts_with s [] = true
starts_with [] (p ∷ ps) = false
starts_with (c ∷ s) (p ∷ ps) = c == p && starts_with s ps

unfoldable pub text_eq : Text → Text → Bool
text_eq [] [] = true
text_eq (a ∷ s) (b ∷ t) = a == b && text_eq s t
text_eq _ _ = false

pub text_eq_refl : (s : Text) → text_eq s s ≡ true
unfolding text_eq
text_eq_refl [] = refl
text_eq_refl (a ∷ s) = ground (arith, text_eq_refl s)

pub text_eq-eq : (s t : Text) → text_eq s t ≡ true → s ≡ t
unfolding text_eq
text_eq-eq [] [] h = refl
text_eq-eq [] (b ∷ t) h = absurd (cc)
text_eq-eq (a ∷ s) [] h = absurd (cc)
text_eq-eq (a ∷ s) (b ∷ t) h = ground (arith, text_eq-eq s t)

-- The UTF-8 bytes of a character, and `str::bytes`.
unfoldable pub utf8 : ℕ → List ℕ
utf8 c =
    if ltb c 0x80
    then c ∷ []
    else if ltb c 0x800
    then (0xC0 + c / 64) ∷ (0x80 + c % 64) ∷ []
    else if ltb c 0x10000
    then (0xE0 + c / 4096) ∷ (0x80 + c / 64 % 64) ∷ (0x80 + c % 64) ∷ []
    else (0xF0 + c / 262144) ∷ (0x80 + c / 4096 % 64) ∷ (0x80 + c / 64 % 64) ∷ (0x80 + c % 64) ∷ []

unfoldable pub bytes : Text → List ℕ
unfolding utf8
bytes [] = []
bytes (c ∷ s) = utf8 c ++ bytes s

-- `char::is_whitespace`, the Unicode property White_Space.
unfoldable pub is_whitespace : ℕ → Bool
is_whitespace c =
    leb 9 c && leb c 13
    || c == 32
    || c == 0x85
    || c == 0xA0
    || c == 0x1680
    || leb 0x2000 c && leb c 0x200A
    || c == 0x2028
    || c == 0x2029
    || c == 0x202F
    || c == 0x205F
    || c == 0x3000

unfoldable pub trim_start : Text → Text
unfolding is_whitespace
trim_start [] = []
trim_start (c ∷ s) = if is_whitespace c then trim_start s else c ∷ s

-- `str::trim`.
unfoldable pub trim : Text → Text
unfolding trim_start
trim s = reverse (trim_start (reverse (trim_start s)))

abbrev pub cons_head : ℕ → List Text → List Text
cons_head c [] = (c ∷ []) ∷ []
cons_head c (w ∷ ws) = (c ∷ w) ∷ ws

-- `str::split` at the dots.
unfoldable pub split_dots : Text → List Text
split_dots [] = [] ∷ []
split_dots (c ∷ s) = let rest = split_dots s in if c == 46 then [] ∷ rest else cons_head c rest

-- `Iterator::all`.
unfoldable pub all {ℓ} : {A : Type ℓ} → (A → Bool) → List A → Bool
all p [] = true
all p (x ∷ xs) = p x && all p xs
