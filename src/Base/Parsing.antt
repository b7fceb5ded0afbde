-- ===== src/Base/Parsing.antt =====
-- The operations of `str` that parse, and the decimal print of an integer, with what a parser reads
-- of a print.
use Prim.Native.Nat.{ℕ, zero, suc, ◌+◌, ◌-◌, ◌*◌, ◌/◌, ◌%◌, ◌^◌, ◌<◌, ◌≤◌}
use mathlib.Core.Path.{◌≡◌, refl}
use mathlib.Core.Logic.{◌≢◌}
use mathlib.Core.Bool.{Bool, true, false}
use mathlib.Core.Option.{Option, none, some}
use mathlib.Core.List.{List, [], ◌∷◌, ◌++◌}
use native.Mathlib.Omega.{arith}
use infernal_law.Base.Bools.{ltb, ◌==◌, if◌then◌else◌}
use infernal_law.Base.Lists.{All}
use infernal_law.Base.Int.{ℤ, pos, negsuc}
use infernal_law.Base.Strings.{Text}
use infernal_law.Base.Bytes.{be_bytes}

-- `str::strip_prefix`.
unfoldable pub strip_prefix : Text → Text → Option Text
strip_prefix [] s = some s
strip_prefix (p ∷ ps) [] = none
strip_prefix (p ∷ ps) (c ∷ s) = if c == p then strip_prefix ps s else none

-- `str::strip_suffix` of one character.
unfoldable pub strip_last : ℕ → Text → Option Text
strip_last p [] = none
strip_last p (c ∷ []) = if c == p then some [] else none
strip_last p (c ∷ d ∷ s) = elim (strip_last p (d ∷ s)) [ none ↦ none | some t ↦ some (c ∷ t) ]

-- `str::split_once`, at the first place where the pattern stands.
unfoldable pub split_once : Text → Text → Option (Text × Text)
unfolding strip_prefix
split_once pattern [] = elim (strip_prefix pattern []) [ none ↦ none | some rest ↦ some ([], rest) ]
split_once pattern (c ∷ s) =
    let later = split_once pattern s in
    elim (strip_prefix pattern (c ∷ s)) [
      | some rest ↦ some ([], rest)
      | none ↦ elim later [ none ↦ none | some (front, rest) ↦ some (c ∷ front, rest) ]
    ]

pub strip_prefix-append : (p s : Text) → strip_prefix p (p ++ s) ≡ some s
unfolding strip_prefix
strip_prefix-append [] s = refl
strip_prefix-append (c ∷ p) s = ground (arith, strip_prefix-append p s)

pub strip_last-snoc : (s : Text) (c : ℕ) → strip_last c (s ++ c ∷ []) ≡ some s
unfolding strip_last
strip_last-snoc [] c = ground arith
strip_last-snoc (a ∷ []) c = ground arith
strip_last-snoc (a ∷ b ∷ s) c = ground (arith, strip_last-snoc (b ∷ s) c)

-- A text without the pattern's first character, before the pattern.
pub split_once-append :
    (q : ℕ) (ps s r : Text)
    → All (λ c. c ≢ q) s
    → split_once (q ∷ ps) (s ++ ((q ∷ ps) ++ r)) ≡ some (s, r)
unfolding split_once strip_prefix
split_once-append q ps [] r free = ground (arith, strip_prefix-append ps r)
split_once-append q ps (c ∷ s) r (here, free) =
    let ih = split_once-append q ps s r free in ground (arith, ih, here)

-- The digits of a number that has `fuel` of them at most.
unfoldable pub digits : ℕ → ℕ → Text
digits zero n = []
digits (suc fuel) n =
    let high = digits fuel (n / 10) in
    if ltb n 10 then (b'0' + n) ∷ [] else high ++ (b'0' + n % 10) ∷ []

-- The print of an `i64`, which has 19 digits at most.
unfoldable pub decimal : ℤ → Text
decimal (pos n) = digits 19 n
decimal (negsuc n) = b'-' ∷ digits 19 (suc n)

-- The number that digits spell behind `n`.
unfoldable pub number : Text → ℕ → ℕ
number [] n = n
number (c ∷ s) n = number s (n * 10 + (c - b'0'))

abbrev pub IsDigit : ℕ → Type 0
IsDigit c = (b'0' ≤ c) × (c ≤ b'9')

number-snoc : (s : Text) (c n : ℕ) → number (s ++ c ∷ []) n ≡ number s n * 10 + (c - b'0')
unfolding number
number-snoc [] c n = refl
number-snoc (d ∷ s) c n = number-snoc s c (n * 10 + (d - b'0'))

pub number-digits : (fuel n : ℕ) → n < 10 ^ suc fuel → number (digits (suc fuel) n) 0 ≡ n
unfolding digits number
number-digits zero n h = ground (arith, h)
number-digits (suc fuel) n h =
    let ih = number-digits fuel (n / 10) (omega (arith, h)) in
    let last = number-snoc (digits (suc fuel) (n / 10)) (b'0' + n % 10) 0 in
    ground (arith, ih, last)

pub All-snoc : (P : ℕ → Type 0) (s : Text) (c : ℕ) → All P s → P c → All P (s ++ c ∷ [])
All-snoc P [] c all here = (here, tt)
All-snoc P (d ∷ s) c (first, all) here = (first, All-snoc P s c all here)

pub digits-IsDigit : (fuel n : ℕ) → All IsDigit (digits fuel n)
unfolding digits
digits-IsDigit zero n = tt
digits-IsDigit (suc fuel) n = split (ltb n 10) refl (
    All-snoc IsDigit (digits fuel (n / 10)) (b'0' + n % 10) (digits-IsDigit fuel (n / 10))
      (omega arith, omega arith))
  where
    split :
        (b : Bool)
        → ltb n 10 ≡ b
        → All IsDigit (digits fuel (n / 10) ++ (b'0' + n % 10) ∷ [])
        → All IsDigit (if b then (b'0' + n) ∷ [] else digits fuel (n / 10) ++ (b'0' + n % 10) ∷ [])
    split true small high = ((ground (arith, small), ground (arith, small)), tt)
    split false large high = high

-- The number that bytes spell, the first byte highest.
unfoldable pub of_bytes : List ℕ → ℕ → ℕ
of_bytes [] n = n
of_bytes (b ∷ bs) n = of_bytes bs (n * 256 + b)

of_bytes-snoc : (s : List ℕ) (b n : ℕ) → of_bytes (s ++ b ∷ []) n ≡ of_bytes s n * 256 + b
unfolding of_bytes
of_bytes-snoc [] b n = refl
of_bytes-snoc (d ∷ s) b n = of_bytes-snoc s b (n * 256 + d)

pub of_bytes-be_bytes : (w n : ℕ) → n < 256 ^ w → of_bytes (be_bytes w n) 0 ≡ n
unfolding of_bytes be_bytes
of_bytes-be_bytes zero n h = omega (arith, h)
of_bytes-be_bytes (suc w) n h =
    let ih = of_bytes-be_bytes w (n / 256) (omega (arith, h)) in
    let last = of_bytes-snoc (be_bytes w (n / 256)) (n % 256) 0 in omega (arith, ih, last)
