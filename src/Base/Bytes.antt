-- ===== src/Base/Bytes.antt =====
-- Numbers as bytes, and byte strings that are written one behind the other.
use Prim.Native.Nat.{ℕ, zero, suc, ◌+◌, ◌-◌, ◌/◌, ◌%◌, ◌^◌, ◌<◌}
use mathlib.Core.Path.{◌≡◌, refl, sym, ◌∙◌}
use mathlib.Core.List.{List, [], ◌∷◌, ◌++◌}
use native.Mathlib.Omega.{arith}
use infernal_law.Base.Int.{ℤ, pos, negsuc}
use infernal_law.Base.Lists.{length, All}

-- `to_be_bytes` of a number of `width` bytes.
unfoldable pub be_bytes : ℕ → ℕ → List ℕ
be_bytes zero n = []
be_bytes (suc width) n = be_bytes width (n / 256) ++ n % 256 ∷ []

-- `i64::to_be_bytes`, two's complement in eight bytes.
unfoldable pub i64_bytes : ℤ → List ℕ
i64_bytes (pos n) = be_bytes 8 n
i64_bytes (negsuc n) = be_bytes 8 (2 ^ 64 - 1 - n)

-- Each field behind its length, a `u32`: the encoding of the messages that are signed.
unfoldable pub encode_fields : List (List ℕ) → List ℕ
encode_fields [] = []
encode_fields (field ∷ fields) = be_bytes 4 (length field) ++ (field ++ encode_fields fields)

pub append-split :
    (xs ys us vs : List ℕ) → length xs ≡ length ys → xs ++ us ≡ ys ++ vs → (xs ≡ ys) × (us ≡ vs)
append-split [] [] us vs n e = (refl, e)
append-split [] (y ∷ ys) us vs n e = absurd (ground arith)
append-split (x ∷ xs) [] us vs n e = absurd (ground arith)
append-split (x ∷ xs) (y ∷ ys) us vs n e =
    let (front, back) = append-split xs ys us vs (ground arith) (ground arith) in
    (ground (arith, front), back)

pub length-append : (xs ys : List ℕ) → length (xs ++ ys) ≡ length xs + length ys
length-append [] ys = omega arith
length-append (x ∷ xs) ys = let ih = length-append xs ys in ground (arith, ih)

pub length-be_bytes : (w n : ℕ) → length (be_bytes w n) ≡ w
unfolding be_bytes
length-be_bytes zero n = refl
length-be_bytes (suc w) n =
    let ih = length-be_bytes w (n / 256) in
    let sum = length-append (be_bytes w (n / 256)) (n % 256 ∷ []) in ground (arith, ih, sum)

pow_fits : (w n : ℕ) → n < 256 ^ suc w → n / 256 < 256 ^ w
pow_fits w n h = omega arith

pub be_bytes-same : (w m n : ℕ) → m < 256 ^ w → n < 256 ^ w → be_bytes w m ≡ be_bytes w n → m ≡ n
unfolding be_bytes
be_bytes-same zero m n fm fn e = ground arith
be_bytes-same (suc w) m n fm fn e =
    let lengths = length-be_bytes w (m / 256) ∙ sym (length-be_bytes w (n / 256)) in
    let (front, back) =
      append-split (be_bytes w (m / 256)) (be_bytes w (n / 256)) (m % 256 ∷ []) (n % 256 ∷ [])
        lengths e in
    let high = be_bytes-same w (m / 256) (n / 256) (pow_fits w m fm) (pow_fits w n fn) front in
    let low : m % 256 ≡ n % 256 = ground arith in omega (arith, high, low)

pub append_assoc : (xs ys zs : List ℕ) → (xs ++ ys) ++ zs ≡ xs ++ (ys ++ zs)
append_assoc [] ys zs = refl
append_assoc (x ∷ xs) ys zs = let ih = append_assoc xs ys zs in ground (arith, ih)

-- Two numbers of one width, each before more bytes.
pub be_bytes-split :
    (w m n : ℕ) (us vs : List ℕ)
    → m < 256 ^ w
    → n < 256 ^ w
    → be_bytes w m ++ us ≡ be_bytes w n ++ vs
    → (m ≡ n) × (us ≡ vs)
be_bytes-split w m n us vs fm fn e =
    let lengths = length-be_bytes w m ∙ sym (length-be_bytes w n) in
    let (front, back) = append-split (be_bytes w m) (be_bytes w n) us vs lengths e in
    (be_bytes-same w m n fm fn front, back)

-- The fields of an encoding, each shorter than a `u32` can count, are determined by its bytes.
pub encode_fields-injective :
    (fs gs : List (List ℕ))
    → All (λ f. length f < 256 ^ 4) fs
    → All (λ g. length g < 256 ^ 4) gs
    → encode_fields fs ≡ encode_fields gs
    → fs ≡ gs
unfolding encode_fields
encode_fields-injective [] [] _ _ e = refl
encode_fields-injective [] (g ∷ gs) _ (lg, _) e = absurd (
    ground (
      arith,
      e,
      length-be_bytes 4 (length g),
      length-append (be_bytes 4 (length g)) (g ++ encode_fields gs),
    ))
encode_fields-injective (f ∷ fs) [] (lf, _) _ e = absurd (
    ground (
      arith,
      e,
      length-be_bytes 4 (length f),
      length-append (be_bytes 4 (length f)) (f ++ encode_fields fs),
    ))
encode_fields-injective (f ∷ fs) (g ∷ gs) (lf, mf) (lg, mg) e =
    let (same, rest) =
      be_bytes-split 4 (length f) (length g) (f ++ encode_fields fs) (g ++ encode_fields gs) lf lg
        e in
    let (first, tail) = append-split f g (encode_fields fs) (encode_fields gs) same rest in
    let ih = encode_fields-injective fs gs mf mg tail in λ i. first i ∷ ih i
