-- ===== src/Kernel/ServiceRequests/RoundTrip.antt =====
-- The parsers of src/kernel/service_requests.rs read back what the signer prints.
use infernal_law.Base.{
  ℕ, zero, suc, ◌+◌, ◌/◌, ◌%◌, ◌^◌, ◌<◌, ◌≤◌, ℤ, pos, leb, Bool, true, false, ◌&&◌, ◌≡◌, ◌≢◌, refl,
  ap, arith, some, List, [], ◌∷◌, ◌++◌, ok, All, All-map, all, length, be_bytes, length-be_bytes,
  of_bytes, of_bytes-be_bytes, Text, codes, text_eq, text_eq_refl, bytes, utf8, strip_prefix,
  strip_last, split_once, strip_prefix-append, strip_last-snoc, split_once-append, decimal, digits,
  number, IsDigit, number-digits, digits-IsDigit, All-snoc, Bool-cases, inl, inr,
}
use infernal_law.Kernel.ServiceRequests.{
  Codec, covered_components, is_nonce_byte, is_bad_metadata, validate_signature_metadata,
  parse_timestamp, signature_parameters, parse_signature_input, parse_signature,
}

-- What the code relies on of the crates: they read back what they print, and a UUID's text has no
-- quote.
pub record Reads (codec : Codec) : Type 0 where
  pub uuid_read : (n : ℕ) → n < 256 ^ 16 → codec.parse_uuid (codec.uuid_text n) ≡ some n
  pub uuid_unquoted : (n : ℕ) → All (λ c. c ≢ b'"') (codec.uuid_text n)
  pub encoding_read :
      (bs : List ℕ) → All (λ b. b < 256) bs → codec.decode (codec.encode bs) ≡ some bs

digit-byte : (c : ℕ) → IsDigit c → utf8 c ≡ c ∷ []
unfolding utf8
digit-byte c h = ground (arith, h)

decimal-IsDigit : (n : ℕ) → All IsDigit (decimal (pos n))
unfolding decimal
decimal-IsDigit n = digits-IsDigit 19 n

digits-bytes : (s : Text) → All IsDigit s → all (λ b. leb b'0' b && leb b b'9') (bytes s) ≡ true
unfolding all bytes utf8
digits-bytes [] h = refl
digits-bytes (c ∷ s) (here, there) =
    let ih = digits-bytes s there in let one = digit-byte c here in ground (arith, ih, one, here)

unseparated : (s : Text) → All IsDigit s → All (λ c. c ≢ b';') s
unseparated = All-map (λ c h e. ground (arith, h, e))

parse_digits :
    (s : Text) (n : ℕ)
    → s ≢ []
    → all (λ b. leb b'0' b && leb b b'9') (bytes s) ≡ true
    → number s 0 ≡ n
    → n ≤ 0x7fffffffffffffff
    → parse_timestamp s ≡ ok (pos n)
unfolding parse_timestamp
parse_digits [] n some_digit _ _ _ = absurd (some_digit refl)
parse_digits (c ∷ s) n _ digit value fits = ground (arith, digit, value, fits)

snoc-ne-nil : (s : Text) (c : ℕ) → s ++ c ∷ [] ≢ []
snoc-ne-nil [] c e = cc
snoc-ne-nil (d ∷ s) c e = cc

digits-ne-nil : (fuel n : ℕ) → digits (suc fuel) n ≢ []
unfolding digits
digits-ne-nil fuel n e =
    let long = snoc-ne-nil (digits fuel (n / 10)) (b'0' + n % 10) in ground (arith, e, long)

nonce-bytes :
    (created expires : ℤ) (nonce : Text)
    → is_bad_metadata created expires nonce ≡ false
    → all is_nonce_byte (bytes nonce) ≡ true
unfolding is_bad_metadata
nonce-bytes created expires nonce h = elim (Bool-cases (all is_nonce_byte (bytes nonce))) [
  | inl good ↦ good
  | inr bad ↦ absurd (ground (arith, h, bad))
]

-- A time that an `i64` holds is read back from its print.
parse-decimal : (n : ℕ) → n ≤ 0x7fffffffffffffff → parse_timestamp (decimal (pos n)) ≡ ok (pos n)
unfolding parse_timestamp decimal
parse-decimal n h =
    let all_digits = digits-bytes (digits 19 n) (digits-IsDigit 19 n) in
    let value = number-digits 18 n (omega (arith, h)) in
    parse_digits (digits 19 n) n (digits-ne-nil 18 n) all_digits value h

all-back :
    (p : ℕ → Bool) (xs ys : List ℕ)
    → all p (xs ++ ys) ≡ true
    → (all p xs ≡ true) × (all p ys ≡ true)
unfolding all
all-back p [] ys h = (refl, h)
all-back p (x ∷ xs) ys h =
    let (front, back) = all-back p xs ys (ground (arith, h)) in (ground (arith, h, front), back)

quote-byte : all is_nonce_byte (utf8 b'"') ≡ false
unfolding all utf8
quote-byte = refl

unquoted : (s : Text) → all is_nonce_byte (bytes s) ≡ true → All (λ c. c ≢ b'"') s
unfolding bytes
unquoted [] h = tt
unquoted (c ∷ s) h =
    let (front, back) = all-back is_nonce_byte (utf8 c) (bytes s) h in
    (
      λ e. absurd (ground (arith, front, quote-byte, ap (λ d. all is_nonce_byte (utf8 d)) e)),
      unquoted s back,
    )

be_bytes-IsByte : (w n : ℕ) → All (λ b. b < 256) (be_bytes w n)
unfolding be_bytes
be_bytes-IsByte zero n = tt
be_bytes-IsByte (suc w) n =
    All-snoc (λ b. b < 256) (be_bytes w (n / 256)) (n % 256) (be_bytes-IsByte w (n / 256))
      (omega arith)

-- The parser of signatures, given what each step finds.
parse_signature-steps :
    (codec : Codec) (value rest encoded : Text) (decoded : List ℕ) (n : ℕ)
    → strip_prefix (codes "sig1=:") value ≡ some rest
    → strip_last b':' rest ≡ some encoded
    → codec.decode encoded ≡ some decoded
    → length decoded ≡ 64
    → text_eq (codec.encode decoded) encoded ≡ true
    → of_bytes decoded 0 ≡ n
    → parse_signature codec value ≡ ok n
unfolding parse_signature
parse_signature-steps codec value rest encoded decoded n e1 e2 e3 e4 e5 e6 =
    ground (arith, e1, e2, e3, e4, e5, e6)

-- A signature of 64 bytes is read back from its print.
pub parse-signature :
    (codec : Codec) (n : ℕ)
    → Reads codec
    → n < 256 ^ 64
    → parse_signature codec (codes "sig1=:" ++ (codec.encode (be_bytes 64 n) ++ codes ":")) ≡ ok n
parse-signature codec n reads fits =
    let encoded = codec.encode (be_bytes 64 n) in
    let prefix = strip_prefix-append (codes "sig1=:") (encoded ++ codes ":") in
    let suffix = strip_last-snoc encoded b':' in
    let read = reads.encoding_read (be_bytes 64 n) (be_bytes-IsByte 64 n) in
    let value = of_bytes-be_bytes 64 n fits in
    let long = length-be_bytes 64 n in
    let same = text_eq_refl encoded in
    parse_signature-steps codec (codes "sig1=:" ++ (encoded ++ codes ":")) (encoded ++ codes ":")
      encoded (be_bytes 64 n) n prefix suffix read long same value

module _ (codec : Codec) where
  -- The parser of signature inputs, given what each step finds.
  parse_signature_input-steps :
      (value parameters covered from : Text) (created expires quoted key : Text × Text)
      (created_at expires_at : ℤ) (key_id : ℕ)
      → strip_prefix (codes "sig1=") value ≡ some parameters
      → strip_prefix covered_components parameters ≡ some covered
      → strip_prefix (codes ";created=") covered ≡ some from
      → split_once (codes ";expires=") from ≡ some created
      → split_once (codes ";nonce=\"") created.1 ≡ some expires
      → split_once (codes "\";keyid=\"") expires.1 ≡ some quoted
      → split_once (codes "\";alg=\"") quoted.1 ≡ some key
      → text_eq key.1 (codes "ed25519\"") ≡ true
      → parse_timestamp created.0 ≡ ok created_at
      → parse_timestamp expires.0 ≡ ok expires_at
      → is_bad_metadata created_at expires_at quoted.0 ≡ false
      → codec.parse_uuid key.0 ≡ some key_id
      → parse_signature_input codec value
        ≡ ok (record {
          parameters = parameters;
          created = created_at;
          expires = expires_at;
          nonce = quoted.0;
          key_id = key_id;
        })
  unfolding parse_signature_input validate_signature_metadata
  parse_signature_input-steps value parameters covered from created expires quoted key created_at
        expires_at key_id e1 e2 e3 e4 e5 e6 e7 e8 e9 e10 e11 e12 =
      ground (arith, e1, e2, e3, e4, e5, e6, e7, e8, e9, e10, e11, e12)

  -- What a signer puts behind the label `sig1` is read back: the parameters with their times, nonce
  -- and key, and the whole text that is signed with them. The times are of an `i64`, the key's id is
  -- of 16 bytes, and the metadata passes the signer's check.
  pub parse_signature_input-parameters :
      (from to key_id : ℕ) (nonce : Text)
      → Reads codec
      → from ≤ 0x7fffffffffffffff
      → to ≤ 0x7fffffffffffffff
      → key_id < 256 ^ 16
      → is_bad_metadata (pos from) (pos to) nonce ≡ false
      → parse_signature_input codec
          (codes "sig1=" ++ signature_parameters codec (pos from) (pos to) nonce key_id)
        ≡ ok (record {
          parameters = signature_parameters codec (pos from) (pos to) nonce key_id;
          created = pos from;
          expires = pos to;
          nonce = nonce;
          key_id = key_id;
        })
  unfolding signature_parameters
  parse_signature_input-parameters from to key_id nonce reads ff ft fk good =
      let e5 = codec.uuid_text key_id ++ (codes "\";alg=\"" ++ codes "ed25519\"") in
      let e4 = nonce ++ (codes "\";keyid=\"" ++ e5) in
      let e3 = decimal (pos to) ++ (codes ";nonce=\"" ++ e4) in
      let e2 = decimal (pos from) ++ (codes ";expires=" ++ e3) in
      let e1 = codes ";created=" ++ e2 in
      let label = strip_prefix-append (codes "sig1=") (covered_components ++ e1) in
      let covered = strip_prefix-append covered_components e1 in
      let start = strip_prefix-append (codes ";created=") e2 in
      let created =
        split_once-append b';' (codes "expires=") (decimal (pos from)) e3
          (unseparated (decimal (pos from)) (decimal-IsDigit from)) in
      let expires =
        split_once-append b';' (codes "nonce=\"") (decimal (pos to)) e4
          (unseparated (decimal (pos to)) (decimal-IsDigit to)) in
      let quoted =
        split_once-append b'"' (codes ";keyid=\"") nonce e5
          (unquoted nonce (nonce-bytes (pos from) (pos to) nonce good)) in
      let key =
        split_once-append b'"' (codes ";alg=\"") (codec.uuid_text key_id) (codes "ed25519\"")
          (reads.uuid_unquoted key_id) in
      let algorithm = text_eq_refl (codes "ed25519\"") in
      let from_read = parse-decimal from ff in
      let to_read = parse-decimal to ft in
      let key_read = reads.uuid_read key_id fk in
      parse_signature_input-steps (codes "sig1=" ++ (covered_components ++ e1))
        (covered_components ++ e1) e1 e2 (decimal (pos from), e3) (decimal (pos to), e4) (nonce, e5)
        (codec.uuid_text key_id, codes "ed25519\"") (pos from) (pos to) key_id label covered start
        created expires quoted key algorithm from_read to_read good key_read
