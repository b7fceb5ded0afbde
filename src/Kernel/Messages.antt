-- ===== src/Kernel/Messages.antt =====
-- The messages that kernel and instances sign (src/kernel/handshakes.rs and enrollment.rs): their
-- bytes determine what they say, and none of one kind is one of another kind.
use infernal_law.Base.{
  ℕ, zero, suc, ◌-◌, ◌^◌, ◌<◌, ℤ, pos, negsuc, ◌≤ℤ◌, i64_min, i64_max, ◌≡◌, ◌≢◌, ap, arith, List,
  [], ◌∷◌, All, length, be_bytes, i64_bytes, encode_fields, encode_fields-injective, be_bytes-same,
  length-be_bytes, Text, bytes,
}
use infernal_law.Kernel.InstanceKeys.{Crypto, InstancePublicKey}
use infernal_law.Kernel.Handshakes.{
  challenge_fields, response_fields, challenge_message, response_message, SignedHandshakeChallenge,
  message_of,
}
use infernal_law.Kernel.Enrollment.{proof_fields, proof_message}

-- The values of an `i64`.
abbrev pub IsI64 : ℤ → Type 0
IsI64 n = (i64_min ≤ℤ n) × (n ≤ℤ i64_max)

length-i64_bytes : (n : ℤ) → length (i64_bytes n) ≡ 8
unfolding i64_bytes
length-i64_bytes (pos n) = length-be_bytes 8 n
length-i64_bytes (negsuc n) = length-be_bytes 8 (2 ^ 64 - 1 - n)

i64_bytes-same : (m n : ℤ) → IsI64 m → IsI64 n → i64_bytes m ≡ i64_bytes n → m ≡ n
unfolding i64_bytes
i64_bytes-same (pos m) (pos n) fm fn e =
    ap pos (be_bytes-same 8 m n (ground (arith, fm)) (ground (arith, fn)) e)
i64_bytes-same (pos m) (negsuc n) fm fn e =
    let same = be_bytes-same 8 m (2 ^ 64 - 1 - n) (ground (arith, fm)) (ground (arith, fn)) e in
    absurd (ground (arith, same, fm, fn))
i64_bytes-same (negsuc m) (pos n) fm fn e =
    let same = be_bytes-same 8 (2 ^ 64 - 1 - m) n (ground (arith, fm)) (ground (arith, fn)) e in
    absurd (ground (arith, same, fm, fn))
i64_bytes-same (negsuc m) (negsuc n) fm fn e =
    let same =
      be_bytes-same 8 (2 ^ 64 - 1 - m) (2 ^ 64 - 1 - n) (ground (arith, fm)) (ground (arith, fn))
        e in
    ground (arith, same, fm, fn)

short : (w n : ℕ) → w < 256 → length (be_bytes w n) < 256 ^ 4
short w n h = let e = length-be_bytes w n in omega (arith, e, h)

i64-short : (n : ℤ) → length (i64_bytes n) < 256 ^ 4
i64-short n = let e = length-i64_bytes n in omega (arith, e)

challenge-short :
    (nonce : ℕ) (k : InstancePublicKey) (target key : ℕ) (from to : ℤ)
    → All (λ f. length f < 256 ^ 4) (challenge_fields nonce k target key from to)
challenge-short nonce k target key from to = (
  omega arith,
  (
    short 32 nonce (omega arith),
    (
      short 16 k.service_id (omega arith),
      (
        short 16 k.instance_id (omega arith),
        (
          short 16 k.key_id (omega arith),
          (
            short 32 k.public_key (omega arith),
            (
              short 16 target (omega arith),
              (short 16 key (omega arith), (i64-short from, (i64-short to, tt))),
            ),
          ),
        ),
      ),
    ),
  ),
)

response-short :
    (kernel target key digest : ℕ)
    → All (λ f. length f < 256 ^ 4) (response_fields kernel target key digest)
response-short kernel target key digest = (
  omega arith,
  (
    short 16 kernel (omega arith),
    (
      short 16 target (omega arith),
      (short 16 key (omega arith), (short 32 digest (omega arith), tt)),
    ),
  ),
)

proof-short :
    (crypto : Crypto) (challenge : ℕ) (k : InstancePublicKey) (endpoint pod token : Text)
    → length (bytes endpoint) < 256 ^ 4
    → length (bytes pod) < 256 ^ 4
    → All (λ f. length f < 256 ^ 4) (proof_fields crypto challenge k endpoint pod token)
proof-short crypto challenge k endpoint pod token le lp = (
  omega arith,
  (
    short 32 challenge (omega arith),
    (
      short 16 k.service_id (omega arith),
      (
        short 16 k.instance_id (omega arith),
        (
          short 16 k.key_id (omega arith),
          (short 32 k.public_key (omega arith), (le, (lp, (short 32 _ (omega arith), tt)))),
        ),
      ),
    ),
  ),
)

-- The first field of a message.
abbrev first : List (List ℕ) → List ℕ
first [] = []
first (f ∷ fs) = f

apart :
    (fs gs : List (List ℕ))
    → All (λ f. length f < 256 ^ 4) fs
    → All (λ g. length g < 256 ^ 4) gs
    → length (first fs) ≢ length (first gs)
    → encode_fields fs ≢ encode_fields gs
apart fs gs lf lg differ e =
    differ (ap (λ hs. length (first hs)) (encode_fields-injective fs gs lf lg e))

-- No two of these are the same bytes: the message that is signed for a challenge of the kernel,
-- that for a response of an instance, and that for the proof of an enrollment whose endpoint and
-- pod are shorter than a `u32` can count.
pub messages_apart :
    (crypto : Crypto) (nonce : ℕ) (k : InstancePublicKey) (target key : ℕ) (from to : ℤ)
    (kernel instance_id key_id digest : ℕ) (challenge : ℕ) (own : InstancePublicKey)
    (endpoint pod token : Text)
    → length (bytes endpoint) < 256 ^ 4
    → length (bytes pod) < 256 ^ 4
    → (challenge_message nonce k target key from to
        ≢ response_message kernel instance_id key_id digest)
      × (challenge_message nonce k target key from to
          ≢ proof_message crypto challenge own endpoint pod token)
      × (response_message kernel instance_id key_id digest
          ≢ proof_message crypto challenge own endpoint pod token)
unfolding challenge_message response_message proof_message
messages_apart crypto nonce k target key from to kernel instance_id key_id digest challenge own
      endpoint pod token le lp =
    let a = challenge_fields nonce k target key from to in
    let b = response_fields kernel instance_id key_id digest in
    let c = proof_fields crypto challenge own endpoint pod token in
    let short_a = challenge-short nonce k target key from to in
    let short_b = response-short kernel instance_id key_id digest in
    let short_c = proof-short crypto challenge own endpoint pod token le lp in
    (
      apart a b short_a short_b (λ e. omega (arith, e)),
      apart a c short_a short_c (λ e. omega (arith, e)),
      apart b c short_b short_c (λ e. omega (arith, e)),
    )

-- The numbers of a challenge fit their fields.
abbrev pub IsSized : SignedHandshakeChallenge → Type 0
IsSized c =
    (c.nonce < 256 ^ 32)
    × (c.kernel_key.service_id < 256 ^ 16)
    × (c.kernel_key.instance_id < 256 ^ 16)
    × (c.kernel_key.key_id < 256 ^ 16)
    × (c.kernel_key.public_key < 256 ^ 32)
    × (c.target_instance_id < 256 ^ 16)
    × (c.target_key_id < 256 ^ 16)
    × IsI64 c.issued_at
    × IsI64 c.expires_at

-- Field `n` of a message.
abbrev field : ℕ → List (List ℕ) → List ℕ
field n [] = []
field zero (f ∷ fs) = f
field (suc n) (f ∷ fs) = field n fs

-- Two challenges, with a nonce and a key of 32 bytes, ids of 16 bytes and `i64` times, whose
-- signed bytes are the same are the same but for the signature.
pub message_of-fields :
    (a b : SignedHandshakeChallenge)
    → IsSized a
    → IsSized b
    → message_of a ≡ message_of b
    → a ≡ record b { signature = a.signature }
unfolding message_of challenge_message
message_of-fields a b (na, sa, ia, ka, pa, ta, qa, fa, ea) (nb, sb, ib, kb, pb, tb, qb, fb, eb) e =
    let same =
      encode_fields-injective
        (challenge_fields a.nonce a.kernel_key a.target_instance_id a.target_key_id a.issued_at
          a.expires_at)
        (challenge_fields b.nonce b.kernel_key b.target_instance_id b.target_key_id b.issued_at
          b.expires_at)
        (challenge-short a.nonce a.kernel_key a.target_instance_id a.target_key_id a.issued_at
          a.expires_at)
        (challenge-short b.nonce b.kernel_key b.target_instance_id b.target_key_id b.issued_at
          b.expires_at)
        e in
    let nonce = be_bytes-same 32 a.nonce b.nonce na nb (ap (field 1) same) in
    let service =
      be_bytes-same 16 a.kernel_key.service_id b.kernel_key.service_id sa sb (ap (field 2) same) in
    let instance_id =
      be_bytes-same 16 a.kernel_key.instance_id b.kernel_key.instance_id ia ib
        (ap (field 3) same) in
    let key_id =
      be_bytes-same 16 a.kernel_key.key_id b.kernel_key.key_id ka kb (ap (field 4) same) in
    let key =
      be_bytes-same 32 a.kernel_key.public_key b.kernel_key.public_key pa pb (ap (field 5) same) in
    let target =
      be_bytes-same 16 a.target_instance_id b.target_instance_id ta tb (ap (field 6) same) in
    let target_key = be_bytes-same 16 a.target_key_id b.target_key_id qa qb (ap (field 7) same) in
    let from = i64_bytes-same a.issued_at b.issued_at fa fb (ap (field 8) same) in
    let to = i64_bytes-same a.expires_at b.expires_at ea eb (ap (field 9) same) in
    λ i. record {
      nonce = nonce i;
      kernel_key = record {
        service_id = service i;
        instance_id = instance_id i;
        key_id = key_id i;
        public_key = key i;
      };
      target_instance_id = target i;
      target_key_id = target_key i;
      issued_at = from i;
      expires_at = to i;
      signature = a.signature;
    }
