-- ===== src/Kernel/Requests/Fields.antt =====
-- The bytes that `Request::fingerprint` of src/kernel/requests.rs hashes determine the fields.
use infernal_law.Base.{
  ℕ, ◌^◌, ◌<◌, ◌≡◌, sym, ◌∙◌, List, ◌++◌, length, bytes, be_bytes, append-split, be_bytes-same,
  append_assoc, be_bytes-split,
}
use infernal_law.Kernel.Requests.{Request, hash_field, fingerprint_input}

-- Two fields under their lengths, each before more bytes.
hash_field-split :
    (xs ys us vs : List ℕ)
    → length xs < 256 ^ 8
    → length ys < 256 ^ 8
    → hash_field xs ++ us ≡ hash_field ys ++ vs
    → (xs ≡ ys) × (us ≡ vs)
unfolding hash_field
hash_field-split xs ys us vs fx fy e =
    let tails =
      sym (append_assoc (be_bytes 8 (length xs)) xs us)
      ∙ e
      ∙ append_assoc (be_bytes 8 (length ys)) ys vs in
    let (same, rest) = be_bytes-split 8 (length xs) (length ys) (xs ++ us) (ys ++ vs) fx fy tails in
    append-split xs ys us vs same rest

-- The ids are of 128 bits, and the texts are not longer than a `u64` can count.
abbrev pub IsSized : Request → Type 0
IsSized r =
    (r.source_service < 256 ^ 16)
    × (r.schema_versions.artifact < 256 ^ 16)
    × (r.schema_versions.permission_policy < 256 ^ 16)
    × (length (bytes r.action) < 256 ^ 8)
    × (length (bytes r.scope) < 256 ^ 8)

-- Two requests, with ids of 128 bits and texts no longer than a `u64` can count, for which the
-- same bytes are hashed have the same source, schema versions, and bytes of action and of scope:
-- no field can run into the next one.
pub fingerprint_input-fields :
    (a b : Request)
    → IsSized a
    → IsSized b
    → fingerprint_input a ≡ fingerprint_input b
    → (a.source_service ≡ b.source_service)
      × (bytes a.action ≡ bytes b.action)
      × (bytes a.scope ≡ bytes b.scope)
      × (a.schema_versions.artifact ≡ b.schema_versions.artifact)
      × (a.schema_versions.permission_policy ≡ b.schema_versions.permission_policy)
unfolding fingerprint_input
fingerprint_input-fields a b (sa, aa, pa, la, ma) (sb, ab, pb, lb, mb) e =
    let last = λ (r : Request).
      be_bytes 16 r.schema_versions.artifact ++ be_bytes 16 r.schema_versions.permission_policy in
    let scoped = λ (r : Request). hash_field (bytes r.scope) ++ last r in
    let (source, e1) =
      be_bytes-split 16 a.source_service b.source_service (hash_field (bytes a.action) ++ scoped a)
        (hash_field (bytes b.action) ++ scoped b) sa sb e in
    let (action, e2) =
      hash_field-split (bytes a.action) (bytes b.action) (scoped a) (scoped b) la lb e1 in
    let (scope, e3) = hash_field-split (bytes a.scope) (bytes b.scope) (last a) (last b) ma mb e2 in
    let (artifact, e4) =
      be_bytes-split 16 a.schema_versions.artifact b.schema_versions.artifact
        (be_bytes 16 a.schema_versions.permission_policy)
        (be_bytes 16 b.schema_versions.permission_policy) aa ab e3 in
    (
      source,
      action,
      scope,
      artifact,
      be_bytes-same 16 a.schema_versions.permission_policy b.schema_versions.permission_policy pa pb
          e4,
    )
