-- ===== src/Kernel/Names/Grammar.antt =====
-- Every action name is an event type, so that routing never refuses an accepted request's action.
use mathlib.Core.List.{reverse, reverse-reverse, reverse-cons}
use infernal_law.Base.{
  ℕ, ◌+◌, ◌≤◌, ◌≡◌, refl, subst, inl, inr, ltb, ◌==◌, true, false, List, [], ◌∷◌, ◌++◌, some, arith,
  length, All, Text, utf8, bytes, is_whitespace, trim_start, trim, cons_head, split_dots, all,
  Bool-cases,
}
use infernal_law.Kernel.Names.{
  is_name_byte, starts_lower, is_valid_action_segment, namespaced, is_valid_action_name,
  valid_event_segment, event_type_checked, event_type, max_action_name_length,
}

name_byte_ascii : (c : ℕ) (s : Text) → is_name_byte c ≡ true → bytes (c ∷ s) ≡ c ∷ bytes s
unfolding bytes
name_byte_ascii c s h = ground arith

not_ascii : (c : ℕ) (s : Text) → ltb c 0x80 ≡ false → all is_name_byte (bytes (c ∷ s)) ≡ false
unfolding bytes all
not_ascii c s h = ground arith

ascii : (c : ℕ) (s : Text) → ltb c 0x80 ≡ true → bytes (c ∷ s) ≡ c ∷ bytes s
unfolding bytes
ascii c s h = ground arith

names_of_bytes : (s : Text) → all is_name_byte (bytes s) ≡ true → all is_name_byte s ≡ true
unfolding all
names_of_bytes [] h = refl
names_of_bytes (c ∷ s) h = elim (Bool-cases (ltb c 0x80)) [
  | inl small ↦
      let e = ascii c s small in
      let h' : all is_name_byte (c ∷ bytes s) ≡ true = subst (λ b. all is_name_byte b ≡ true) e h in
      ground (arith, h', names_of_bytes s)
  | inr large ↦ absurd (ground (arith, h, not_ascii c s large))
]

event_segment : (s : Text) → is_valid_action_segment s ≡ true → valid_event_segment s ≡ true
unfolding is_valid_action_segment valid_event_segment starts_lower bytes all
event_segment [] h = h
event_segment (c ∷ s) h = ground (arith, names_of_bytes s)

event_segments :
    (ws : List Text) → all is_valid_action_segment ws ≡ true → all valid_event_segment ws ≡ true
unfolding all
event_segments [] h = refl
event_segments (w ∷ ws) h = ground (arith, event_segment w, event_segments ws)

event_namespaced : (ws : List Text) → namespaced ws ≡ true → all valid_event_segment ws ≡ true
unfolding namespaced all
event_namespaced (a ∷ b ∷ ws) h =
    ground (arith, event_segment a, event_segment b, event_segments ws)
event_namespaced (a ∷ []) h = absurd (cc)
event_namespaced [] h = absurd (cc)

-- The characters of a name are no white space.
abbrev IsSolid : Text → Type 0
IsSolid = All (λ c. is_whitespace c ≡ false)

IsSolid-names : (s : Text) → all is_name_byte s ≡ true → IsSolid s
unfolding all is_whitespace
IsSolid-names [] h = tt
IsSolid-names (c ∷ s) h = (ground arith, IsSolid-names s (ground arith))

IsSolid-segment : (s : Text) → valid_event_segment s ≡ true → IsSolid s
unfolding valid_event_segment is_whitespace
IsSolid-segment [] h = tt
IsSolid-segment (c ∷ s) h = (ground arith, IsSolid-names s (ground arith))

IsSolid-head :
    (c : ℕ) (ws : List Text)
    → All IsSolid (cons_head c ws)
    → (is_whitespace c ≡ false) × All IsSolid ws
IsSolid-head c [] h = (h.0.0, tt)
IsSolid-head c (w ∷ ws) h = (h.0.0, (h.0.1, h.1))

IsSolid-split : (s : Text) → All IsSolid (split_dots s) → IsSolid s
unfolding split_dots is_whitespace
IsSolid-split [] h = tt
IsSolid-split (c ∷ s) h = elim (Bool-cases (c == 46)) [
  | inl dot ↦
      let e : split_dots (c ∷ s) ≡ [] ∷ split_dots s = ground (arith, dot) in
      (ground arith, IsSolid-split s (subst (All IsSolid) e h).1)
  | inr other ↦
      let e : split_dots (c ∷ s) ≡ cons_head c (split_dots s) = ground (arith, other) in
      let k = IsSolid-head c (split_dots s) (subst (All IsSolid) e h) in (k.0, IsSolid-split s k.1)
]

IsSolid-segments : (ws : List Text) → all valid_event_segment ws ≡ true → All IsSolid ws
unfolding all
IsSolid-segments [] h = tt
IsSolid-segments (w ∷ ws) h = (IsSolid-segment w (ground arith), IsSolid-segments ws (ground arith))

trim_start-solid : (s : Text) → IsSolid s → trim_start s ≡ s
unfolding trim_start
trim_start-solid [] h = refl
trim_start-solid (c ∷ s) h = rw h.0

IsSolid-append : (s t : Text) → IsSolid s → IsSolid t → IsSolid (s ++ t)
IsSolid-append [] t h k = k
IsSolid-append (c ∷ s) t h k = (h.0, IsSolid-append s t h.1 k)

IsSolid-reverse : (s : Text) → IsSolid s → IsSolid (reverse s)
IsSolid-reverse [] h = h
IsSolid-reverse (c ∷ s) h =
    rw (reverse-cons c s) (IsSolid-append (reverse s) (c ∷ []) (IsSolid-reverse s h.1) (h.0, tt))

trim-solid : (s : Text) → IsSolid s → trim s ≡ s
unfolding trim
trim-solid s h =
    rw (trim_start-solid s h, trim_start-solid (reverse s) (IsSolid-reverse s h))
      (reverse-reverse s)

length-utf8 : (c : ℕ) → 1 ≤ length (utf8 c)
unfolding utf8
length-utf8 c = ground arith

length-append : (s t : Text) → length (s ++ t) ≡ length s + length t
length-append [] t = omega arith
length-append (c ∷ s) t = omega (arith, length-append s t)

length-le-bytes : (s : Text) → length s ≤ length (bytes s)
unfolding bytes
length-le-bytes [] = omega arith
length-le-bytes (c ∷ s) =
    omega (arith, length-append (utf8 c) (bytes s), length-utf8 c, length-le-bytes s)

-- Whatever text is an action name is also an event type, and is stored as it is: the conversion
-- by which routing looks up the subscribers of an accepted request never fails.
pub action_name-event_type : (s : Text) → is_valid_action_name s ≡ true → event_type s ≡ some s
unfolding event_type is_valid_action_name event_type_checked
action_name-event_type [] h = absurd (cc)
action_name-event_type (c ∷ s) h =
    let value : Text = c ∷ s in
    let named : namespaced (split_dots value) ≡ true = ground arith in
    let segments = event_namespaced (split_dots value) named in
    let solid = IsSolid-split value (IsSolid-segments (split_dots value) segments) in
    let short : length (bytes value) ≤ max_action_name_length = ground arith in
    rw (trim-solid value solid) (ground (arith, segments, length-le-bytes value))
