-- ===== src/Protocol/Trace/Members.antt =====
-- One member of a tracestate: what its key and its value may hold.
use marketmesh.Prelude.{
  ℕ, ◌+◌, ◌≡◌, refl, ap, ◌∙◌, true, false, not, ◌||◌, some, [], ◌∷◌, ◌++◌, arith, ltb, ◌==◌,
  if◌then◌else◌, unless_iff, or_false, not-false, All, All-map,
}
use marketmesh.Protocol.Messages.{Bytes}
use marketmesh.Protocol.Bytes.{last, cut, trim}
use marketmesh.Protocol.Bytes.Spec.{every_iff}
use marketmesh.Protocol.Bytes.Split.{Without, cut_field, trim_lem, last-append}
use marketmesh.Protocol.Trace.{
  key_character, key_characters, lower_alpha_numeric, valid_tracestate_key, printable,
  value_character, valid_tracestate_value,
}

pub record Member : Type 0 where
  pub key : Bytes
  pub value : Bytes

abbrev pub IsValid : Member → Type 0
IsValid m = (valid_tracestate_key m.key ≡ true) × (valid_tracestate_value m.value ≡ true)

-- `key=value`.
abbrev pub member_text : Member → Bytes
member_text m = m.key ++ (b'=' ∷ m.value)

-- A text with no comma whose ends are not blank.
pub record IsMemberText (m : Member) : Type 0 where
  pub no_comma : Without b',' (member_text m)
  pub all_printable : All (λ c. printable c ≡ true) (member_text m)
  pub parts : cut b'=' (trim b' ' (member_text m)) ≡ some (m.key, m.value)

pub All-append : (P : ℕ → Type 0) (xs ys : Bytes) → All P xs → All P ys → All P (xs ++ ys)
All-append P [] ys h k = k
All-append P (x ∷ xs) ys h k = (h.0, All-append P xs ys h.1 k)

key_characters-All :
    (count : ℕ) (cs : Bytes) → key_characters count cs ≡ true → All (λ c. key_character c ≡ true) cs
unfolding key_characters
key_characters-All count [] h = tt
key_characters-All count (c ∷ cs) h =
    let (good, rest) =
      (unless_iff (not (key_character c) || ltb 1 (if c == b'@' then count + 1 else count)) _).0
        h in
    (
      (not-false _).0 ((or_false _ _).0 good).0,
      key_characters-All (if c == b'@' then count + 1 else count) cs rest,
    )

record KeyByte (c : ℕ) : Type 0 where
  comma : (c == b',') ≡ false
  equals : (c == b'=') ≡ false
  shown : printable c ≡ true

key_byte : (c : ℕ) → key_character c ≡ true → KeyByte c
unfolding key_character printable
key_byte c h = ground arith

record ValueByte (c : ℕ) : Type 0 where
  comma : (c == b',') ≡ false
  shown : printable c ≡ true

value_byte : (c : ℕ) → value_character c ≡ true → ValueByte c
unfolding value_character printable
value_byte c h = ground arith

first_byte : (c : ℕ) → lower_alpha_numeric c ≡ true → (c == b' ') ≡ false
unfolding lower_alpha_numeric
first_byte c h = ground arith

key_facts :
    (c : ℕ) (cs : Bytes)
    → valid_tracestate_key (c ∷ cs) ≡ true
    → ((c == b' ') ≡ false) × All KeyByte (c ∷ cs)
unfolding valid_tracestate_key
key_facts c cs h =
    let (a, h₁) = (unless_iff _ _).0 h in
    let (b, _) = (unless_iff _ _).0 h₁ in
    (
      first_byte c ((not-false _).0 ((or_false _ _).0 a).1),
      All-map _ _ (c ∷ cs) key_byte (key_characters-All 0 (c ∷ cs) ((not-false _).0 b)),
    )

value_facts :
    (d : ℕ) (ds : Bytes)
    → valid_tracestate_value (d ∷ ds) ≡ true
    → ((last d ds == b' ') ≡ false) × All ValueByte (d ∷ ds)
unfolding valid_tracestate_value
value_facts d ds h =
    let (a, b) = (unless_iff _ _).0 h in
    (
      ((or_false _ _).0 a).1,
      All-map _ _ (d ∷ ds) value_byte ((every_iff value_character (d ∷ ds)).0 b),
    )

pub text-IsMemberText :
    (key value : Bytes)
    → valid_tracestate_key key ≡ true
    → valid_tracestate_value value ≡ true
    → IsMemberText (record { key = key; value = value })
unfolding valid_tracestate_key valid_tracestate_value
text-IsMemberText [] value h k = cc
text-IsMemberText (c ∷ cs) [] h k = cc
text-IsMemberText (c ∷ cs) (d ∷ ds) h k =
    let (blank, bytes) = key_facts c cs h in
    let (blank', bytes') = value_facts d ds k in
    record {
      no_comma =
          All-append _ (c ∷ cs) _ (All-map _ _ (c ∷ cs) (λ x b. b.comma) bytes)
            (refl, All-map _ _ (d ∷ ds) (λ x b. b.comma) bytes');
      all_printable =
          All-append _ (c ∷ cs) _ (All-map _ _ (c ∷ cs) (λ x b. b.shown) bytes)
            (unfold printable in refl, All-map _ _ (d ∷ ds) (λ x b. b.shown) bytes');
      parts =
          ap (cut b'=') (
            trim_lem b' ' c (cs ++ (b'=' ∷ d ∷ ds)) blank
              (rw (last-append c b'=' cs (d ∷ ds)) (unfold last in blank')))
          ∙ cut_field b'=' (c ∷ cs) (d ∷ ds) (All-map _ _ (c ∷ cs) (λ x b. b.equals) bytes);
    }

All-last : (P : ℕ → Type 0) (d : ℕ) (ds : Bytes) → All P (d ∷ ds) → P (last d ds)
unfolding last
All-last P d [] h = h.0
All-last P d (e ∷ ds) h = All-last P e ds h.1

-- A member does not end in a comma.
pub member_end :
    (b : ℕ) (key value : Bytes)
    → valid_tracestate_value value ≡ true
    → (last b (key ++ (b'=' ∷ value)) == b',') ≡ false
unfolding last
member_end b key [] h = rw (last-append b b'=' key [])
member_end b key (d ∷ ds) h =
    rw (last-append b b'=' key (d ∷ ds)) (All-last ValueByte d ds (value_facts d ds h).1).comma

-- A key does not begin with one.
pub key_start : (c : ℕ) (cs : Bytes) → valid_tracestate_key (c ∷ cs) ≡ true → (c == b',') ≡ false
key_start c cs h = (key_facts c cs h).1.0.comma
