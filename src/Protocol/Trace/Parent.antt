-- ===== src/Protocol/Trace/Parent.antt =====
-- `validTraceparent` against the grammar of a version 00 traceparent.
use marketmesh.Prelude.{
  ℕ, ◌≤◌, ◌≡◌, refl, sym, ap, ◌∙◌, ◌↔◌, ◌⊎◌, inl, inr, true, false, ◌∷◌, ◌++◌, arith, ==_iff,
  unless_iff, or_false, not-false, Bool-cases, length, get_or, take, drop, All, length-append,
  length-take, length-drop, take-append-drop, All-map, take-append, drop-field, take-all, drop_past,
  get_or_past, get_or_at,
}
use marketmesh.Protocol.Messages.{Bytes}
use marketmesh.Protocol.Bytes.{codes}
use marketmesh.Protocol.Bytes.Spec.{every_iff, equal_iff}
use marketmesh.Protocol.Trace.{hex_character, lower_hex, all_zero, valid_traceparent}

abbrev pub IsHexDigit : ℕ → Type 0
IsHexDigit c = ((b'0' ≤ c) × (c ≤ b'9')) ⊎ ((b'a' ≤ c) × (c ≤ b'f'))

-- `00-` trace id `-` parent id `-` flags.
abbrev pub traceparent : Bytes → Bytes → Bytes → Bytes
traceparent trace parent flags = b'0' ∷ b'0' ∷ b'-' ∷ (trace ++ (b'-' ∷ (parent ++ (b'-' ∷ flags))))

-- A lowercase hexadecimal id of `n` digits, not all of them 0.
abbrev pub IsId : ℕ → Bytes → Type 0
IsId n id = (length id ≡ n) × All IsHexDigit id × (¬ All (λ c. c ≡ b'0') id)

abbrev pub IsTraceparent : Bytes → Type 0
IsTraceparent value =
    (trace : Bytes) × (parent : Bytes) × (flags : Bytes) × (value ≡ traceparent trace parent flags)
    × IsId 32 trace
    × IsId 16 parent
    × (length flags ≡ 2)
    × All IsHexDigit flags

lower_hex_iff : (cs : Bytes) → (lower_hex cs ≡ true) ↔ All IsHexDigit cs
unfolding lower_hex
lower_hex_iff cs = (
  λ h. All-map _ _ cs digit ((every_iff hex_character cs).0 h),
  λ h. (every_iff hex_character cs).1 (All-map _ _ cs test h),
)
  where
    digit : (c : ℕ) → hex_character c ≡ true → IsHexDigit c
    digit c h = ground arith

    test : (c : ℕ) → IsHexDigit c → hex_character c ≡ true
    test c h = ground arith

all_zero_iff : (cs : Bytes) → (all_zero cs ≡ true) ↔ All (λ c. c ≡ b'0') cs
unfolding all_zero
all_zero_iff cs = (
  λ h. All-map _ _ cs (λ c. (==_iff c b'0').0) ((every_iff _ cs).0 h),
  λ h. (every_iff _ cs).1 (All-map _ _ cs (λ c. (==_iff c b'0').1) h),
)

-- What the tests say of a value of 55 bytes.
record Passes (value : Bytes) : Type 0 where
  size : length value ≡ 55
  version : take 2 value ≡ codes "00"
  first : get_or value 2 0 ≡ b'-'
  second : get_or value 35 0 ≡ b'-'
  third : get_or value 52 0 ≡ b'-'
  trace_hex : lower_hex (take 32 (drop 3 value)) ≡ true
  trace_set : all_zero (take 32 (drop 3 value)) ≡ false
  parent_hex : lower_hex (take 16 (drop 36 value)) ≡ true
  parent_set : all_zero (take 16 (drop 36 value)) ≡ false
  flags_hex : lower_hex (take 2 (drop 53 value)) ≡ true

valid-Passes : (value : Bytes) → valid_traceparent value ≡ true → Passes value
unfolding valid_traceparent
valid-Passes value h =
    let (head, h₁) = (unless_iff _ _).0 h in
    let (dashes, h₂) = (unless_iff _ _).0 h₁ in
    let (trace, h₃) = (unless_iff _ _).0 h₂ in
    let (parent, flags) = (unless_iff _ _).0 h₃ in
    let (n, v) = (or_false _ _).0 head in
    let (ab, c) = (or_false _ _).0 dashes in
    let (a, b) = (or_false _ _).0 ab in
    let (t, tz) = (or_false _ _).0 trace in
    let (p, pz) = (or_false _ _).0 parent in
    record {
      size = (==_iff _ 55).0 ((not-false _).0 n);
      version = (equal_iff (take 2 value) (codes "00")).0 ((not-false _).0 v);
      first = (==_iff _ b'-').0 ((not-false _).0 a);
      second = (==_iff _ b'-').0 ((not-false _).0 b);
      third = (==_iff _ b'-').0 ((not-false _).0 c);
      trace_hex = (not-false _).0 t;
      trace_set = tz;
      parent_hex = (not-false _).0 p;
      parent_set = pz;
      flags_hex = flags;
    }

Passes-valid : (value : Bytes) → Passes value → valid_traceparent value ≡ true
unfolding valid_traceparent
Passes-valid value h = ground (arith, (equal_iff (take 2 value) (codes "00")).1 h.version)

fields :
    (value : Bytes)
    → Passes value
    → value
      ≡ traceparent (take 32 (drop 3 value)) (take 16 (drop 36 value)) (take 2 (drop 53 value))
fields value p =
    sym (take-append-drop 2 value)
    ∙ rw (p.version, drop-field 2 0 value 0 (omega arith), p.first)
        (ap (λ (rest : Bytes). b'0' ∷ b'0' ∷ b'-' ∷ rest) trace)
  where
    flags : drop 53 value ≡ take 2 (drop 53 value)
    flags = sym (take-all 2 (drop 53 value) (omega (arith, length-drop 53 value)))

    parent : drop 36 value ≡ take 16 (drop 36 value) ++ (b'-' ∷ take 2 (drop 53 value))
    parent = drop-field 36 16 value 0 (omega arith) ∙ rw (p.third, ← flags)

    trace :
        drop 3 value
        ≡ take 32 (drop 3 value)
          ++ (b'-' ∷ (take 16 (drop 36 value) ++ (b'-' ∷ take 2 (drop 53 value))))
    trace = drop-field 3 32 value 0 (omega arith) ∙ rw (p.second, ← parent)

parse-IsTraceparent : (value : Bytes) → Passes value → IsTraceparent value
parse-IsTraceparent value p = (
  take 32 (drop 3 value),
  take 16 (drop 36 value),
  take 2 (drop 53 value),
  fields value p,
  (
    omega (arith, length-take 32 (drop 3 value), length-drop 3 value),
    (lower_hex_iff _).0 p.trace_hex,
    not_zero _ p.trace_set,
  ),
  (
    omega (arith, length-take 16 (drop 36 value), length-drop 36 value),
    (lower_hex_iff _).0 p.parent_hex,
    not_zero _ p.parent_set,
  ),
  omega (arith, length-take 2 (drop 53 value), length-drop 53 value),
  (lower_hex_iff _).0 p.flags_hex,
)
  where
    not_zero : (id : Bytes) → all_zero id ≡ false → ¬ All (λ c. c ≡ b'0') id
    not_zero id e all = cc ((all_zero_iff id).1 all)

render_traceparent : (value : Bytes) → IsTraceparent value → Passes value
render_traceparent value (trace, parent, flags, e, (n, th, tz), (m, ph, pz), k, fh) = rw e (record {
  size = omega (
    arith,
    length-append trace (b'-' ∷ (parent ++ (b'-' ∷ flags))),
    length-append parent (b'-' ∷ flags),
  );
  version = refl;
  first = refl;
  second = get_or_at 32 trace b'-' _ 0 n;
  third = get_or_past 32 16 trace b'-' _ 0 n ∙ get_or_at 16 parent b'-' flags 0 m;
  trace_hex =
      rw (take-append 32 trace (b'-' ∷ (parent ++ (b'-' ∷ flags))) n) ((lower_hex_iff trace).1 th);
  trace_set = rw (take-append 32 trace (b'-' ∷ (parent ++ (b'-' ∷ flags))) n) (set trace tz);
  parent_hex =
      ap (λ (cs : Bytes). lower_hex (take 16 cs)) behind
      ∙ ap lower_hex (take-append 16 parent _ m)
      ∙ (lower_hex_iff parent).1 ph;
  parent_set =
      ap (λ (cs : Bytes). all_zero (take 16 cs)) behind
      ∙ ap all_zero (take-append 16 parent _ m)
      ∙ set parent pz;
  flags_hex =
      ap (λ (cs : Bytes). lower_hex (take 2 cs))
        (drop_past 32 17 trace b'-' _ n ∙ drop_past 16 0 parent b'-' flags m)
      ∙ ap lower_hex (take-all 2 flags k)
      ∙ (lower_hex_iff flags).1 fh;
})
  where
    behind : drop 33 (trace ++ (b'-' ∷ (parent ++ (b'-' ∷ flags)))) ≡ parent ++ (b'-' ∷ flags)
    behind = drop_past 32 0 trace b'-' (parent ++ (b'-' ∷ flags)) n

    set : (id : Bytes) → (¬ All (λ c. c ≡ b'0') id) → all_zero id ≡ false
    set id z = elim (Bool-cases (all_zero id)) [
      | inl yes' ↦ absurd (z ((all_zero_iff id).0 yes'))
      | inr no' ↦ no'
    ]

-- A traceparent is accepted exactly when it is `00-`, a 32-digit trace id, `-`, a 16-digit parent
-- id, `-` and two flag digits, in lowercase hexadecimal, with neither id all zeros.
pub valid_traceparent_iff : (value : Bytes) → (valid_traceparent value ≡ true) ↔ IsTraceparent value
valid_traceparent_iff value = (
  λ h. parse-IsTraceparent value (valid-Passes value h),
  λ h. Passes-valid value (render_traceparent value h),
)
