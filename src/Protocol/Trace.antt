-- ===== src/Protocol/Trace.antt =====
-- The W3C trace context checks of backend/api/tunnel/v1/validate.go.
pub mod Parent
pub mod State
pub mod Members
use marketmesh.Prelude.{
  ℕ, zero, suc, ◌+◌, ◌-◌, ◌*◌, ◌/◌, ◌%◌, ◌^◌, ◌≤◌, ◌<◌, min, String, ◌≡◌, refl, sym, ap, ◌∙◌, ◌≢◌,
  ◌↔◌, ◌⊎◌, inl, inr, ite, Bool, true, false, not, ◌&&◌, ◌||◌, Option, some, none, List, [], ◌∷◌,
  ◌++◌, map, arith, ℕ_discrete, ltb, leb, ◌==◌, if◌then◌else◌, ==_iff, Bool-cases, Option-cases,
  length, get_or, take, drop, All, Distinct, length-append, length-take, length-drop,
  take-append-drop, contains, All-map, All-zip, contains_iff, ◌>>◌, reject_if, >>-eq-none,
  reject_if-eq-none, seq_accepts, reject_accepts,
}
use marketmesh.Protocol.Messages.{Bytes}
use marketmesh.Protocol.Bytes.{codes, bytes_discrete, equal, last, every, split, cut, trim}

unfoldable pub hex_character : ℕ → Bool
hex_character c = (leb b'0' c && leb c b'9') || (leb b'a' c && leb c b'f')

unfoldable pub lower_hex : Bytes → Bool
unfolding every hex_character
lower_hex value = every hex_character value

unfoldable pub all_zero : Bytes → Bool
unfolding every
all_zero value = every (λ c. c == b'0') value

-- Each `get_or` and slice is in range once the length is 55.
unfoldable pub valid_traceparent : Bytes → Bool
unfolding lower_hex all_zero equal
valid_traceparent value =
    if not (length value == 55) || not (equal (take 2 value) (codes "00"))
    then false
    else if not (get_or value 2 0 == b'-')
        || not (get_or value 35 0 == b'-')
        || not (get_or value 52 0 == b'-')
    then false
    else if not (lower_hex (slice 3 35)) || all_zero (slice 3 35)
    then false
    else if not (lower_hex (slice 36 52)) || all_zero (slice 36 52)
    then false
    else lower_hex (slice 53 55)
  where
    slice : ℕ → ℕ → Bytes
    slice i j = take (j - i) (drop i value)

unfoldable pub lower_alpha_numeric : ℕ → Bool
lower_alpha_numeric c = (leb b'a' c && leb c b'z') || (leb b'0' c && leb c b'9')

unfoldable pub key_character : ℕ → Bool
unfolding lower_alpha_numeric
key_character c =
    lower_alpha_numeric c || c == b'_' || c == b'-' || c == b'*' || c == b'/' || c == b'@'

-- The loop of `validTracestateKey`, with `atCount` so far.
unfoldable pub key_characters : ℕ → Bytes → Bool
unfolding key_character
key_characters at_count [] = true
key_characters at_count (c ∷ cs) =
    let count = if c == b'@' then at_count + 1 else at_count in
    let rest = key_characters count cs in
    if not (key_character c) || ltb 1 count then false else rest

unfoldable pub valid_tracestate_key : Bytes → Bool
unfolding lower_alpha_numeric key_characters last
valid_tracestate_key [] = false
valid_tracestate_key (c ∷ cs) =
    if ltb 256 (length (c ∷ cs)) || not (lower_alpha_numeric c)
    then false
    else if not (key_characters 0 (c ∷ cs))
    then false
    else not (c == b'@') && not (last c cs == b'@')

unfoldable pub printable : ℕ → Bool
printable c = not (ltb c 0x20 || ltb 0x7e c)

unfoldable pub value_character : ℕ → Bool
value_character c = not (ltb c 0x20 || ltb 0x7e c || c == b',' || c == b'=')

unfoldable pub valid_tracestate_value : Bytes → Bool
unfolding value_character every last
valid_tracestate_value [] = false
valid_tracestate_value (c ∷ cs) =
    if ltb 256 (length (c ∷ cs)) || last c cs == b' ' then false else every value_character (c ∷ cs)

-- The loop of `validTracestate` over the members, with the keys seen.
unfoldable pub tracestate_members : List Bytes → List Bytes → Bool
unfolding cut trim valid_tracestate_key valid_tracestate_value contains bytes_discrete
tracestate_members seen [] = true
tracestate_members seen (m ∷ ms) = elim (cut b'=' (trim b' ' m)) [
  | none ↦ false
  | some (key, value) ↦
      if not (valid_tracestate_key key) || not (valid_tracestate_value value)
      then false
      else not (contains bytes_discrete seen key) && tracestate_members (key ∷ seen) ms
]

-- `validTracestate` indexes the first byte, so its argument is a head and a tail: its caller has
-- rejected the empty value.
unfoldable pub valid_tracestate : ℕ → Bytes → Bool
unfolding last every printable split tracestate_members
valid_tracestate c cs =
    if c == b',' || last c cs == b','
    then false
    else if not (every printable (c ∷ cs))
    then false
    else if ltb 32 (length (split b',' (c ∷ cs)))
    then false
    else tracestate_members [] (split b',' (c ∷ cs))
