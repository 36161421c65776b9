-- ===== src/Protocol/Bytes.antt =====
-- Byte strings, with what the protocol uses of Go's package bytes: Equal, Split and Cut at one
-- byte, and Trim of one byte.
pub mod Split
pub mod Spec
use marketmesh.Prelude.{
  ℕ, zero, suc, ◌+◌, ◌-◌, ◌*◌, ◌/◌, ◌%◌, ◌^◌, ◌≤◌, ◌<◌, min, String, ◌≡◌, refl, sym, ap, ◌∙◌, ◌≢◌,
  ◌↔◌, ◌⊎◌, inl, inr, ite, Bool, true, false, not, ◌&&◌, ◌||◌, Option, some, none, List, [], ◌∷◌,
  ◌++◌, map, arith, ℕ_discrete, ltb, leb, ◌==◌, if◌then◌else◌, ==_iff, Bool-cases, Option-cases,
  length, get_or, take, drop, All, Distinct, length-append, length-take, length-drop,
  take-append-drop, contains, All-map, All-zip, contains_iff, ◌>>◌, reject_if, >>-eq-none,
  reject_if-eq-none, seq_accepts, reject_accepts,
}
use Prim.Native.Char.{code}
use Prim.Native.String
use mathlib.Core.Option
use marketmesh.Protocol.Messages.{Bytes}

-- The bytes of an ASCII literal.
abbrev pub codes : String → Bytes
codes String.[] = []
codes (String.◌∷◌ c s) = code c ∷ codes s

unfoldable pub bytes_discrete : Discrete Bytes
bytes_discrete = hlevel ℕ_discrete

unfoldable pub equal : Bytes → Bytes → Bool
unfolding bytes_discrete
equal a b = ite (bytes_discrete a b) true false

-- The last byte of a nonempty string, given by its head and tail.
unfoldable pub last : ℕ → Bytes → ℕ
last c [] = c
last c (d ∷ ds) = last d ds

unfoldable pub every : (ℕ → Bool) → Bytes → Bool
every p [] = true
every p (c ∷ cs) = p c && every p cs

extend_head : ℕ → List Bytes → List Bytes
extend_head c [] = (c ∷ []) ∷ []
extend_head c (p ∷ ps) = (c ∷ p) ∷ ps

unfoldable pub split : ℕ → Bytes → List Bytes
unfolding extend_head
split sep [] = [] ∷ []
split sep (c ∷ cs) = let rest = split sep cs in if c == sep then [] ∷ rest else extend_head c rest

unfoldable pub cut : ℕ → Bytes → Option (Bytes × Bytes)
cut sep [] = none
cut sep (c ∷ cs) =
    let rest = Option.map (λ (kv : Bytes × Bytes). (c ∷ kv.0, kv.1)) (cut sep cs) in
    if c == sep then some ([], cs) else rest

trim_left : ℕ → Bytes → Bytes
trim_left space [] = []
trim_left space (c ∷ cs) = let rest = trim_left space cs in if c == space then rest else c ∷ cs

keep_unless : ℕ → ℕ → Bytes → Bytes
keep_unless space c [] = if c == space then [] else c ∷ []
keep_unless space c (d ∷ ds) = c ∷ d ∷ ds

trim_right : ℕ → Bytes → Bytes
unfolding keep_unless
trim_right space [] = []
trim_right space (c ∷ cs) = keep_unless space c (trim_right space cs)

unfoldable pub trim : ℕ → Bytes → Bytes
unfolding trim_left trim_right
trim space cs = trim_right space (trim_left space cs)
