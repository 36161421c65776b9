-- ===== src/Prelude/Check.antt =====
-- Go's `error` result of a check: `none` is nil. A sequence of `if bad { return err }` statements
-- is a `do` block of `reject_if`.
use mathlib.Core.Path.{◌≡◌, refl}
use mathlib.Core.Bool.{Bool, true, false}
use mathlib.Core.Logic.{◌↔◌}
use mathlib.Core.Option.{Option, none, some}

infixl 5 ◌>>◌
abbrev pub ◌>>◌ {ℓ} : {E : Type ℓ} → Option E → Option E → Option E
none >> k = k
some e >> k = some e

abbrev pub reject_if {ℓ} : {E : Type ℓ} → Bool → E → Option E
reject_if true e = some e
reject_if false e = none

-- A sequence passes exactly when both parts pass.
pub >>-eq-none {ℓ} : {E : Type ℓ} (m k : Option E) → ((m >> k) ≡ none) ↔ ((m ≡ none) × (k ≡ none))
>>-eq-none none k = (λ h. (refl, h), λ h. h.1)
>>-eq-none (some e) k = (λ h. cc, λ h. cc)

pub reject_if-eq-none {ℓ} : {E : Type ℓ} (b : Bool) (e : E) → (reject_if b e ≡ none) ↔ (b ≡ false)
reject_if-eq-none true e = (λ h. cc, λ h. cc)
reject_if-eq-none false e = (λ h. refl, λ h. refl)

-- To state what a sequence of checks accepts, part by part.
pub seq_accepts {ℓ κ μ} :
    {E : Type ℓ} {P : Type κ} {Q : Type μ} (m k : Option E)
    → ((m ≡ none) ↔ P)
    → ((k ≡ none) ↔ Q)
    → ((m >> k) ≡ none) ↔ (P × Q)
seq_accepts m k p q = (
  λ h. let e = (>>-eq-none m k).0 h in (p.0 e.0, q.0 e.1),
  λ h. (>>-eq-none m k).1 (p.1 h.0, q.1 h.1),
)

pub reject_accepts {ℓ κ} :
    {E : Type ℓ} {P : Type κ} (b : Bool) (e : E) → ((b ≡ false) ↔ P) → (reject_if b e ≡ none) ↔ P
reject_accepts b e p =
    (λ h. p.0 ((reject_if-eq-none b e).0 h), λ h. (reject_if-eq-none b e).1 (p.1 h))
