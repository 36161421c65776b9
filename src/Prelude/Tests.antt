-- ===== src/Prelude/Tests.antt =====
-- Boolean tests on the native numbers, and the conditional.
use Prim.Native.Nat.{ℕ, ◌≤◌, ◌<◌, compare, Ordering}
use mathlib.Core.Path.{◌≡◌, refl}
use mathlib.Core.Logic.{◌↔◌, ◌⊎◌, inl, inr, ite}
use mathlib.Core.Bool.{Bool, true, false, not, ◌&&◌, ◌||◌}
use mathlib.Core.Option.{Option, none, some}
use native.Mathlib.Omega.{arith}

abbrev pub ltb : ℕ → ℕ → Bool
ltb a b = elim (compare a b) [ Ordering.lt ↦ true | _ ↦ false ]

abbrev pub leb : ℕ → ℕ → Bool
leb a b = elim (compare a b) [ Ordering.gt ↦ false | _ ↦ true ]

infix 50 ◌==◌
abbrev pub ◌==◌ : ℕ → ℕ → Bool
a == b = elim (compare a b) [ Ordering.eq ↦ true | _ ↦ false ]

infix 1 if◌then◌else◌
abbrev pub if◌then◌else◌ {ℓ} : {A : Type ℓ} → Bool → A → A → A
if true then x else y = x
if false then x else y = y

pub ltb→lt : (a b : ℕ) → ltb a b ≡ true → a < b
ltb→lt a b h = ground arith

pub leb→le : (a b : ℕ) → leb a b ≡ true → a ≤ b
leb→le a b h = ground arith

pub ==_iff : (a b : ℕ) → ((a == b) ≡ true) ↔ (a ≡ b)
==_iff a b = ground arith

-- To split on a computed value and keep the equation.
pub Bool-cases : (b : Bool) → (b ≡ true) ⊎ (b ≡ false)
Bool-cases true = inl refl
Bool-cases false = inr refl

pub Option-cases {ℓ} : {A : Type ℓ} (o : Option A) → (o ≡ none) ⊎ ((a : A) × (o ≡ some a))
Option-cases none = inl refl
Option-cases (some a) = inr (a, refl)

pub ite_iff {ℓ} : {P : Type ℓ} (d : Dec P) → (ite d true false ≡ true) ↔ P
ite_iff (yes p) = (λ h. p, λ h. refl)
ite_iff (no p) = (λ h. cc, λ h. absurd (p h))

-- A guard that answers false.
pub unless_iff :
    (bad rest : Bool) → ((if bad then false else rest) ≡ true) ↔ ((bad ≡ false) × (rest ≡ true))
unless_iff true rest = (λ h. cc, λ h. cc)
unless_iff false rest = (λ h. (refl, h), λ h. h.1)

pub or_false : (a b : Bool) → ((a || b) ≡ false) ↔ ((a ≡ false) × (b ≡ false))
or_false true b = (λ h. cc, λ h. cc)
or_false false b = (λ h. (refl, h), λ h. h.1)

pub not-false : (b : Bool) → (not b ≡ false) ↔ (b ≡ true)
not-false true = (λ h. refl, λ h. refl)
not-false false = (λ h. cc, λ h. cc)

pub not-eq-true : (b : Bool) → (not b ≡ true) ↔ (b ≡ false)
not-eq-true true = (λ h. cc, λ h. cc)
not-eq-true false = (λ h. refl, λ h. refl)

pub and_true : (a b : Bool) → ((a && b) ≡ true) ↔ ((a ≡ true) × (b ≡ true))
and_true true b = (λ h. (refl, h), λ h. h.1)
and_true false b = (λ h. cc, λ h. cc)

-- What the usual guards let through.
pub at_most : (n most : ℕ) → (ltb most n ≡ false) ↔ (n ≤ most)
at_most n most = (λ h. ground arith, λ h. ground arith)

pub within : (n most : ℕ) → ((n == 0 || ltb most n) ≡ false) ↔ ((0 < n) × (n ≤ most))
within n most = (λ h. ground arith, λ h. ground arith)

pub equals : (n m : ℕ) → (not (n == m) ≡ false) ↔ (n ≡ m)
equals n m = (λ h. ground arith, λ h. ground arith)

pub positive : (n : ℕ) → ((n == 0) ≡ false) ↔ (0 < n)
positive n = (λ h. ground arith, λ h. ground arith)

pub both {ℓ κ} :
    {P : Type ℓ} {Q : Type κ} (a b : Bool)
    → ((a ≡ false) ↔ P)
    → ((b ≡ false) ↔ Q)
    → ((a || b) ≡ false) ↔ (P × Q)
both a b p q = (
  λ h. (p.0 ((or_false a b).0 h).0, q.0 ((or_false a b).0 h).1),
  λ h. (or_false a b).1 (p.1 h.0, q.1 h.1),
)

pub negated {ℓ} : {P : Type ℓ} (b : Bool) → ((b ≡ true) ↔ P) → (not b ≡ false) ↔ P
negated b p = (λ h. p.0 ((not-false b).0 h), λ h. (not-false b).1 (p.1 h))

pub excluded {ℓ} : {P : Type ℓ} (d : Dec P) → (ite d true false ≡ false) ↔ (¬ P)
excluded (yes p) = (λ h. cc, λ h. absurd (h p))
excluded (no p) = (λ h. p, λ h. refl)

-- A property of both branches, each under its test.
pub if_rule {ℓ κ} :
    {A : Type ℓ} (P : A → Type κ) (b : Bool) (x y : A)
    → (b ≡ true → P x)
    → (b ≡ false → P y)
    → P (if b then x else y)
if_rule P true x y p q = p refl
if_rule P false x y p q = q refl
