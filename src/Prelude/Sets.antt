-- ===== src/Prelude/Sets.antt =====
-- Go's maps that are used as sets, and the slices of their keys: selection, sorting, distinctness.
use Prim.Native.Nat.{ℕ, ◌+◌, ◌≤◌}
use mathlib.Core.Path.{◌≡◌, refl, sym}
use mathlib.Core.Logic.{◌≢◌, inl, inr}
use mathlib.Core.Bool.{Bool, true}
use mathlib.Core.List.{List, [], ◌∷◌, map}
use native.Mathlib.Omega.{arith}
use marketmesh.Prelude.Lists.{length, All, Distinct}
use marketmesh.Prelude.Tests.{leb, if◌then◌else◌, Bool-cases}

module _ {ℓ} {A : Type ℓ} where
  -- The elements that a test keeps, in order.
  unfoldable pub keep : (A → Bool) → List A → List A
  keep test [] = []
  keep test (x ∷ xs) = let rest = keep test xs in if test x then x ∷ rest else rest

  pub length-keep : (test : A → Bool) (xs : List A) → length (keep test xs) ≤ length xs
  unfolding keep
  length-keep test [] = omega arith
  length-keep test (x ∷ xs) = ground (arith, length-keep test xs)

  pub All-keep {κ} :
      (P : A → Type κ) (test : A → Bool) (xs : List A) → All P xs → All P (keep test xs)
  unfolding keep
  All-keep P test [] h = tt
  All-keep P test (x ∷ xs) h = elim (Bool-cases (test x)) [
    | inl t ↦ rw t (h.0, All-keep P test xs h.1)
    | inr f ↦ rw f (All-keep P test xs h.1)
  ]

  pub All-kept : (test : A → Bool) (xs : List A) → All (λ x. test x ≡ true) (keep test xs)
  unfolding keep
  All-kept test [] = tt
  All-kept test (x ∷ xs) = elim (Bool-cases (test x)) [
    | inl t ↦ rw t (t, All-kept test xs)
    | inr f ↦ rw f (All-kept test xs)
  ]

  pub Distinct-keep : (test : A → Bool) (xs : List A) → Distinct xs → Distinct (keep test xs)
  unfolding keep
  Distinct-keep test [] h = tt
  Distinct-keep test (x ∷ xs) h = elim (Bool-cases (test x)) [
    | inl t ↦ rw t (All-keep _ test xs h.0, Distinct-keep test xs h.1)
    | inr f ↦ rw f (Distinct-keep test xs h.1)
  ]

  -- `slices.Sort`, by a number of each element.
  unfoldable pub insert_by : (A → ℕ) → A → List A → List A
  insert_by number x [] = x ∷ []
  insert_by number x (y ∷ ys) =
      let rest = insert_by number x ys in if leb (number x) (number y) then x ∷ y ∷ ys else y ∷ rest

  unfoldable pub sort_by : (A → ℕ) → List A → List A
  unfolding insert_by
  sort_by number [] = []
  sort_by number (x ∷ xs) = insert_by number x (sort_by number xs)

module _ {ℓ} {A : Type ℓ} (number : A → ℕ) where
  length-insert_by : (x : A) (xs : List A) → length (insert_by number x xs) ≡ length xs + 1
  unfolding insert_by
  length-insert_by x [] = omega arith
  length-insert_by x (y ∷ ys) = ground (arith, length-insert_by x ys)

  pub length-sort_by : (xs : List A) → length (sort_by number xs) ≡ length xs
  unfolding sort_by
  length-sort_by [] = refl
  length-sort_by (x ∷ xs) = omega (arith, length-insert_by x (sort_by number xs), length-sort_by xs)

  All-insert_by {κ} :
      (P : A → Type κ) (x : A) (xs : List A) → P x → All P xs → All P (insert_by number x xs)
  unfolding insert_by
  All-insert_by P x [] p h = (p, tt)
  All-insert_by P x (y ∷ ys) p h = elim (Bool-cases (leb (number x) (number y))) [
    | inl t ↦ rw t (p, h)
    | inr f ↦ rw f (h.0, All-insert_by P x ys p h.1)
  ]

  pub All-sort_by {κ} : (P : A → Type κ) (xs : List A) → All P xs → All P (sort_by number xs)
  unfolding sort_by
  All-sort_by P [] h = tt
  All-sort_by P (x ∷ xs) h = All-insert_by P x (sort_by number xs) h.0 (All-sort_by P xs h.1)

  Distinct-insert_by :
      (x : A) (xs : List A) → All (λ y. x ≢ y) xs → Distinct xs → Distinct (insert_by number x xs)
  unfolding insert_by
  Distinct-insert_by x [] n d = (tt, tt)
  Distinct-insert_by x (y ∷ ys) n d = elim (Bool-cases (leb (number x) (number y))) [
    | inl t ↦ rw t (n, d)
    | inr f ↦
        rw f
          (All-insert_by (λ z. y ≢ z) x ys (λ e. n.0 (sym e)) d.0, Distinct-insert_by x ys n.1 d.1)
  ]

  pub Distinct-sort_by : (xs : List A) → Distinct xs → Distinct (sort_by number xs)
  unfolding sort_by
  Distinct-sort_by [] d = tt
  Distinct-sort_by (x ∷ xs) d =
      Distinct-insert_by x (sort_by number xs) (All-sort_by _ xs d.0) (Distinct-sort_by xs d.1)

-- Keys of pairs: a selection of entries selects their keys.
pub All-keys-keep {ℓ κ μ} :
    {A : Type ℓ} {B : Type κ} (f : A → B) (P : B → Type μ) (test : A → Bool) (xs : List A)
    → All P (map f xs)
    → All P (map f (keep test xs))
unfolding keep
All-keys-keep f P test [] h = tt
All-keys-keep f P test (x ∷ xs) h = elim (Bool-cases (test x)) [
  | inl t ↦ rw t (h.0, All-keys-keep f P test xs h.1)
  | inr e ↦ rw e (All-keys-keep f P test xs h.1)
]

pub Distinct-keys-keep {ℓ κ} :
    {A : Type ℓ} {B : Type κ} (f : A → B) (test : A → Bool) (xs : List A)
    → Distinct (map f xs)
    → Distinct (map f (keep test xs))
unfolding keep
Distinct-keys-keep f test [] h = tt
Distinct-keys-keep f test (x ∷ xs) h = elim (Bool-cases (test x)) [
  | inl t ↦ rw t (All-keys-keep f _ test xs h.0, Distinct-keys-keep f test xs h.1)
  | inr e ↦ rw e (Distinct-keys-keep f test xs h.1)
]
