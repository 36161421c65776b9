-- ===== src/Prelude/Slices.antt =====
-- Slices of a list, and what stands at a known place of a concatenation.
use Prim.Native.Nat.{ℕ, zero, suc, ◌+◌, ◌<◌, ◌≤◌}
use mathlib.Core.Path.{◌≡◌, refl, sym, ap, ◌∙◌}
use mathlib.Core.List.{List, [], ◌∷◌, ◌++◌}
use native.Mathlib.Nat.{add-suc}
use native.Mathlib.Omega.{arith}
use marketmesh.Prelude.Lists.{length, get_or, take, drop, take-append-drop}

module _ {ℓ} {A : Type ℓ} where
  -- What stands in a list at a place given by the length of what precedes it.
  pub take-append : (n : ℕ) (xs ys : List A) → length xs ≡ n → take n (xs ++ ys) ≡ xs
  take-append zero [] ys h = refl
  take-append zero (x ∷ xs) ys h = absurd (omega arith)
  take-append (suc n) [] ys h = absurd (omega arith)
  take-append (suc n) (x ∷ xs) ys h = ap (◌∷◌ x) (take-append n xs ys (omega arith))

  pub drop-append : (n : ℕ) (xs ys : List A) → length xs ≡ n → drop n (xs ++ ys) ≡ ys
  drop-append zero [] ys h = refl
  drop-append zero (x ∷ xs) ys h = absurd (omega arith)
  drop-append (suc n) [] ys h = absurd (omega arith)
  drop-append (suc n) (x ∷ xs) ys h = drop-append n xs ys (omega arith)

  drop-nil : (n : ℕ) → drop {A = A} n [] ≡ []
  drop-nil zero = refl
  drop-nil (suc n) = refl

  drop-drop : (m n : ℕ) (xs : List A) → drop m (drop n xs) ≡ drop (n + m) xs
  drop-drop m zero xs = ap (λ (k : ℕ). drop k xs) (omega arith)
  drop-drop m (suc n) [] = drop-nil m ∙ sym (drop-nil (suc n + m))
  drop-drop m (suc n) (x ∷ xs) = drop-drop m n xs ∙ ap (λ (k : ℕ). drop k (x ∷ xs)) shifted
    where
      shifted : suc (n + m) ≡ suc n + m
      shifted = omega arith

  pub drop-get_or :
      (i : ℕ) (xs : List A) (d : A)
      → suc i ≤ length xs
      → drop i xs ≡ get_or xs i d ∷ drop (suc i) xs
  drop-get_or zero [] d h = absurd (omega arith)
  drop-get_or zero (x ∷ xs) d h = refl
  drop-get_or (suc i) [] d h = absurd (omega arith)
  drop-get_or (suc i) (x ∷ xs) d h = drop-get_or i xs d (omega arith)

  -- The field of `n` elements from place `i`, up to the separator after it.
  pub drop-field :
      (i n : ℕ) (xs : List A) (d : A)
      → i + n < length xs
      → drop i xs ≡ take n (drop i xs) ++ (get_or xs (i + n) d ∷ drop (suc (i + n)) xs)
  drop-field i n xs d h =
      sym (take-append-drop n (drop i xs))
      ∙ ap (◌++◌ (take n (drop i xs))) (drop-drop n i xs ∙ drop-get_or (i + n) xs d h)

  pub take-all : (n : ℕ) (xs : List A) → length xs ≡ n → take n xs ≡ xs
  take-all zero [] h = refl
  take-all zero (x ∷ xs) h = absurd (omega arith)
  take-all (suc n) [] h = refl
  take-all (suc n) (x ∷ xs) h = ap (◌∷◌ x) (take-all n xs (omega arith))

  -- Behind a field of known length and its separator.
  pub drop_past :
      (n m : ℕ) (xs : List A) (y : A) (ys : List A)
      → length xs ≡ n
      → drop (suc (n + m)) (xs ++ (y ∷ ys)) ≡ drop m ys
  drop_past n m xs y ys h =
      sym (ap (λ (k : ℕ). drop k (xs ++ (y ∷ ys))) (add-suc n m))
      ∙ sym (drop-drop (suc m) n (xs ++ (y ∷ ys)))
      ∙ ap (drop (suc m)) (drop-append n xs (y ∷ ys) h)

  pub get_or_at :
      (n : ℕ) (xs : List A) (y : A) (ys : List A) (d : A)
      → length xs ≡ n
      → get_or (xs ++ (y ∷ ys)) n d ≡ y
  get_or_at zero [] y ys d h = refl
  get_or_at zero (x ∷ xs) y ys d h = absurd (omega arith)
  get_or_at (suc n) [] y ys d h = absurd (omega arith)
  get_or_at (suc n) (x ∷ xs) y ys d h = get_or_at n xs y ys d (omega arith)

  pub get_or_past :
      (n m : ℕ) (xs : List A) (y : A) (ys : List A) (d : A)
      → length xs ≡ n
      → get_or (xs ++ (y ∷ ys)) (suc (n + m)) d ≡ get_or ys m d
  get_or_past zero m [] y ys d h = ap (λ (k : ℕ). get_or ys k d) (omega arith)
  get_or_past zero m (x ∷ xs) y ys d h = absurd (omega arith)
  get_or_past (suc n) m [] y ys d h = absurd (omega arith)
  get_or_past (suc n) m (x ∷ xs) y ys d h =
      ap (λ (k : ℕ). get_or (xs ++ (y ∷ ys)) k d) (omega arith)
      ∙ get_or_past n m xs y ys d (omega arith)
