-- ===== src/Protocol/Members/Spec.antt =====
-- What the loops over a set of seen values accept.
use marketmesh.Prelude.{
  ◌≡◌, ◌≢◌, ◌↔◌, inl, inr, refl, Bool, false, List, [], ◌∷◌, none, contains, All, All-map, All-zip,
  Distinct, arith, Bool-cases,
}
use mathlib.Core.Logic.{if_pos, if_neg}
use marketmesh.Protocol.Errors.{Error}
use marketmesh.Protocol.Members.{members}

module _ {A : Type 0} (dec : Discrete A) where
  abbrev pub Unseen : List A → A → Type 0
  Unseen seen y = contains dec seen y ≡ false

  pub Unseen-cons :
      (x : A) (seen : List A) (y : A) → Unseen (x ∷ seen) y ↔ ((x ≢ y) × Unseen seen y)
  unfolding contains
  Unseen-cons x seen y = elim (dec x y) [
    | yes p ↦ rw (if_pos _ p) (λ h. cc, λ h. absurd (h.0 p))
    | no p ↦ rw (if_neg _ p) (λ h. (p, h), λ h. h.1)
  ]

  module _ (is_bad : A → Bool) (unknown duplicate : Error) where
    abbrev Accepted : List A → List A → Type 0
    Accepted seen xs = All (λ x. is_bad x ≡ false) xs × Distinct xs × All (Unseen seen) xs

    members-Accepted :
        (seen xs : List A) → members dec is_bad unknown duplicate seen xs ≡ none → Accepted seen xs
    unfolding members
    members-Accepted seen [] h = (tt, tt, tt)
    members-Accepted seen (x ∷ xs) h = elim (Bool-cases (is_bad x)) [
      | inl bad ↦ absurd (ground arith)
      | inr good ↦ elim (Bool-cases (contains dec seen x)) [
        | inl old ↦ absurd (ground arith)
        | inr new ↦
            let ih : Accepted (x ∷ seen) xs = members-Accepted (x ∷ seen) xs (ground arith) in
            let apart : All (λ y. (x ≢ y) × Unseen seen y) xs =
              All-map _ _ xs (λ y. (Unseen-cons x seen y).0) ih.2 in
            (
              (good, ih.0),
              (All-map _ _ xs (λ y p. p.0) apart, ih.1),
              (new, All-map _ _ xs (λ y p. p.1) apart),
            )
      ]
    ]

    Accepted-members :
        (seen xs : List A) → Accepted seen xs → members dec is_bad unknown duplicate seen xs ≡ none
    unfolding members
    Accepted-members seen [] a = refl
    Accepted-members seen (x ∷ xs) ((good, goods), (apart, rest), (new, news)) =
        rw (good, new)
          (Accepted-members (x ∷ seen) xs (
            goods,
            rest,
            All-map _ _ xs (λ y. (Unseen-cons x seen y).1) (All-zip _ _ xs apart news),
          ))

    Unseen-nil : (xs : List A) → All (Unseen []) xs
    unfolding contains
    Unseen-nil [] = tt
    Unseen-nil (x ∷ xs) = (refl, Unseen-nil xs)

    -- The loop passes exactly the lists of recognised values that hold none of them twice.
    pub members-none :
        (xs : List A)
        → (members dec is_bad unknown duplicate [] xs ≡ none)
          ↔ (All (λ x. is_bad x ≡ false) xs × Distinct xs)
    members-none xs = (
      λ h. let a = members-Accepted [] xs h in (a.0, a.1),
      λ h. Accepted-members [] xs (h.0, h.1, Unseen-nil xs),
    )
