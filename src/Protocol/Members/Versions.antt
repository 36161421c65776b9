-- ===== src/Protocol/Members/Versions.antt =====
-- What the loop over the offered versions computes.
use marketmesh.Prelude.{
  ℕ, ◌≡◌, ◌↔◌, refl, inl, inr, Bool, false, ◌||◌, List, [], ◌∷◌, none, ◌==◌, contains, ℕ_discrete,
  All, Distinct, arith, Bool-cases,
}
use marketmesh.Protocol.Errors.{Error}
use marketmesh.Protocol.Bounds.{protocol_version}
use marketmesh.Protocol.Members.{members, versions_from}
use marketmesh.Protocol.Members.Spec.{members-none}

-- As a check for duplicates the loop is the other one, with every value recognised.
versions_from-members :
    (duplicate : Error) (seen : List ℕ) (found : Bool) (vs : List ℕ)
    → (versions_from duplicate seen found vs).0
      ≡ members ℕ_discrete (λ _. false) duplicate duplicate seen vs
unfolding versions_from members
versions_from-members duplicate seen found [] = refl
versions_from-members duplicate seen found (v ∷ vs) =
    elim (Bool-cases (contains ℕ_discrete seen v)) [
      | inl old ↦ rw old
      | inr new ↦
          rw new (versions_from-members duplicate (v ∷ seen) (v == protocol_version || found) vs)
    ]

versions_found :
    (duplicate : Error) (seen : List ℕ) (found : Bool) (vs : List ℕ)
    → (versions_from duplicate seen found vs).0 ≡ none
    → (versions_from duplicate seen found vs).1 ≡ (found || contains ℕ_discrete vs protocol_version)
unfolding versions_from contains
versions_found duplicate seen found [] h = ground arith
versions_found duplicate seen found (v ∷ vs) h = elim (Bool-cases (contains ℕ_discrete seen v)) [
  | inl old ↦ absurd (ground arith)
  | inr new ↦
      let ih = versions_found duplicate (v ∷ seen) (v == protocol_version || found) vs in
      rw new (ground (arith, ih (rw new at h)))
]

All-true : (vs : List ℕ) → All (λ (v : ℕ). ◌≡◌ {A = Bool} false false) vs
All-true [] = tt
All-true (v ∷ vs) = (refl, All-true vs)

-- The loop reports no duplicate exactly when there is none.
pub versions_from-none :
    (duplicate : Error) (vs : List ℕ)
    → ((versions_from duplicate [] false vs).0 ≡ none) ↔ Distinct vs
versions_from-none duplicate vs = rw (versions_from-members duplicate [] false vs) (
  λ h. ((members-none ℕ_discrete (λ _. false) duplicate duplicate vs).0 h).1,
  λ h. (members-none ℕ_discrete (λ _. false) duplicate duplicate vs).1 (All-true vs, h),
)

pub versions_from-found :
    (duplicate : Error) (vs : List ℕ)
    → Distinct vs
    → (versions_from duplicate [] false vs).1 ≡ contains ℕ_discrete vs protocol_version
versions_from-found duplicate vs h =
    versions_found duplicate [] false vs ((versions_from-none duplicate vs).1 h)
