-- ===== src/Protocol/Members.antt =====
-- The loops of backend/api/tunnel/v1/validate.go that walk a list with a set of the values seen.
pub mod Spec
pub mod Versions
use marketmesh.Prelude.{
  ℕ, Bool, true, false, List, [], ◌∷◌, Option, some, none, ◌==◌, ◌||◌, contains, ◌>>◌, reject_if,
  if◌then◌else◌, ℕ_discrete,
}
use marketmesh.Protocol.Errors.{Error}
use marketmesh.Protocol.Bounds.{protocol_version}

-- The loop of `validateCapabilities`, `validateTrafficClasses` and `validateRoutes`: each value is
-- recognised, then looked up among those seen.
module _ {A : Type 0} (dec : Discrete A) (is_bad : A → Bool) (unknown duplicate : Error) where
  unfoldable pub members : List A → List A → Option Error
  unfolding contains
  members seen [] = none
  members seen (x ∷ xs) = do
    reject_if (is_bad x) unknown
    reject_if (contains dec seen x) duplicate
    members (x ∷ seen) xs

-- The loop of `validateSupportedVersions`: the error, and whether version 1 was found.
unfoldable pub versions_from : Error → List ℕ → Bool → List ℕ → Option Error × Bool
unfolding contains
versions_from duplicate seen found [] = (none, found)
versions_from duplicate seen found (v ∷ vs) =
    let rest = versions_from duplicate (v ∷ seen) (v == protocol_version || found) vs in
    if contains ℕ_discrete seen v then (some duplicate, found) else rest
