-- ===== src/Protocol/Bytes/Spec.antt =====
-- The byte-string tests, stated as predicates.
use marketmesh.Prelude.{ℕ, ◌≡◌, refl, ◌↔◌, Bool, true, [], ◌∷◌, arith, ite_iff, All}
use marketmesh.Protocol.Messages.{Bytes}
use marketmesh.Protocol.Bytes.{bytes_discrete, equal, every}

pub every_iff : (p : ℕ → Bool) (cs : Bytes) → (every p cs ≡ true) ↔ All (λ c. p c ≡ true) cs
unfolding every
every_iff p [] = (λ h. tt, λ h. refl)
every_iff p (c ∷ cs) =
    (λ h. (ground arith, (every_iff p cs).0 (ground arith)), λ h. rw (h.0) ((every_iff p cs).1 h.1))

pub equal_iff : (a b : Bytes) → (equal a b ≡ true) ↔ (a ≡ b)
unfolding equal
equal_iff a b = ite_iff (bytes_discrete a b)
