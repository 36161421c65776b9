-- ===== src/GatewayIn/Handshake/Classes.antt =====
-- The classes of the routes that both sides know.
use marketmesh.Prelude.{
  ℕ, ◌+◌, ◌≤◌, ◌<◌, ◌≡◌, refl, sym, ◌≢◌, ite, true, false, List, [], ◌∷◌, arith, ℕ_discrete,
  if_rule, length, All, Distinct, contains,
}
use mathlib.Core.Logic.{if_pos, if_neg}
use mathlib.Core.Path.{subst}
use marketmesh.Protocol.Members.Spec.{Unseen-cons}
use marketmesh.Protocol.Enums.{TrafficClass, TrafficClass-discrete, known_traffic_class, RouteId}
use marketmesh.GatewayIn.Routes.{route_traffic_class}
use marketmesh.GatewayIn.Request.{RoutePolicy}
use marketmesh.GatewayIn.Config.{Routes, classes_of}

-- A class of a frame.
abbrev pub Carried : TrafficClass → Type 0
Carried c = (known_traffic_class c ≡ true) × (c ≢ TrafficClass.unspecified)

abbrev occurrences : TrafficClass → List TrafficClass → ℕ
occurrences c [] = 0
occurrences c (d ∷ ds) = ite (TrafficClass-discrete c d) 1 0 + occurrences c ds

absent : (c : TrafficClass) (cs : List TrafficClass) → All (λ d. c ≢ d) cs → occurrences c cs ≡ 0
absent c [] h = refl
absent c (d ∷ ds) (n, h) = rw (if_neg (TrafficClass-discrete c d) n) (omega (arith, absent c ds h))

once : (c : TrafficClass) (cs : List TrafficClass) → Distinct cs → occurrences c cs ≤ 1
once c [] d = omega arith
once c (e ∷ es) (n, d) = elim (TrafficClass-discrete c e) [
  | yes p ↦
      let none_left = absent c es (subst (λ x. All (λ y. x ≢ y) es) (sym p) n) in
      rw (if_pos (TrafficClass-discrete c e) p) (omega arith)
  | no p ↦ rw (if_neg (TrafficClass-discrete c e) p) (omega (arith, once c es d))
]

three :
    (cs : List TrafficClass)
    → All Carried cs
    → length cs
      ≡ occurrences TrafficClass.control_auth cs
        + occurrences TrafficClass.regular cs
        + occurrences TrafficClass.realtime cs
unfolding TrafficClass-discrete ℕ_discrete
three [] h = omega arith
three (TrafficClass.control_auth ∷ cs) h = omega (arith, three cs h.1)
three (TrafficClass.regular ∷ cs) h = omega (arith, three cs h.1)
three (TrafficClass.realtime ∷ cs) h = omega (arith, three cs h.1)
three (TrafficClass.unspecified ∷ cs) h = absurd (h.0.1 refl)
three (TrafficClass.unrecognized n ∷ cs) h = unfold known_traffic_class in cc

-- Distinct classes of frames are three at most.
pub at_most_three : (cs : List TrafficClass) → All Carried cs → Distinct cs → length cs ≤ 3
at_most_three cs h d = omega (
  arith,
  three cs h,
  once TrafficClass.control_auth cs d,
  once TrafficClass.regular cs d,
  once TrafficClass.realtime cs d,
)

-- The classes of a map of policies.
pub classes_of-Distinct : (rs : Routes) → Distinct (classes_of rs)
unfolding classes_of
classes_of-Distinct [] = tt
classes_of-Distinct ((r, p) ∷ rs) =
    if_rule Distinct (contains TrafficClass-discrete (classes_of rs) p.traffic_class) _ _
      (λ t. classes_of-Distinct rs) (λ f. (fresh (classes_of rs) f, classes_of-Distinct rs))
  where
    fresh :
        (cs : List TrafficClass)
        → contains TrafficClass-discrete cs p.traffic_class ≡ false
        → All (λ c. p.traffic_class ≢ c) cs
    fresh [] f = tt
    fresh (c ∷ cs) f =
        let (apart, rest) = (Unseen-cons TrafficClass-discrete c cs p.traffic_class).0 f in
        (λ e. apart (sym e), fresh cs rest)

pub classes_of-All :
    (P : TrafficClass → Type 0) (rs : Routes)
    → All (λ (e : RouteId × RoutePolicy). P e.1.traffic_class) rs
    → All P (classes_of rs)
unfolding classes_of
classes_of-All P [] h = tt
classes_of-All P ((r, p) ∷ rs) h =
    if_rule (All P) (contains TrafficClass-discrete (classes_of rs) p.traffic_class) _ _
      (λ t. classes_of-All P rs h.1) (λ f. (h.0, classes_of-All P rs h.1))

held :
    (cs : List TrafficClass) (c : TrafficClass)
    → contains TrafficClass-discrete cs c ≡ true
    → 0 < length cs
unfolding contains
held [] c h = cc
held (d ∷ ds) c h = omega arith

pub classes_of_nonempty : (rs : Routes) → 0 < length rs → 0 < length (classes_of rs)
unfolding classes_of
classes_of_nonempty [] h = h
classes_of_nonempty ((r, p) ∷ rs) h =
    if_rule Nonempty (contains TrafficClass-discrete (classes_of rs) p.traffic_class) _ _
      (λ t. held (classes_of rs) p.traffic_class t) (λ f. omega arith)
  where
    Nonempty : List TrafficClass → Type 0
    Nonempty xs = 0 < length xs

pub Carried-class :
    (c : TrafficClass) (r : RouteId)
    → c ≡ route_traffic_class r
    → route_traffic_class r ≢ TrafficClass.unspecified
    → Carried c
unfolding route_traffic_class known_traffic_class
Carried-class c r e u = rw e (carried r u)
  where
    carried :
        (r : RouteId)
        → route_traffic_class r ≢ TrafficClass.unspecified
        → Carried (route_traffic_class r)
    carried RouteId.unspecified u = absurd (u refl)
    carried (RouteId.unrecognized n) u = absurd (u refl)
    carried _ u = (refl, λ e. cc)
