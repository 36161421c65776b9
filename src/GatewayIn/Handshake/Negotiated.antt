-- ===== src/GatewayIn/Handshake/Negotiated.antt =====
-- The outcome of a negotiation against both sides, and the Hello that announces it.
use marketmesh.Prelude.{
  suc, ◌≤◌, ◌<◌, ◌≡◌, refl, sym, ap, ◌∙◌, ◌≢◌, inl, inr, true, some, none, List, [], ◌∷◌, map,
  arith, Option-cases, length, All, Distinct, contains, All-map, keep, length-keep, All-keep,
  Distinct-keep, sort_by, length-sort_by, All-sort_by, Distinct-sort_by, Distinct-keys-keep,
}
use mathlib.Core.Path.{subst}
use marketmesh.Protocol.Enums.{
  TrafficClass, Capability, Capability-discrete, known_capability, RouteId, known_route,
}
use marketmesh.Protocol.Numbers.{traffic_class_number, capability_number, route_number}
use marketmesh.Protocol.Messages.{Bytes, Limits, GatewayOutHello}
use marketmesh.Protocol.Bounds.{id_bytes, max_advertised_routes}
use marketmesh.Protocol.Hello.{validate_gateway_out_hello}
use marketmesh.Protocol.Hello.Spec.{
  InBounds, Present, Advertises, CapabilitiesOk, ClassesOk, RoutesOk,
  validate_gateway_out_hello-none,
}
use marketmesh.Protocol.Payloads.{ProtoRuntime}
use marketmesh.Protocol.Reflect.{Clean}
use marketmesh.Protocol.Validate.{validate_gateway_in_frame}
use marketmesh.Protocol.Validate.Spec.{validate_gateway_in_frame-none}
use marketmesh.GatewayIn.Routes.{route_traffic_class}
use marketmesh.GatewayIn.Request.{RoutePolicy}
use marketmesh.GatewayIn.Config.{Settings, Routes, classes_of, route_keys, hello_response}
use marketmesh.GatewayIn.Config.Accepted.{SettingsOk, PolicyOk, Configurable}
use marketmesh.GatewayIn.Handshake.Classes.{
  Carried, at_most_three, classes_of-Distinct, classes_of-All, classes_of_nonempty, Carried-class,
}
use marketmesh.GatewayIn.Handshake.{
  Negotiation, minimum_limits, limits_or_zero, shared_capabilities, is_shared, shared_routes,
  negotiate, hello_of,
}

-- The smaller of two limits in bounds is in bounds.
minimum_limits-InBounds : (a b : Limits) → InBounds a → InBounds b → InBounds (minimum_limits a b)
unfolding minimum_limits
minimum_limits-InBounds a b p q = omega arith

known_id :
    (r : RouteId)
    → route_traffic_class r ≢ TrafficClass.unspecified
    → (known_route r ≡ true) × (r ≢ RouteId.unspecified)
unfolding route_traffic_class known_route
known_id RouteId.unspecified u = absurd (u refl)
known_id (RouteId.unrecognized n) u = absurd (u refl)
known_id _ u = (refl, λ e. cc)

-- What a successful negotiation holds.
negotiate-parts :
    (s : Settings) (hello : GatewayOutHello) (n : Negotiation)
    → negotiate s hello ≡ some n
    → (0 < length (shared_routes s hello))
      × (n ≡ record {
        limits = minimum_limits s.limits (limits_or_zero hello.limits);
        routes = route_keys (shared_routes s hello);
        classes = classes_of (shared_routes s hello);
        capabilities = shared_capabilities s hello;
      })
unfolding negotiate
negotiate-parts s hello n h = ground arith

length-map {ℓ κ} :
    {A : Type ℓ} {B : Type κ} (f : A → B) (xs : List A) → length (map f xs) ≡ length xs
length-map f [] = refl
length-map f (x ∷ xs) = ap suc (length-map f xs)

All-keys {ℓ κ μ} :
    {A : Type ℓ} {B : Type κ} (f : A → B) (P : B → Type μ) (xs : List A)
    → All (λ x. P (f x)) xs
    → All P (map f xs)
All-keys f P [] h = tt
All-keys f P (x ∷ xs) h = (h.0, All-keys f P xs h.1)

clash :
    (a b c : Capability)
    → Configurable a
    → Configurable b
    → Configurable c
    → a ≢ b
    → a ≢ c
    → b ≢ c
    → ⊥
clash a b c (inl p) (inl q) r ab ac bc = ab (p ∙ sym q)
clash a b c (inr p) (inr q) r ab ac bc = ab (p ∙ sym q)
clash a b c (inl p) (inr q) (inl r) ab ac bc = ac (p ∙ sym r)
clash a b c (inl p) (inr q) (inr r) ab ac bc = bc (q ∙ sym r)
clash a b c (inr p) (inl q) (inl r) ab ac bc = bc (q ∙ sym r)
clash a b c (inr p) (inl q) (inr r) ab ac bc = ac (p ∙ sym r)

two_kinds : (cs : List Capability) → All Configurable cs → Distinct cs → length cs ≤ 2
two_kinds [] h d = omega arith
two_kinds (a ∷ []) h d = omega arith
two_kinds (a ∷ (b ∷ [])) h d = omega arith
two_kinds (a ∷ (b ∷ (c ∷ cs))) (p, (q, (r, rest))) ((ab, (ac, others)), ((bc, more), d)) =
    absurd (clash a b c p q r ab ac bc)

configurable_known :
    (c : Capability) → Configurable c → (known_capability c ≡ true) × (c ≢ Capability.unspecified)
unfolding known_capability
configurable_known c (inl p) = rw p (refl, λ e. cc)
configurable_known c (inr p) = rw p (refl, λ e. cc)

module _ (s : Settings) (ok : SettingsOk s) (entries : Distinct (route_keys s.routes))
    (hello : GatewayOutHello) where
  abbrev shared : Routes
  shared = shared_routes s hello

  shared_policies : All (PolicyOk s.limits s.capabilities) shared
  unfolding shared_routes
  shared_policies = All-keep _ (is_shared hello (shared_capabilities s hello)) s.routes ok.policies

  capabilities_ok : CapabilitiesOk (sort_by capability_number (shared_capabilities s hello))
  unfolding shared_capabilities
  capabilities_ok =
      let both_ways = keep (contains Capability-discrete hello.capabilities) s.capabilities in
      let kinds = two_kinds s.capabilities ok.configurable ok.distinct in
      let kept = length-keep (contains Capability-discrete hello.capabilities) s.capabilities in
      let sorted = length-sort_by capability_number both_ways in
      (
        omega arith,
        (
          All-sort_by capability_number _ both_ways (
              All-keep _ (contains Capability-discrete hello.capabilities) s.capabilities
                (All-map _ _ s.capabilities configurable_known ok.configurable)),
          Distinct-sort_by capability_number both_ways (
              Distinct-keep (contains Capability-discrete hello.capabilities) s.capabilities
                ok.distinct),
        ),
      )

  shared_classes : All Carried (classes_of shared)
  shared_classes = classes_of-All Carried shared (
      All-map _ _ shared (λ e p. Carried-class e.1.traffic_class e.0 p.class_is p.classified)
        shared_policies)

  classes_ok : 0 < length shared → ClassesOk (sort_by traffic_class_number (classes_of shared))
  classes_ok some_route =
      let some_class = classes_of_nonempty shared some_route in
      let three_classes =
        at_most_three (classes_of shared) shared_classes (classes_of-Distinct shared) in
      let sorted = length-sort_by traffic_class_number (classes_of shared) in
      (
        (omega arith, omega arith),
        (
          All-sort_by traffic_class_number _ (classes_of shared) shared_classes,
          Distinct-sort_by traffic_class_number (classes_of shared) (classes_of-Distinct shared),
        ),
      )

  shared_entries : Distinct (route_keys shared)
  unfolding shared_routes
  shared_entries =
      Distinct-keys-keep (λ e. e.0) (is_shared hello (shared_capabilities s hello)) s.routes entries

  shared_count : length (route_keys shared) ≤ max_advertised_routes
  unfolding shared_routes
  shared_count =
      let most = ok.routes in
      omega (
        arith,
        length-map (λ (e : RouteId × RoutePolicy). e.0) shared,
        length-keep (is_shared hello (shared_capabilities s hello)) s.routes,
      )

  routes_ok : 0 < length shared → RoutesOk (sort_by route_number (route_keys shared))
  routes_ok some_route =
      let sorted = length-sort_by route_number (route_keys shared) in
      let keys = length-map (λ (e : RouteId × RoutePolicy). e.0) shared in
      let count = shared_count in
      (
        (omega arith, omega arith),
        (
          All-sort_by route_number _ (route_keys shared) (
              All-keys (λ (e : RouteId × RoutePolicy). e.0) _ shared
                (All-map _ _ shared (λ e p. known_id e.0 p.classified) shared_policies)),
          Distinct-sort_by route_number (route_keys shared) shared_entries,
        ),
      )

  limits_ok :
      Present InBounds hello.limits
      → InBounds (minimum_limits s.limits (limits_or_zero hello.limits))
  unfolding limits_or_zero
  limits_ok h = elim (Option-cases hello.limits) [
    | inl e ↦ absurd (subst (Present InBounds) e h)
    | inr (l, e) ↦
        rw e (minimum_limits-InBounds s.limits l ok.limits (subst (Present InBounds) e h))
  ]

-- The lists and limits of a Hello that announces a negotiation.
abbrev Announced : Negotiation → Type 0
Announced n =
    Advertises (sort_by capability_number n.capabilities) (sort_by traffic_class_number n.classes)
      (sort_by route_number n.routes) (some n.limits)

-- A negotiated tunnel is announced in a Hello that the peer accepts. For settings that `newSettings`
-- may return, one policy to a route, and a Hello of the peer that passes validation: if the two
-- negotiate, the answer to any 16-byte tunnel id, being a message without unknown fields, passes the
-- validation of frames from gateway-in.
pub negotiated_hello_accepted :
    (rt : ProtoRuntime) (s : Settings) (hello : GatewayOutHello) (n : Negotiation)
    (tunnel_id : Bytes)
    → SettingsOk s
    → Distinct (route_keys s.routes)
    → length s.instance_id ≡ id_bytes
    → length tunnel_id ≡ id_bytes
    → validate_gateway_out_hello (some hello) ≡ none
    → negotiate s hello ≡ some n
    → Clean (rt.reflect_response (hello_of n tunnel_id s.instance_id))
    → validate_gateway_in_frame rt (some (hello_of n tunnel_id s.instance_id)) ≡ none
unfolding hello_of hello_response limits_or_zero
negotiated_hello_accepted rt s hello n tunnel_id ok entries own tunnel h e clean =
    let (some_route, same) = negotiate-parts s hello n e in
    let (instance_is, (versions, (caps, (classes, (routes, limits))))) =
      (validate_gateway_out_hello-none (some hello)).0 h in
    (validate_gateway_in_frame-none rt (hello_of n tunnel_id s.instance_id)).1 (
      clean,
      (
        record {
          version_is = refl;
          tunnel_id_is = tunnel;
          no_request = refl;
          no_sequence = refl;
          class_is = refl;
        },
        (
          own,
          (
            refl,
            subst Announced (sym same) (
              capabilities_ok s ok entries hello,
              (
                classes_ok s ok entries hello some_route,
                (routes_ok s ok entries hello some_route, limits_ok s ok entries hello limits),
              ),
            ),
          ),
        ),
      ),
    )
