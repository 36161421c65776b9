-- ===== src/Protocol/Hello/Spec.antt =====
-- What the Hello checks accept, stated without their loops and early returns.
use marketmesh.Prelude.{
  ℕ, ◌≤◌, ◌<◌, ◌≡◌, sym, ◌∙◌, ◌≢◌, ◌↔◌, Bool, true, false, not, Option, some, none, List, [], arith,
  ℕ_discrete, at_most, within, equals, length, All, Distinct, All-map, contains_iff, ◌>>◌,
  reject_if, >>-eq-none, reject_if-eq-none, seq_accepts, reject_accepts,
}
use mathlib.Core.List.{Mem}
use marketmesh.Protocol.Enums.{
  TrafficClass, TrafficClass-discrete, known_traffic_class, Capability, Capability-discrete,
  known_capability, RouteId, RouteId-discrete, known_route,
}
use marketmesh.Protocol.Errors.{Error}
use marketmesh.Protocol.Messages.{Limits, GatewayOutHello, GatewayInHello}
use marketmesh.Protocol.Bounds.{
  protocol_version, max_encoded_frame_bytes, max_data_bytes, max_message_bytes,
  max_in_flight_requests, max_metadata_entries, max_metadata_value_bytes, max_credit_bytes,
  id_bytes, max_supported_versions, max_capabilities, max_traffic_classes, max_advertised_routes,
}
use marketmesh.Protocol.Members.{members, versions_from}
use marketmesh.Protocol.Members.Spec.{members-none}
use marketmesh.Protocol.Members.Versions.{versions_from-none, versions_from-found}
use marketmesh.Protocol.Hello.{
  validate_supported_versions, bad_capability, validate_capabilities, bad_traffic_class,
  validate_traffic_classes, bad_route, validate_routes, validate_limits, validate_gateway_out_hello,
  validate_gateway_in_hello,
}

-- The v1 bounds that a peer's limits respect, and the order among them.
pub record InBounds (l : Limits) : Type 0 where
  pub frame : (0 < l.max_frame_bytes) × (l.max_frame_bytes ≤ max_encoded_frame_bytes)
  pub payload : (0 < l.max_data_bytes) × (l.max_data_bytes ≤ max_data_bytes)
  pub frame_holds_payload : l.max_data_bytes < l.max_frame_bytes
  pub message : (l.max_data_bytes ≤ l.max_message_bytes) × (l.max_message_bytes ≤ max_message_bytes)
  pub in_flight :
      (0 < l.max_in_flight_requests) × (l.max_in_flight_requests ≤ max_in_flight_requests)
  pub entries : (0 < l.max_metadata_entries) × (l.max_metadata_entries ≤ max_metadata_entries)
  pub value_bytes :
      (0 < l.max_metadata_value_bytes) × (l.max_metadata_value_bytes ≤ max_metadata_value_bytes)
  pub credit : (0 < l.max_credit_bytes) × (l.max_credit_bytes ≤ max_credit_bytes)

abbrev pub Present : {A : Type 0} → (A → Type 0) → Option A → Type 0
Present P none = ⊥
Present P (some a) = P a

-- Limits are accepted exactly when they are present and within the v1 bounds.
pub validate_limits-none :
    (limits : Option Limits) → (validate_limits limits ≡ none) ↔ Present InBounds limits
unfolding validate_limits
validate_limits-none none = (λ e. cc, λ e. absurd e)
validate_limits-none (some l) = (λ e. ground arith, λ e. ground arith)

abbrev pub VersionsOk : List ℕ → Type 0
VersionsOk vs =
    ((0 < length vs) × (length vs ≤ max_supported_versions))
    × (Distinct vs × Mem protocol_version vs)

scan_accepts :
    (duplicate e : Error) (vs : List ℕ)
    → (((versions_from duplicate [] false vs).0
          >> reject_if (not (versions_from duplicate [] false vs).1) e)
        ≡ none)
      ↔ (Distinct vs × Mem protocol_version vs)
scan_accepts duplicate e vs = (
  λ h.
      let (quiet, found) = (>>-eq-none scan.0 _).0 h in
      let d = (versions_from-none duplicate vs).0 quiet in
      (
        d,
        (contains_iff ℕ_discrete vs protocol_version).0 (
            sym (versions_from-found duplicate vs d) ∙ not_not _ ((reject_if-eq-none _ e).0 found)),
      ),
  λ h. (>>-eq-none scan.0 _).1 (
    (versions_from-none duplicate vs).1 h.0,
    (rw (
      versions_from-found duplicate vs h.0,
      (contains_iff ℕ_discrete vs protocol_version).1 h.1,
    )),
  ),
)
  where
    scan : Option Error × Bool
    scan = versions_from duplicate [] false vs

    not_not : (b : Bool) → not b ≡ false → b ≡ true
    not_not b p = ground arith

-- The offered versions are accepted exactly when there are one to eight, all different, and
-- version 1 is among them.
pub validate_supported_versions-none :
    (vs : List ℕ) → (validate_supported_versions vs ≡ none) ↔ VersionsOk vs
unfolding validate_supported_versions
validate_supported_versions-none vs =
    seq_accepts _ _ (reject_accepts _ _ (within (length vs) max_supported_versions))
      (scan_accepts _ _ vs)

-- Every value is a declared one other than `unspecified`, and none stands twice.
abbrev pub Recognised : {A : Type 0} → (A → Bool) → A → List A → Type 0
Recognised known unspecified xs = All (λ x. (known x ≡ true) × (x ≢ unspecified)) xs × Distinct xs

members_accepts :
    {A : Type 0} (dec : Discrete A) (is_bad known : A → Bool) (unspecified : A)
    (unknown duplicate : Error)
    → ((a : A) → (is_bad a ≡ false) ↔ ((known a ≡ true) × (a ≢ unspecified)))
    → (xs : List A)
    → (members dec is_bad unknown duplicate [] xs ≡ none) ↔ Recognised known unspecified xs
members_accepts dec is_bad known unspecified unknown duplicate split xs = (
  λ h.
      let (good, d) = (members-none dec is_bad unknown duplicate xs).0 h in
      (All-map _ _ xs (λ a. (split a).0) good, d),
  λ h.
      (members-none dec is_bad unknown duplicate xs).1 (All-map _ _ xs (λ a. (split a).1) h.0, h.1),
)

bad_capability_iff :
    (c : Capability)
    → (bad_capability c ≡ false) ↔ ((known_capability c ≡ true) × (c ≢ Capability.unspecified))
unfolding bad_capability
bad_capability_iff c = (λ h. ground arith, λ h. ground arith)

bad_traffic_class_iff :
    (c : TrafficClass)
    → (bad_traffic_class c ≡ false)
      ↔ ((known_traffic_class c ≡ true) × (c ≢ TrafficClass.unspecified))
unfolding bad_traffic_class
bad_traffic_class_iff c = (λ h. ground arith, λ h. ground arith)

pub bad_route_iff :
    (r : RouteId) → (bad_route r ≡ false) ↔ ((known_route r ≡ true) × (r ≢ RouteId.unspecified))
unfolding bad_route
bad_route_iff r = (λ h. ground arith, λ h. ground arith)

abbrev pub CapabilitiesOk : List Capability → Type 0
CapabilitiesOk cs =
    (length cs ≤ max_capabilities) × Recognised known_capability Capability.unspecified cs

pub validate_capabilities-none :
    (cs : List Capability) → (validate_capabilities cs ≡ none) ↔ CapabilitiesOk cs
unfolding validate_capabilities
validate_capabilities-none cs =
    seq_accepts _ _ (reject_accepts _ _ (at_most (length cs) max_capabilities)) (
      members_accepts Capability-discrete bad_capability known_capability Capability.unspecified _ _
        bad_capability_iff cs)

abbrev pub ClassesOk : List TrafficClass → Type 0
ClassesOk cs =
    ((0 < length cs) × (length cs ≤ max_traffic_classes))
    × Recognised known_traffic_class TrafficClass.unspecified cs

pub validate_traffic_classes-none :
    (cs : List TrafficClass) → (validate_traffic_classes cs ≡ none) ↔ ClassesOk cs
unfolding validate_traffic_classes
validate_traffic_classes-none cs =
    seq_accepts _ _ (reject_accepts _ _ (within (length cs) max_traffic_classes)) (
      members_accepts TrafficClass-discrete bad_traffic_class known_traffic_class
        TrafficClass.unspecified _ _ bad_traffic_class_iff cs)

abbrev pub RoutesOk : List RouteId → Type 0
RoutesOk rs =
    ((0 < length rs) × (length rs ≤ max_advertised_routes))
    × Recognised known_route RouteId.unspecified rs

pub validate_routes-none : (rs : List RouteId) → (validate_routes rs ≡ none) ↔ RoutesOk rs
unfolding validate_routes
validate_routes-none rs =
    seq_accepts _ _ (reject_accepts _ _ (within (length rs) max_advertised_routes)) (
      members_accepts RouteId-discrete bad_route known_route RouteId.unspecified _ _ bad_route_iff
        rs)

-- What a Hello of either side advertises, in order of its checks.
abbrev pub Advertises : List Capability → List TrafficClass → List RouteId → Option Limits → Type 0
Advertises capabilities classes routes limits =
    CapabilitiesOk capabilities × (ClassesOk classes × (RoutesOk routes × Present InBounds limits))

Advertises-accepts :
    (cs : List Capability) (ts : List TrafficClass) (rs : List RouteId) (limits : Option Limits)
    → ((do
      validate_capabilities cs
      validate_traffic_classes ts
      validate_routes rs
      validate_limits limits)
        ≡ none)
      ↔ Advertises cs ts rs limits
Advertises-accepts cs ts rs limits = seq_accepts _ _ (validate_capabilities-none cs) (
    seq_accepts _ _ (validate_traffic_classes-none ts)
      (seq_accepts _ _ (validate_routes-none rs) (validate_limits-none limits)))

-- A gateway-out Hello is accepted exactly when it is present, names a 16-byte instance, offers
-- version 1 in a list of one to eight distinct versions, and advertises at most three capabilities
-- and one to three classes and one to 64 routes, all of them declared and distinct, with limits
-- within the v1 bounds.
pub validate_gateway_out_hello-none :
    (hello : Option GatewayOutHello)
    → (validate_gateway_out_hello hello ≡ none)
      ↔ Present
          (λ h.
            (length h.instance_id ≡ id_bytes)
            × (VersionsOk h.supported_protocol_versions
                × Advertises h.capabilities h.traffic_classes h.route_ids h.limits))
          hello
unfolding validate_gateway_out_hello
validate_gateway_out_hello-none none = (λ e. cc, λ e. absurd e)
validate_gateway_out_hello-none (some h) =
    seq_accepts _ _ (reject_accepts _ _ (equals (length h.instance_id) id_bytes)) (
      seq_accepts _ _ (validate_supported_versions-none h.supported_protocol_versions)
        (Advertises-accepts h.capabilities h.traffic_classes h.route_ids h.limits))

-- A gateway-in Hello is accepted exactly when it is present, names a 16-byte instance, selects
-- version 1, and advertises what a gateway-out Hello may.
pub validate_gateway_in_hello-none :
    (hello : Option GatewayInHello)
    → (validate_gateway_in_hello hello ≡ none)
      ↔ Present
          (λ h.
            (length h.instance_id ≡ id_bytes)
            × ((h.selected_protocol_version ≡ protocol_version)
                × Advertises h.capabilities h.traffic_classes h.route_ids h.limits))
          hello
unfolding validate_gateway_in_hello
validate_gateway_in_hello-none none = (λ e. cc, λ e. absurd e)
validate_gateway_in_hello-none (some h) =
    seq_accepts _ _ (reject_accepts _ _ (equals (length h.instance_id) id_bytes)) (
      seq_accepts _ _ (reject_accepts _ _ (equals h.selected_protocol_version protocol_version))
        (Advertises-accepts h.capabilities h.traffic_classes h.route_ids h.limits))
