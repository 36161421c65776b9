-- ===== src/GatewayIn/Config/Accepted.antt =====
-- What settings that `newSettings` returns satisfy.
use marketmesh.Prelude.{
  ℕ, ◌+◌, ◌-◌, ◌^◌, ◌≤◌, ◌<◌, ◌≡◌, refl, sym, ap, ◌∙◌, ◌≢◌, ◌↔◌, ◌⊎◌, inl, inr, Bool, true, false,
  not, ◌&&◌, Option, some, none, List, [], ◌∷◌, arith, at_most, within, positive, both, negated,
  excluded, Option-cases, length, All, Distinct, contains, All-map, reject_if, >>-eq-none,
  reject_if-eq-none, seq_accepts, reject_accepts,
}
use mathlib.Core.Path.{subst}
use marketmesh.Protocol.Enums.{
  TrafficClass, TrafficClass-discrete, Capability, Capability-discrete, RouteId,
}
use marketmesh.Protocol.Messages.{Bytes, Limits}
use marketmesh.Protocol.Bounds.{max_advertised_routes, max_in_flight_requests}
use marketmesh.Protocol.Errors.{Error}
use marketmesh.Protocol.Headers.{is_class}
use marketmesh.Protocol.Payloads.{ProtoRuntime, ℤ, pos, negsuc}
use marketmesh.Protocol.Validate.Spec.{validate_gateway_in_frame-none}
use marketmesh.Protocol.Payloads.Spec.{is_class_iff}
use marketmesh.Protocol.Hello.Spec.{InBounds}
use marketmesh.Protocol.Members.Spec.{Unseen, Unseen-cons}
use marketmesh.GatewayIn.Routes.{route_traffic_class}
use marketmesh.GatewayIn.Request.{RoutePolicy}
use marketmesh.GatewayIn.Config.{
  Routes, ConfigError, Config, Settings, seconds, value_of, outside, effective_warmup, is_realtime,
  capability_refused, validate_capabilities, validate_route_policy, validate_routes_from,
  validate_route_policies, classes_of, route_keys, hello_response, zero_id, as_local,
  validate_local_hello, validate_numbers, validate_config, settings, settings_of, new_settings,
}

pub record PolicyOk (limits : Limits) (capabilities : List Capability) (e : RouteId × RoutePolicy)
    : Type 0 where
  pub class_is : e.1.traffic_class ≡ route_traffic_class e.0
  pub classified : route_traffic_class e.0 ≢ TrafficClass.unspecified
  pub request_bytes :
      (0 < e.1.max_request_bytes) × (e.1.max_request_bytes ≤ limits.max_message_bytes)
  pub response_bytes :
      (0 < e.1.max_response_bytes) × (e.1.max_response_bytes ≤ limits.max_message_bytes)
  pub deadline : 0 < e.1.max_deadline
  pub in_flight : (0 < e.1.max_in_flight) × (e.1.max_in_flight ≤ limits.max_in_flight_requests)
  pub realtime :
      route_traffic_class e.0 ≡ TrafficClass.realtime
      → contains Capability-discrete capabilities Capability.realtime ≡ true

-- A capability that gateway-in may be configured with.
abbrev pub Configurable : Capability → Type 0
Configurable c = (c ≡ Capability.drain) ⊎ (c ≡ Capability.realtime)

pub record SettingsOk (s : Settings) : Type 0 where
  pub limits : InBounds s.limits
  pub policies : All (PolicyOk s.limits s.capabilities) s.routes
  pub routes : (0 < length s.routes) × (length s.routes ≤ max_advertised_routes)
  pub configurable : All Configurable s.capabilities
  pub distinct : Distinct s.capabilities
  pub tunnels : (0 < s.max_tunnels) × (s.max_tunnels ≤ max_in_flight_requests)
  pub per_instance : (0 < s.max_tunnels_per_instance) × (s.max_tunnels_per_instance ≤ s.max_tunnels)
  pub in_flight :
      (0 < s.max_in_flight_per_instance) × (s.max_in_flight_per_instance ≤ max_in_flight_requests)
  pub credit :
      (0 < s.initial_response_credit) × (s.initial_response_credit ≤ s.limits.max_credit_bytes)
  pub pings : (0 < s.pong_timeout) × (s.pong_timeout < s.ping_interval)
  pub stale : (s.ping_interval < s.stale_after) × (s.stale_after ≤ seconds 300)
  pub warmup : (0 < s.failback_warmup) × (s.failback_warmup ≤ seconds 600)

not_class : (a b : TrafficClass) → (is_class a b ≡ false) ↔ (a ≢ b)
unfolding is_class
not_class a b = excluded (TrafficClass-discrete a b)

enabled :
    (c : TrafficClass) (b : Bool)
    → ((is_realtime c && not b) ≡ false)
    → c ≡ TrafficClass.realtime
    → b ≡ true
unfolding is_realtime
enabled c true h e = refl
enabled c false h e = cc (sym h ∙ ap (λ x. is_realtime x && true) e)

policy-PolicyOk :
    (limits : Limits) (capabilities : List Capability) (r : RouteId) (p : RoutePolicy)
    → validate_route_policy limits capabilities r p ≡ none
    → PolicyOk limits capabilities (r, p)
unfolding validate_route_policy
policy-PolicyOk limits capabilities r p h =
    let parts =
      seq_accepts _ _
        (reject_accepts _ _ (not_class (route_traffic_class r) TrafficClass.unspecified))
        (seq_accepts _ _
          (reject_accepts _ _ (negated _ (is_class_iff p.traffic_class (route_traffic_class r))))
          (seq_accepts _ _
            (reject_accepts _ _ (within p.max_request_bytes limits.max_message_bytes))
            (seq_accepts _ _
              (reject_accepts _ _ (within p.max_response_bytes limits.max_message_bytes))
              (seq_accepts _ _ (reject_accepts _ _ (positive p.max_deadline)) (
                seq_accepts _ _
                  (reject_accepts _ _ (within p.max_in_flight limits.max_in_flight_requests))
                  (reject_if-eq-none _ _)))))) in
    let (classified, (class_is, (request, (response, (deadline, (in_flight, realtime)))))) =
      parts.0 h in
    record {
      class_is = class_is;
      classified = classified;
      request_bytes = request;
      response_bytes = response;
      deadline = deadline;
      in_flight = in_flight;
      realtime = enabled _ _ realtime;
    }

policies-PolicyOk :
    (limits : Limits) (capabilities : List Capability) (rs : Routes)
    → validate_routes_from limits capabilities rs ≡ none
    → All (PolicyOk limits capabilities) rs
unfolding validate_routes_from
policies-PolicyOk limits capabilities [] h = tt
policies-PolicyOk limits capabilities ((r, p) ∷ rs) h =
    let (a, b) = (>>-eq-none (validate_route_policy limits capabilities r p) _).0 h in
    (policy-PolicyOk limits capabilities r p a, policies-PolicyOk limits capabilities rs b)

routes_parts :
    (limits : Limits) (capabilities : List Capability) (rs : Routes)
    → validate_route_policies limits capabilities rs ≡ none
    → ((0 < length rs) × (length rs ≤ max_advertised_routes))
      × All (PolicyOk limits capabilities) rs
unfolding validate_route_policies
routes_parts limits capabilities rs h =
    let (a, b) =
      (seq_accepts _ _ (reject_accepts _ _ (within (length rs) max_advertised_routes))
          (λ x. x, λ x. x)).0
        h in
    (a, policies-PolicyOk limits capabilities rs b)

configured :
    (result cs : List Capability)
    → validate_capabilities result cs ≡ none
    → All Configurable cs × Distinct cs × All (Unseen Capability-discrete result) cs
unfolding validate_capabilities
configured result [] h = (tt, tt, tt)
configured result (c ∷ cs) h =
    let (a, rest) = (>>-eq-none (capability_refused c) _).0 h in
    let (b, more) = (>>-eq-none (reject_if (contains Capability-discrete result c) _) _).0 rest in
    let (good, apart, unseen) = configured (c ∷ result) cs more in
    let both_unseen = All-map _ _ cs (λ y. (Unseen-cons Capability-discrete c result y).0) unseen in
    (
      (allowed c a, good),
      (All-map _ _ cs (λ y p. p.0) both_unseen, apart),
      ((reject_if-eq-none _ _).0 b, All-map _ _ cs (λ y p. p.1) both_unseen),
    )
  where
    allowed : (c : Capability) → capability_refused c ≡ none → Configurable c
    allowed Capability.drain e = inl refl
    allowed Capability.realtime e = inr refl
    allowed Capability.session_revocation e = cc
    allowed Capability.unspecified e = cc
    allowed (Capability.unrecognized n) e = cc

local_limits :
    (rt : ProtoRuntime) (limits : Limits) (routes : Routes) (capabilities : List Capability)
    → validate_local_hello rt limits routes capabilities ≡ none
    → InBounds limits
unfolding validate_local_hello hello_response
local_limits rt limits routes capabilities h =
    let frame =
      hello_response zero_id zero_id capabilities (classes_of routes) (route_keys routes) limits in
    let ok = (validate_gateway_in_frame-none rt frame).0 (passed _ h) in ok.1.1.1.1.1.1.1
  where
    passed : (e : Option Error) → as_local e ≡ none → e ≡ none
    passed none k = refl
    passed (some e) k = cc

-- The settings that a configuration gives.
new_settings-parts :
    (rt : ProtoRuntime) (peer telemetry : Option ConfigError) (id : Bytes) (config : Config)
    (s : Settings)
    → new_settings rt peer telemetry id config ≡ settings s
    → (limits : Limits) × (validate_config rt peer telemetry config limits ≡ none)
      × (s ≡ settings_of id config limits)
unfolding new_settings
new_settings-parts rt peer telemetry id config s h = elim (Option-cases config.limits) [
  | inl e ↦ absurd (ground arith)
  | inr (limits, e) ↦ elim (Option-cases (validate_config rt peer telemetry config limits)) [
    | inl f ↦ (limits, f, ground arith)
    | inr (bad, f) ↦ absurd (ground arith)
  ]
]

outside_iff :
    (z : ℤ) (most : ℕ) → (outside z most ≡ false) ↔ ((0 < value_of z) × (value_of z ≤ most))
unfolding outside value_of
outside_iff (pos n) most = within n most
outside_iff (negsuc n) most = (λ h. cc, λ h. absurd (omega (arith, h.0)))

module _ (config : Config) (limits : Limits) where
  -- What the checks of the numbers let through.
  abbrev Numbers : Type 0
  Numbers =
      ((0 < value_of config.max_tunnels) × (value_of config.max_tunnels ≤ max_in_flight_requests))
      × (((0 < value_of config.max_tunnels_per_instance)
            × (value_of config.max_tunnels_per_instance ≤ value_of config.max_tunnels))
          × (((0 < value_of config.max_in_flight_per_instance)
                × (value_of config.max_in_flight_per_instance ≤ max_in_flight_requests))
              × (((0 < config.initial_response_credit)
                    × (config.initial_response_credit ≤ limits.max_credit_bytes))
                  × (((0 < value_of config.handshake_timeout)
                        × (value_of config.handshake_timeout ≤ seconds 30))
                      × ((((0 < value_of config.ping_interval)
                              × (value_of config.ping_interval ≤ 2 ^ 63))
                            × ((0 < value_of config.pong_timeout)
                                × (value_of config.pong_timeout
                                    ≤ value_of config.ping_interval - 1)))
                          × (value_of config.ping_interval + value_of config.pong_timeout
                              ≤ seconds 300))))))

  numbers : (validate_numbers config limits ≡ none) ↔ Numbers
  unfolding validate_numbers
  numbers =
      seq_accepts _ _ (reject_accepts _ _ (outside_iff config.max_tunnels max_in_flight_requests)) (
        seq_accepts _ _
          (reject_accepts _ _
            (outside_iff config.max_tunnels_per_instance (value_of config.max_tunnels)))
          (seq_accepts _ _
            (reject_accepts _ _
              (outside_iff config.max_in_flight_per_instance max_in_flight_requests))
            (seq_accepts _ _
              (reject_accepts _ _ (within config.initial_response_credit limits.max_credit_bytes))
              (seq_accepts _ _
                (reject_accepts _ _ (outside_iff config.handshake_timeout (seconds 30)))
                (seq_accepts _ _
                  (reject_accepts _ _ (
                    both _ _ (outside_iff config.ping_interval (2 ^ 63))
                      (outside_iff config.pong_timeout (value_of config.ping_interval - 1))))
                  (reject_accepts _ _ (
                    at_most (value_of config.ping_interval + value_of config.pong_timeout)
                      (seconds 300))))))))

-- Settings that `newSettings` returns, whatever the configuration is, are within the bounds of v1 and
-- consistent: limits that a Hello may advertise, at least one and at most 64 routes, each of a known
-- route in its class with sizes, deadline and in-flight bound within the limits and with the realtime
-- capability if its class asks for it, distinct capabilities of those that gateway-in has, tunnels and
-- calls in flight within 4096, a first credit within the limit, a pong timeout below the ping
-- interval, and stale and warmup times within five and ten minutes.
pub new_settings-SettingsOk :
    (rt : ProtoRuntime) (peer telemetry : Option ConfigError) (id : Bytes) (config : Config)
    (s : Settings)
    → new_settings rt peer telemetry id config ≡ settings s
    → SettingsOk s
unfolding validate_config
new_settings-SettingsOk rt peer telemetry id config s h =
    let (limits, checks, same) = new_settings-parts rt peer telemetry id config s h in
    let t = seq_accepts _ _ (numbers config limits) (
      seq_accepts _ _
        (reject_accepts _ _ (outside_iff (effective_warmup config.failback_warmup) (seconds 600)))
        (seq_accepts _ _ (λ x. x, λ x. x)
          (seq_accepts _ _ (λ x. x, λ x. x)
            (seq_accepts _ _ (λ x. x, λ x. x)
              (seq_accepts _ _ (λ x. x, λ x. x) (>>-eq-none _ _)))))) in
    let (nums, (warm, (queues, (peer_ok, (caps, (routes_ok, (hello, tel))))))) = t.0 checks in
    let (tunnels, (per_instance, (in_flight, (credit, (timeout, (pings, stale)))))) = nums in
    let (good, apart, unseen) = configured [] config.capabilities caps in
    let (count, each) = routes_parts limits config.capabilities config.routes routes_ok in
    subst SettingsOk (sym same) (record {
      limits = local_limits rt limits config.routes config.capabilities hello;
      policies = each;
      routes = count;
      configurable = good;
      distinct = apart;
      tunnels = tunnels;
      per_instance = per_instance;
      in_flight = in_flight;
      credit = credit;
      pings = omega arith;
      stale = omega arith;
      warmup = warm;
    })
