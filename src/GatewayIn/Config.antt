-- ===== src/GatewayIn/Config.antt =====
-- backend/services/gateway-in/internal/tunnel/config.go: `newSettings` and its checks. A map is the
-- list of its entries in the order of its iteration, with one entry for each key. Durations and
-- integers of the configuration are signed, and the texts of the errors stand in place of them.
pub mod Accepted
use marketmesh.Prelude.{
  ℕ, zero, suc, ◌+◌, ◌-◌, ◌*◌, ◌/◌, ◌%◌, ◌^◌, ◌≤◌, ◌<◌, min, String, ◌≡◌, refl, sym, ap, ◌∙◌, ◌≢◌,
  ◌↔◌, ◌⊎◌, inl, inr, ite, Bool, true, false, not, ◌&&◌, ◌||◌, Option, some, none, List, [], ◌∷◌,
  ◌++◌, map, arith, ℕ_discrete, ltb, leb, ◌==◌, if◌then◌else◌, ==_iff, ite_iff, if_rule, unless_iff,
  or_false, not-false, not-eq-true, and_true, Bool-cases, at_most, within, equals, positive, both,
  negated, excluded, Option-cases, List-cases, length, get_or, take, drop, All, Distinct,
  length-append, length-take, length-drop, take-append-drop, contains, All-map, All-zip,
  contains_iff, take-append, drop-append, drop-field, take-all, drop_past, get_or_past, get_or_at,
  keep, length-keep, All-keep, All-kept, Distinct-keep, insert_by, sort_by, length-sort_by,
  All-sort_by, Distinct-sort_by, All-keys-keep, Distinct-keys-keep, ◌>>◌, reject_if, >>-eq-none,
  reject_if-eq-none, seq_accepts, reject_accepts,
}
use mathlib.Core.Path.{subst}
use marketmesh.Protocol.Enums.{
  TrafficClass, TrafficClass-discrete, Capability, Capability-discrete, RouteId,
}
use marketmesh.Protocol.Numbers.{traffic_class_number, capability_number, route_number}
use marketmesh.Protocol.Errors.{Error}
use marketmesh.Protocol.Messages.{
  Bytes, FrameHeader, Limits, GatewayInHello, InPayload, ConnectResponse,
}
use marketmesh.Protocol.Bounds.{max_advertised_routes, max_in_flight_requests, protocol_version}
use marketmesh.Protocol.Payloads.{ProtoRuntime, ℤ, pos, negsuc}
use marketmesh.Protocol.Headers.{is_class}
use marketmesh.Protocol.Validate.{validate_gateway_in_frame}
use marketmesh.GatewayIn.Routes.{route_traffic_class}
use marketmesh.GatewayIn.Request.{RoutePolicy}
use marketmesh.GatewayIn.Scheduler.{QueueLimits}

abbrev pub Routes : Type 0
Routes = List (RouteId × RoutePolicy)

-- The errors of config.go, by what they refuse.
pub data ConfigError : Type 0 where
  nil_logger nil_limits max_tunnels_bounds tunnels_per_instance_bounds in_flight_bounds :
      ConfigError
  initial_credit_bounds handshake_timeout_bounds ping_pong_invalid stale_bounds warmup_bounds :
      ConfigError
  queue_depth_bounds peer_policy revocation_not_configured capability_unknown : ConfigError
  capability_duplicated route_count_bounds telemetry_failed random_failed : ConfigError
  route_unknown route_class route_request_bytes route_response_bytes : RouteId → ConfigError
  route_deadline route_in_flight route_realtime : RouteId → ConfigError
  local_hello : Error → ConfigError

pub record Config : Type 0 where
  pub has_logger : Bool
  pub limits : Option Limits
  pub routes : Routes
  pub capabilities : List Capability
  pub queues : QueueLimits
  pub max_tunnels : ℤ
  pub max_tunnels_per_instance : ℤ
  pub max_in_flight_per_instance : ℤ
  pub initial_response_credit : ℕ
  pub handshake_timeout : ℤ
  pub ping_interval : ℤ
  pub pong_timeout : ℤ
  pub failback_warmup : ℤ

pub record Settings : Type 0 where
  pub instance_id : Bytes
  pub limits : Limits
  pub routes : Routes
  pub capabilities : List Capability
  pub queues : QueueLimits
  pub max_tunnels : ℕ
  pub max_tunnels_per_instance : ℕ
  pub max_in_flight_per_instance : ℕ
  pub initial_response_credit : ℕ
  pub handshake_timeout : ℕ
  pub ping_interval : ℕ
  pub pong_timeout : ℕ
  pub failback_warmup : ℕ
  pub stale_after : ℕ

abbrev pub seconds : ℕ → ℕ
seconds n = n * 1000000000

-- `value <= 0 || value > most`.
unfoldable pub outside : ℤ → ℕ → Bool
outside (pos n) most = n == 0 || ltb most n
outside (negsuc n) most = true

-- The number of a value that is not negative.
unfoldable pub value_of : ℤ → ℕ
value_of (pos n) = n
value_of (negsuc n) = 0

unfoldable pub bad_depth : ℕ → Bool
bad_depth value = ltb value 2 || ltb max_in_flight_requests value

-- The loop over the four depths; a negative depth is below 2 as 0 is.
unfoldable pub validate_queue_limits : QueueLimits → Option ConfigError
unfolding bad_depth
validate_queue_limits queues = do
  reject_if (bad_depth queues.tunnel_control) queue_depth_bounds
  reject_if (bad_depth queues.control_auth) queue_depth_bounds
  reject_if (bad_depth queues.regular) queue_depth_bounds
  reject_if (bad_depth queues.realtime) queue_depth_bounds

unfoldable pub capability_refused : Capability → Option ConfigError
capability_refused Capability.drain = none
capability_refused Capability.realtime = none
capability_refused Capability.session_revocation = some revocation_not_configured
capability_refused _ = some capability_unknown

-- The loop of `validateCapabilities`, with the set so far.
unfoldable pub validate_capabilities : List Capability → List Capability → Option ConfigError
unfolding capability_refused contains Capability-discrete
validate_capabilities result [] = none
validate_capabilities result (c ∷ cs) = do
  capability_refused c
  reject_if (contains Capability-discrete result c) capability_duplicated
  validate_capabilities (c ∷ result) cs

unfoldable pub is_realtime : TrafficClass → Bool
is_realtime TrafficClass.realtime = true
is_realtime _ = false

-- The body of the loop of `validateRoutePolicies`. Sizes of a policy are numbers here, since a
-- negative one is refused as 0 is.
unfoldable pub validate_route_policy :
    Limits → List Capability → RouteId → RoutePolicy → Option ConfigError
unfolding route_traffic_class is_class is_realtime contains Capability-discrete
validate_route_policy limits capabilities route policy = do
  reject_if (is_class (route_traffic_class route) TrafficClass.unspecified) (route_unknown route)
  reject_if (not (is_class policy.traffic_class (route_traffic_class route))) (route_class route)
  reject_if (policy.max_request_bytes == 0 || ltb limits.max_message_bytes policy.max_request_bytes)
      (route_request_bytes route)
  reject_if
      (policy.max_response_bytes == 0 || ltb limits.max_message_bytes policy.max_response_bytes)
      (route_response_bytes route)
  reject_if (policy.max_deadline == 0) (route_deadline route)
  reject_if (policy.max_in_flight == 0 || ltb limits.max_in_flight_requests policy.max_in_flight)
      (route_in_flight route)
  reject_if
      (is_realtime (route_traffic_class route)
        && not (contains Capability-discrete capabilities Capability.realtime))
      (route_realtime route)

unfoldable pub validate_routes_from : Limits → List Capability → Routes → Option ConfigError
unfolding validate_route_policy
validate_routes_from limits capabilities [] = none
validate_routes_from limits capabilities ((route, policy) ∷ routes) =
    validate_route_policy limits capabilities route policy
    >> validate_routes_from limits capabilities routes

unfoldable pub validate_route_policies : Limits → List Capability → Routes → Option ConfigError
unfolding validate_routes_from
validate_route_policies limits capabilities routes =
    reject_if (length routes == 0 || ltb max_advertised_routes (length routes)) route_count_bounds
    >> validate_routes_from limits capabilities routes

abbrev pub route_keys : Routes → List RouteId
route_keys routes = map (λ (e : RouteId × RoutePolicy). e.0) routes

-- The set of the classes of the policies.
unfoldable pub classes_of : Routes → List TrafficClass
unfolding contains TrafficClass-discrete
classes_of [] = []
classes_of ((route, policy) ∷ routes) =
    let rest = classes_of routes in
    if contains TrafficClass-discrete rest policy.traffic_class
    then rest
    else policy.traffic_class ∷ rest

-- A Hello of gateway-in with sorted slices of the sets, as `validateLocalHello` and
-- `negotiation.hello` build it.
unfoldable pub hello_response :
    Bytes → Bytes → List Capability → List TrafficClass → List RouteId → Limits → ConnectResponse
unfolding sort_by
hello_response tunnel_id instance_id capabilities classes routes limits = record {
  header = some (record {
    protocol_version = 0;
    tunnel_id = tunnel_id;
    request_id = [];
    sequence = 0;
    traffic_class = TrafficClass.unspecified;
  });
  payload = some (
      InPayload.hello (
        some (record {
          selected_protocol_version = protocol_version;
          capabilities = sort_by capability_number capabilities;
          traffic_classes = sort_by traffic_class_number classes;
          route_ids = sort_by route_number routes;
          limits = some limits;
          instance_id = instance_id;
        })));
}

abbrev pub zero_id : Bytes
zero_id = 0 ∷ 0 ∷ 0 ∷ 0 ∷ 0 ∷ 0 ∷ 0 ∷ 0 ∷ 0 ∷ 0 ∷ 0 ∷ 0 ∷ 0 ∷ 0 ∷ 0 ∷ 0 ∷ []

unfoldable pub as_local : Option Error → Option ConfigError
as_local none = none
as_local (some e) = some (local_hello e)

unfoldable pub validate_local_hello :
    ProtoRuntime → Limits → Routes → List Capability → Option ConfigError
unfolding hello_response classes_of as_local
validate_local_hello rt limits routes capabilities = as_local (
    validate_gateway_in_frame rt (
      some (
        hello_response zero_id zero_id capabilities (classes_of routes) (route_keys routes)
          limits)))

-- The checks of `newSettings` before the limits are copied.
unfoldable pub validate_numbers : Config → Limits → Option ConfigError
unfolding outside value_of
validate_numbers config limits = do
  reject_if (outside config.max_tunnels max_in_flight_requests) max_tunnels_bounds
  reject_if (outside config.max_tunnels_per_instance (value_of config.max_tunnels))
      tunnels_per_instance_bounds
  reject_if (outside config.max_in_flight_per_instance max_in_flight_requests) in_flight_bounds
  reject_if
      (config.initial_response_credit == 0
        || ltb limits.max_credit_bytes config.initial_response_credit)
      initial_credit_bounds
  reject_if (outside config.handshake_timeout (seconds 30)) handshake_timeout_bounds
  reject_if
      (outside config.ping_interval (2 ^ 63)
        || outside config.pong_timeout (value_of config.ping_interval - 1))
      ping_pong_invalid
  reject_if (ltb (seconds 300) (value_of config.ping_interval + value_of config.pong_timeout))
      stale_bounds

-- 0 stands for the default of 30 seconds.
unfoldable pub effective_warmup : ℤ → ℤ
effective_warmup (pos n) = if n == 0 then pos (seconds 30) else pos n
effective_warmup (negsuc n) = negsuc n

unfoldable pub validate_config :
    ProtoRuntime → Option ConfigError → Option ConfigError → Config → Limits → Option ConfigError
unfolding validate_numbers outside effective_warmup
validate_config rt peer telemetry config limits = do
  validate_numbers config limits
  reject_if (outside (effective_warmup config.failback_warmup) (seconds 600)) warmup_bounds
  validate_queue_limits config.queues
  peer
  validate_capabilities [] config.capabilities
  validate_route_policies limits config.capabilities config.routes
  validate_local_hello rt limits config.routes config.capabilities
  telemetry

pub data NewSettings : Type 0 where
  settings : Settings → NewSettings
  refused : ConfigError → NewSettings

abbrev pub settings_of : Bytes → Config → Limits → Settings
settings_of instance_id config limits = record {
  instance_id = instance_id;
  limits = limits;
  routes = config.routes;
  capabilities = config.capabilities;
  queues = config.queues;
  max_tunnels = value_of config.max_tunnels;
  max_tunnels_per_instance = value_of config.max_tunnels_per_instance;
  max_in_flight_per_instance = value_of config.max_in_flight_per_instance;
  initial_response_credit = config.initial_response_credit;
  handshake_timeout = value_of config.handshake_timeout;
  ping_interval = value_of config.ping_interval;
  pong_timeout = value_of config.pong_timeout;
  failback_warmup = value_of (effective_warmup config.failback_warmup);
  stale_after = value_of config.ping_interval + value_of config.pong_timeout;
}

-- `peer` and `telemetry` are the errors of `newPeerAuthorizer` and `newInstrumentation`;
-- `instance_id` is the configured id, or the random one in place of zeros.
unfoldable pub new_settings :
    ProtoRuntime → Option ConfigError → Option ConfigError → Bytes → Config → NewSettings
unfolding validate_config value_of effective_warmup
new_settings rt peer telemetry instance_id config =
    if not config.has_logger then refused nil_logger else elim config.limits [
      | none ↦ refused nil_limits
      | some limits ↦ elim (validate_config rt peer telemetry config limits) [
        | some e ↦ refused e
        | none ↦ settings (settings_of instance_id config limits)
      ]
    ]
