-- ===== src/GatewayIn/Handshake.antt =====
-- backend/services/gateway-in/internal/tunnel/server.go: the negotiation of a tunnel, and the steps
-- of `Connect` up to the session. The stream, the peer's certificate and the random id enter as what
-- they give.
pub mod Classes
pub mod Negotiated
use marketmesh.Prelude.{
  ℕ, zero, suc, ◌+◌, ◌-◌, ◌*◌, ◌/◌, ◌%◌, ◌^◌, ◌≤◌, ◌<◌, min, String, ◌≡◌, refl, sym, ap, ◌∙◌, ◌≢◌,
  ◌↔◌, ◌⊎◌, inl, inr, ite, Bool, true, false, not, ◌&&◌, ◌||◌, Option, some, none, List, [], ◌∷◌,
  ◌++◌, map, arith, ℕ_discrete, ltb, leb, ◌==◌, if◌then◌else◌, ==_iff, ite_iff, if_rule, unless_iff,
  or_false, not-false, not-eq-true, and_true, Bool-cases, at_most, within, equals, positive, both,
  negated, excluded, Option-cases, List-cases, length, get_or, take, drop, All, Distinct,
  length-append, length-take, length-drop, take-append-drop, contains, All-map, All-zip,
  contains_iff, take-append, drop-append, drop-field, take-all, drop_past, get_or_past, get_or_at,
  keep, length-keep, All-keep, All-kept, Distinct-keep, insert_by, sort_by, length-sort_by,
  All-sort_by, Distinct-sort_by, All-keys-keep, Distinct-keys-keep, ◌>>◌, reject_if, >>-eq-none,
  reject_if-eq-none, seq_accepts, reject_accepts,
}
use marketmesh.Protocol.Enums.{
  TrafficClass, TrafficClass-discrete, Capability, Capability-discrete, RouteId, RouteId-discrete,
}
use marketmesh.Protocol.Messages.{
  Bytes, Limits, GatewayOutHello, OutPayload, ConnectRequest, ConnectResponse,
}
use marketmesh.Protocol.Payloads.{ProtoRuntime}
use marketmesh.Protocol.Validate.{validate_gateway_out_frame}
use marketmesh.GatewayIn.Errors.{TunnelError, protocol_violation, route_not_allowed}
use marketmesh.GatewayIn.Request.{RoutePolicy}
use marketmesh.GatewayIn.Config.{
  Settings, Routes, classes_of, route_keys, is_realtime, hello_response,
}

pub record Negotiation : Type 0 where
  pub limits : Limits
  pub routes : List RouteId
  pub classes : List TrafficClass
  pub capabilities : List Capability

unfoldable pub minimum_limits : Limits → Limits → Limits
minimum_limits own peer = record {
  max_frame_bytes = min own.max_frame_bytes peer.max_frame_bytes;
  max_data_bytes = min own.max_data_bytes peer.max_data_bytes;
  max_message_bytes = min own.max_message_bytes peer.max_message_bytes;
  max_in_flight_requests = min own.max_in_flight_requests peer.max_in_flight_requests;
  max_metadata_entries = min own.max_metadata_entries peer.max_metadata_entries;
  max_metadata_value_bytes = min own.max_metadata_value_bytes peer.max_metadata_value_bytes;
  max_credit_bytes = min own.max_credit_bytes peer.max_credit_bytes;
}

-- The getters of limits that may be nil.
unfoldable pub limits_or_zero : Option Limits → Limits
limits_or_zero (some l) = l
limits_or_zero none = record {
  max_frame_bytes = 0;
  max_data_bytes = 0;
  max_message_bytes = 0;
  max_in_flight_requests = 0;
  max_metadata_entries = 0;
  max_metadata_value_bytes = 0;
  max_credit_bytes = 0;
}

unfoldable pub shared_capabilities : Settings → GatewayOutHello → List Capability
unfolding keep contains Capability-discrete
shared_capabilities settings hello =
    keep (contains Capability-discrete hello.capabilities) settings.capabilities

-- The body of the loop over the configured routes: whether a route is negotiated.
unfoldable pub is_shared : GatewayOutHello → List Capability → RouteId × RoutePolicy → Bool
unfolding contains RouteId-discrete TrafficClass-discrete Capability-discrete is_realtime
is_shared hello capabilities (route, policy) =
    contains RouteId-discrete hello.route_ids route
    && (contains TrafficClass-discrete hello.traffic_classes policy.traffic_class
        && not (
            is_realtime policy.traffic_class
            && not (contains Capability-discrete capabilities Capability.realtime)))

unfoldable pub shared_routes : Settings → GatewayOutHello → Routes
unfolding keep is_shared shared_capabilities
shared_routes settings hello =
    keep (is_shared hello (shared_capabilities settings hello)) settings.routes

-- `none` is ErrRouteNotAllowed.
unfoldable pub negotiate : Settings → GatewayOutHello → Option Negotiation
unfolding shared_routes shared_capabilities classes_of minimum_limits limits_or_zero
negotiate settings hello =
    let routes = shared_routes settings hello in
    if length routes == 0 || length (classes_of routes) == 0
    then none
    else some (record {
      limits = minimum_limits settings.limits (limits_or_zero hello.limits);
      routes = route_keys routes;
      classes = classes_of routes;
      capabilities = shared_capabilities settings hello;
    })

-- `negotiation.hello`.
unfoldable pub hello_of : Negotiation → Bytes → Bytes → ConnectResponse
unfolding hello_response
hello_of n tunnel_id instance_id =
    hello_response tunnel_id instance_id n.capabilities n.classes n.routes n.limits

-- The codes that `Connect` ends with before a session runs.
pub data ConnectError : Type 0 where
  permission_denied resource_exhausted invalid_argument internal : ConnectError

pub data Opened : Type 0 where
  opened : Negotiation → ConnectResponse → Opened
  rejected : ConnectError → Opened

unfoldable pub hello_in : Option OutPayload → Option GatewayOutHello
hello_in (some (OutPayload.hello h)) = h
hello_in _ = none

-- `Connect` from the first frame to the Hello that it sends back; `size` is `proto.Size` of the
-- frame and `random_id` the id that `randomOpaqueID` gives, `none` where it fails.
unfoldable pub open_tunnel : ProtoRuntime → Settings → ℕ → Option Bytes → ConnectRequest → Opened
unfolding hello_in hello_of
open_tunnel rt settings size random_id frame =
    if ltb settings.limits.max_frame_bytes size
    then rejected resource_exhausted
    else elim (validate_gateway_out_frame rt (some frame)) [
      | some e ↦ rejected invalid_argument
      | none ↦ elim (hello_in frame.payload) [
        | none ↦ rejected invalid_argument
        | some hello ↦ elim (negotiate settings hello) [
          | none ↦ rejected permission_denied
          | some n ↦ elim random_id [
            | none ↦ rejected internal
            | some id ↦ opened n (hello_of n id settings.instance_id)
          ]
        ]
      ]
    ]
