-- ===== src/Protocol/Hello.antt =====
-- The Hello checks of backend/api/tunnel/v1/validate.go.
pub mod Spec
use marketmesh.Prelude.{
  ℕ, Bool, true, false, not, ◌||◌, List, [], Option, some, none, ite, ltb, leb, ◌==◌, length, ◌>>◌,
  reject_if,
}
use marketmesh.Protocol.Enums.{
  TrafficClass, TrafficClass-discrete, known_traffic_class, Capability, Capability-discrete,
  known_capability, RouteId, RouteId-discrete, known_route,
}
use marketmesh.Protocol.Errors.{Error, invalid_frame, unsupported_version}
use marketmesh.Protocol.Messages.{Limits, GatewayOutHello, GatewayInHello}
use marketmesh.Protocol.Bounds.{
  protocol_version, max_encoded_frame_bytes, max_data_bytes, max_message_bytes,
  max_in_flight_requests, max_metadata_entries, max_metadata_value_bytes, max_credit_bytes,
  id_bytes, max_supported_versions, max_capabilities, max_traffic_classes, max_advertised_routes,
}
use marketmesh.Protocol.Members.{members, versions_from}

unfoldable pub validate_supported_versions : List ℕ → Option Error
unfolding versions_from
validate_supported_versions versions = do
  reject_if (length versions == 0 || ltb max_supported_versions (length versions))
      (invalid_frame "hello.supported_protocol_versions" "has invalid length")
  let (failure, found) = versions_from duplicate [] false versions
  failure
  reject_if (not found) (unsupported_version "hello.supported_protocol_versions")
  where
    duplicate : Error
    duplicate = invalid_frame "hello.supported_protocol_versions" "contains a duplicate"

unfoldable pub bad_capability : Capability → Bool
unfolding known_capability Capability-discrete
bad_capability c =
    not (known_capability c) || ite (Capability-discrete c Capability.unspecified) true false

unfoldable pub validate_capabilities : List Capability → Option Error
unfolding members bad_capability Capability-discrete
validate_capabilities capabilities = do
  reject_if (ltb max_capabilities (length capabilities))
      (invalid_frame "hello.capabilities" "has invalid length")
  members Capability-discrete bad_capability
      (invalid_frame "hello.capabilities" "contains an unknown value")
      (invalid_frame "hello.capabilities" "contains a duplicate") [] capabilities

unfoldable pub bad_traffic_class : TrafficClass → Bool
unfolding known_traffic_class TrafficClass-discrete
bad_traffic_class c =
    not (known_traffic_class c) || ite (TrafficClass-discrete c TrafficClass.unspecified) true false

unfoldable pub validate_traffic_classes : List TrafficClass → Option Error
unfolding members bad_traffic_class TrafficClass-discrete
validate_traffic_classes classes = do
  reject_if (length classes == 0 || ltb max_traffic_classes (length classes))
      (invalid_frame "hello.traffic_classes" "has invalid length")
  members TrafficClass-discrete bad_traffic_class
      (invalid_frame "hello.traffic_classes" "contains an unknown value")
      (invalid_frame "hello.traffic_classes" "contains a duplicate") [] classes

unfoldable pub bad_route : RouteId → Bool
unfolding known_route RouteId-discrete
bad_route r = not (known_route r) || ite (RouteId-discrete r RouteId.unspecified) true false

unfoldable pub validate_routes : List RouteId → Option Error
unfolding members bad_route RouteId-discrete
validate_routes routes = do
  reject_if (length routes == 0 || ltb max_advertised_routes (length routes))
      (invalid_frame "hello.route_ids" "has invalid length")
  members RouteId-discrete bad_route (invalid_frame "hello.route_ids" "contains an unknown value")
      (invalid_frame "hello.route_ids" "contains a duplicate") [] routes

unfoldable pub validate_limits : Option Limits → Option Error
validate_limits none = some (invalid_frame "hello.limits" "is required")
validate_limits (some l) = do
  reject_if (l.max_frame_bytes == 0 || ltb max_encoded_frame_bytes l.max_frame_bytes)
      (invalid_frame "hello.limits.max_frame_bytes" "is outside v1 bounds")
  reject_if (l.max_data_bytes == 0 || ltb max_data_bytes l.max_data_bytes)
      (invalid_frame "hello.limits.max_data_bytes" "is outside v1 bounds")
  reject_if (leb l.max_frame_bytes l.max_data_bytes)
      (invalid_frame "hello.limits.max_frame_bytes" "must exceed max_data_bytes")
  reject_if (ltb l.max_message_bytes l.max_data_bytes || ltb max_message_bytes l.max_message_bytes)
      (invalid_frame "hello.limits.max_message_bytes" "is outside v1 bounds")
  reject_if (l.max_in_flight_requests == 0 || ltb max_in_flight_requests l.max_in_flight_requests)
      (invalid_frame "hello.limits.max_in_flight_requests" "is outside v1 bounds")
  reject_if (l.max_metadata_entries == 0 || ltb max_metadata_entries l.max_metadata_entries)
      (invalid_frame "hello.limits.max_metadata_entries" "is outside v1 bounds")
  reject_if
      (l.max_metadata_value_bytes == 0 || ltb max_metadata_value_bytes l.max_metadata_value_bytes)
      (invalid_frame "hello.limits.max_metadata_value_bytes" "is outside v1 bounds")
  reject_if (l.max_credit_bytes == 0 || ltb max_credit_bytes l.max_credit_bytes)
      (invalid_frame "hello.limits.max_credit_bytes" "is outside v1 bounds")

unfoldable pub validate_gateway_out_hello : Option GatewayOutHello → Option Error
validate_gateway_out_hello none = some (invalid_frame "hello" "is required")
validate_gateway_out_hello (some hello) = do
  reject_if (not (length hello.instance_id == id_bytes))
      (invalid_frame "hello.instance_id" "must be 16 bytes")
  validate_supported_versions hello.supported_protocol_versions
  validate_capabilities hello.capabilities
  validate_traffic_classes hello.traffic_classes
  validate_routes hello.route_ids
  validate_limits hello.limits

unfoldable pub validate_gateway_in_hello : Option GatewayInHello → Option Error
validate_gateway_in_hello none = some (invalid_frame "hello" "is required")
validate_gateway_in_hello (some hello) = do
  reject_if (not (length hello.instance_id == id_bytes))
      (invalid_frame "hello.instance_id" "must be 16 bytes")
  reject_if (not (hello.selected_protocol_version == protocol_version))
      (unsupported_version "hello.selected_protocol_version")
  validate_capabilities hello.capabilities
  validate_traffic_classes hello.traffic_classes
  validate_routes hello.route_ids
  validate_limits hello.limits
