-- ===== src/Protocol/Headers.antt =====
-- The header checks of backend/api/tunnel/v1/validate.go. A nil header is `none`.
pub mod Spec
use marketmesh.Prelude.{
  ℕ, Bool, true, false, not, ◌||◌, Option, some, none, ite, ◌==◌, length, ◌>>◌, reject_if,
}
use marketmesh.Protocol.Enums.{TrafficClass, TrafficClass-discrete, known_traffic_class}
use marketmesh.Protocol.Errors.{Error, invalid_frame, unsupported_version}
use marketmesh.Protocol.Messages.{FrameHeader}
use marketmesh.Protocol.Bounds.{protocol_version, id_bytes}

unfoldable pub is_class : TrafficClass → TrafficClass → Bool
unfolding TrafficClass-discrete
is_class a b = ite (TrafficClass-discrete a b) true false

unfoldable pub validate_hello_header : Option FrameHeader → Option Error
unfolding is_class
validate_hello_header none = some (invalid_frame "header" "is required")
validate_hello_header (some h) = do
  reject_if (not (h.protocol_version == 0)) (unsupported_version "header.protocol_version")
  reject_if (not (length h.request_id == 0))
      (invalid_frame "header.request_id" "must be empty for Hello")
  reject_if (not (h.sequence == 0)) (invalid_frame "header.sequence" "must be zero for Hello")
  reject_if (not (is_class h.traffic_class TrafficClass.unspecified))
      (invalid_frame "header.traffic_class" "must be unspecified for Hello")

-- `header.GetTunnelId()`: a nil header has no bytes.
unfoldable pub tunnel_id_length : Option FrameHeader → ℕ
tunnel_id_length none = 0
tunnel_id_length (some h) = length h.tunnel_id

unfoldable pub validate_gateway_out_hello_header : Option FrameHeader → Option Error
unfolding validate_hello_header tunnel_id_length
validate_gateway_out_hello_header header = do
  validate_hello_header header
  reject_if (not (tunnel_id_length header == 0))
      (invalid_frame "header.tunnel_id" "must be empty in gateway-out Hello")

unfoldable pub validate_gateway_in_hello_header : Option FrameHeader → Option Error
unfolding validate_hello_header tunnel_id_length
validate_gateway_in_hello_header header = do
  validate_hello_header header
  reject_if (not (tunnel_id_length header == id_bytes))
      (invalid_frame "header.tunnel_id" "must be 16 bytes in gateway-in Hello")

unfoldable pub validate_request_header : Option FrameHeader → Option Error
unfolding is_class known_traffic_class
validate_request_header none = some (invalid_frame "header" "is required")
validate_request_header (some h) = do
  reject_if (not (h.protocol_version == protocol_version))
      (unsupported_version "header.protocol_version")
  reject_if (not (length h.tunnel_id == id_bytes))
      (invalid_frame "header.tunnel_id" "must be 16 bytes")
  reject_if (not (length h.request_id == id_bytes))
      (invalid_frame "header.request_id" "must be 16 bytes")
  reject_if (h.sequence == 0) (invalid_frame "header.sequence" "must be positive")
  reject_if
      (not (known_traffic_class h.traffic_class)
        || is_class h.traffic_class TrafficClass.unspecified)
      (invalid_frame "header.traffic_class" "is unknown or unspecified")

unfoldable pub validate_tunnel_header : Option FrameHeader → Option Error
unfolding is_class
validate_tunnel_header none = some (invalid_frame "header" "is required")
validate_tunnel_header (some h) = do
  reject_if (not (h.protocol_version == protocol_version))
      (unsupported_version "header.protocol_version")
  reject_if (not (length h.tunnel_id == id_bytes))
      (invalid_frame "header.tunnel_id" "must be 16 bytes")
  reject_if (not (length h.request_id == 0))
      (invalid_frame "header.request_id" "must be empty for tunnel control")
  reject_if (not (h.sequence == 0))
      (invalid_frame "header.sequence" "must be zero for tunnel control")
  reject_if (not (is_class h.traffic_class TrafficClass.unspecified))
      (invalid_frame "header.traffic_class" "must be unspecified for tunnel control")

unfoldable pub validate_session_control_header : Option FrameHeader → Option Error
unfolding is_class
validate_session_control_header none = some (invalid_frame "header" "is required")
validate_session_control_header (some h) = do
  reject_if (not (h.protocol_version == protocol_version))
      (unsupported_version "header.protocol_version")
  reject_if (not (length h.tunnel_id == id_bytes))
      (invalid_frame "header.tunnel_id" "must be 16 bytes")
  reject_if (not (length h.request_id == 0))
      (invalid_frame "header.request_id" "must be empty for session control")
  reject_if (not (h.sequence == 0))
      (invalid_frame "header.sequence" "must be zero for session control")
  reject_if (not (is_class h.traffic_class TrafficClass.control_auth))
      (invalid_frame "header.traffic_class" "must be control/auth")
