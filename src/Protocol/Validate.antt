-- ===== src/Protocol/Validate.antt =====
-- `ValidateGatewayOutFrame` and `ValidateGatewayInFrame` of backend/api/tunnel/v1/validate.go. A
-- nil frame is `none`.
pub mod Spec
pub mod Safety
use marketmesh.Prelude.{
  ℕ, zero, suc, ◌+◌, ◌-◌, ◌*◌, ◌/◌, ◌%◌, ◌^◌, ◌≤◌, ◌<◌, min, String, ◌≡◌, refl, sym, ap, ◌∙◌, ◌≢◌,
  ◌↔◌, ◌⊎◌, inl, inr, ite, Bool, true, false, not, ◌&&◌, ◌||◌, Option, some, none, List, [], ◌∷◌,
  ◌++◌, map, arith, ℕ_discrete, ltb, leb, ◌==◌, if◌then◌else◌, ==_iff, Bool-cases, Option-cases,
  length, get_or, take, drop, All, Distinct, length-append, length-take, length-drop,
  take-append-drop, contains, All-map, All-zip, contains_iff, ◌>>◌, reject_if, >>-eq-none,
  reject_if-eq-none, seq_accepts, reject_accepts,
}
use marketmesh.Protocol.Enums.{TrafficClass}
use marketmesh.Protocol.Errors.{Error, name, invalid_frame, unknown_frame_type}
use marketmesh.Protocol.Messages.{
  FrameHeader, OutPayload, InPayload, ConnectRequest, ConnectResponse,
}
use marketmesh.Protocol.Headers.{
  validate_gateway_out_hello_header, validate_gateway_in_hello_header, validate_request_header,
  validate_tunnel_header, validate_session_control_header,
}
use marketmesh.Protocol.Hello.{validate_gateway_out_hello, validate_gateway_in_hello}
use marketmesh.Protocol.Payloads.{
  ProtoRuntime, validate_open, validate_data, validate_half_close, validate_cancel, validate_result,
  validate_credit, validate_ping, validate_pong, validate_drain, validate_revoke_session,
}
use marketmesh.Protocol.Reflect.{reject_unknown_fields}

-- The switch on the payload's type.
unfoldable pub validate_out_payload :
    ProtoRuntime → Option FrameHeader → Option OutPayload → Option Error
validate_out_payload rt header none = some unknown_frame_type
validate_out_payload rt header (some (OutPayload.hello h)) = do
  validate_gateway_out_hello_header header
  validate_gateway_out_hello h
validate_out_payload rt header (some (OutPayload.data_frame d)) = do
  validate_request_header header
  validate_data d
validate_out_payload rt header (some (OutPayload.half_close h)) = do
  validate_request_header header
  validate_half_close h
validate_out_payload rt header (some (OutPayload.cancel c)) = do
  validate_request_header header
  validate_cancel c
validate_out_payload rt header (some (OutPayload.result r)) = do
  validate_request_header header
  validate_result rt r
validate_out_payload rt header (some (OutPayload.credit c)) = do
  validate_request_header header
  validate_credit c
validate_out_payload rt header (some (OutPayload.ping p)) = do
  validate_tunnel_header header
  validate_ping p
validate_out_payload rt header (some (OutPayload.pong p)) = do
  validate_tunnel_header header
  validate_pong p
validate_out_payload rt header (some (OutPayload.drain d)) = do
  validate_tunnel_header header
  validate_drain rt d
validate_out_payload rt header (some (OutPayload.revoke_session r)) = do
  validate_session_control_header header
  validate_revoke_session r

unfoldable pub validate_gateway_out_frame : ProtoRuntime → Option ConnectRequest → Option Error
unfolding validate_out_payload
validate_gateway_out_frame rt none = some (invalid_frame "frame" "is required")
validate_gateway_out_frame rt (some frame) = do
  reject_unknown_fields (name "frame" ∷ []) (rt.reflect_request frame)
  validate_out_payload rt frame.header frame.payload

-- `header.GetTrafficClass()` of a header that may be nil.
unfoldable pub traffic_class_of : Option FrameHeader → TrafficClass
traffic_class_of none = TrafficClass.unspecified
traffic_class_of (some h) = h.traffic_class

unfoldable pub validate_in_payload :
    ProtoRuntime → Option FrameHeader → Option InPayload → Option Error
unfolding traffic_class_of
validate_in_payload rt header none = some unknown_frame_type
validate_in_payload rt header (some (InPayload.hello h)) = do
  validate_gateway_in_hello_header header
  validate_gateway_in_hello h
validate_in_payload rt header (some (InPayload.open_frame o)) = do
  validate_request_header header
  validate_open rt (traffic_class_of header) o
validate_in_payload rt header (some (InPayload.data_frame d)) = do
  validate_request_header header
  validate_data d
validate_in_payload rt header (some (InPayload.half_close h)) = do
  validate_request_header header
  validate_half_close h
validate_in_payload rt header (some (InPayload.cancel c)) = do
  validate_request_header header
  validate_cancel c
validate_in_payload rt header (some (InPayload.credit c)) = do
  validate_request_header header
  validate_credit c
validate_in_payload rt header (some (InPayload.ping p)) = do
  validate_tunnel_header header
  validate_ping p
validate_in_payload rt header (some (InPayload.pong p)) = do
  validate_tunnel_header header
  validate_pong p
validate_in_payload rt header (some (InPayload.drain d)) = do
  validate_tunnel_header header
  validate_drain rt d

unfoldable pub validate_gateway_in_frame : ProtoRuntime → Option ConnectResponse → Option Error
unfolding validate_in_payload
validate_gateway_in_frame rt none = some (invalid_frame "frame" "is required")
validate_gateway_in_frame rt (some frame) = do
  reject_unknown_fields (name "frame" ∷ []) (rt.reflect_response frame)
  validate_in_payload rt frame.header frame.payload
