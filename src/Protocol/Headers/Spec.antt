-- ===== src/Protocol/Headers/Spec.antt =====
-- The four header classes of the protocol, stated by their fields.
use marketmesh.Prelude.{ℕ, ◌<◌, ◌≡◌, ◌≢◌, ◌↔◌, true, Option, some, none, length, arith}
use marketmesh.Protocol.Enums.{TrafficClass, known_traffic_class}
use marketmesh.Protocol.Messages.{FrameHeader}
use marketmesh.Protocol.Bounds.{protocol_version, id_bytes}
use marketmesh.Protocol.Headers.{
  validate_gateway_out_hello_header, validate_gateway_in_hello_header, validate_request_header,
  validate_tunnel_header, validate_session_control_header,
}

-- A header outside any logical request: `version`, the length of the tunnel id and the class vary.
pub record IsControlHeader (version id_length : ℕ) (class : TrafficClass) (h : FrameHeader)
    : Type 0 where
  pub version_is : h.protocol_version ≡ version
  pub tunnel_id_is : length h.tunnel_id ≡ id_length
  pub no_request : length h.request_id ≡ 0
  pub no_sequence : h.sequence ≡ 0
  pub class_is : h.traffic_class ≡ class

pub record IsRequestHeader (h : FrameHeader) : Type 0 where
  pub version_is : h.protocol_version ≡ protocol_version
  pub tunnel_id_is : length h.tunnel_id ≡ id_bytes
  pub request_id_is : length h.request_id ≡ id_bytes
  pub sequence_positive : 0 < h.sequence
  pub class_known : known_traffic_class h.traffic_class ≡ true
  pub class_specified : h.traffic_class ≢ TrafficClass.unspecified

abbrev pub Given : (FrameHeader → Type 0) → Option FrameHeader → Type 0
Given P none = ⊥
Given P (some h) = P h

-- A gateway-out Hello names no version, tunnel, request or class.
pub validate_gateway_out_hello_header-none :
    (header : Option FrameHeader)
    → (validate_gateway_out_hello_header header ≡ none)
      ↔ Given (IsControlHeader 0 0 TrafficClass.unspecified) header
unfolding validate_gateway_out_hello_header
validate_gateway_out_hello_header-none none = (λ e. cc, λ e. absurd e)
validate_gateway_out_hello_header-none (some h) = (λ e. ground arith, λ e. ground arith)

-- A gateway-in Hello assigns a tunnel id, and nothing else.
pub validate_gateway_in_hello_header-none :
    (header : Option FrameHeader)
    → (validate_gateway_in_hello_header header ≡ none)
      ↔ Given (IsControlHeader 0 id_bytes TrafficClass.unspecified) header
unfolding validate_gateway_in_hello_header
validate_gateway_in_hello_header-none none = (λ e. cc, λ e. absurd e)
validate_gateway_in_hello_header-none (some h) = (λ e. ground arith, λ e. ground arith)

-- A request header is accepted exactly when it is complete.
pub validate_request_header-none :
    (header : Option FrameHeader)
    → (validate_request_header header ≡ none) ↔ Given IsRequestHeader header
unfolding validate_request_header
validate_request_header-none none = (λ e. cc, λ e. absurd e)
validate_request_header-none (some h) = (λ e. ground arith, λ e. ground arith)

-- Tunnel control belongs to a tunnel and to no request.
pub validate_tunnel_header-none :
    (header : Option FrameHeader)
    → (validate_tunnel_header header ≡ none)
      ↔ Given (IsControlHeader protocol_version id_bytes TrafficClass.unspecified) header
unfolding validate_tunnel_header
validate_tunnel_header-none none = (λ e. cc, λ e. absurd e)
validate_tunnel_header-none (some h) = (λ e. ground arith, λ e. ground arith)

-- Session control is tunnel control in the control/auth class.
pub validate_session_control_header-none :
    (header : Option FrameHeader)
    → (validate_session_control_header header ≡ none)
      ↔ Given (IsControlHeader protocol_version id_bytes TrafficClass.control_auth) header
unfolding validate_session_control_header
validate_session_control_header-none none = (λ e. cc, λ e. absurd e)
validate_session_control_header-none (some h) = (λ e. ground arith, λ e. ground arith)
