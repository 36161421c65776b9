-- ===== src/Protocol/Validate/Spec.antt =====
-- The frames that each side of the tunnel accepts, stated as tables of header and payload.
use marketmesh.Prelude.{
  ◌≤◌, ◌<◌, ◌≡◌, refl, ◌≢◌, ◌↔◌, true, Option, some, none, [], ◌∷◌, not-false, equals, positive,
  both, excluded, length, seq_accepts, reject_accepts,
}
use marketmesh.Protocol.Enums.{
  TrafficClass, CancelReason, known_cancel_reason, CancelReason-discrete,
}
use marketmesh.Protocol.Errors.{name}
use marketmesh.Protocol.Messages.{
  FrameHeader, OutPayload, InPayload, ConnectRequest, ConnectResponse, HalfClose, Cancel, Ping,
  Pong, RevokeSession,
}
use marketmesh.Protocol.Bounds.{protocol_version, id_bytes, max_data_bytes, max_credit_bytes}
use marketmesh.Protocol.Headers.Spec.{
  Given, IsControlHeader, IsRequestHeader, validate_gateway_out_hello_header-none,
  validate_gateway_in_hello_header-none, validate_request_header-none, validate_tunnel_header-none,
  validate_session_control_header-none,
}
use marketmesh.Protocol.Hello.Spec.{
  Present, VersionsOk, Advertises, validate_gateway_out_hello-none, validate_gateway_in_hello-none,
}
use marketmesh.Protocol.Payloads.{
  ProtoRuntime, validate_half_close, validate_cancel, validate_ping, validate_pong,
  validate_revoke_session,
}
use marketmesh.Protocol.Payloads.Spec.{
  OpenOk, ResultOk, DrainOk, validate_open-none, validate_result-none, validate_data-none,
  validate_credit-none, validate_drain-none,
}
use marketmesh.Protocol.Reflect.{Clean, reject_unknown_fields-none}
use marketmesh.Protocol.Validate.{
  validate_out_payload, validate_gateway_out_frame, traffic_class_of, validate_in_payload,
  validate_gateway_in_frame,
}

-- The headers by kind.
abbrev pub OutHelloHeader : FrameHeader → Type 0
OutHelloHeader = IsControlHeader 0 0 TrafficClass.unspecified

abbrev pub InHelloHeader : FrameHeader → Type 0
InHelloHeader = IsControlHeader 0 id_bytes TrafficClass.unspecified

abbrev pub TunnelHeader : FrameHeader → Type 0
TunnelHeader = IsControlHeader protocol_version id_bytes TrafficClass.unspecified

abbrev pub SessionHeader : FrameHeader → Type 0
SessionHeader = IsControlHeader protocol_version id_bytes TrafficClass.control_auth

abbrev pub CancelOk : Cancel → Type 0
CancelOk c = (known_cancel_reason c.reason ≡ true) × (c.reason ≢ CancelReason.unspecified)

-- What gateway-out may send.
abbrev pub OutFrame : ProtoRuntime → Option FrameHeader → OutPayload → Type 0
OutFrame rt h (OutPayload.hello p) =
    Given OutHelloHeader h
    × Present
        (λ q.
          (length q.instance_id ≡ id_bytes)
          × (VersionsOk q.supported_protocol_versions
              × Advertises q.capabilities q.traffic_classes q.route_ids q.limits))
        p
OutFrame rt h (OutPayload.data_frame p) =
    Given IsRequestHeader h
    × Present (λ d. (0 < length d.payload) × (length d.payload ≤ max_data_bytes)) p
OutFrame rt h (OutPayload.half_close p) = Given IsRequestHeader h × (p ≢ none)
OutFrame rt h (OutPayload.cancel p) = Given IsRequestHeader h × Present CancelOk p
OutFrame rt h (OutPayload.result p) = Given IsRequestHeader h × Present (ResultOk rt) p
OutFrame rt h (OutPayload.credit p) =
    Given IsRequestHeader h × Present (λ c. (0 < c.bytes) × (c.bytes ≤ max_credit_bytes)) p
OutFrame rt h (OutPayload.ping p) = Given TunnelHeader h × Present (λ q. 0 < q.nonce) p
OutFrame rt h (OutPayload.pong p) = Given TunnelHeader h × Present (λ q. 0 < q.nonce) p
OutFrame rt h (OutPayload.drain p) = Given TunnelHeader h × Present (DrainOk rt) p
OutFrame rt h (OutPayload.revoke_session p) =
    Given SessionHeader h × Present (λ q. length q.session_id ≡ id_bytes) p

-- What gateway-in may send.
abbrev pub InFrame : ProtoRuntime → Option FrameHeader → InPayload → Type 0
InFrame rt h (InPayload.hello p) =
    Given InHelloHeader h
    × Present
        (λ q.
          (length q.instance_id ≡ id_bytes)
          × ((q.selected_protocol_version ≡ protocol_version)
              × Advertises q.capabilities q.traffic_classes q.route_ids q.limits))
        p
InFrame rt h (InPayload.open_frame p) =
    Given IsRequestHeader h × Present (OpenOk rt (traffic_class_of h)) p
InFrame rt h (InPayload.data_frame p) =
    Given IsRequestHeader h
    × Present (λ d. (0 < length d.payload) × (length d.payload ≤ max_data_bytes)) p
InFrame rt h (InPayload.half_close p) = Given IsRequestHeader h × (p ≢ none)
InFrame rt h (InPayload.cancel p) = Given IsRequestHeader h × Present CancelOk p
InFrame rt h (InPayload.credit p) =
    Given IsRequestHeader h × Present (λ c. (0 < c.bytes) × (c.bytes ≤ max_credit_bytes)) p
InFrame rt h (InPayload.ping p) = Given TunnelHeader h × Present (λ q. 0 < q.nonce) p
InFrame rt h (InPayload.pong p) = Given TunnelHeader h × Present (λ q. 0 < q.nonce) p
InFrame rt h (InPayload.drain p) = Given TunnelHeader h × Present (DrainOk rt) p

half_close_accepts : (p : Option HalfClose) → (validate_half_close p ≡ none) ↔ (p ≢ none)
unfolding validate_half_close
half_close_accepts none = (λ h. cc, λ h. absurd (h refl))
half_close_accepts (some p) = (λ h e. cc, λ h. refl)

cancel_accepts : (p : Option Cancel) → (validate_cancel p ≡ none) ↔ Present CancelOk p
unfolding validate_cancel
cancel_accepts none = (λ h. cc, λ h. absurd h)
cancel_accepts (some c) = reject_accepts _ _ (
    both _ _ (not-false (known_cancel_reason c.reason))
      (excluded (CancelReason-discrete c.reason CancelReason.unspecified)))

ping_accepts : (p : Option Ping) → (validate_ping p ≡ none) ↔ Present (λ q. 0 < q.nonce) p
unfolding validate_ping
ping_accepts none = (λ h. cc, λ h. absurd h)
ping_accepts (some q) = reject_accepts _ _ (positive q.nonce)

pong_accepts : (p : Option Pong) → (validate_pong p ≡ none) ↔ Present (λ q. 0 < q.nonce) p
unfolding validate_pong
pong_accepts none = (λ h. cc, λ h. absurd h)
pong_accepts (some q) = reject_accepts _ _ (positive q.nonce)

revoke_accepts :
    (p : Option RevokeSession)
    → (validate_revoke_session p ≡ none) ↔ Present (λ q. length q.session_id ≡ id_bytes) p
unfolding validate_revoke_session
revoke_accepts none = (λ h. cc, λ h. absurd h)
revoke_accepts (some q) = reject_accepts _ _ (equals (length q.session_id) id_bytes)

module _ (rt : ProtoRuntime) (h : Option FrameHeader) where
  out_payload : (p : OutPayload) → (validate_out_payload rt h (some p) ≡ none) ↔ OutFrame rt h p
  unfolding validate_out_payload
  out_payload (OutPayload.hello p) =
      seq_accepts _ _ (validate_gateway_out_hello_header-none h) (validate_gateway_out_hello-none p)
  out_payload (OutPayload.data_frame p) =
      seq_accepts _ _ (validate_request_header-none h) (validate_data-none p)
  out_payload (OutPayload.half_close p) =
      seq_accepts _ _ (validate_request_header-none h) (half_close_accepts p)
  out_payload (OutPayload.cancel p) =
      seq_accepts _ _ (validate_request_header-none h) (cancel_accepts p)
  out_payload (OutPayload.result p) =
      seq_accepts _ _ (validate_request_header-none h) (validate_result-none rt p)
  out_payload (OutPayload.credit p) =
      seq_accepts _ _ (validate_request_header-none h) (validate_credit-none p)
  out_payload (OutPayload.ping p) = seq_accepts _ _ (validate_tunnel_header-none h) (ping_accepts p)
  out_payload (OutPayload.pong p) = seq_accepts _ _ (validate_tunnel_header-none h) (pong_accepts p)
  out_payload (OutPayload.drain p) =
      seq_accepts _ _ (validate_tunnel_header-none h) (validate_drain-none rt p)
  out_payload (OutPayload.revoke_session p) =
      seq_accepts _ _ (validate_session_control_header-none h) (revoke_accepts p)

  in_payload : (p : InPayload) → (validate_in_payload rt h (some p) ≡ none) ↔ InFrame rt h p
  unfolding validate_in_payload
  in_payload (InPayload.hello p) =
      seq_accepts _ _ (validate_gateway_in_hello_header-none h) (validate_gateway_in_hello-none p)
  in_payload (InPayload.open_frame p) =
      seq_accepts _ _ (validate_request_header-none h)
        (validate_open-none rt (traffic_class_of h) p)
  in_payload (InPayload.data_frame p) =
      seq_accepts _ _ (validate_request_header-none h) (validate_data-none p)
  in_payload (InPayload.half_close p) =
      seq_accepts _ _ (validate_request_header-none h) (half_close_accepts p)
  in_payload (InPayload.cancel p) =
      seq_accepts _ _ (validate_request_header-none h) (cancel_accepts p)
  in_payload (InPayload.credit p) =
      seq_accepts _ _ (validate_request_header-none h) (validate_credit-none p)
  in_payload (InPayload.ping p) = seq_accepts _ _ (validate_tunnel_header-none h) (ping_accepts p)
  in_payload (InPayload.pong p) = seq_accepts _ _ (validate_tunnel_header-none h) (pong_accepts p)
  in_payload (InPayload.drain p) =
      seq_accepts _ _ (validate_tunnel_header-none h) (validate_drain-none rt p)

-- A frame from gateway-out is accepted exactly when no message of its tree has unknown fields, its
-- payload is set, and header and payload stand in the table `OutFrame`.
pub validate_gateway_out_frame-none :
    (rt : ProtoRuntime) (frame : ConnectRequest)
    → (validate_gateway_out_frame rt (some frame) ≡ none)
      ↔ (Clean (rt.reflect_request frame) × Present (OutFrame rt frame.header) frame.payload)
unfolding validate_gateway_out_frame
validate_gateway_out_frame-none rt frame =
    seq_accepts _ _ (reject_unknown_fields-none (name "frame" ∷ []) (rt.reflect_request frame))
      (payload frame.payload)
  where
    payload :
        (p : Option OutPayload)
        → (validate_out_payload rt frame.header p ≡ none) ↔ Present (OutFrame rt frame.header) p
    payload none = (λ h. cc, λ h. absurd h)
    payload (some p) = out_payload rt frame.header p

-- A frame from gateway-in is accepted exactly when no message of its tree has unknown fields, its
-- payload is set, and header and payload stand in the table `InFrame`.
pub validate_gateway_in_frame-none :
    (rt : ProtoRuntime) (frame : ConnectResponse)
    → (validate_gateway_in_frame rt (some frame) ≡ none)
      ↔ (Clean (rt.reflect_response frame) × Present (InFrame rt frame.header) frame.payload)
unfolding validate_gateway_in_frame
validate_gateway_in_frame-none rt frame =
    seq_accepts _ _ (reject_unknown_fields-none (name "frame" ∷ []) (rt.reflect_response frame))
      (payload frame.payload)
  where
    payload :
        (p : Option InPayload)
        → (validate_in_payload rt frame.header p ≡ none) ↔ Present (InFrame rt frame.header) p
    payload none = (λ h. cc, λ h. absurd h)
    payload (some p) = in_payload rt frame.header p
