-- ===== src/Protocol/Messages.antt =====
-- The messages of api/proto/tunnel/v1/tunnel.proto. Bytes are numbers below 256, and `uint32` and
-- `uint64` fields are numbers below 2^32 and 2^64. A message pointer that may be nil is an
-- `Option`, as is a oneof that may be unset.
use marketmesh.Prelude.{ℕ, List, Option}
use marketmesh.Protocol.Enums.{
  TrafficClass, Capability, RouteId, MetadataKey, CancelReason, ResultCode, DrainReason,
}

abbrev pub Bytes : Type 0
Bytes = List ℕ

pub record FrameHeader : Type 0 where
  pub protocol_version : ℕ
  pub tunnel_id : Bytes
  pub request_id : Bytes
  pub sequence : ℕ
  pub traffic_class : TrafficClass

pub record Limits : Type 0 where
  pub max_frame_bytes : ℕ
  pub max_data_bytes : ℕ
  pub max_message_bytes : ℕ
  pub max_in_flight_requests : ℕ
  pub max_metadata_entries : ℕ
  pub max_metadata_value_bytes : ℕ
  pub max_credit_bytes : ℕ

pub record GatewayOutHello : Type 0 where
  pub instance_id : Bytes
  pub supported_protocol_versions : List ℕ
  pub capabilities : List Capability
  pub traffic_classes : List TrafficClass
  pub route_ids : List RouteId
  pub limits : Option Limits

pub record GatewayInHello : Type 0 where
  pub selected_protocol_version : ℕ
  pub capabilities : List Capability
  pub traffic_classes : List TrafficClass
  pub route_ids : List RouteId
  pub limits : Option Limits
  pub instance_id : Bytes

pub record Metadata : Type 0 where
  pub key : MetadataKey
  pub value : Bytes

-- `google.protobuf.Timestamp` and `Duration`: signed fields as two's complement patterns.
pub record Timestamp : Type 0 where
  pub seconds : ℕ
  pub nanos : ℕ

pub record Duration : Type 0 where
  pub seconds : ℕ
  pub nanos : ℕ

pub record Open : Type 0 where
  pub route_id : RouteId
  pub deadline : Option Timestamp
  pub idempotency_key : Bytes
  pub metadata : List (Option Metadata)

pub record Data : Type 0 where
  pub payload : Bytes

pub record Cancel : Type 0 where
  pub reason : CancelReason

pub record Result : Type 0 where
  pub code : ResultCode
  pub retry_after : Option Duration
  pub metadata : List (Option Metadata)

pub record Credit : Type 0 where
  pub bytes : ℕ

pub record Ping : Type 0 where
  pub nonce : ℕ

pub record Pong : Type 0 where
  pub nonce : ℕ

pub record Drain : Type 0 where
  pub deadline : Option Timestamp
  pub reason : DrainReason

pub record RevokeSession : Type 0 where
  pub session_id : Bytes

-- `HalfClose` has no field.
abbrev pub HalfClose : Type 0
HalfClose = Unit {0}

-- The oneof of `ConnectRequest`, from gateway-out.
pub data OutPayload : Type 0 where
  hello : Option GatewayOutHello → OutPayload
  data_frame : Option Data → OutPayload
  half_close : Option HalfClose → OutPayload
  cancel : Option Cancel → OutPayload
  result : Option Result → OutPayload
  credit : Option Credit → OutPayload
  ping : Option Ping → OutPayload
  pong : Option Pong → OutPayload
  drain : Option Drain → OutPayload
  revoke_session : Option RevokeSession → OutPayload

pub record ConnectRequest : Type 0 where
  pub header : Option FrameHeader
  pub payload : Option OutPayload

-- The oneof of `ConnectResponse`, from gateway-in.
pub data InPayload : Type 0 where
  hello : Option GatewayInHello → InPayload
  open_frame : Option Open → InPayload
  data_frame : Option Data → InPayload
  half_close : Option HalfClose → InPayload
  cancel : Option Cancel → InPayload
  credit : Option Credit → InPayload
  ping : Option Ping → InPayload
  pong : Option Pong → InPayload
  drain : Option Drain → InPayload

pub record ConnectResponse : Type 0 where
  pub header : Option FrameHeader
  pub payload : Option InPayload
