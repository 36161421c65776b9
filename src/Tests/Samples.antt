-- ===== src/Tests/Samples.antt =====
-- Frames, limits and a small protobuf runtime to run the definitions on.
use marketmesh.Prelude.{
  ℕ, ◌+◌, ◌*◌, ◌/◌, ◌%◌, ◌&&◌, Option, some, none, [], ◌∷◌, ltb, leb, ◌==◌, if◌then◌else◌, length,
}
use marketmesh.Protocol.Enums.{TrafficClass, Capability, RouteId, MetadataKey, ResultCode}
use marketmesh.Protocol.Messages.{
  Bytes, FrameHeader, Limits, GatewayOutHello, GatewayInHello, Metadata, Timestamp, Duration, Open,
  Result, OutPayload, InPayload, ConnectRequest, ConnectResponse,
}
use marketmesh.Protocol.Bytes.{codes}
use marketmesh.Protocol.Reflect.{message, no_field}
use marketmesh.Protocol.Payloads.{pos, ProtoRuntime}
use marketmesh.Protocol.Decode.{Wire}

abbrev pub id16 : Bytes
id16 = 1 ∷ 2 ∷ 3 ∷ 4 ∷ 5 ∷ 6 ∷ 7 ∷ 8 ∷ 9 ∷ 10 ∷ 11 ∷ 12 ∷ 13 ∷ 14 ∷ 15 ∷ 16 ∷ []

-- Timestamps of this side of the year 10000, short durations, and no unknown fields.
abbrev pub runtime : ProtoRuntime
runtime = record {
  timestamp_valid = λ (t : Timestamp). ltb t.seconds 253402300800 && ltb t.nanos 1000000000;
  duration_valid = λ (d : Duration). ltb d.seconds 315576000001 && ltb d.nanos 1000000000;
  as_duration = λ (d : Duration). pos (d.seconds * 1000000000 + d.nanos);
  reflect_request = λ f. message [] no_field;
  reflect_response = λ f. message [] no_field;
}

abbrev pub limits : Limits
limits = record {
  max_frame_bytes = 1048576;
  max_data_bytes = 65536;
  max_message_bytes = 1048576;
  max_in_flight_requests = 64;
  max_metadata_entries = 16;
  max_metadata_value_bytes = 16384;
  max_credit_bytes = 262144;
}

abbrev pub request_header : FrameHeader
request_header = record {
  protocol_version = 1;
  tunnel_id = id16;
  request_id = id16;
  sequence = 1;
  traffic_class = TrafficClass.control_auth;
}

abbrev pub content_type : Metadata
content_type = record { key = MetadataKey.content_type; value = codes "application/protobuf" }

abbrev pub open_login : Open
open_login = record {
  route_id = RouteId.auth_start_login;
  deadline = some (record { seconds = 1800000000; nanos = 0 });
  idempotency_key = 1 ∷ 2 ∷ [];
  metadata = some content_type ∷ [];
}

abbrev pub open_response : ConnectResponse
open_response = record {
  header = some request_header;
  payload = some (InPayload.open_frame (some open_login));
}

abbrev pub unavailable : Result
unavailable = record {
  code = ResultCode.unavailable;
  retry_after = some (record { seconds = 5; nanos = 0 });
  metadata = some content_type ∷ [];
}

abbrev pub result_request : ConnectRequest
result_request = record {
  header = some request_header;
  payload = some (OutPayload.result (some unavailable));
}

abbrev pub out_hello : GatewayOutHello
out_hello = record {
  instance_id = id16;
  supported_protocol_versions = 2 ∷ 1 ∷ [];
  capabilities = Capability.drain ∷ [];
  traffic_classes = TrafficClass.control_auth ∷ TrafficClass.regular ∷ [];
  route_ids = RouteId.auth_start_login ∷ RouteId.user_get_me ∷ [];
  limits = some limits;
}

abbrev pub in_hello : GatewayInHello
in_hello = record {
  selected_protocol_version = 1;
  capabilities = Capability.drain ∷ [];
  traffic_classes = TrafficClass.control_auth ∷ [];
  route_ids = RouteId.auth_start_login ∷ [];
  limits = some limits;
  instance_id = id16;
}

-- A wire of fields with one byte of tag and one of length.
abbrev pub tag_of : Bytes → Option (ℕ × ℕ × ℕ)
tag_of [] = none
tag_of (tag ∷ bytes) = some (tag / 8, tag % 8, 1)

abbrev pub value_of : ℕ → ℕ → Bytes → Option ℕ
value_of number wire_type [] = none
value_of number wire_type (size ∷ bytes) =
    if (wire_type == 2) && leb size (length bytes) then some (size + 1) else none

abbrev pub wire : Wire
wire = record {
  consume_tag = tag_of;
  consume_field_value = value_of;
  unmarshal_request = λ bytes. some result_request;
  unmarshal_response = λ bytes. some open_response;
}

-- A header, and the field 14 of a Result.
abbrev pub encoded : Bytes
encoded = 10 ∷ 1 ∷ 7 ∷ 114 ∷ 0 ∷ []
