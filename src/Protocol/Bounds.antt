-- ===== src/Protocol/Bounds.antt =====
-- The protocol's constants: backend/api/tunnel/v1/validate.go and decode.go.
use marketmesh.Prelude.{ℕ, ◌^◌, ◌*◌}

abbrev pub protocol_version : ℕ
protocol_version = 1

abbrev pub max_encoded_frame_bytes : ℕ
max_encoded_frame_bytes = 2 ^ 20

abbrev pub max_data_bytes : ℕ
max_data_bytes = 256 * 2 ^ 10

abbrev pub max_message_bytes : ℕ
max_message_bytes = 8 * 2 ^ 20

abbrev pub max_in_flight_requests : ℕ
max_in_flight_requests = 4096

abbrev pub max_metadata_entries : ℕ
max_metadata_entries = 16

abbrev pub max_metadata_value_bytes : ℕ
max_metadata_value_bytes = 16 * 2 ^ 10

abbrev pub max_credit_bytes : ℕ
max_credit_bytes = 2 ^ 20

-- `TunnelIDBytes`, `RequestIDBytes`, `InstanceIDBytes` and `SessionIDBytes` are all 16.
abbrev pub id_bytes : ℕ
id_bytes = 16

abbrev pub max_idempotency_key_bytes : ℕ
max_idempotency_key_bytes = 128

abbrev pub max_supported_versions : ℕ
max_supported_versions = 8

abbrev pub max_capabilities : ℕ
max_capabilities = 3

abbrev pub max_traffic_classes : ℕ
max_traffic_classes = 3

abbrev pub max_advertised_routes : ℕ
max_advertised_routes = 64

abbrev pub max_content_type_bytes : ℕ
max_content_type_bytes = 64

abbrev pub max_traceparent_bytes : ℕ
max_traceparent_bytes = 128

abbrev pub max_tracestate_bytes : ℕ
max_tracestate_bytes = 512

-- Five minutes, in nanoseconds.
abbrev pub max_retry_after : ℕ
max_retry_after = 300_000_000_000
