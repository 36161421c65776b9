-- ===== src/Tests/Frames.antt =====
-- The theorems on frames, at the samples.
use marketmesh.Prelude.{
  ℕ, ◌≤◌, ◌<◌, ◌≡◌, refl, ◌↔◌, true, Option, some, none, List, [], ◌∷◌, arith, ℕ_discrete, length,
  All,
}
use marketmesh.Protocol.Enums.{TrafficClass}
use marketmesh.Protocol.Errors.{Error, name}
use marketmesh.Protocol.Messages.{Bytes}
use marketmesh.Protocol.Bounds.{max_encoded_frame_bytes}
use marketmesh.Protocol.Bytes.{codes}
use marketmesh.Protocol.Headers.{validate_request_header}
use marketmesh.Protocol.Hello.{
  validate_limits, validate_supported_versions, validate_gateway_out_hello,
  validate_gateway_in_hello,
}
use marketmesh.Protocol.Hello.Spec.{
  Present, InBounds, VersionsOk, validate_limits-none, validate_supported_versions-none,
  validate_gateway_out_hello-none, validate_gateway_in_hello-none, Advertises,
}
use marketmesh.Protocol.Trace.{valid_traceparent, valid_tracestate_key, valid_tracestate_value}
use marketmesh.Protocol.Trace.Parent.{IsTraceparent, valid_traceparent_iff}
use marketmesh.Protocol.Trace.Members.{Member, IsValid}
use marketmesh.Protocol.Trace.State.{render}
use marketmesh.Protocol.Metadata.Tracestate.{validate_metadata_value-render}
use marketmesh.Protocol.Metadata.{validate_metadata_value}
use marketmesh.Protocol.Enums.{MetadataKey}
use marketmesh.Prelude.{false}
use marketmesh.Protocol.Metadata.{validate_metadata}
use marketmesh.Protocol.Metadata.Spec.{MetadataOk, validate_metadata-none}
use marketmesh.Protocol.Reflect.{
  Message, message, no_field, nested, reject_unknown_fields, Clean, reject_unknown_fields-none,
}
use marketmesh.Protocol.Payloads.{validate_open, validate_result}
use marketmesh.Protocol.Payloads.Spec.{OpenOk, ResultOk, validate_open-none, validate_result-none}
use marketmesh.Protocol.Routes.{route_traffic_class}
use marketmesh.Protocol.Validate.{validate_gateway_out_frame, validate_gateway_in_frame}
use marketmesh.Protocol.Validate.Spec.{
  OutFrame, InFrame, validate_gateway_out_frame-none, validate_gateway_in_frame-none,
}
use marketmesh.Protocol.Validate.Safety.{NotAssertion, result_without_assertion}
use marketmesh.Protocol.Decode.{frame, validate_encoded_frame, decode_gateway_out_frame}
use marketmesh.Protocol.Decode.Scan.{
  Encodes, IsV1, headers_of, payloads_of, TagsTakeBytes, validate_encoded_frame-Encodes,
  validate_encoded_frame_total,
}
use marketmesh.Tests.Samples.{
  runtime, limits, request_header, content_type, open_login, open_response, unavailable,
  result_request, out_hello, in_hello, wire, encoded,
}

open_accepted : validate_gateway_in_frame runtime (some open_response) ≡ none
unfolding validate_gateway_in_frame reject_unknown_fields validate_request_header validate_open
    route_traffic_class validate_metadata ℕ_discrete
open_accepted = refl

result_accepted : validate_gateway_out_frame runtime (some result_request) ≡ none
unfolding validate_gateway_out_frame reject_unknown_fields validate_request_header validate_result
    validate_metadata ℕ_discrete
result_accepted = refl

scanned : validate_encoded_frame wire 19 encoded ≡ some none
unfolding validate_encoded_frame
scanned = refl

decoded : decode_gateway_out_frame runtime wire encoded ≡ frame result_request
unfolding decode_gateway_out_frame validate_encoded_frame validate_gateway_out_frame
    reject_unknown_fields validate_request_header validate_result validate_metadata ℕ_discrete
decoded = refl

validate_gateway_in_frame-none_example :
    (validate_gateway_in_frame runtime (some open_response) ≡ none) ↔ (
      Clean (message [] no_field)
      × Present (InFrame runtime (some request_header)) open_response.payload)
validate_gateway_in_frame-none_example = validate_gateway_in_frame-none runtime open_response

validate_gateway_out_frame-none_example :
    (validate_gateway_out_frame runtime (some result_request) ≡ none) ↔ (
      Clean (message [] no_field)
      × Present (OutFrame runtime (some request_header)) result_request.payload)
validate_gateway_out_frame-none_example = validate_gateway_out_frame-none runtime result_request

result_without_assertion_example : All NotAssertion unavailable.metadata
result_without_assertion_example =
    result_without_assertion runtime result_request unavailable result_accepted refl

validate_encoded_frame-Encodes_example :
    (0 < length encoded)
    × (length encoded ≤ max_encoded_frame_bytes)
    × ((fields : List (ℕ × ℕ)) × Encodes wire fields encoded
        × All (IsV1 19) fields
        × (headers_of fields ≡ 1)
        × (payloads_of fields ≡ 1))
validate_encoded_frame-Encodes_example = validate_encoded_frame-Encodes wire 19 encoded scanned

tags_take_bytes : TagsTakeBytes wire
tags_take_bytes [] number wire_type tag_length h = cc
tags_take_bytes (tag ∷ bytes) number wire_type tag_length h = ground arith

validate_encoded_frame_total_example :
    (r : Option Error) × (validate_encoded_frame wire 19 encoded ≡ some r)
validate_encoded_frame_total_example = validate_encoded_frame_total wire tags_take_bytes 19 encoded

validate_limits-none_example :
    (validate_limits (some limits) ≡ none) ↔ Present InBounds (some limits)
validate_limits-none_example = validate_limits-none (some limits)

validate_supported_versions-none_example :
    (validate_supported_versions (2 ∷ 1 ∷ []) ≡ none) ↔ VersionsOk (2 ∷ 1 ∷ [])
validate_supported_versions-none_example = validate_supported_versions-none (2 ∷ 1 ∷ [])

validate_gateway_out_hello-none_example :
    (validate_gateway_out_hello (some out_hello) ≡ none)
    ↔ Present
        (λ h.
          (length h.instance_id ≡ 16)
          × (VersionsOk h.supported_protocol_versions
              × Advertises h.capabilities h.traffic_classes h.route_ids h.limits))
        (some out_hello)
validate_gateway_out_hello-none_example = validate_gateway_out_hello-none (some out_hello)

validate_gateway_in_hello-none_example :
    (validate_gateway_in_hello (some in_hello) ≡ none)
    ↔ Present
        (λ h.
          (length h.instance_id ≡ 16)
          × ((h.selected_protocol_version ≡ 1)
              × Advertises h.capabilities h.traffic_classes h.route_ids h.limits))
        (some in_hello)
validate_gateway_in_hello-none_example = validate_gateway_in_hello-none (some in_hello)

validate_open-none_example :
    (validate_open runtime TrafficClass.control_auth (some open_login) ≡ none)
    ↔ Present (OpenOk runtime TrafficClass.control_auth) (some open_login)
validate_open-none_example = validate_open-none runtime TrafficClass.control_auth (some open_login)

validate_result-none_example :
    (validate_result runtime (some unavailable) ≡ none)
    ↔ Present (ResultOk runtime) (some unavailable)
validate_result-none_example = validate_result-none runtime (some unavailable)

validate_metadata-none_example :
    (validate_metadata "open.metadata" (some content_type ∷ []) true ≡ none)
    ↔ MetadataOk true (some content_type ∷ [])
validate_metadata-none_example =
    validate_metadata-none "open.metadata" (some content_type ∷ []) true

abbrev parent_text : Bytes
parent_text = codes "00-4bf92f3577b34da6a3ce929d0e0e4736-00f067aa0ba902b7-01"

valid_traceparent_iff_example : (valid_traceparent parent_text ≡ true) ↔ IsTraceparent parent_text
valid_traceparent_iff_example = valid_traceparent_iff parent_text

abbrev rojo : Member
rojo = record { key = codes "rojo"; value = codes "00f067" }

abbrev congo : Member
congo = record { key = codes "congo"; value = codes "t61" }

validate_metadata_value-render_example :
    validate_metadata_value MetadataKey.tracestate (render rojo (congo ∷ [])) false ≡ none
unfolding render valid_tracestate_key valid_tracestate_value
validate_metadata_value-render_example =
    validate_metadata_value-render false rojo (congo ∷ []) both_valid (((λ e. cc), tt), (tt, tt))
      (omega arith) (omega arith)
  where
    both_valid : All IsValid (rojo ∷ congo ∷ [])
    both_valid = ((refl, refl), ((refl, refl), tt))

-- A nested message with an unknown byte.
abbrev tree : Message
tree = message [] (nested "open" (message (8 ∷ []) no_field) no_field)

reject_unknown_fields-none_example :
    (reject_unknown_fields (name "frame" ∷ []) tree ≡ none) ↔ Clean tree
reject_unknown_fields-none_example = reject_unknown_fields-none (name "frame" ∷ []) tree
