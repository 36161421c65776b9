-- ===== src/Protocol/Decode.antt =====
-- backend/api/tunnel/v1/decode.go: the scan of the encoded frame, and the decoders. The wire
-- primitives of protowire and the unmarshaller are parameters.
pub mod Scan
use marketmesh.Prelude.{
  ℕ, zero, suc, ◌+◌, ◌-◌, ◌*◌, ◌/◌, ◌%◌, ◌^◌, ◌≤◌, ◌<◌, min, String, ◌≡◌, refl, sym, ap, ◌∙◌, ◌≢◌,
  ◌↔◌, ◌⊎◌, inl, inr, ite, Bool, true, false, not, ◌&&◌, ◌||◌, Option, some, none, List, [], ◌∷◌,
  ◌++◌, map, arith, ℕ_discrete, ltb, leb, ◌==◌, if◌then◌else◌, ==_iff, ite_iff, unless_iff,
  or_false, not-false, not-eq-true, and_true, Bool-cases, at_most, within, equals, positive, both,
  negated, excluded, Option-cases, length, get_or, take, drop, All, Distinct, length-append,
  length-take, length-drop, take-append-drop, contains, All-map, All-zip, contains_iff, take-append,
  drop-append, drop-field, take-all, drop_past, get_or_past, get_or_at, ◌>>◌, reject_if, >>-eq-none,
  reject_if-eq-none, seq_accepts, reject_accepts,
}
use mathlib.Core.Option
use marketmesh.Protocol.Errors.{
  Error, empty_frame, frame_too_large, malformed_frame, unknown_frame_type,
}
use marketmesh.Protocol.Messages.{Bytes, ConnectRequest, ConnectResponse}
use marketmesh.Protocol.Bounds.{max_encoded_frame_bytes}
use marketmesh.Protocol.Payloads.{ProtoRuntime}
use marketmesh.Protocol.Validate.{validate_gateway_out_frame, validate_gateway_in_frame}

-- `ConsumeTag` gives the field's number, its wire type and the bytes read, `ConsumeFieldValue` the
-- bytes of the value; a negative length is `none`.
pub record Wire : Type 0 where
  pub consume_tag : Bytes → Option (ℕ × ℕ × ℕ)
  pub consume_field_value : ℕ → ℕ → Bytes → Option ℕ
  pub unmarshal_request : Bytes → Option ConnectRequest
  pub unmarshal_response : Bytes → Option ConnectResponse

abbrev pub first_payload_field : ℕ
first_payload_field = 10

abbrev pub out_last_payload_field : ℕ
out_last_payload_field = 19

abbrev pub in_last_payload_field : ℕ
in_last_payload_field = 18

-- `protowire.BytesType`.
abbrev pub bytes_type : ℕ
bytes_type = 2

abbrev pub is_payload : ℕ → ℕ → Bool
is_payload last number = leb first_payload_field number && leb number last

-- The switch on a field's number, and the test of its wire type after it.
unfoldable pub check_field : ℕ → ℕ → ℕ → Option Error
check_field last number wire_type = do
  reject_if (not (number == 1 || is_payload last number)) unknown_frame_type
  reject_if (not (wire_type == bytes_type)) malformed_frame

-- The two reads at the head of the loop: the field's number, its wire type, and the bytes behind
-- its value. Either failure is `ErrMalformedFrame`.
unfoldable pub read_field : Wire → Bytes → Option (ℕ × ℕ × Bytes)
read_field w bytes = elim (w.consume_tag bytes) [
  | none ↦ none
  | some (number, wire_type, tag_length) ↦
      Option.map
        (λ (field_length : ℕ). (number, wire_type, drop field_length (drop tag_length bytes)))
        (w.consume_field_value number wire_type (drop tag_length bytes))
]

-- The rest of the loop's body; `next` runs the loop on.
unfoldable pub scan_step :
    (ℕ → ℕ → Bytes → Option (Option Error))
    → ℕ
    → ℕ
    → ℕ
    → Option (ℕ × ℕ × Bytes)
    → Option (Option Error)
unfolding check_field
scan_step next last headers payloads none = some (some malformed_frame)
scan_step next last headers payloads (some (number, wire_type, rest)) =
    elim (check_field last number wire_type) [
      | some e ↦ some (some e)
      | none ↦
          next (if number == 1 then headers + 1 else headers)
            (if number == 1 then payloads else payloads + 1) rest
    ]

-- The loop of `validateEncodedFrame` with its two counters; the outer `none` is lack of fuel.
unfoldable pub scan : Wire → ℕ → ℕ → ℕ → ℕ → Bytes → Option (Option Error)
unfolding scan_step read_field
scan w last fuel headers payloads [] =
    some (reject_if (not (headers == 1) || not (payloads == 1)) unknown_frame_type)
scan w last zero headers payloads (c ∷ cs) = none
scan w last (suc fuel) headers payloads (c ∷ cs) =
    scan_step (scan w last fuel) last headers payloads (read_field w (c ∷ cs))

-- Every field takes a byte at least, so the length of the data is fuel enough.
unfoldable pub validate_encoded_frame : Wire → ℕ → Bytes → Option (Option Error)
unfolding scan
validate_encoded_frame w last [] = some (some empty_frame)
validate_encoded_frame w last (c ∷ cs) =
    if ltb max_encoded_frame_bytes (length (c ∷ cs))
    then some (some frame_too_large)
    else scan w last (length (c ∷ cs)) 0 0 (c ∷ cs)

pub data Decoded (A : Type 0) : Type 0 where
  frame : A → Decoded A
  failed : Error → Decoded A
  out_of_fuel : Decoded A

-- What follows the scan: unmarshal, then validate.
unfoldable pub finish :
    {A : Type 0} → Option (Option Error) → Option A → (A → Option Error) → Decoded A
finish none unmarshalled validate = out_of_fuel
finish (some (some e)) unmarshalled validate = failed e
finish (some none) none validate = failed malformed_frame
finish (some none) (some a) validate = elim (validate a) [ none ↦ frame a | some e ↦ failed e ]

unfoldable pub decode_gateway_out_frame : ProtoRuntime → Wire → Bytes → Decoded ConnectRequest
unfolding finish
decode_gateway_out_frame rt w bytes =
    finish (validate_encoded_frame w out_last_payload_field bytes) (w.unmarshal_request bytes)
      (λ a. validate_gateway_out_frame rt (some a))

unfoldable pub decode_gateway_in_frame : ProtoRuntime → Wire → Bytes → Decoded ConnectResponse
unfolding finish
decode_gateway_in_frame rt w bytes =
    finish (validate_encoded_frame w in_last_payload_field bytes) (w.unmarshal_response bytes)
      (λ a. validate_gateway_in_frame rt (some a))
