-- ===== src/Protocol/Metadata.antt =====
-- The metadata checks of backend/api/tunnel/v1/validate.go.
pub mod Spec
pub mod Tracestate
use marketmesh.Prelude.{
  ℕ, zero, suc, ◌+◌, ◌-◌, ◌*◌, ◌/◌, ◌%◌, ◌^◌, ◌≤◌, ◌<◌, min, String, ◌≡◌, refl, sym, ap, ◌∙◌, ◌≢◌,
  ◌↔◌, ◌⊎◌, inl, inr, ite, Bool, true, false, not, ◌&&◌, ◌||◌, Option, some, none, List, [], ◌∷◌,
  ◌++◌, map, arith, ℕ_discrete, ltb, leb, ◌==◌, if◌then◌else◌, ==_iff, Bool-cases, Option-cases,
  length, get_or, take, drop, All, Distinct, length-append, length-take, length-drop,
  take-append-drop, contains, All-map, All-zip, contains_iff, ◌>>◌, reject_if, >>-eq-none,
  reject_if-eq-none, seq_accepts, reject_accepts,
}
use marketmesh.Protocol.Enums.{MetadataKey, MetadataKey-discrete, known_metadata_key}
use marketmesh.Protocol.Errors.{Error, invalid_frame}
use marketmesh.Protocol.Messages.{Bytes, Metadata}
use marketmesh.Protocol.Bytes.{codes, equal}
use marketmesh.Protocol.Trace.{valid_traceparent, valid_tracestate}
use marketmesh.Protocol.Bounds.{
  max_metadata_entries, max_metadata_value_bytes, max_content_type_bytes, max_traceparent_bytes,
  max_tracestate_bytes,
}

abbrev pub protobuf_content_type : Bytes
protobuf_content_type = codes "application/protobuf"

-- The switch of `validateMetadataValue` on a nonempty value, given by its head and tail.
unfoldable pub validate_value_for : MetadataKey → ℕ → Bytes → Bool → Option Error
unfolding equal
validate_value_for MetadataKey.content_type c cs allow_session_assertion =
    reject_if
      (ltb max_content_type_bytes (length (c ∷ cs)) || not (equal (c ∷ cs) protobuf_content_type))
      (invalid_frame "metadata.value" "has unsupported content type")
validate_value_for MetadataKey.traceparent c cs allow_session_assertion =
    reject_if (ltb max_traceparent_bytes (length (c ∷ cs)) || not (valid_traceparent (c ∷ cs)))
      (invalid_frame "metadata.value" "has invalid traceparent format")
validate_value_for MetadataKey.tracestate c cs allow_session_assertion =
    reject_if (ltb max_tracestate_bytes (length (c ∷ cs)) || not (valid_tracestate c cs))
      (invalid_frame "metadata.value" "has invalid tracestate format")
validate_value_for MetadataKey.session_assertion c cs allow_session_assertion =
    reject_if (not allow_session_assertion) (invalid_frame "metadata.key" "is forbidden in Result")
validate_value_for _ c cs allow_session_assertion = some (invalid_frame "metadata.key" "is unknown")

unfoldable pub validate_metadata_value : MetadataKey → Bytes → Bool → Option Error
unfolding validate_value_for
validate_metadata_value key [] allow_session_assertion =
    some (invalid_frame "metadata.value" "is empty or exceeds v1 limit")
validate_metadata_value key (c ∷ cs) allow_session_assertion = do
  reject_if (ltb max_metadata_value_bytes (length (c ∷ cs)))
      (invalid_frame "metadata.value" "is empty or exceeds v1 limit")
  validate_value_for key c cs allow_session_assertion

unfoldable pub bad_metadata_key : MetadataKey → Bool
unfolding known_metadata_key MetadataKey-discrete
bad_metadata_key key =
    not (known_metadata_key key)
    || ite (MetadataKey-discrete key MetadataKey.unspecified) true false

-- The loop of `validateMetadata`, with the keys seen.
unfoldable pub metadata_entries :
    String → Bool → List MetadataKey → List (Option Metadata) → Option Error
unfolding bad_metadata_key validate_metadata_value contains MetadataKey-discrete
metadata_entries path allow seen [] = none
metadata_entries path allow seen (none ∷ entries) = some (invalid_frame path "contains a nil entry")
metadata_entries path allow seen (some entry ∷ entries) = do
  reject_if (bad_metadata_key entry.key) (invalid_frame path "contains an unknown key")
  reject_if (contains MetadataKey-discrete seen entry.key)
      (invalid_frame path "contains a duplicate key")
  validate_metadata_value entry.key entry.value allow
  metadata_entries path allow (entry.key ∷ seen) entries

unfoldable pub validate_metadata : String → List (Option Metadata) → Bool → Option Error
unfolding metadata_entries
validate_metadata path entries allow_session_assertion = do
  reject_if (ltb max_metadata_entries (length entries)) (invalid_frame path "has too many entries")
  metadata_entries path allow_session_assertion [] entries
