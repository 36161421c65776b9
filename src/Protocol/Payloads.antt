-- ===== src/Protocol/Payloads.antt =====
-- The payload checks of backend/api/tunnel/v1/validate.go other than Hello and metadata.
pub mod Spec
use marketmesh.Prelude.{
  ℕ, zero, suc, ◌+◌, ◌-◌, ◌*◌, ◌/◌, ◌%◌, ◌^◌, ◌≤◌, ◌<◌, min, String, ◌≡◌, refl, sym, ap, ◌∙◌, ◌≢◌,
  ◌↔◌, ◌⊎◌, inl, inr, ite, Bool, true, false, not, ◌&&◌, ◌||◌, Option, some, none, List, [], ◌∷◌,
  ◌++◌, map, arith, ℕ_discrete, ltb, leb, ◌==◌, if◌then◌else◌, ==_iff, Bool-cases, Option-cases,
  length, get_or, take, drop, All, Distinct, length-append, length-take, length-drop,
  take-append-drop, contains, All-map, All-zip, contains_iff, ◌>>◌, reject_if, >>-eq-none,
  reject_if-eq-none, seq_accepts, reject_accepts,
}
use marketmesh.Protocol.Enums.{
  TrafficClass, TrafficClass-discrete, RouteId, CancelReason, CancelReason-discrete,
  known_cancel_reason, ResultCode, ResultCode-discrete, known_result_code, DrainReason,
  DrainReason-discrete, known_drain_reason,
}
use marketmesh.Protocol.Errors.{Error, invalid_frame}
use marketmesh.Protocol.Messages.{
  Timestamp, Duration, Open, Data, HalfClose, Cancel, Result, Credit, Ping, Pong, Drain,
  RevokeSession, ConnectRequest, ConnectResponse,
}
use marketmesh.Protocol.Bounds.{
  max_data_bytes, max_credit_bytes, max_idempotency_key_bytes, max_retry_after, id_bytes,
}
use marketmesh.Protocol.Headers.{is_class}
use marketmesh.Protocol.Hello.{bad_route}
use marketmesh.Protocol.Metadata.{validate_metadata}
use marketmesh.Protocol.Routes.{route_traffic_class}
use marketmesh.Protocol.Reflect.{Message}

-- A signed number: `negsuc n` is -(n + 1).
pub data ℤ : Type 0 where
  pos : ℕ → ℤ
  negsuc : ℕ → ℤ

-- The protobuf runtime: `CheckValid() == nil` of the well-known types, `AsDuration` in
-- nanoseconds, and the tree that `ProtoReflect` shows of a frame.
pub record ProtoRuntime : Type 0 where
  pub timestamp_valid : Timestamp → Bool
  pub duration_valid : Duration → Bool
  pub as_duration : Duration → ℤ
  pub reflect_request : ConnectRequest → Message
  pub reflect_response : ConnectResponse → Message

unfoldable pub validate_timestamp : ProtoRuntime → String → Option Timestamp → Option Error
validate_timestamp rt field none =
    some (invalid_frame field "is required and must be a valid UTC timestamp")
validate_timestamp rt field (some timestamp) =
    reject_if (not (rt.timestamp_valid timestamp))
      (invalid_frame field "is required and must be a valid UTC timestamp")

-- `value <= 0 || value > MaxRetryAfter`.
unfoldable pub outside_retry : ℤ → Bool
outside_retry (pos n) = n == 0 || ltb max_retry_after n
outside_retry (negsuc n) = true

unfoldable pub validate_duration : ProtoRuntime → String → Duration → Option Error
unfolding outside_retry
validate_duration rt field duration = do
  reject_if (not (rt.duration_valid duration)) (invalid_frame field "must be valid")
  reject_if (outside_retry (rt.as_duration duration)) (invalid_frame field "is outside v1 bounds")

unfoldable pub validate_open : ProtoRuntime → TrafficClass → Option Open → Option Error
unfolding bad_route is_class validate_timestamp
validate_open rt class none = some (invalid_frame "open" "is required")
validate_open rt class (some open_) = do
  reject_if (bad_route open_.route_id) (invalid_frame "open.route_id" "is unknown or unspecified")
  reject_if (not (is_class class (route_traffic_class open_.route_id)))
      (invalid_frame "header.traffic_class" "does not match route policy")
  validate_timestamp rt "open.deadline" open_.deadline
  reject_if (ltb max_idempotency_key_bytes (length open_.idempotency_key))
      (invalid_frame "open.idempotency_key" "exceeds v1 limit")
  validate_metadata "open.metadata" open_.metadata true

unfoldable pub validate_data : Option Data → Option Error
validate_data none = some (invalid_frame "data" "is required")
validate_data (some d) =
    reject_if (length d.payload == 0 || ltb max_data_bytes (length d.payload))
      (invalid_frame "data.payload" "is empty or exceeds v1 limit")

unfoldable pub validate_half_close : Option HalfClose → Option Error
validate_half_close none = some (invalid_frame "half_close" "is required")
validate_half_close (some h) = none

unfoldable pub validate_cancel : Option Cancel → Option Error
unfolding known_cancel_reason CancelReason-discrete
validate_cancel none = some (invalid_frame "cancel" "is required")
validate_cancel (some c) =
    reject_if
      (not (known_cancel_reason c.reason)
        || ite (CancelReason-discrete c.reason CancelReason.unspecified) true false)
      (invalid_frame "cancel.reason" "is unknown or unspecified")

unfoldable pub has_duration : Option Duration → Bool
has_duration none = false
has_duration (some d) = true

unfoldable pub validate_retry_after : ProtoRuntime → Option Duration → Option Error
unfolding validate_duration
validate_retry_after rt none = none
validate_retry_after rt (some d) = validate_duration rt "result.retry_after" d

unfoldable pub is_result : ResultCode → ResultCode → Bool
unfolding ResultCode-discrete
is_result a b = ite (ResultCode-discrete a b) true false

unfoldable pub validate_result : ProtoRuntime → Option Result → Option Error
unfolding known_result_code is_result has_duration validate_retry_after
validate_result rt none = some (invalid_frame "result" "is required")
validate_result rt (some r) = do
  reject_if (not (known_result_code r.code) || is_result r.code ResultCode.unspecified)
      (invalid_frame "result.code" "is unknown or unspecified")
  reject_if (is_result r.code ResultCode.ok && has_duration r.retry_after)
      (invalid_frame "result.retry_after" "must be absent for success")
  validate_retry_after rt r.retry_after
  validate_metadata "result.metadata" r.metadata false

unfoldable pub validate_credit : Option Credit → Option Error
validate_credit none = some (invalid_frame "credit" "is required")
validate_credit (some c) =
    reject_if (c.bytes == 0 || ltb max_credit_bytes c.bytes)
      (invalid_frame "credit.bytes" "is outside v1 bounds")

unfoldable pub validate_ping : Option Ping → Option Error
validate_ping none = some (invalid_frame "ping.nonce" "must be positive")
validate_ping (some p) = reject_if (p.nonce == 0) (invalid_frame "ping.nonce" "must be positive")

unfoldable pub validate_pong : Option Pong → Option Error
validate_pong none = some (invalid_frame "pong.nonce" "must be positive")
validate_pong (some p) = reject_if (p.nonce == 0) (invalid_frame "pong.nonce" "must be positive")

unfoldable pub validate_drain : ProtoRuntime → Option Drain → Option Error
unfolding validate_timestamp known_drain_reason DrainReason-discrete
validate_drain rt none = some (invalid_frame "drain" "is required")
validate_drain rt (some d) = do
  validate_timestamp rt "drain.deadline" d.deadline
  reject_if
      (not (known_drain_reason d.reason)
        || ite (DrainReason-discrete d.reason DrainReason.unspecified) true false)
      (invalid_frame "drain.reason" "is unknown or unspecified")

unfoldable pub validate_revoke_session : Option RevokeSession → Option Error
validate_revoke_session none = some (invalid_frame "revoke_session.session_id" "must be 16 bytes")
validate_revoke_session (some r) =
    reject_if (not (length r.session_id == id_bytes))
      (invalid_frame "revoke_session.session_id" "must be 16 bytes")
