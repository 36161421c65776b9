-- ===== src/Protocol/Payloads/Spec.antt =====
-- What the payload checks accept.
use marketmesh.Prelude.{
  ◌≤◌, ◌<◌, String, ◌≡◌, refl, ◌≢◌, ◌↔◌, true, false, not, ◌&&◌, ◌||◌, Option, some, none, arith,
  ite_iff, not-false, at_most, within, both, negated, excluded, length, seq_accepts, reject_accepts,
}
use marketmesh.Protocol.Enums.{
  TrafficClass, TrafficClass-discrete, RouteId, known_route, ResultCode, ResultCode-discrete,
  known_result_code, DrainReason, DrainReason-discrete, known_drain_reason,
}
use marketmesh.Protocol.Messages.{Timestamp, Duration, Open, Data, Result, Credit, Drain}
use marketmesh.Protocol.Bounds.{
  max_data_bytes, max_credit_bytes, max_idempotency_key_bytes, max_retry_after,
}
use marketmesh.Protocol.Headers.{is_class}
use marketmesh.Protocol.Hello.Spec.{Present, bad_route_iff}
use marketmesh.Protocol.Metadata.Spec.{MetadataOk, validate_metadata-none}
use marketmesh.Protocol.Routes.{route_traffic_class}
use marketmesh.Protocol.Payloads.{
  ℤ, pos, negsuc, ProtoRuntime, validate_timestamp, outside_retry, validate_duration, validate_open,
  validate_data, has_duration, validate_retry_after, is_result, validate_result, validate_credit,
  validate_drain,
}

-- Of the runtime's timestamps, the ones that it calls valid.
abbrev pub TimestampOk : ProtoRuntime → Option Timestamp → Type 0
TimestampOk rt = Present (λ t. rt.timestamp_valid t ≡ true)

timestamp_accepts :
    (rt : ProtoRuntime) (field : String) (t : Option Timestamp)
    → (validate_timestamp rt field t ≡ none) ↔ TimestampOk rt t
unfolding validate_timestamp
timestamp_accepts rt field none = (λ h. cc, λ h. absurd h)
timestamp_accepts rt field (some t) = reject_accepts _ _ (not-false (rt.timestamp_valid t))

-- An Open of class `class` that is accepted: its route is declared and of that class.
pub record OpenOk (rt : ProtoRuntime) (class : TrafficClass) (o : Open) : Type 0 where
  pub route_known : known_route o.route_id ≡ true
  pub route_specified : o.route_id ≢ RouteId.unspecified
  pub class_matches : class ≡ route_traffic_class o.route_id
  pub deadline : TimestampOk rt o.deadline
  pub key_bytes : length o.idempotency_key ≤ max_idempotency_key_bytes
  pub metadata : MetadataOk true o.metadata

pub is_class_iff : (a b : TrafficClass) → (is_class a b ≡ true) ↔ (a ≡ b)
unfolding is_class
is_class_iff a b = ite_iff (TrafficClass-discrete a b)

-- An Open is accepted exactly when it is present and fits its class, with a valid deadline, an
-- idempotency key of at most 128 bytes, and metadata that may hold a session assertion.
pub validate_open-none :
    (rt : ProtoRuntime) (class : TrafficClass) (o : Option Open)
    → (validate_open rt class o ≡ none) ↔ Present (OpenOk rt class) o
unfolding validate_open
validate_open-none rt class none = (λ h. cc, λ h. absurd h)
validate_open-none rt class (some o) =
    let t = seq_accepts _ _ (reject_accepts _ _ (bad_route_iff o.route_id)) (
      seq_accepts _ _
        (reject_accepts _ _ (negated _ (is_class_iff class (route_traffic_class o.route_id))))
        (seq_accepts _ _ (timestamp_accepts rt _ o.deadline) (
          seq_accepts _ _
            (reject_accepts _ _ (at_most (length o.idempotency_key) max_idempotency_key_bytes))
            (validate_metadata-none _ o.metadata true)))) in
    (
      λ h.
          let ((k, u), (c, (d, (b, m)))) = t.0 h in
          record {
            route_known = k;
            route_specified = u;
            class_matches = c;
            deadline = d;
            key_bytes = b;
            metadata = m;
          },
      λ h. t.1 (
        (h.route_known, h.route_specified),
        (h.class_matches, (h.deadline, (h.key_bytes, h.metadata))),
      ),
    )

-- A retry hint: a valid duration of more than zero and at most five minutes.
abbrev pub IsHint : ℤ → Type 0
IsHint (pos n) = (0 < n) × (n ≤ max_retry_after)
IsHint (negsuc n) = ⊥

abbrev pub RetryOk : ProtoRuntime → Option Duration → Type 0
RetryOk rt none = Unit
RetryOk rt (some d) = (rt.duration_valid d ≡ true) × IsHint (rt.as_duration d)

IsHint-accepts : (z : ℤ) → (outside_retry z ≡ false) ↔ IsHint z
unfolding outside_retry
IsHint-accepts (pos n) = within n max_retry_after
IsHint-accepts (negsuc n) = (λ h. cc, λ h. absurd h)

retry_accepts :
    (rt : ProtoRuntime) (d : Option Duration) → (validate_retry_after rt d ≡ none) ↔ RetryOk rt d
unfolding validate_retry_after validate_duration
retry_accepts rt none = (λ h. tt, λ h. refl)
retry_accepts rt (some d) =
    seq_accepts _ _ (reject_accepts _ _ (not-false (rt.duration_valid d)))
      (reject_accepts _ _ (IsHint-accepts (rt.as_duration d)))

pub record ResultOk (rt : ProtoRuntime) (r : Result) : Type 0 where
  pub code_known : known_result_code r.code ≡ true
  pub code_specified : r.code ≢ ResultCode.unspecified
  pub no_retry_of_success : r.code ≡ ResultCode.ok → r.retry_after ≡ none
  pub retry : RetryOk rt r.retry_after
  pub metadata : MetadataOk false r.metadata

code_accepts :
    (c : ResultCode)
    → ((not (known_result_code c) || is_result c ResultCode.unspecified) ≡ false)
      ↔ ((known_result_code c ≡ true) × (c ≢ ResultCode.unspecified))
unfolding is_result
code_accepts c =
    both _ _ (not-false (known_result_code c))
      (excluded (ResultCode-discrete c ResultCode.unspecified))

retry_of_success :
    (c : ResultCode) (d : Option Duration)
    → ((is_result c ResultCode.ok && has_duration d) ≡ false) ↔ (c ≡ ResultCode.ok → d ≡ none)
unfolding is_result has_duration
retry_of_success c none = (λ h e. refl, λ h. ground arith)
retry_of_success c (some d) = (λ h e. ground arith, λ h. ground (arith, h))

-- A Result is accepted exactly when it is present, its code is declared, success carries no retry
-- hint, a hint is in (0, 5 min], and its metadata hold no session assertion.
pub validate_result-none :
    (rt : ProtoRuntime) (r : Option Result)
    → (validate_result rt r ≡ none) ↔ Present (ResultOk rt) r
unfolding validate_result
validate_result-none rt none = (λ h. cc, λ h. absurd h)
validate_result-none rt (some r) =
    let t = seq_accepts _ _ (reject_accepts _ _ (code_accepts r.code)) (
      seq_accepts _ _ (reject_accepts _ _ (retry_of_success r.code r.retry_after)) (
        seq_accepts _ _ (retry_accepts rt r.retry_after)
          (validate_metadata-none _ r.metadata false))) in
    (
      λ h.
          let ((k, u), (n, (d, m))) = t.0 h in
          record {
            code_known = k;
            code_specified = u;
            no_retry_of_success = n;
            retry = d;
            metadata = m;
          },
      λ h. t.1 ((h.code_known, h.code_specified), (h.no_retry_of_success, (h.retry, h.metadata))),
    )

pub validate_data-none :
    (d : Option Data)
    → (validate_data d ≡ none)
      ↔ Present (λ d. (0 < length d.payload) × (length d.payload ≤ max_data_bytes)) d
unfolding validate_data
validate_data-none none = (λ h. cc, λ h. absurd h)
validate_data-none (some d) = reject_accepts _ _ (within (length d.payload) max_data_bytes)

pub validate_credit-none :
    (c : Option Credit)
    → (validate_credit c ≡ none) ↔ Present (λ c. (0 < c.bytes) × (c.bytes ≤ max_credit_bytes)) c
unfolding validate_credit
validate_credit-none none = (λ h. cc, λ h. absurd h)
validate_credit-none (some c) = reject_accepts _ _ (within c.bytes max_credit_bytes)

abbrev pub DrainOk : ProtoRuntime → Drain → Type 0
DrainOk rt d =
    TimestampOk rt d.deadline
    × ((known_drain_reason d.reason ≡ true) × (d.reason ≢ DrainReason.unspecified))

pub validate_drain-none :
    (rt : ProtoRuntime) (d : Option Drain) → (validate_drain rt d ≡ none) ↔ Present (DrainOk rt) d
unfolding validate_drain
validate_drain-none rt none = (λ h. cc, λ h. absurd h)
validate_drain-none rt (some d) = seq_accepts _ _ (timestamp_accepts rt _ d.deadline) (
    reject_accepts _ _ (
      both _ _ (not-false (known_drain_reason d.reason))
        (excluded (DrainReason-discrete d.reason DrainReason.unspecified))))
