-- ===== src/GatewayIn/Request.antt =====
-- backend/services/gateway-in/internal/tunnel/request.go: the state of one logical request, with
-- its credits in both directions. A method returns the new state; each takes the request's lock
-- once, and `handleInbound`, which drops it before it grants credit, is two functions. The
-- `done` channel is closed when `is_completed` is set; the deadline, the start time and the signal of
-- new credit are left out. Credits and sizes are Go's int, unbounded
-- here; sequence numbers are uint64.
pub mod Sending
pub mod Inbound
pub mod Flow
pub mod Fresh
pub mod Runs
pub mod Credit
pub mod Sequence
use marketmesh.Prelude.{
  ℕ, zero, suc, ◌+◌, ◌-◌, ◌*◌, ◌/◌, ◌%◌, ◌^◌, ◌≤◌, ◌<◌, min, String, ◌≡◌, refl, sym, ap, ◌∙◌, ◌≢◌,
  ◌↔◌, ◌⊎◌, inl, inr, ite, Bool, true, false, not, ◌&&◌, ◌||◌, Option, some, none, List, [], ◌∷◌,
  ◌++◌, map, arith, ℕ_discrete, ltb, leb, ◌==◌, if◌then◌else◌, ==_iff, ite_iff, unless_iff,
  or_false, not-false, not-eq-true, and_true, Bool-cases, at_most, within, equals, positive, both,
  negated, excluded, Option-cases, List-cases, length, get_or, take, drop, All, Distinct,
  length-append, length-take, length-drop, take-append-drop, contains, All-map, All-zip,
  contains_iff, take-append, drop-append, drop-field, take-all, drop_past, get_or_past, get_or_at,
  ◌>>◌, reject_if, >>-eq-none, reject_if-eq-none, seq_accepts, reject_accepts,
}
use marketmesh.Protocol.Enums.{TrafficClass, RouteId, ResultCode, CancelReason}
use marketmesh.Protocol.Messages.{Bytes, FrameHeader, Metadata, InPayload, ConnectResponse}
use marketmesh.Protocol.Bounds.{protocol_version}
use marketmesh.GatewayIn.Errors.{TunnelError, tunnel_closed, protocol_violation}

pub record RoutePolicy : Type 0 where
  pub traffic_class : TrafficClass
  pub max_request_bytes : ℕ
  pub max_response_bytes : ℕ
  pub max_in_flight : ℕ
  pub max_deadline : ℕ

pub record Response : Type 0 where
  pub payload : Bytes
  pub metadata : List (Option Metadata)

abbrev pub empty_response : Response
empty_response = record { payload = []; metadata = [] }

pub record Request : Type 0 where
  pub id : Bytes
  pub route : RouteId
  pub policy : RoutePolicy
  pub outbound_sequence : ℕ
  pub inbound_sequence : ℕ
  pub send_credit : ℕ
  pub receive_credit : ℕ
  pub response_payload : Bytes
  pub is_response_closed : Bool
  pub is_completed : Bool
  pub accept_response_tail : Bool
  pub tail_terminal : Bool
  pub tail_response_size : ℕ
  pub response : Response
  pub err : Option TunnelError

unfoldable pub new_logical_request : Bytes → RouteId → RoutePolicy → Request
new_logical_request id route policy = record {
  id = id;
  route = route;
  policy = policy;
  outbound_sequence = 0;
  inbound_sequence = 0;
  send_credit = 0;
  receive_credit = 0;
  response_payload = [];
  is_response_closed = false;
  is_completed = false;
  accept_response_tail = false;
  tail_terminal = false;
  tail_response_size = 0;
  response = empty_response;
  err = none;
}

abbrev pub max_uint64 : ℕ
max_uint64 = 2 ^ 64 - 1

unfoldable pub next_sequence : ℕ → ℕ
next_sequence n = (n + 1) % 2 ^ 64

-- `completeLocked`: the first outcome stays.
unfoldable pub complete_locked : Response → Option TunnelError → Request → Request
complete_locked response err r =
    if r.is_completed then r else record r { is_completed = true; response = response; err = err }

-- `complete` takes the lock round `completeLocked`.
unfoldable pub complete : Response → Option TunnelError → Request → Request
unfolding complete_locked
complete response err r = complete_locked response err r

unfoldable pub complete_local_abort : TunnelError → Request → Request
unfolding complete_locked
complete_local_abort err r =
    if r.is_completed
    then r
    else complete_locked empty_response (some err)
        (record r { accept_response_tail = true; tail_response_size = length r.response_payload })

unfoldable pub compact_for_tombstone : Request → Request
compact_for_tombstone r = record r { response_payload = []; response = empty_response }

unfoldable pub completed_error : Request → TunnelError
completed_error r = elim r.err [ some e ↦ e | none ↦ tunnel_closed ]

-- The payloads that `enqueuePayloadLocked` knows.
unfoldable pub is_request_payload : InPayload → Bool
is_request_payload (InPayload.open_frame p) = true
is_request_payload (InPayload.data_frame p) = true
is_request_payload (InPayload.half_close p) = true
is_request_payload (InPayload.cancel p) = true
is_request_payload (InPayload.credit p) = true
is_request_payload _ = false

-- The frame under the request's header.
unfoldable pub request_frame : Bytes → Request → ℕ → InPayload → ConnectResponse
request_frame tunnel_id r sequence payload = record {
  header = some (record {
    protocol_version = protocol_version;
    tunnel_id = tunnel_id;
    request_id = r.id;
    sequence = sequence;
    traffic_class = r.policy.traffic_class;
  });
  payload = some payload;
}
