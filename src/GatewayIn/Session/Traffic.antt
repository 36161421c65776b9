-- ===== src/GatewayIn/Session/Traffic.antt =====
-- The frames of a tunnel in session.go: what may be queued for the peer, and what the reader does
-- with a frame of the peer. `size_in` and `size_out` are `proto.Size`. The reader holds one frame at
-- a time, and no other goroutine runs between the steps of its handling.
use marketmesh.Prelude.{
  ℕ, Bool, true, false, not, ◌||◌, Option, some, none, List, [], ◌∷◌, ltb, ◌==◌, if◌then◌else◌,
  length, ◌>>◌, reject_if,
}
use marketmesh.Protocol.Enums.{TrafficClass}
use marketmesh.Protocol.Errors.{Error}
use marketmesh.Protocol.Messages.{
  Bytes, FrameHeader, Metadata, InPayload, OutPayload, ConnectRequest, ConnectResponse,
}
use marketmesh.Protocol.Bounds.{protocol_version}
use marketmesh.Protocol.Payloads.{ProtoRuntime, ℤ, pos, negsuc}
use marketmesh.Protocol.Validate.{validate_gateway_in_frame}
use marketmesh.GatewayIn.Errors.{
  TunnelError, tunnel_closed, protocol_violation, queue_full, violation_of, canceled,
  deadline_exceeded,
}
use marketmesh.GatewayIn.Request.{Request, complete_local_abort}
use marketmesh.GatewayIn.Request.Sending.{Sent, grant_receive_credit}
use marketmesh.GatewayIn.Request.Inbound.{
  Inbound, returns, grants, handle_inbound, data_payload, credit_bytes, result_metadata,
}
use marketmesh.GatewayIn.Scheduler.{enqueue}
use marketmesh.GatewayIn.Session.{Session, Entry, find_entry, same_bytes}
use marketmesh.GatewayIn.Session.Requests.{is_empty}

unfoldable pub tunnel_id_of : Option FrameHeader → Bytes
tunnel_id_of none = []
tunnel_id_of (some h) = h.tunnel_id

unfoldable pub request_id_of : Option FrameHeader → Bytes
request_id_of none = []
request_id_of (some h) = h.request_id

-- `GetData().GetPayload()` and `GetCredit().GetBytes()`: a frame of another type has none.
unfoldable pub in_data : Option InPayload → Bytes
unfolding data_payload
in_data (some (InPayload.data_frame d)) = data_payload d
in_data _ = []

unfoldable pub in_credit : Option InPayload → ℕ
unfolding credit_bytes
in_credit (some (InPayload.credit c)) = credit_bytes c
in_credit _ = 0

unfoldable pub out_data : Option OutPayload → Bytes
unfolding data_payload
out_data (some (OutPayload.data_frame d)) = data_payload d
out_data _ = []

unfoldable pub out_credit : Option OutPayload → ℕ
unfolding credit_bytes
out_credit (some (OutPayload.credit c)) = credit_bytes c
out_credit _ = 0

unfoldable pub out_metadata : Option OutPayload → List (Option Metadata)
unfolding result_metadata
out_metadata (some (OutPayload.result r)) = result_metadata r
out_metadata _ = []

unfoldable pub is_hello : Option OutPayload → Bool
is_hello (some (OutPayload.hello h)) = true
is_hello _ = false

unfoldable pub metadata_too_long : ℕ → Option Metadata → Bool
metadata_too_long most none = true
metadata_too_long most (some m) = ltb most (length m.value)

-- The loop over the metadata of a result.
unfoldable pub any_too_long : ℕ → List (Option Metadata) → Bool
unfolding metadata_too_long
any_too_long most [] = false
any_too_long most (m ∷ ms) = metadata_too_long most m || any_too_long most ms

-- The payloads that `enqueueControl` knows.
unfoldable pub is_control_payload : InPayload → Bool
is_control_payload (InPayload.ping p) = true
is_control_payload (InPayload.pong p) = true
is_control_payload (InPayload.drain p) = true
is_control_payload _ = false

unfoldable pub control_frame : Bytes → InPayload → ConnectResponse
control_frame tunnel_id payload = record {
  header = some (record {
    protocol_version = protocol_version;
    tunnel_id = tunnel_id;
    request_id = [];
    sequence = 0;
    traffic_class = TrafficClass.unspecified;
  });
  payload = some payload;
}

-- `ctx.Err()` of the session's context.
unfoldable pub session_ctx : Session → Option TunnelError
session_ctx s = if s.ctx_done then some canceled else none

-- What `markDraining` returns: an error, or whether the drain is to finish at once.
pub data Marked : Type 0 where
  unmarked : TunnelError → Marked
  marked : Bool → Session → Marked

-- `remaining` is `time.Until(deadline)`.
unfoldable pub mark_draining : ℤ → Bool → Session → Marked
unfolding is_empty
mark_draining (negsuc n) local s = unmarked deadline_exceeded
mark_draining (pos n) local s =
    if n == 0
    then unmarked deadline_exceeded
    else if s.is_closed
    then unmarked tunnel_closed
    else marked (is_empty s.requests) (record s {
      is_draining = true;
      local_drain = s.local_drain || local;
      drain_timer = some n;
    })

-- A write through the pointer that the map of requests has at an id.
unfoldable pub store_request : Bytes → Request → List Entry → List Entry
unfolding same_bytes
store_request id r [] = []
store_request id r (e ∷ es) =
    let rest = store_request id r es in
    if same_bytes e.request.id id then record e { request = r } ∷ es else e ∷ rest

-- The request of a frame: one in flight, or a tombstone.
pub data Found : Type 0 where
  in_flight tombstone : Entry → Found
  nothing : Found

unfoldable pub find_request : Bytes → Session → Found
unfolding find_entry
find_request id s = elim (find_entry id s.requests) [
  | some e ↦ in_flight e
  | none ↦ elim (s.tombstones id) [ some e ↦ tombstone e | none ↦ nothing ]
]

-- What an error of a request does to it.
unfoldable pub abort_full : Option TunnelError → Request → Request
unfolding complete_local_abort
abort_full (some queue_full) r = complete_local_abort queue_full r
abort_full _ r = r

-- The checks that follow the validation of a frame.
unfoldable pub after_validation : Option Error → Option TunnelError → Option TunnelError
after_validation (some e) checks = some (violation_of e)
after_validation none checks = checks

module _ (rt : ProtoRuntime) (size_in : ConnectResponse → ℕ) where
  unfoldable pub frame_error : Session → ConnectResponse → Option TunnelError
  unfolding same_bytes tunnel_id_of in_data in_credit after_validation
  frame_error s frame =
      if s.is_closed
      then some tunnel_closed
      else after_validation (validate_gateway_in_frame rt (some frame)) (do
        reject_if (not (same_bytes (tunnel_id_of frame.header) s.id)) protocol_violation
        reject_if (ltb s.limits.max_frame_bytes (size_in frame)) queue_full
        reject_if (ltb s.limits.max_data_bytes (length (in_data frame.payload))) queue_full
        reject_if (ltb s.limits.max_credit_bytes (in_credit frame.payload)) protocol_violation)

  unfoldable pub enqueue_frame :
      Option TunnelError → Session → ConnectResponse → Session × Option TunnelError
  unfolding frame_error enqueue
  enqueue_frame ctx s frame = elim (frame_error s frame) [
    | some e ↦ (s, some e)
    | none ↦
        (let (q, failure) = enqueue ctx s.outbound frame in (record s { outbound = q }, failure))
  ]

  unfoldable pub enqueue_control :
      Option TunnelError → InPayload → Session → Session × Option TunnelError
  unfolding enqueue_frame control_frame is_control_payload
  enqueue_control ctx payload s =
      if is_control_payload payload
      then enqueue_frame ctx s (control_frame s.id payload)
      else (s, some protocol_violation)

  -- The grant that `request.handleInbound` may end with.
  unfoldable pub after_request : Session → Request × Inbound → Sent Session
  unfolding grant_receive_credit enqueue_frame session_ctx
  after_request s (r, returns failure) = record { queue = s; request = r; failure = failure }
  after_request s (r, grants n) = grant_receive_credit enqueue_frame s.id n (session_ctx s) s r

  -- `request.handleInbound` as a whole, with the session that it leaves.
  unfoldable pub request_inbound : ConnectRequest → Session → Request → Sent Session
  unfolding handle_inbound after_request
  request_inbound frame s r = after_request s (handle_inbound frame r)
