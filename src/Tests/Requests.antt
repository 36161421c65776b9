-- ===== src/Tests/Requests.antt =====
-- The theorems on requests, at a request of a scheduler's queue.
use marketmesh.Prelude.{◌+◌, ◌≤◌, ◌≡◌, refl, true, false, some, none, [], ◌∷◌, arith, length}
use marketmesh.Protocol.Enums.{RouteId, TrafficClass}
use marketmesh.Protocol.Messages.{Data, OutPayload, InPayload, ConnectRequest}
use marketmesh.GatewayIn.Errors.{canceled, draining}
use marketmesh.Protocol.Validate.{traffic_class_of}
use marketmesh.GatewayIn.Scheduler.{queue_lane, OutboundQueue, new_outbound_queue, enqueue}
use marketmesh.GatewayIn.Request.{
  is_request_payload, Request, RoutePolicy, empty_response, new_logical_request, request_frame,
  next_sequence, complete,
}
use marketmesh.GatewayIn.Request.Sending.{
  cancel_reason, Sent, send_initial_response_credit, enqueue_payload, cancel,
}
use marketmesh.GatewayIn.Request.Inbound.{sequence_of, handle_inbound}
use marketmesh.GatewayIn.Request.Flow.{granted}
use marketmesh.GatewayIn.Request.Runs.{
  Run, initial, Reach, here, then_step, start, flow_within_policy, granted_within_policy,
}
use marketmesh.GatewayIn.Request.Credit.{Accepted, credited_data-Accepted}
use marketmesh.GatewayIn.Request.Sequence.{refused_frame_skips_sequence}
use marketmesh.Tests.Samples.{id16, request_header}
use marketmesh.Tests.Queues.{queue_limits}

abbrev policy : RoutePolicy
policy = record {
  traffic_class = TrafficClass.control_auth;
  max_request_bytes = 1000;
  max_response_bytes = 500;
  max_in_flight = 4;
  max_deadline = 30;
}

abbrev queue : OutboundQueue
queue = new_outbound_queue queue_limits

abbrev three_bytes : Data
three_bytes = record { payload = 7 ∷ 8 ∷ 9 ∷ [] }

abbrev data_request : ConnectRequest
data_request = record {
  header = some request_header;
  payload = some (OutPayload.data_frame (some three_bytes));
}

-- A request that has granted its peer 100 bytes.
abbrev opened : Request
opened =
    (send_initial_response_credit enqueue id16 100 1000 none queue
      (new_logical_request id16 RouteId.auth_start_login policy)).request

abbrev opened_run : Run enqueue id16
opened_run = record { request = opened; pending = 0; started = true }

opened-Reach :
    Reach enqueue id16 (start enqueue id16 id16 RouteId.auth_start_login policy) opened_run
opened-Reach =
    then_step here
      (initial 100 1000 none queue (new_logical_request id16 RouteId.auth_start_login policy) 0)

opened-credit : opened.receive_credit ≡ 100
unfolding send_initial_response_credit new_logical_request enqueue new_outbound_queue queue_lane
    traffic_class_of
opened-credit = refl

opened-uncompleted : opened.is_completed ≡ false
unfolding send_initial_response_credit new_logical_request enqueue new_outbound_queue queue_lane
    traffic_class_of
opened-uncompleted = refl

opened-open : opened.is_response_closed ≡ false
unfolding send_initial_response_credit new_logical_request enqueue new_outbound_queue queue_lane
    traffic_class_of
opened-open = refl

opened-number : sequence_of data_request.header ≡ next_sequence opened.inbound_sequence
unfolding sequence_of send_initial_response_credit new_logical_request enqueue new_outbound_queue
    next_sequence queue_lane traffic_class_of
opened-number = refl

flow_within_policy_example : (opened.send_credit ≤ 1000) × (length opened.response_payload ≤ 500)
flow_within_policy_example =
    flow_within_policy enqueue id16 id16 RouteId.auth_start_login policy opened_run opened-Reach

granted_within_policy_example : opened.receive_credit + 0 + length opened.response_payload ≤ 500
granted_within_policy_example =
    granted_within_policy enqueue id16 id16 RouteId.auth_start_login policy opened_run opened-Reach
      opened-uncompleted

credited_data-Accepted_example : Accepted three_bytes opened (handle_inbound data_request opened)
credited_data-Accepted_example =
    credited_data-Accepted enqueue id16 id16 RouteId.auth_start_login policy opened true
      data_request three_bytes opened-Reach opened-uncompleted opened-open opened-number refl
      (omega (arith, opened-credit))

abbrev failed : Request
failed = complete empty_response (some draining) opened

abbrev failed_run : Run enqueue id16
failed_run = record { request = failed; pending = 0; started = true }

-- The peer's data comes too late.
abbrev late : Request
late = (handle_inbound data_request failed).0

abbrev late_run : Run enqueue id16
late_run = record {
  request = late;
  pending = granted (handle_inbound data_request failed).1;
  started = true;
}

opened-sequence : opened.outbound_sequence ≡ 1
unfolding send_initial_response_credit new_logical_request enqueue new_outbound_queue queue_lane
    traffic_class_of
opened-sequence = refl

abbrev half_close : InPayload
half_close = InPayload.half_close (some tt)

-- The caller's context is over when it would send.
refuses :
    (enqueue
      (some canceled)
      queue
      (request_frame id16 opened (opened.outbound_sequence + 1) half_close)).1
    ≡ some canceled
unfolding enqueue queue_lane traffic_class_of
refuses = refl

half_close-known : is_request_payload half_close ≡ true
unfolding is_request_payload
half_close-known = refl

refused_frame_skips_sequence_example :
    (s : Sent OutboundQueue) × (enqueue_payload enqueue id16 (some canceled) half_close queue opened
      ≡ s)
    × (s.failure ≡ some canceled)
    × ((cancel enqueue id16 canceled none s.queue s.request).queue
        ≡ (enqueue none s.queue (
            request_frame id16 opened
              (opened.outbound_sequence + 2)
              (InPayload.cancel (some (record { reason = cancel_reason canceled }))))).0)
refused_frame_skips_sequence_example =
    refused_frame_skips_sequence enqueue id16 (some canceled) none half_close queue opened canceled
      canceled opened-uncompleted (omega (arith, opened-sequence)) half_close-known refuses
