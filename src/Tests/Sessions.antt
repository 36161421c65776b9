-- ===== src/Tests/Sessions.antt =====
-- The theorems on tunnels, at a tunnel with one request.
use marketmesh.Prelude.{ℕ, ◌≡◌, refl, ◌↔◌, Option, some, none, [], ◌∷◌, arith}
use marketmesh.Protocol.Enums.{RouteId, TrafficClass, Capability}
use marketmesh.Protocol.Messages.{Bytes, Timestamp, InPayload, ConnectRequest, ConnectResponse}
use marketmesh.Protocol.Payloads.{ℤ, pos}
use marketmesh.GatewayIn.Request.{RoutePolicy, new_logical_request}
use marketmesh.Protocol.Validate.{validate_gateway_in_frame}
use marketmesh.Protocol.Reflect.{reject_unknown_fields}
use marketmesh.Protocol.Headers.{validate_tunnel_header}
use marketmesh.Protocol.Payloads.{validate_ping}
use marketmesh.GatewayIn.Scheduler.{queue_lane}
use marketmesh.GatewayIn.Handshake.{Negotiation}
use marketmesh.GatewayIn.Session.{Session, Entry, new_session, become_ready}
use marketmesh.GatewayIn.Session.Requests.{
  start_request, opened, new_entry, add_request, effective_policy, add_tombstone, finish_request,
}
use marketmesh.GatewayIn.Session.Ring.{RingOk, recent, remember, recent-add_tombstone}
use marketmesh.GatewayIn.Session.Memory.{add_tombstone-RingOk}
use marketmesh.GatewayIn.Session.Traffic.{enqueue_frame, control_frame}
use marketmesh.GatewayIn.Session.Reading.{validate_inbound}
use marketmesh.GatewayIn.Session.Frames.{
  Sendable, Receivable, Queues, enqueue_frame-Queues, validate_inbound-none,
}
use marketmesh.GatewayIn.Session.Runs.{Reach, ready, begin, finish, here, then_step}
use marketmesh.GatewayIn.Session.Within.{SessionOk, new_session-SessionOk}
use marketmesh.GatewayIn.Session.Bounded.{session_bounded}
use marketmesh.GatewayIn.Session.Over.{Over}
use marketmesh.Prelude.{true}
use marketmesh.GatewayIn.Session.{fail_begins}
use marketmesh.GatewayIn.Session.Reading.{handle_read_error}
use marketmesh.Tests.Samples.{id16, limits, runtime, result_request}
use marketmesh.Tests.Queues.{queue_limits}

abbrev size_in : ConnectResponse → ℕ
size_in frame = 40

abbrev size_out : ConnectRequest → ℕ
size_out frame = 40

abbrev until : Option Timestamp → ℤ
until deadline = pos 1000

abbrev policies : RouteId → RoutePolicy
policies route = record {
  traffic_class = TrafficClass.control_auth;
  max_request_bytes = 65536;
  max_response_bytes = 65536;
  max_in_flight = 8;
  max_deadline = 10;
}

-- One request at a time, and one tombstone.
abbrev negotiated : Negotiation
negotiated = record {
  limits = record limits { max_in_flight_requests = 1 };
  routes = RouteId.auth_start_login ∷ [];
  classes = TrafficClass.control_auth ∷ [];
  capabilities = Capability.drain ∷ [];
}

abbrev fresh : Session
fresh = new_session queue_limits id16 negotiated

abbrev up : Session
up = become_ready 5 fresh

abbrev random : ℕ → Option Bytes
random round = some id16

abbrev first_entry : Entry
first_entry =
    new_entry id16 RouteId.auth_start_login
      (effective_policy up (policies RouteId.auth_start_login)) up

abbrev busy : Session
busy = add_request first_entry up

begins :
    start_request random RouteId.auth_start_login (policies RouteId.auth_start_login) 100 up
    ≡ opened busy first_entry
unfolding start_request become_ready new_session
begins = refl

abbrev idle : Session
idle = (finish_request id16 0 busy).0

idle-Reach : Reach runtime size_in size_out until policies fresh idle
idle-Reach =
    then_step
      (then_step (then_step here (ready 5 fresh))
        (begin random RouteId.auth_start_login 100 up busy first_entry begins))
      (finish id16 0 busy)

session_bounded_example : SessionOk policies idle
session_bounded_example =
    session_bounded runtime size_in size_out until policies queue_limits id16 negotiated idle
      (omega arith) idle-Reach

-- The stream ends while a request is held, and `fail` is between its critical section and the request.
abbrev closing : Session
closing = fail_begins 0 (handle_read_error true busy)

abbrev second_entry : Entry
second_entry = new_entry (2 ∷ []) RouteId.auth_start_login (policies RouteId.auth_start_login) up

-- The ring of one place is full.
abbrev full : Session
full = add_tombstone first_entry fresh

fresh-RingOk : RingOk fresh
fresh-RingOk = (new_session-SessionOk policies queue_limits id16 negotiated (omega arith)).ring

full-RingOk : RingOk full
unfolding new_session
full-RingOk = add_tombstone-RingOk first_entry fresh fresh-RingOk refl

recent-add_tombstone_example :
    recent (add_tombstone second_entry full) ≡ remember 1 (2 ∷ []) (id16 ∷ [])
unfolding recent add_tombstone new_session new_logical_request
recent-add_tombstone_example = recent-add_tombstone second_entry full full-RingOk

add_tombstone-RingOk_example : RingOk (add_tombstone second_entry full)
unfolding add_tombstone new_session new_logical_request
add_tombstone-RingOk_example = add_tombstone-RingOk second_entry full full-RingOk refl

abbrev ping_frame : ConnectResponse
ping_frame = control_frame id16 (InPayload.ping (some (record { nonce = 7 })))

sent : (enqueue_frame runtime size_in none up ping_frame).1 ≡ none
unfolding enqueue_frame become_ready new_session control_frame validate_gateway_in_frame
    reject_unknown_fields validate_tunnel_header validate_ping queue_lane
sent = refl

enqueue_frame-Queues_example :
    Sendable runtime size_in size_out until up ping_frame
    × Queues runtime size_in size_out until up ping_frame
        (enqueue_frame runtime size_in none up ping_frame).0
enqueue_frame-Queues_example =
    enqueue_frame-Queues runtime size_in size_out until none up ping_frame sent

validate_inbound-none_example :
    (validate_inbound runtime size_in size_out until up result_request ≡ none)
    ↔ Receivable runtime size_in size_out until up result_request
validate_inbound-none_example =
    validate_inbound-none runtime size_in size_out until up result_request
