-- ===== src/GatewayIn/Session/Reading.antt =====
-- The reader, the writer and the timers of session.go. `until` is `time.Until` of a timestamp at the
-- time of the call; the instrumentation is left out.
use marketmesh.Prelude.{
  ℕ, Bool, true, false, not, ◌&&◌, ◌||◌, Option, some, none, ltb, ◌==◌, if◌then◌else◌, length, ◌+◌,
  ◌-◌, ◌∷◌, contains, ◌>>◌, reject_if,
}
use marketmesh.Protocol.Enums.{Capability, Capability-discrete, DrainReason}
use marketmesh.Protocol.Messages.{
  Bytes, Timestamp, Ping, Pong, Drain, InPayload, OutPayload, ConnectRequest, ConnectResponse,
}
use marketmesh.Protocol.Headers.{is_class}
use marketmesh.Protocol.Payloads.{ProtoRuntime, ℤ}
use marketmesh.Protocol.Validate.{validate_gateway_out_frame, traffic_class_of}
use marketmesh.GatewayIn.Errors.{TunnelError, tunnel_closed, protocol_violation, queue_full}
use marketmesh.GatewayIn.Request.{Request}
use marketmesh.GatewayIn.Scheduler.{OutboundQueue, poll}
use marketmesh.GatewayIn.Session.{
  Session, Failure, FailureReason, Announcement, nth, remove_nth, same_bytes, put_tombstone, fail,
  drained_failure, unavailable, invalid_argument, drain_unsupported, drain_enqueue_failed,
  drain_deadline, peer_closed, receive_failed, send_failed, pong_timeout, random_unavailable,
  control_queue_full, internal, resource_exhausted,
}
use marketmesh.GatewayIn.Session.Traffic.{
  tunnel_id_of, request_id_of, out_data, out_credit, out_metadata, is_hello, any_too_long,
  after_validation, Marked, marked, unmarked, mark_draining, store_request, Found, in_flight,
  tombstone, nothing, find_request, abort_full, enqueue_control, request_inbound, session_ctx,
}

abbrev pub violation_failure : Failure
violation_failure = record {
  request_err = tunnel_closed;
  rpc_err = some invalid_argument;
  reason = FailureReason.protocol_violation;
}

abbrev pub unavailable_failure : FailureReason → Failure
unavailable_failure reason = record {
  request_err = tunnel_closed;
  rpc_err = some unavailable;
  reason = reason;
}

abbrev pub closed_failure : Failure
closed_failure = record { request_err = tunnel_closed; rpc_err = none; reason = peer_closed }

abbrev pub draining_failure : FailureReason → Failure
draining_failure reason = record {
  request_err = TunnelError.draining;
  rpc_err = none;
  reason = reason;
}

-- `finish` is true where the stream ended or its context did.
unfoldable pub handle_read_error : Bool → Session → Session
unfolding fail
handle_read_error finish s =
    if finish then fail closed_failure s else fail (unavailable_failure receive_failed) s

-- `found` is what the maps have at the id.
unfoldable pub write_request : Bytes → Found → Request → Session → Session
unfolding store_request put_tombstone
write_request id (in_flight e) r s = record s { requests = store_request id r s.requests }
write_request id (tombstone e) r s = record s {
  tombstones = put_tombstone id (some (record e { request = r })) s.tombstones;
}
write_request id nothing r s = s

abbrev pub request_of : Found → Option Request
request_of (in_flight e) = some e.request
request_of (tombstone e) = some e.request
request_of nothing = none

-- The Pong that the pending Ping asks for.
unfoldable pub receive_pong : Option Pong → Session → Session × Option TunnelError
receive_pong none s = (s, some protocol_violation)
receive_pong (some p) s =
    if s.pending_ping == 0 || not (s.pending_ping == p.nonce)
    then (s, some protocol_violation)
    else (record s { pending_ping = 0; pong_received = true }, none)

unfoldable pub drain_marked : Session → Marked → Session × Option TunnelError
unfolding fail
drain_marked s (unmarked e) = (s, some e)
drain_marked s (marked finish s') = (if finish then fail drained_failure s' else s', none)

unfoldable pub receive_drain : ℤ → Session → Session × Option TunnelError
unfolding contains Capability-discrete mark_draining drain_marked
receive_drain remaining s =
    if not (contains Capability-discrete s.capabilities Capability.drain)
    then (s, some protocol_violation)
    else drain_marked s (mark_draining remaining false s)

unfoldable pub deadline_of : Option Drain → Option Timestamp
deadline_of none = none
deadline_of (some d) = d.deadline

unfoldable pub nonce_of : Option Ping → ℕ
nonce_of none = 0
nonce_of (some p) = p.nonce

unfoldable pub timer_fired : Option ℕ → Session → Session
unfolding fail
timer_fired none s = s
timer_fired (some n) s = fail (draining_failure drain_deadline) s

-- `drainTimer` when it fires.
unfoldable pub drain_expired : Session → Session
unfolding timer_fired
drain_expired s = timer_fired s.drain_timer s

-- `finishLocalDrainAfterSend`.
unfoldable pub start_finish : Session → Session
start_finish s =
    if ltb 0 s.finishers
    then record s {
      finishers = s.finishers - 1;
      drain_once = true;
      finishing = s.finishing || not s.drain_once;
    }
    else s

-- Its goroutine, when the Drain has been sent, and when the context is over.
unfoldable pub finish_after_send : Session → Session
unfolding fail
finish_after_send s =
    if s.finishing && s.drain_sent
    then fail drained_failure (record s { drain_sent = false; finishing = false })
    else s

unfoldable pub finish_canceled : Session → Session
finish_canceled s = if s.finishing && s.ctx_done then record s { finishing = false } else s

unfoldable pub is_drain : Option InPayload → Bool
is_drain (some (InPayload.drain (some d))) = true
is_drain _ = false

abbrev pub Polled : Type 0
Polled = Option (ℕ × ConnectResponse × OutboundQueue)

unfoldable pub written : Bool → Session → Polled → Session × Option ConnectResponse
unfolding fail is_drain
written sent s none = (s, none)
written sent s (some (lane, frame, q)) =
    let s' = record s { outbound = q } in
    if not sent
    then (fail (unavailable_failure send_failed) s', none)
    else (if is_drain frame.payload then record s' { drain_sent = true } else s', some frame)

-- One round of `writeLoop`; `sent` is false where the stream refuses the frame.
unfoldable pub write_one : Bool → Session → Session × Option ConnectResponse
unfolding poll written
write_one sent s = written sent s (poll s.outbound)

abbrev pub random_failure : Failure
random_failure = record {
  request_err = tunnel_closed;
  rpc_err = some internal;
  reason = random_unavailable;
}

abbrev pub saturated_failure : Failure
saturated_failure = record {
  request_err = tunnel_closed;
  rpc_err = some resource_exhausted;
  reason = control_queue_full;
}

unfoldable pub ping_sent : Session × Option TunnelError → Session
unfolding fail
ping_sent (s, none) = s
ping_sent (s, some e) = fail saturated_failure s

module _ (rt : ProtoRuntime) (size_in : ConnectResponse → ℕ) (size_out : ConnectRequest → ℕ)
    (until : Option Timestamp → ℤ) where
  unfoldable pub validate_inbound : Session → ConnectRequest → Option TunnelError
  unfolding is_hello same_bytes tunnel_id_of out_data out_credit out_metadata any_too_long
      after_validation
  validate_inbound s frame = after_validation (validate_gateway_out_frame rt (some frame)) (do
    reject_if (is_hello frame.payload) protocol_violation
    reject_if (ltb s.limits.max_frame_bytes (size_out frame)) protocol_violation
    reject_if (not (same_bytes (tunnel_id_of frame.header) s.id)) protocol_violation
    reject_if (ltb s.limits.max_data_bytes (length (out_data frame.payload))) protocol_violation
    reject_if (ltb s.limits.max_credit_bytes (out_credit frame.payload)) protocol_violation
    reject_if (ltb s.limits.max_metadata_entries (length (out_metadata frame.payload)))
        protocol_violation
    reject_if (any_too_long s.limits.max_metadata_value_bytes (out_metadata frame.payload))
        protocol_violation)

  unfoldable pub deliver :
      ConnectRequest → Found → Option Request → Session → Session × Option TunnelError
  unfolding request_inbound write_request abort_full is_class traffic_class_of request_id_of
  deliver frame found none s = (s, some protocol_violation)
  deliver frame found (some r) s =
      let sent = request_inbound rt size_in frame s r in
      if not (is_class (traffic_class_of frame.header) r.policy.traffic_class)
      then (s, some protocol_violation)
      else (
        write_request (request_id_of frame.header) found (abort_full sent.failure sent.request)
            sent.queue,
        sent.failure,
      )

  -- `handleInbound` for the frames of a request.
  unfoldable pub handle_request_frame : ConnectRequest → Session → Session × Option TunnelError
  unfolding deliver find_request request_id_of
  handle_request_frame frame s =
      let found = find_request (request_id_of frame.header) s in
      deliver frame found (request_of found) s

  -- The switch of `handleInbound`.
  unfoldable pub dispatch :
      ConnectRequest → Option OutPayload → Session → Session × Option TunnelError
  unfolding handle_request_frame enqueue_control receive_pong receive_drain deadline_of nonce_of
      session_ctx
  dispatch frame (some (OutPayload.ping p)) s =
      enqueue_control rt size_in (session_ctx s)
        (InPayload.pong (some (record { nonce = nonce_of p }))) s
  dispatch frame (some (OutPayload.pong p)) s = receive_pong p s
  dispatch frame (some (OutPayload.drain d)) s = receive_drain (until (deadline_of d)) s
  dispatch frame (some (OutPayload.revoke_session r)) s = (s, some protocol_violation)
  dispatch frame _ s = handle_request_frame frame s

  unfoldable pub handle_session_inbound : ConnectRequest → Session → Session × Option TunnelError
  unfolding dispatch
  handle_session_inbound frame s = dispatch frame frame.payload s

  unfoldable pub is_queue_full : Option TunnelError → Bool
  is_queue_full (some queue_full) = true
  is_queue_full _ = false

  unfoldable pub after_inbound : Session × Option TunnelError → Session
  unfolding is_queue_full fail
  after_inbound (s, none) = s
  after_inbound (s, some e) = if is_queue_full (some e) then s else fail violation_failure s

  unfoldable pub read_checked : ℕ → ConnectRequest → Option TunnelError → Session → Session
  unfolding handle_session_inbound after_inbound fail
  read_checked now frame (some e) s = fail violation_failure s
  read_checked now frame none s =
      after_inbound (handle_session_inbound frame (record s { last_activity = now }))

  -- One round of `readLoop` for a frame that was received.
  unfoldable pub read_frame : ℕ → ConnectRequest → Session → Session
  unfolding validate_inbound read_checked
  read_frame now frame s = read_checked now frame (validate_inbound s frame) s

  unfoldable pub drain_announced :
      Bool → Session × Option TunnelError → Session × Option TunnelError
  unfolding fail
  drain_announced finish (s, some e) = (fail (draining_failure drain_enqueue_failed) s, some e)
  drain_announced finish (s, none) =
      (if finish then record s { finishers = s.finishers + 1 } else s, none)

  unfoldable pub announce_with : Option Announcement → ℕ → Session → Session × Option TunnelError
  unfolding enqueue_control drain_announced session_ctx remove_nth
  announce_with none i s = (s, none)
  announce_with (some a) i s =
      let s' = record s { announcing = remove_nth i s.announcing } in
      drain_announced a.finish (
        enqueue_control rt size_in (session_ctx s')
          (InPayload.drain (some (record { deadline = a.deadline; reason = a.reason }))) s')

  -- `initiateDrain` behind `markDraining`, for one of the calls that are there.
  unfoldable pub announce_drain : ℕ → Session → Session × Option TunnelError
  unfolding announce_with nth
  announce_drain i s = announce_with (nth i s.announcing) i s

  unfoldable pub to_announce :
      Option Timestamp → DrainReason → Session → Marked → Session × Option TunnelError
  to_announce deadline reason s (unmarked e) = (s, some e)
  to_announce deadline reason s (marked finish s') = (
    record s' {
      announcing = record { deadline = deadline; reason = reason; finish = finish } ∷ s'.announcing;
    },
    none,
  )

  -- `initiateDrain` up to the end of `markDraining`; the drain's deadline as a timestamp.
  unfoldable pub initiate_drain :
      Option Timestamp → DrainReason → Session → Session × Option TunnelError
  unfolding contains Capability-discrete mark_draining to_announce fail
  initiate_drain deadline reason s =
      if not (contains Capability-discrete s.capabilities Capability.drain)
      then (fail (draining_failure drain_unsupported) s, none)
      else to_announce deadline reason s (mark_draining (until deadline) true s)

  unfoldable pub ping_with : Option ℕ → Session → Session
  unfolding enqueue_control ping_sent fail session_ctx
  ping_with none s = fail random_failure s
  ping_with (some n) s = ping_sent (
      enqueue_control rt size_in (session_ctx s) (InPayload.ping (some (record { nonce = n })))
        (record s { pending_ping = n }))

  -- `keepaliveLoop` when its timer fires, with the nonce of `randomNonce`.
  unfoldable pub ping_due : Option ℕ → Session → Session
  unfolding ping_with fail
  ping_due nonce s =
      if not (s.pending_ping == 0)
      then fail (unavailable_failure pong_timeout) s
      else ping_with nonce s
