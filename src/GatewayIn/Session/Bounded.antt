-- ===== src/GatewayIn/Session/Bounded.antt =====
-- The bounds of a tunnel's requests in every state that a run reaches.
use marketmesh.Prelude.{ℕ, ◌<◌, refl, true, false, Option}
use marketmesh.Protocol.Enums.{RouteId}
use marketmesh.Protocol.Messages.{Bytes, Timestamp, ConnectRequest, ConnectResponse}
use marketmesh.Protocol.Payloads.{ProtoRuntime, ℤ}
use marketmesh.GatewayIn.Request.{RoutePolicy}
use marketmesh.GatewayIn.Scheduler.{QueueLimits}
use marketmesh.GatewayIn.Handshake.{Negotiation}
use marketmesh.GatewayIn.Session.{Session, new_session}
use marketmesh.GatewayIn.Session.Requests.{finish_request, rollback_request_before_open}
use marketmesh.GatewayIn.Session.Runs.{
  Step, Reach, ready, accept, begin, finish, roll_back, change, send, read, read_error, write,
  fail_begin, fail_continue, announce, wait_for_send, stop_waiting, stream_over, drain, ping,
  expire, finish_sent, here, then_step,
}
use marketmesh.GatewayIn.Session.Kept.{alike, fail_begins-Same, fail_continues-Same}
use marketmesh.GatewayIn.Session.Quiet.{Queued-Same, enqueue_frame-Queued}
use marketmesh.GatewayIn.Session.Steady.{
  accepts-Same, become_ready-Same, handle_read_error-Same, drain_expired-Same,
  finish_after_send-Same, start_finish-Same, finish_canceled-Same, write_one-Same, change-Same,
}
use marketmesh.GatewayIn.Session.Reader.{
  read_frame-Same, ping_due-Same, announce_drain-Same, initiate_drain-Same,
}
use marketmesh.GatewayIn.Session.Counts.{start_request-Opens}
use marketmesh.GatewayIn.Session.Within.{
  SessionOk, Same-SessionOk, begin-SessionOk, remove-SessionOk, new_session-SessionOk,
}

module _ (rt : ProtoRuntime) (size_in : ConnectResponse → ℕ) (size_out : ConnectRequest → ℕ)
    (until : Option Timestamp → ℤ) (policies : RouteId → RoutePolicy) where
  Step-SessionOk :
      {s t : Session}
      → Step rt size_in size_out until policies s t
      → SessionOk policies s
      → SessionOk policies t
  unfolding finish_request rollback_request_before_open
  Step-SessionOk (ready now s) = Same-SessionOk policies (become_ready-Same now s)
  Step-SessionOk (accept now stale_after route s) =
      Same-SessionOk policies (accepts-Same now stale_after route s)
  Step-SessionOk (begin random route request_bytes s s' e h) =
      begin-SessionOk policies route s s' e
        (start_request-Opens random route (policies route) request_bytes s s' e h).0
  Step-SessionOk (finish id handle s) = remove-SessionOk policies true id handle s
  Step-SessionOk (roll_back id handle s) = remove-SessionOk policies false id handle s
  Step-SessionOk (change handle c s) = Same-SessionOk policies (change-Same handle c s)
  Step-SessionOk (send ctx frame s) =
      Same-SessionOk policies (Queued-Same s _ (enqueue_frame-Queued rt size_in ctx s frame))
  Step-SessionOk (read now frame s) =
      Same-SessionOk policies (read_frame-Same rt size_in size_out until now frame s)
  Step-SessionOk (read_error over s) = Same-SessionOk policies (handle_read_error-Same over s)
  Step-SessionOk (write sent s) = Same-SessionOk policies (write_one-Same sent s)
  Step-SessionOk (fail_begin i s) = Same-SessionOk policies (fail_begins-Same i s)
  Step-SessionOk (fail_continue s) = Same-SessionOk policies (fail_continues-Same s)
  Step-SessionOk (announce i s) =
      Same-SessionOk policies (announce_drain-Same rt size_in size_out until i s)
  Step-SessionOk (wait_for_send s) = Same-SessionOk policies (start_finish-Same s)
  Step-SessionOk (stop_waiting s) = Same-SessionOk policies (finish_canceled-Same s)
  Step-SessionOk (stream_over s) = Same-SessionOk policies (alike s _ refl refl refl refl refl refl)
  Step-SessionOk (drain deadline reason s) =
      Same-SessionOk policies (initiate_drain-Same rt size_in size_out until deadline reason s)
  Step-SessionOk (ping nonce s) =
      Same-SessionOk policies (ping_due-Same rt size_in size_out until nonce s)
  Step-SessionOk (expire s) = Same-SessionOk policies (drain_expired-Same s)
  Step-SessionOk (finish_sent s) = Same-SessionOk policies (finish_after_send-Same s)

  Reach-SessionOk :
      {s t : Session}
      → Reach rt size_in size_out until policies s t
      → SessionOk policies s
      → SessionOk policies t
  Reach-SessionOk here ok = ok
  Reach-SessionOk (then_step r st) ok = Step-SessionOk st (Reach-SessionOk r ok)

  -- However the goroutines of a tunnel interleave, from a negotiation that allows requests at all: the
  -- requests in flight stay within the negotiated limit, those of a route within its policy and counted
  -- right, no two have one id, none has the id of a tombstone, and the tombstones are exactly the ids in
  -- the ring.
  pub session_bounded :
      (queues : QueueLimits) (id : Bytes) (n : Negotiation) (s : Session)
      → 0 < n.limits.max_in_flight_requests
      → Reach rt size_in size_out until policies (new_session queues id n) s
      → SessionOk policies s
  session_bounded queues id n s h r =
      Reach-SessionOk r (new_session-SessionOk policies queues id n h)
