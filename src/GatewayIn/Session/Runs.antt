-- ===== src/GatewayIn/Session/Runs.antt =====
-- The runs of a tunnel: the callers' goroutines, the reader, the writer and the timers of session.go
-- take its lock in any order. What follows where `fail`, `removeRequest`, `initiateDrain`, `markDraining`
-- and `finishLocalDrainAfterSend` have dropped the lock is a step of its own. A frame of the reader, one
-- of the writer and a ping are a step each, up to a call of `fail` if they end in one. A caller changes
-- the state of the request that it holds in any way that keeps its id, its route and, once there is one,
-- its outcome.
use marketmesh.Prelude.{ℕ, ◌≡◌, Bool, true, Option, map, ◌==◌, if◌then◌else◌}
use marketmesh.Protocol.Enums.{RouteId, DrainReason}
use marketmesh.Protocol.Messages.{Bytes, Timestamp, ConnectRequest, ConnectResponse}
use marketmesh.Protocol.Payloads.{ProtoRuntime, ℤ}
use marketmesh.GatewayIn.Errors.{TunnelError}
use marketmesh.GatewayIn.Request.{Request, RoutePolicy}
use marketmesh.GatewayIn.Session.{
  Session, Entry, become_ready, accepts, fail_begins, fail_continues,
}
use marketmesh.GatewayIn.Session.Requests.{
  opened, start_request, finish_request, rollback_request_before_open,
}
use marketmesh.GatewayIn.Session.Traffic.{enqueue_frame}
use marketmesh.GatewayIn.Session.Reading.{
  handle_read_error, drain_expired, finish_after_send, write_one, read_frame, initiate_drain,
  announce_drain, start_finish, finish_canceled, ping_due,
}

-- What a caller may do to its request.
pub record Change : Type 0 where
  pub apply : Request → Request
  pub keeps_id : (r : Request) → (apply r).id ≡ r.id
  pub keeps_route : (r : Request) → (apply r).route ≡ r.route
  pub keeps_outcome : (r : Request) → r.is_completed ≡ true → (apply r).is_completed ≡ true

unfoldable pub change_entry : ℕ → Change → Entry → Entry
change_entry handle c e = if e.handle == handle then record e { request = c.apply e.request } else e

module _ (rt : ProtoRuntime) (size_in : ConnectResponse → ℕ) (size_out : ConnectRequest → ℕ)
    (until : Option Timestamp → ℤ) (policies : RouteId → RoutePolicy) where
  pub data Step : Session → Session → Type 0 where
    ready : (now : ℕ) (s : Session) → Step s (become_ready now s)
    accept :
        (now stale_after : ℕ) (route : RouteId) (s : Session)
        → Step s (accepts now stale_after route s).0
    begin :
        (random : ℕ → Option Bytes) (route : RouteId) (request_bytes : ℕ) (s s' : Session)
        (e : Entry)
        → start_request random route (policies route) request_bytes s ≡ opened s' e
        → Step s s'
    finish : (id : Bytes) (handle : ℕ) (s : Session) → Step s (finish_request id handle s).0
    roll_back :
        (id : Bytes) (handle : ℕ) (s : Session)
        → Step s (rollback_request_before_open id handle s).0
    change :
        (handle : ℕ) (c : Change) (s : Session)
        → Step s (record s { requests = map (change_entry handle c) s.requests })
    send :
        (ctx : Option TunnelError) (frame : ConnectResponse) (s : Session)
        → Step s (enqueue_frame rt size_in ctx s frame).0
    read :
        (now : ℕ) (frame : ConnectRequest) (s : Session)
        → Step s (read_frame rt size_in size_out until now frame s)
    read_error : (over : Bool) (s : Session) → Step s (handle_read_error over s)
    write : (sent : Bool) (s : Session) → Step s (write_one sent s).0
    -- The body of `fail`, and what else follows where a method has dropped the lock.
    fail_begin : (i : ℕ) (s : Session) → Step s (fail_begins i s)
    fail_continue : (s : Session) → Step s (fail_continues s)
    announce : (i : ℕ) (s : Session) → Step s (announce_drain rt size_in size_out until i s).0
    wait_for_send : (s : Session) → Step s (start_finish s)
    stop_waiting : (s : Session) → Step s (finish_canceled s)
    -- The context of the stream is over.
    stream_over : (s : Session) → Step s (record s { ctx_done = true })
    drain :
        (deadline : Option Timestamp) (reason : DrainReason) (s : Session)
        → Step s (initiate_drain rt size_in size_out until deadline reason s).0
    ping : (nonce : Option ℕ) (s : Session) → Step s (ping_due rt size_in size_out until nonce s)
    expire : (s : Session) → Step s (drain_expired s)
    finish_sent : (s : Session) → Step s (finish_after_send s)

  pub data Reach : Session → Session → Type 0 where
    here : {s : Session} → Reach s s
    then_step : {s t u : Session} → Reach s t → Step t u → Reach s u
