-- ===== src/GatewayIn/Request/Runs.antt =====
-- The runs of one request: the caller's goroutine, the session's reader and the end of the session
-- take the request's lock in any order. A run goes on past the end of the call, when the session keeps
-- the request without its response. The session's queue is a parameter, as in `Sending`.
use marketmesh.Prelude.{
  ℕ, ◌+◌, ◌≤◌, ◌≡◌, refl, ap, ◌∙◌, Bool, true, false, Option, some, none, arith, length,
}
use marketmesh.Protocol.Enums.{RouteId}
use marketmesh.Protocol.Messages.{Bytes, InPayload, ConnectRequest, ConnectResponse, OutPayload}
use marketmesh.GatewayIn.Errors.{TunnelError}
use marketmesh.GatewayIn.Request.{
  Request, Response, RoutePolicy, new_logical_request, complete, complete_local_abort,
  compact_for_tombstone,
}
use marketmesh.GatewayIn.Request.Sending.{
  chunk, take_send_credit, enqueue_payload, send_initial_response_credit, grant_receive_credit,
  cancel,
}
use marketmesh.GatewayIn.Request.Inbound.{
  receive, receive_tail, handle_inbound, handle_completed_inbound,
}
use marketmesh.GatewayIn.Request.Flow.{
  Flow, granted, counted, handle_inbound-Flow, enqueue_payload-Flow, grant_receive_credit-Flow,
  cancel-Flow, initial-Flow, complete-Flow, compact-Flow, abort-Flow, take-Flow, new-Flow,
}
use marketmesh.GatewayIn.Request.Fresh.{
  Fresh, inbound-Fresh, take-Fresh, enqueue-Fresh, grant-Fresh, complete-Fresh, compact-Fresh,
}

module _ {Q : Type 0}
    (enqueue_frame : Option TunnelError → Q → ConnectResponse → Q × Option TunnelError)
    (tunnel_id : Bytes) where
  -- `pending` is the credit that the reader has still to grant; `started` says that the caller has
  -- called `sendInitialResponseCredit`.
  pub record Run : Type 0 where
    pub request : Request
    pub pending : ℕ
    pub started : Bool

  pub data Step : Run → Run → Type 0 where
    -- The caller, once, after Open.
    initial :
        (first most : ℕ) (ctx : Option TunnelError) (q : Q) (r : Request) (n : ℕ)
        → Step
            (record { request = r; pending = n; started = false })
            (record {
              request =
                  (send_initial_response_credit enqueue_frame tunnel_id first most ctx q r).request;
              pending = n;
              started = true;
            })
    -- The caller takes credit for a chunk of the body.
    take_credit :
        (most remaining size : ℕ) (r r' : Request) (n : ℕ) (b : Bool)
        → take_send_credit most remaining r ≡ chunk size r'
        → Step
            (record { request = r; pending = n; started = b })
            (record { request = r'; pending = n; started = b })
    send :
        (ctx : Option TunnelError) (p : InPayload) (q : Q) (r : Request) (n : ℕ) (b : Bool)
        → Step
            (record { request = r; pending = n; started = b })
            (record {
              request = (enqueue_payload enqueue_frame tunnel_id ctx p q r).request;
              pending = n;
              started = b;
            })
    -- The reader has one frame in hand at a time.
    inbound :
        (frame : ConnectRequest) (r : Request) (b : Bool)
        → Step
            (record { request = r; pending = 0; started = b })
            (record {
              request = (handle_inbound frame r).0;
              pending = granted (handle_inbound frame r).1;
              started = b;
            })
    grant :
        (ctx : Option TunnelError) (q : Q) (r : Request) (n : ℕ) (b : Bool)
        → Step
            (record { request = r; pending = n; started = b })
            (record {
              request = (grant_receive_credit enqueue_frame tunnel_id n ctx q r).request;
              pending = 0;
              started = b;
            })
    caller_cancels :
        (e : TunnelError) (ctx : Option TunnelError) (q : Q) (r : Request) (n : ℕ)
        → Step
            (record { request = r; pending = n; started = true })
            (record {
              request = (cancel enqueue_frame tunnel_id e ctx q r).request;
              pending = n;
              started = true;
            })
    caller_aborts :
        (e : TunnelError) (r : Request) (n : ℕ)
        → Step
            (record { request = r; pending = n; started = true })
            (record { request = complete_local_abort e r; pending = n; started = true })
    -- The session has removed the request, when its call is over.
    compact :
        (r : Request) (n : ℕ) (b : Bool)
        → Step
            (record { request = r; pending = n; started = b })
            (record { request = compact_for_tombstone r; pending = n; started = b })
    -- The session ends.
    ends :
        (response : Response) (e : Option TunnelError) (r : Request) (n : ℕ) (b : Bool)
        → Step
            (record { request = r; pending = n; started = b })
            (record { request = complete response e r; pending = n; started = b })

  pub data Reach (s : Run) : Run → Type 0 where
    here : Reach s s
    then_step : {t u : Run} → Reach s t → Step t u → Reach s u

  abbrev pub start : Bytes → RouteId → RoutePolicy → Run
  start id route policy = record {
    request = new_logical_request id route policy;
    pending = 0;
    started = false;
  }

  -- Before the caller has granted the first credit, the peer can send nothing.
  pub record Inv (s : Run) : Type 0 where
    pub flow : Flow s.pending s.request
    pub unstarted : s.started ≡ false → Fresh s.pending s.request

  receive-policy : (p : Option OutPayload) (r : Request) → (receive p r).0.policy ≡ r.policy
  unfolding receive
  receive-policy none r = refl
  receive-policy (some p) r = ground arith

  handle_inbound-policy :
      (frame : ConnectRequest) (r : Request) → (handle_inbound frame r).0.policy ≡ r.policy
  unfolding handle_inbound handle_completed_inbound receive_tail
  handle_inbound-policy frame r = ground (arith, receive-policy frame.payload (counted r))

  Step-Inv : {s t : Run} → Step s t → Inv s → Inv t
  Step-Inv (initial first most ctx q r n) v =
      let fresh = v.unstarted refl in
      record {
        flow =
            initial-Flow enqueue_frame tunnel_id n first most ctx q r fresh.unanswered fresh.no_tail
              fresh.nothing_due v.flow;
        unstarted = λ x. ground arith;
      }
  Step-Inv (take_credit most remaining size r r' n b h) v = record {
    flow = take-Flow n most remaining size r r' h v.flow;
    unstarted = λ x. take-Fresh n most remaining size r r' h (v.unstarted x);
  }
  Step-Inv (send ctx p q r n b) v = record {
    flow = enqueue_payload-Flow enqueue_frame tunnel_id n ctx p q r v.flow;
    unstarted = λ x. enqueue-Fresh enqueue_frame tunnel_id n ctx p q r (v.unstarted x);
  }
  Step-Inv (inbound frame r b) v = record {
    flow = handle_inbound-Flow frame r v.flow;
    unstarted = λ x. inbound-Fresh frame r (v.unstarted x);
  }
  Step-Inv (grant ctx q r n b) v = record {
    flow = grant_receive_credit-Flow enqueue_frame tunnel_id n ctx q r v.flow;
    unstarted = λ x. grant-Fresh enqueue_frame tunnel_id n ctx q r (v.unstarted x);
  }
  Step-Inv (caller_cancels e ctx q r n) v = record {
    flow = cancel-Flow enqueue_frame tunnel_id n e ctx q r v.flow;
    unstarted = λ x. ground arith;
  }
  Step-Inv (caller_aborts e r n) v = record {
    flow = abort-Flow n e r v.flow;
    unstarted = λ x. ground arith;
  }
  Step-Inv (compact r n b) v = record {
    flow = compact-Flow n r v.flow;
    unstarted = λ x. compact-Fresh n r (v.unstarted x);
  }
  Step-Inv (ends response e r n b) v = record {
    flow = complete-Flow n response e r v.flow;
    unstarted = λ x. complete-Fresh n response e r (v.unstarted x);
  }

  pub Reach-Inv : {s t : Run} → Reach s t → Inv s → Inv t
  Reach-Inv here v = v
  Reach-Inv (then_step rs st) v = Step-Inv st (Reach-Inv rs v)

  pub start-Inv :
      (id : Bytes) (route : RouteId) (policy : RoutePolicy) → Inv (start id route policy)
  unfolding new_logical_request
  start-Inv id route policy = record {
    flow = new-Flow id route policy;
    unstarted = λ x. ground arith;
  }

  Step-policy : {s t : Run} → Step s t → t.request.policy ≡ s.request.policy
  unfolding send_initial_response_credit grant_receive_credit cancel enqueue_payload complete
      complete_local_abort take_send_credit compact_for_tombstone
  Step-policy (initial first most ctx q r n) = ground arith
  Step-policy (take_credit most remaining size r r' n b h) = ground arith
  Step-policy (send ctx p q r n b) = ground arith
  Step-policy (inbound frame r b) = handle_inbound-policy frame r
  Step-policy (grant ctx q r n b) = ground arith
  Step-policy (caller_cancels e ctx q r n) = ground arith
  Step-policy (caller_aborts e r n) = ground arith
  Step-policy (compact r n b) = ground arith
  Step-policy (ends response e r n b) = ground arith

  Reach-policy : {s t : Run} → Reach s t → t.request.policy ≡ s.request.policy
  Reach-policy here = refl
  Reach-policy (then_step rs st) = Step-policy st ∙ Reach-policy rs

  -- Flow control of the gateway-in side. In every run of a request from its creation, in whatever
  -- order the caller, the session's reader and the session's end take its lock, the credit to send
  -- stays within the route's request limit and the buffered response within its response limit.
  pub flow_within_policy :
      (id : Bytes) (route : RouteId) (policy : RoutePolicy) (s : Run)
      → Reach (start id route policy) s
      → (s.request.send_credit ≤ policy.max_request_bytes)
        × (length s.request.response_payload ≤ policy.max_response_bytes)
  unfolding new_logical_request
  flow_within_policy id route policy s reach =
      let v = (Reach-Inv reach (start-Inv id route policy)).flow in
      let same : s.request.policy ≡ policy = Reach-policy reach in
      (
        omega (arith, v.sendable, ap (λ (p : RoutePolicy). p.max_request_bytes) same),
        omega (arith, v.buffered, ap (λ (p : RoutePolicy). p.max_response_bytes) same),
      )

  -- What a peer may still make the gateway buffer. In every run of a request from its creation that
  -- has not completed it, the credit that the peer holds, the credit that the reader has still to
  -- grant and the bytes that are buffered are together within the route's response limit.
  pub granted_within_policy :
      (id : Bytes) (route : RouteId) (policy : RoutePolicy) (s : Run)
      → Reach (start id route policy) s
      → s.request.is_completed ≡ false
      → s.request.receive_credit + s.pending + length s.request.response_payload
        ≤ policy.max_response_bytes
  unfolding new_logical_request
  granted_within_policy id route policy s reach c =
      let v = (Reach-Inv reach (start-Inv id route policy)).flow in
      let same : s.request.policy ≡ policy = Reach-policy reach in
      omega (arith, v.receivable c, ap (λ (p : RoutePolicy). p.max_response_bytes) same)
