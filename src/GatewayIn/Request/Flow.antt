-- ===== src/GatewayIn/Request/Flow.antt =====
-- Flow control of a request: `Flow`, and what each operation makes of it.
use marketmesh.Prelude.{
  ℕ, ◌+◌, ◌≤◌, ◌≡◌, true, false, Option, some, none, [], arith, if_rule, length, length-append,
}
use marketmesh.Protocol.Enums.{RouteId}
use marketmesh.Protocol.Messages.{Bytes, InPayload, OutPayload, ConnectRequest, ConnectResponse}
use marketmesh.GatewayIn.Errors.{TunnelError}
use marketmesh.GatewayIn.Request.{
  compact_for_tombstone, Request, Response, RoutePolicy, next_sequence, new_logical_request,
  complete, complete_local_abort,
}
use marketmesh.GatewayIn.Request.Sending.{
  chunk, take_send_credit, enqueue_payload, send_initial_response_credit, grant_receive_credit,
  cancel,
}
use marketmesh.GatewayIn.Request.Inbound.{
  Inbound, returns, grants, receive_data, receive, receive_tail, handle_completed_inbound,
  handle_inbound,
}

-- `pending` is credit that the reader has computed and not yet granted.
pub record Flow (pending : ℕ) (r : Request) : Type 0 where
  pub sendable : r.send_credit ≤ r.policy.max_request_bytes
  pub buffered : length r.response_payload ≤ r.policy.max_response_bytes
  pub receivable :
      r.is_completed ≡ false
      → r.receive_credit + pending + length r.response_payload ≤ r.policy.max_response_bytes
  pub tail :
      r.accept_response_tail ≡ true
      → r.receive_credit + r.tail_response_size ≤ r.policy.max_response_bytes
  pub tail_completed : r.accept_response_tail ≡ true → r.is_completed ≡ true

abbrev pub granted : Inbound → ℕ
granted (returns e) = 0
granted (grants n) = n

receive_data-Flow :
    (bytes : Bytes) (r : Request)
    → r.is_completed ≡ false
    → Flow 0 r
    → Flow (granted (receive_data bytes r).1) (receive_data bytes r).0
unfolding receive_data
receive_data-Flow bytes r c v = ground (arith, length-append r.response_payload bytes)

receive-Flow :
    (p : Option OutPayload) (r : Request)
    → r.is_completed ≡ false
    → Flow 0 r
    → Flow (granted (receive p r).1) (receive p r).0
unfolding receive
receive-Flow none r c v = v
receive-Flow (some (OutPayload.data_frame d)) r c v = receive_data-Flow _ r c v
receive-Flow (some p) r c v = ground arith

receive_tail-Flow :
    (p : Option OutPayload) (r : Request)
    → r.is_completed ≡ true
    → r.accept_response_tail ≡ true
    → Flow 0 r
    → Flow (granted (receive_tail p r).1) (receive_tail p r).0
unfolding receive_tail
receive_tail-Flow none r c a v = v
receive_tail-Flow (some p) r c a v = ground arith

abbrev pub counted : Request → Request
counted r = record r { inbound_sequence = next_sequence r.inbound_sequence }

counted-Flow : (n : ℕ) (r : Request) → Flow n r → Flow n (counted r)
counted-Flow n r v = ground arith

-- A frame from the peer keeps the flow within the policy, with the credit that it makes due.
pub handle_inbound-Flow :
    (frame : ConnectRequest) (r : Request)
    → Flow 0 r
    → Flow (granted (handle_inbound frame r).1) (handle_inbound frame r).0
unfolding handle_inbound handle_completed_inbound
handle_inbound-Flow frame r v =
    if_rule Kept r.is_completed _ _
      (λ c.
        if_rule Kept _ _ _ (λ _. v)
          (λ t. receive_tail-Flow frame.payload (counted r) c (ground arith) (counted-Flow 0 r v)))
      (λ c.
        if_rule Kept _ _ _ (λ _. v)
          (λ _. receive-Flow frame.payload (counted r) c (counted-Flow 0 r v)))
  where
    Kept : Request × Inbound → Type 0
    Kept x = Flow (granted x.1) x.0

module _ {Q : Type 0}
    (enqueue_frame : Option TunnelError → Q → ConnectResponse → Q × Option TunnelError)
    (tunnel_id : Bytes) where
  pub enqueue_payload-Flow :
      (n : ℕ) (ctx : Option TunnelError) (p : InPayload) (q : Q) (r : Request)
      → Flow n r
      → Flow n (enqueue_payload enqueue_frame tunnel_id ctx p q r).request
  unfolding enqueue_payload
  enqueue_payload-Flow n ctx p q r v = ground arith

  pub grant_receive_credit-Flow :
      (n : ℕ) (ctx : Option TunnelError) (q : Q) (r : Request)
      → Flow n r
      → Flow 0 (grant_receive_credit enqueue_frame tunnel_id n ctx q r).request
  unfolding grant_receive_credit
  grant_receive_credit-Flow n ctx q r v = ground arith

  pub cancel-Flow :
      (n : ℕ) (e : TunnelError) (ctx : Option TunnelError) (q : Q) (r : Request)
      → Flow n r
      → Flow n (cancel enqueue_frame tunnel_id e ctx q r).request
  unfolding cancel
  cancel-Flow n e ctx q r v = ground arith

  pub initial-Flow :
      (n initial most : ℕ) (ctx : Option TunnelError) (q : Q) (r : Request)
      → r.response_payload ≡ []
      → r.accept_response_tail ≡ false
      → n ≡ 0
      → Flow n r
      → Flow n (send_initial_response_credit enqueue_frame tunnel_id initial most ctx q r).request
  unfolding send_initial_response_credit
  initial-Flow n initial most ctx q r e a z v = ground arith

pub complete-Flow :
    (n : ℕ) (response : Response) (e : Option TunnelError) (r : Request)
    → Flow n r
    → Flow n (complete response e r)
unfolding complete
complete-Flow n response e r v = ground arith

pub abort-Flow :
    (n : ℕ) (e : TunnelError) (r : Request) → Flow n r → Flow n (complete_local_abort e r)
unfolding complete_local_abort
abort-Flow n e r v = ground arith

pub take-Flow :
    (n most remaining size : ℕ) (r r' : Request)
    → take_send_credit most remaining r ≡ chunk size r'
    → Flow n r
    → Flow n r'
unfolding take_send_credit
take-Flow n most remaining size r r' h v = ground arith

pub new-Flow :
    (id : Bytes) (route : RouteId) (policy : RoutePolicy)
    → Flow 0 (new_logical_request id route policy)
unfolding new_logical_request
new-Flow id route policy = ground arith

pub compact-Flow : (n : ℕ) (r : Request) → Flow n r → Flow n (compact_for_tombstone r)
unfolding compact_for_tombstone
compact-Flow n r v = record {
  sendable = v.sendable;
  buffered = omega arith;
  receivable = λ c. omega (arith, v.receivable c);
  tail = v.tail;
  tail_completed = v.tail_completed;
}
