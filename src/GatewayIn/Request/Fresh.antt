-- ===== src/GatewayIn/Request/Fresh.antt =====
-- A request before the caller grants its first credit: `Fresh`, and what each operation makes of it.
use marketmesh.Prelude.{ℕ, ◌≡◌, refl, false, Option, some, none, List, [], ◌∷◌, arith, if_rule}
use marketmesh.Protocol.Messages.{Bytes, InPayload, ConnectRequest, ConnectResponse, OutPayload}
use marketmesh.GatewayIn.Errors.{TunnelError}
use marketmesh.GatewayIn.Request.{compact_for_tombstone, Request, Response, complete}
use marketmesh.GatewayIn.Request.Sending.{
  chunk, take_send_credit, enqueue_payload, grant_receive_credit,
}
use marketmesh.GatewayIn.Request.Inbound.{
  Inbound, receive_data, receive, handle_inbound, handle_completed_inbound,
}
use marketmesh.GatewayIn.Request.Flow.{granted, counted}

pub record Fresh (pending : ℕ) (r : Request) : Type 0 where
  pub no_credit : r.receive_credit ≡ 0
  pub unanswered : r.response_payload ≡ []
  pub no_tail : r.accept_response_tail ≡ false
  pub nothing_due : pending ≡ 0

abbrev FreshAfter : Request × Inbound → Type 0
FreshAfter x = Fresh (granted x.1) x.0

receive_data-Fresh : (bytes : List ℕ) (r : Request) → Fresh 0 r → FreshAfter (receive_data bytes r)
unfolding receive_data
receive_data-Fresh [] r v = ground arith
receive_data-Fresh (x ∷ bytes) r v = ground arith

receive-Fresh : (p : Option OutPayload) (r : Request) → Fresh 0 r → FreshAfter (receive p r)
unfolding receive
receive-Fresh none r v = v
receive-Fresh (some (OutPayload.data_frame d)) r v = receive_data-Fresh _ r v
receive-Fresh (some p) r v = ground arith

completed-Fresh :
    (frame : ConnectRequest) (r : Request)
    → Fresh 0 r
    → FreshAfter (handle_completed_inbound frame r)
unfolding handle_completed_inbound
completed-Fresh frame r v = ground arith

counted-Fresh : (r : Request) → Fresh 0 r → Fresh 0 (counted r)
counted-Fresh r v = ground arith

pub inbound-Fresh :
    (frame : ConnectRequest) (r : Request)
    → Fresh 0 r
    → Fresh (granted (handle_inbound frame r).1) (handle_inbound frame r).0
unfolding handle_inbound
inbound-Fresh frame r v =
    if_rule Kept r.is_completed _ _ (λ c. completed-Fresh frame r v)
      (λ c.
        if_rule Kept _ _ _ (λ _. v)
          (λ _. receive-Fresh frame.payload (counted r) (counted-Fresh r v)))
  where
    Kept : Request × Inbound → Type 0
    Kept x = FreshAfter x

pub take-Fresh :
    (n most remaining size : ℕ) (r r' : Request)
    → take_send_credit most remaining r ≡ chunk size r'
    → Fresh n r
    → Fresh n r'
unfolding take_send_credit
take-Fresh n most remaining size r r' h v = ground arith

pub complete-Fresh :
    (n : ℕ) (response : Response) (e : Option TunnelError) (r : Request)
    → Fresh n r
    → Fresh n (complete response e r)
unfolding complete
complete-Fresh n response e r v = ground arith

module _ {Q : Type 0}
    (enqueue_frame : Option TunnelError → Q → ConnectResponse → Q × Option TunnelError)
    (tunnel_id : Bytes) where
  pub enqueue-Fresh :
      (n : ℕ) (ctx : Option TunnelError) (p : InPayload) (q : Q) (r : Request)
      → Fresh n r
      → Fresh n (enqueue_payload enqueue_frame tunnel_id ctx p q r).request
  unfolding enqueue_payload
  enqueue-Fresh n ctx p q r v = ground arith

  pub grant-Fresh :
      (n : ℕ) (ctx : Option TunnelError) (q : Q) (r : Request)
      → Fresh n r
      → Fresh 0 (grant_receive_credit enqueue_frame tunnel_id n ctx q r).request
  unfolding grant_receive_credit
  grant-Fresh n ctx q r v = ground arith

pub compact-Fresh : (n : ℕ) (r : Request) → Fresh n r → Fresh n (compact_for_tombstone r)
unfolding compact_for_tombstone
compact-Fresh n r v = record {
  no_credit = v.no_credit;
  unanswered = refl;
  no_tail = v.no_tail;
  nothing_due = v.nothing_due;
}
