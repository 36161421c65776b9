-- ===== src/GatewayIn/Request/Credit.antt =====
-- Data from the peer, against the credit that it holds in a run.
use marketmesh.Prelude.{
  ◌+◌, ◌-◌, ◌≤◌, min, ◌≡◌, refl, sym, ◌≢◌, Bool, true, false, Option, some, ◌++◌, arith, ◌==◌,
  ==_iff, length, length-append,
}
use mathlib.Core.Path.{subst}
use marketmesh.Protocol.Enums.{RouteId}
use marketmesh.Protocol.Messages.{
  Bytes, ConnectRequest, ConnectResponse, ConnectResponse, OutPayload, Data,
}
use marketmesh.GatewayIn.Errors.{TunnelError, protocol_violation}
use marketmesh.GatewayIn.Request.{Request, RoutePolicy, next_sequence}
use marketmesh.GatewayIn.Request.Inbound.{
  Inbound, returns, sequence_of, data_payload, receive_data, receive, handle_inbound,
}
use marketmesh.GatewayIn.Request.Flow.{granted, counted}
use marketmesh.GatewayIn.Request.Runs.{Reach, start, Reach-Inv, start-Inv}

-- The data is buffered, the frame is not refused as a violation, and the credit that the peer will
-- hold is what it was before, cut to the room that is left.
abbrev pub Accepted : Data → Request → Request × Inbound → Type 0
Accepted d r after =
    (after.0.response_payload ≡ r.response_payload ++ d.payload)
    × (after.1 ≢ returns (some protocol_violation))
    × (after.0.receive_credit + granted after.1
        ≡ min r.receive_credit (r.policy.max_response_bytes - length after.0.response_payload))

receive_data-accepts :
    (d : Data) (r : Request)
    → r.is_response_closed ≡ false
    → length d.payload ≤ r.receive_credit
    → r.receive_credit + length r.response_payload ≤ r.policy.max_response_bytes
    → Accepted d r (receive_data d.payload (counted r))
unfolding receive_data
receive_data-accepts d r o h w = ground (arith, length-append r.response_payload d.payload)

handle_inbound-data :
    (frame : ConnectRequest) (d : Data) (r : Request)
    → r.is_completed ≡ false
    → sequence_of frame.header ≡ next_sequence r.inbound_sequence
    → frame.payload ≡ some (OutPayload.data_frame (some d))
    → handle_inbound frame r ≡ receive_data d.payload (counted r)
unfolding handle_inbound receive data_payload
handle_inbound-data frame d r c s p =
    let at : (sequence_of frame.header == next_sequence r.inbound_sequence) ≡ true =
      (==_iff _ _).1 s in
    rw p (rw c (rw at refl))

module _ {Q : Type 0}
    (enqueue_frame : Option TunnelError → Q → ConnectResponse → Q × Option TunnelError)
    (tunnel_id : Bytes) where
  -- A peer that honours its credit is not refused. In a run that has come to the next frame of an
  -- open response, a Data frame with the next sequence number and no more bytes than the credit that
  -- the peer holds is appended to the buffer. Once the reader has granted what is due, and the queue
  -- has taken the grant, the credit is what it was before, cut to the room that is left.
  pub credited_data-Accepted :
      (id : Bytes) (route : RouteId) (policy : RoutePolicy) (r : Request) (b : Bool)
      (frame : ConnectRequest) (d : Data)
      → Reach enqueue_frame tunnel_id
          (start enqueue_frame tunnel_id id route policy)
          (record { request = r; pending = 0; started = b })
      → r.is_completed ≡ false
      → r.is_response_closed ≡ false
      → sequence_of frame.header ≡ next_sequence r.inbound_sequence
      → frame.payload ≡ some (OutPayload.data_frame (some d))
      → length d.payload ≤ r.receive_credit
      → Accepted d r (handle_inbound frame r)
  credited_data-Accepted id route policy r b frame d reach c o s p h =
      let w =
        (Reach-Inv enqueue_frame tunnel_id reach
            (start-Inv enqueue_frame tunnel_id id route policy)).flow.receivable
          c in
      subst (Accepted d r) (sym (handle_inbound-data frame d r c s p))
        (receive_data-accepts d r o h (ground arith))
