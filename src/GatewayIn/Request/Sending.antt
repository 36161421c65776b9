-- ===== src/GatewayIn/Request/Sending.antt =====
-- What a request sends. The session's queue is a parameter: its state, and `enqueueFrame` under
-- the state of a context, `none` while the context is live.
use marketmesh.Prelude.{
  ℕ, ◌+◌, ◌-◌, min, Bool, true, Option, some, none, [], ◌∷◌, ltb, ◌==◌, if◌then◌else◌, length, take,
  drop,
}
use marketmesh.Protocol.Enums.{CancelReason}
use marketmesh.Protocol.Messages.{Bytes, ConnectResponse, InPayload}
use marketmesh.GatewayIn.Errors.{TunnelError, protocol_violation, deadline_exceeded}
use marketmesh.GatewayIn.Request.{
  Request, max_uint64, next_sequence, empty_response, complete_locked, completed_error,
  is_request_payload, request_frame,
}

-- What a send leaves behind: the queue, the request, and the error.
pub record Sent (Q : Type 0) : Type 0 where
  pub queue : Q
  pub request : Request
  pub failure : Option TunnelError

-- One pass of `takeSendCredit`: its error, the size of a chunk, or a wait for credit.
pub data Taken : Type 0 where
  ended : TunnelError → Taken
  chunk : ℕ → Request → Taken
  wait : Taken

abbrev pub positive_credit : ℕ → Bool
positive_credit n = ltb 0 n

-- `max_data_bytes` is the session's limit.
unfoldable pub take_send_credit : ℕ → ℕ → Request → Taken
unfolding completed_error
take_send_credit max_data_bytes remaining r =
    if r.is_completed
    then ended (completed_error r)
    else if positive_credit r.send_credit
    then (let size =
          min (min remaining r.send_credit) (min max_data_bytes r.policy.max_request_bytes) in
        chunk size (record r { send_credit = r.send_credit - size }))
    else wait

unfoldable pub cancel_reason : TunnelError → CancelReason
cancel_reason deadline_exceeded = CancelReason.deadline
cancel_reason _ = CancelReason.caller

module _ {Q : Type 0}
    (enqueue_frame : Option TunnelError → Q → ConnectResponse → Q × Option TunnelError)
    (tunnel_id : Bytes) where
  -- The sequence number is taken before the queue is asked, and stays taken if it refuses.
  unfoldable pub enqueue_payload : Option TunnelError → InPayload → Q → Request → Sent Q
  unfolding completed_error next_sequence is_request_payload request_frame
  enqueue_payload ctx payload q r =
      if r.is_completed
      then record { queue = q; request = r; failure = some (completed_error r) }
      else if r.outbound_sequence == max_uint64
      then record { queue = q; request = r; failure = some protocol_violation }
      else (let sequence = next_sequence r.outbound_sequence in
          let r' = record r { outbound_sequence = sequence } in
          if is_request_payload payload
          then (let (q', failure) =
                enqueue_frame ctx q (request_frame tunnel_id r sequence payload) in
              record { queue = q'; request = r'; failure = failure })
          else record { queue = q; request = r'; failure = some protocol_violation })

  -- `initial` is the configured first credit, `max_credit_bytes` the session's limit.
  unfoldable pub send_initial_response_credit : ℕ → ℕ → Option TunnelError → Q → Request → Sent Q
  unfolding enqueue_payload
  send_initial_response_credit initial max_credit_bytes ctx q r =
      let credit = min (min initial r.policy.max_response_bytes) max_credit_bytes in
      let sent =
        enqueue_payload ctx (InPayload.credit (some (record { bytes = credit }))) q
          (record r { receive_credit = credit }) in
      elim sent.failure [
        | none ↦ sent
        | some e ↦ record {
          queue = sent.queue;
          request = record (sent.request) { receive_credit = 0 };
          failure = some e;
        }
      ]

  unfoldable pub grant_receive_credit : ℕ → Option TunnelError → Q → Request → Sent Q
  unfolding enqueue_payload
  grant_receive_credit bytes ctx q r =
      if r.is_completed
      then record { queue = q; request = r; failure = none }
      else (let sent =
            enqueue_payload ctx (InPayload.credit (some (record { bytes = bytes }))) q
              (record r { receive_credit = r.receive_credit + bytes }) in
          elim sent.failure [
            | none ↦ sent
            | some e ↦ record {
              queue = sent.queue;
              request = record (sent.request) {
                receive_credit = sent.request.receive_credit - bytes;
              };
              failure = some e;
            }
          ])

  -- `cancel`: a Cancel frame if the queue takes it, and the error as the outcome. The context is
  -- the session's.
  unfoldable pub cancel : TunnelError → Option TunnelError → Q → Request → Sent Q
  unfolding enqueue_payload complete_locked cancel_reason
  cancel err ctx q r =
      if r.is_completed
      then record { queue = q; request = r; failure = none }
      else (let sent =
            enqueue_payload ctx (InPayload.cancel (some (record { reason = cancel_reason err }))) q
              r in
          let r' = sent.request in
          record {
            queue = sent.queue;
            request = complete_locked empty_response (some err) (record r' {
              accept_response_tail = true;
              tail_response_size = length r'.response_payload;
            });
            failure = none;
          })

  -- One round of `sendBody`: a chunk, or the half-close after the last. `waiting` is `Taken.wait`.
  pub data Round : Type 0 where
    waiting : Round
    sent : Bytes → Sent Q → Round
    closed : Sent Q → Round
    failed : TunnelError → Round

  unfoldable pub send_round : ℕ → Option TunnelError → Bytes → Q → Request → Round
  unfolding enqueue_payload take_send_credit
  send_round max_data_bytes ctx [] q r =
      closed (enqueue_payload ctx (InPayload.half_close (some tt)) q r)
  send_round max_data_bytes ctx (b ∷ bs) q r =
      elim (take_send_credit max_data_bytes (length (b ∷ bs)) r) [
        | ended e ↦ failed e
        | wait ↦ waiting
        | chunk size r' ↦ sent (drop size (b ∷ bs)) (
            enqueue_payload ctx
              (InPayload.data_frame (some (record { payload = take size (b ∷ bs) }))) q r')
      ]
