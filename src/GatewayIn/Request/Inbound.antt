-- ===== src/GatewayIn/Request/Inbound.antt =====
-- `handleInbound` of request.go, up to the credit that it goes on to grant, and
-- `handleCompletedInboundLocked`.
use marketmesh.Prelude.{
  ℕ, ◌+◌, ◌-◌, min, Bool, true, not, ◌||◌, Option, some, none, List, [], ◌++◌, ltb, ◌==◌,
  if◌then◌else◌, length,
}
use marketmesh.Protocol.Enums.{ResultCode, CancelReason}
use marketmesh.Protocol.Messages.{
  FrameHeader, Data, Credit, Cancel, Result, Metadata, OutPayload, ConnectRequest,
}
use marketmesh.GatewayIn.Errors.{
  TunnelError, protocol_violation, canceled, deadline_exceeded, result_error,
}
use marketmesh.GatewayIn.Request.{Request, next_sequence, empty_response, complete_locked}

-- What is left to do when the lock is released: an error or nil to return, or credit to grant.
pub data Inbound : Type 0 where
  returns : Option TunnelError → Inbound
  grants : ℕ → Inbound

-- The nil-safe getters.
unfoldable pub sequence_of : Option FrameHeader → ℕ
sequence_of none = 0
sequence_of (some h) = h.sequence

unfoldable pub credit_bytes : Option Credit → ℕ
credit_bytes none = 0
credit_bytes (some c) = c.bytes

unfoldable pub data_payload : Option Data → List ℕ
data_payload none = []
data_payload (some d) = d.payload

unfoldable pub result_metadata : Option Result → List (Option Metadata)
result_metadata none = []
result_metadata (some r) = r.metadata

unfoldable pub result_code : Option Result → ResultCode
result_code none = ResultCode.unspecified
result_code (some r) = r.code

unfoldable pub code_error : ResultCode → Option TunnelError
code_error ResultCode.ok = none
code_error code = some (result_error code)

unfoldable pub cancel_error : Option Cancel → TunnelError
cancel_error none = canceled
cancel_error (some c) = elim c.reason [ CancelReason.deadline ↦ deadline_exceeded | _ ↦ canceled ]

abbrev pub refuse : Request → Request × Inbound
refuse r = (r, returns (some protocol_violation))

-- `r.sendCredit > maximum || credit > maximum - r.sendCredit`.
unfoldable pub exceeds_credit : ℕ → Request → Bool
exceeds_credit credit r =
    ltb r.policy.max_request_bytes r.send_credit
    || ltb (r.policy.max_request_bytes - r.send_credit) credit

-- The grant subtracts without a test: Go would go below 0 where this stops at 0.
unfoldable pub receive_data : List ℕ → Request → Request × Inbound
receive_data bytes r =
    if r.is_response_closed
    then refuse r
    else if ltb r.receive_credit (length bytes)
        || ltb r.policy.max_response_bytes (length r.response_payload + length bytes)
    then refuse r
    else (let credit = r.receive_credit - length bytes in
        let payload = r.response_payload ++ bytes in
        let remaining_capacity = r.policy.max_response_bytes - length payload in
        let grant = min (length bytes) (remaining_capacity - credit) in
        (
          record r { receive_credit = credit; response_payload = payload },
          if grant == 0 then returns none else grants grant,
        ))

-- The switch of `handleInbound`, after the sequence number.
unfoldable pub receive : Option OutPayload → Request → Request × Inbound
unfolding exceeds_credit receive_data complete_locked
receive (some (OutPayload.credit c)) r =
    if exceeds_credit (credit_bytes c) r
    then refuse r
    else (record r { send_credit = r.send_credit + credit_bytes c }, returns none)
receive (some (OutPayload.data_frame d)) r = receive_data (data_payload d) r
receive (some (OutPayload.half_close h)) r =
    if r.is_response_closed
    then refuse r
    else (record r { is_response_closed = true }, returns none)
receive (some (OutPayload.result res)) r =
    if r.is_response_closed
    then (
      complete_locked (record { payload = r.response_payload; metadata = result_metadata res })
          (code_error (result_code res)) r,
      returns none,
    )
    else refuse r
receive (some (OutPayload.cancel c)) r =
    (complete_locked empty_response (some (cancel_error c)) r, returns none)
receive _ r = refuse r

-- The switch of `handleCompletedInboundLocked`.
unfoldable pub receive_tail : Option OutPayload → Request → Request × Inbound
unfolding exceeds_credit
receive_tail (some (OutPayload.credit c)) r =
    if r.is_response_closed || exceeds_credit (credit_bytes c) r
    then refuse r
    else (record r { send_credit = r.send_credit + credit_bytes c }, returns none)
receive_tail (some (OutPayload.data_frame d)) r =
    if r.is_response_closed
      || (ltb r.receive_credit (length (data_payload d))
          || ltb r.policy.max_response_bytes (r.tail_response_size + length (data_payload d)))
    then refuse r
    else (
      record r {
        receive_credit = r.receive_credit - length (data_payload d);
        tail_response_size = r.tail_response_size + length (data_payload d);
      },
      returns none,
    )
receive_tail (some (OutPayload.half_close h)) r =
    if r.is_response_closed
    then refuse r
    else (record r { is_response_closed = true }, returns none)
receive_tail (some (OutPayload.result res)) r =
    if r.is_response_closed then (record r { tail_terminal = true }, returns none) else refuse r
receive_tail _ r = refuse r

unfoldable pub handle_completed_inbound : ConnectRequest → Request → Request × Inbound
unfolding next_sequence
handle_completed_inbound frame r =
    if not r.accept_response_tail
      || r.tail_terminal
      || not (sequence_of frame.header == next_sequence r.inbound_sequence)
    then refuse r
    else receive_tail frame.payload
        (record r { inbound_sequence = next_sequence r.inbound_sequence })

unfoldable pub handle_inbound : ConnectRequest → Request → Request × Inbound
unfolding handle_completed_inbound next_sequence
handle_inbound frame r =
    if r.is_completed
    then handle_completed_inbound frame r
    else if not (sequence_of frame.header == next_sequence r.inbound_sequence)
    then refuse r
    else receive frame.payload (record r { inbound_sequence = next_sequence r.inbound_sequence })
