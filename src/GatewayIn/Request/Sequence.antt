-- ===== src/GatewayIn/Request/Sequence.antt =====
-- The numbers and the outcome of a request: `enqueuePayloadLocked` and `cancel` against a queue that
-- refuses, and the one outcome of a run.
use marketmesh.Prelude.{
  ℕ, ◌+◌, ◌^◌, ◌<◌, ◌≡◌, refl, ap, ◌∙◌, ◌⊎◌, true, false, Option, some, arith, ◌==◌, if_rule,
}
use marketmesh.Protocol.Messages.{Bytes, InPayload, ConnectResponse}
use marketmesh.GatewayIn.Errors.{TunnelError}
use marketmesh.GatewayIn.Request.{
  Request, next_sequence, is_request_payload, request_frame, empty_response, max_uint64,
}
use marketmesh.GatewayIn.Request.Sending.{Sent, cancel_reason, enqueue_payload, cancel}

module _ {Q : Type 0}
    (enqueue_frame : Option TunnelError → Q → ConnectResponse → Q × Option TunnelError)
    (tunnel_id : Bytes) where
  abbrev cancel_frame : TunnelError → Request → ℕ → ConnectResponse
  cancel_frame err r n =
      request_frame tunnel_id r n (InPayload.cancel (some (record { reason = cancel_reason err })))

  -- What an open request with numbers left does with a frame.
  abbrev offered : Option TunnelError → InPayload → Q → Request → Sent Q
  offered ctx p q r =
      let n = r.outbound_sequence + 1 in
      let out = enqueue_frame ctx q (request_frame tunnel_id r n p) in
      record { queue = out.0; request = record r { outbound_sequence = n }; failure = out.1 }

  next : (n : ℕ) → n + 1 < 2 ^ 64 → next_sequence n ≡ n + 1
  unfolding next_sequence
  next n b = omega arith

  enqueue_payload-offers :
      (ctx : Option TunnelError) (p : InPayload) (q : Q) (r : Request)
      → r.is_completed ≡ false
      → r.outbound_sequence + 1 < 2 ^ 64
      → is_request_payload p ≡ true
      → enqueue_payload enqueue_frame tunnel_id ctx p q r ≡ offered ctx p q r
  unfolding enqueue_payload
  enqueue_payload-offers ctx p q r c b k =
      let other : (r.outbound_sequence == max_uint64) ≡ false = ground arith in
      rw c (rw other (rw k (rw (next r.outbound_sequence b) refl)))

  cancel-offers :
      (err : TunnelError) (ctx : Option TunnelError) (q : Q) (r : Request)
      → r.is_completed ≡ false
      → r.outbound_sequence + 1 < 2 ^ 64
      → (cancel enqueue_frame tunnel_id err ctx q r).queue
        ≡ (enqueue_frame ctx q (cancel_frame err r (r.outbound_sequence + 1))).0
  unfolding cancel
  cancel-offers err ctx q r c b =
      if_rule Queued r.is_completed _ _ (λ t. absurd (ground arith))
        (λ f.
          ap (λ (s : Sent Q). s.queue)
            (enqueue_payload-offers ctx
              (InPayload.cancel (some (record { reason = cancel_reason err }))) q r c b refl))
    where
      Queued : Sent Q → Type 0
      Queued s = s.queue ≡ (enqueue_frame ctx q (cancel_frame err r (r.outbound_sequence + 1))).0

  -- A frame that the queue refuses keeps its sequence number. For an open request with the number
  -- `n` of its last frame below 2^64 - 2: when the queue refuses a frame, the send returns the
  -- queue's error, and the Cancel frame that the request offers the queue next carries `n + 2`,
  -- though no frame `n + 1` has been queued.
  pub refused_frame_skips_sequence :
      (ctx ctx' : Option TunnelError) (p : InPayload) (q : Q) (r : Request) (e err : TunnelError)
      → r.is_completed ≡ false
      → r.outbound_sequence + 2 < 2 ^ 64
      → is_request_payload p ≡ true
      → (enqueue_frame ctx q (request_frame tunnel_id r (r.outbound_sequence + 1) p)).1 ≡ some e
      → (s : Sent Q) × (enqueue_payload enqueue_frame tunnel_id ctx p q r ≡ s)
        × (s.failure ≡ some e)
        × ((cancel enqueue_frame tunnel_id err ctx' s.queue s.request).queue
            ≡ (enqueue_frame ctx' s.queue (cancel_frame err r (r.outbound_sequence + 2))).0)
  unfolding request_frame
  refused_frame_skips_sequence ctx ctx' p q r e err c b k h = (
    offered ctx p q r,
    enqueue_payload-offers ctx p q r c (omega arith) k,
    h,
    cancel-offers err ctx' _ _ c (omega arith) ∙ again (omega arith),
  )
    where
      again :
          {n : ℕ}
          → n ≡ r.outbound_sequence + 2
          → (enqueue_frame ctx'
              (offered ctx p q r).queue
              (cancel_frame err (record r { outbound_sequence = r.outbound_sequence + 1 }) n)).0
            ≡ (enqueue_frame ctx'
                (offered ctx p q r).queue
                (cancel_frame err r (r.outbound_sequence + 2))).0
      again m = ap (λ n. (enqueue_frame ctx' (offered ctx p q r).queue (cancel_frame err r n)).0) m

  -- The same error, and the same response unless the session has dropped it.
  abbrev pub SameOutcome : Request → Request → Type 0
  SameOutcome r r' =
      (r'.is_completed ≡ true)
      × ((r'.err ≡ r.err) × ((r'.response ≡ r.response) ⊎ (r'.response ≡ empty_response)))
