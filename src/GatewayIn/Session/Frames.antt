-- ===== src/GatewayIn/Session/Frames.antt =====
-- The frames that pass through a tunnel in session.go: what `enqueueFrame` lets out and what
-- `validateInbound` lets in, without their early returns.
use marketmesh.Prelude.{
  ℕ, ◌≤◌, ◌≡◌, refl, sym, ap, ◌∙◌, ◌↔◌, inl, inr, true, false, not, Option, some, none, List, [],
  ◌∷◌, ◌++◌, arith, ltb, ◌==◌, ite_iff, at_most, both, negated, Option-cases, length, All,
  seq_accepts, reject_accepts,
}
use marketmesh.Protocol.Messages.{Bytes, Metadata, Timestamp, ConnectRequest, ConnectResponse}
use marketmesh.Protocol.Errors.{Error}
use marketmesh.Protocol.Payloads.{ProtoRuntime, ℤ}
use marketmesh.Protocol.Validate.{
  validate_gateway_in_frame, validate_gateway_out_frame, traffic_class_of,
}
use marketmesh.GatewayIn.Errors.{TunnelError}
use marketmesh.GatewayIn.Scheduler.{
  OutboundQueue, enqueue, push, signal, signalled, queue_lane, set_lane,
}
use marketmesh.GatewayIn.Session.{Session, same_bytes, bytes_discrete}
use marketmesh.GatewayIn.Session.Traffic.{
  frame_error, enqueue_frame, tunnel_id_of, in_data, in_credit, out_data, out_credit, out_metadata,
  is_hello, after_validation, any_too_long, metadata_too_long,
}
use marketmesh.GatewayIn.Session.Reading.{validate_inbound}

same_bytes_iff : (a b : Bytes) → (not (same_bytes a b) ≡ false) ↔ (a ≡ b)
unfolding same_bytes
same_bytes_iff a b = negated _ (ite_iff (bytes_discrete a b))

-- A value of metadata within a limit.
abbrev pub Short : ℕ → Option Metadata → Type 0
Short most none = ⊥
Short most (some m) = length m.value ≤ most

any_too_long_iff :
    (most : ℕ) (ms : List (Option Metadata)) → (any_too_long most ms ≡ false) ↔ All (Short most) ms
unfolding any_too_long metadata_too_long
any_too_long_iff most [] = (λ h. tt, λ h. refl)
any_too_long_iff most (none ∷ ms) = (λ h. cc, λ h. absurd h.0)
any_too_long_iff most (some m ∷ ms) =
    both (ltb most (length m.value)) (any_too_long most ms) (at_most (length m.value) most)
      (any_too_long_iff most ms)

after_validation-accepts :
    {P : Type 0} (o : Option Error) (checks : Option TunnelError)
    → ((checks ≡ none) ↔ P)
    → (after_validation o checks ≡ none) ↔ ((o ≡ none) × P)
unfolding after_validation
after_validation-accepts (some e) checks p = (λ h. cc, λ h. absurd (clash h.0))
  where
    clash : some e ≡ none → ⊥
    clash h = cc
after_validation-accepts none checks p = (λ h. (refl, p.0 h), λ h. p.1 h.1)

push-last :
    (q : OutboundQueue) (frame : ConnectResponse) (o : Option ℕ)
    → (push q frame o).1 ≡ none
    → (lane : ℕ) × ((o ≡ some lane)
        × ((push q frame o).0.lanes lane ≡ q.lanes lane ++ (frame ∷ [])))
unfolding push set_lane
push-last q frame none h = cc
push-last q frame (some lane) h =
    let same_lane : lane == lane ≡ true = ground arith in (lane, (refl, ground arith))

-- A token does nothing to the lanes.
signalled-last :
    (lane : ℕ) (frames : List ConnectResponse) (out : OutboundQueue × Option TunnelError)
    → out.0.lanes lane ≡ frames
    → (signalled out).0.lanes lane ≡ frames
unfolding signalled signal
signalled-last lane frames (q, none) h = h
signalled-last lane frames (q, some e) h = h

signalled-error : (out : OutboundQueue × Option TunnelError) → (signalled out).1 ≡ out.1
unfolding signalled
signalled-error (q, none) = refl
signalled-error (q, some e) = refl

enqueue-last :
    (ctx : Option TunnelError) (q : OutboundQueue) (frame : ConnectResponse)
    → (enqueue ctx q frame).1 ≡ none
    → (lane : ℕ) × ((queue_lane (traffic_class_of frame.header) ≡ some lane)
        × ((enqueue ctx q frame).0.lanes lane ≡ q.lanes lane ++ (frame ∷ [])))
unfolding enqueue
enqueue-last (some e) q frame h = cc
enqueue-last none q frame h =
    let out = push q frame (queue_lane (traffic_class_of frame.header)) in
    let (lane, (lane_is, last)) =
      push-last q frame (queue_lane (traffic_class_of frame.header))
        (sym (signalled-error out) ∙ h) in
    (lane, (lane_is, signalled-last lane (q.lanes lane ++ (frame ∷ [])) out last))

module _ (rt : ProtoRuntime) (size_in : ConnectResponse → ℕ) (size_out : ConnectRequest → ℕ)
    (until : Option Timestamp → ℤ) where
  -- A frame that the tunnel may send.
  abbrev pub Sendable : Session → ConnectResponse → Type 0
  Sendable s frame =
      (validate_gateway_in_frame rt (some frame) ≡ none)
      × ((tunnel_id_of frame.header ≡ s.id)
          × ((size_in frame ≤ s.limits.max_frame_bytes)
              × ((length (in_data frame.payload) ≤ s.limits.max_data_bytes)
                  × (in_credit frame.payload ≤ s.limits.max_credit_bytes))))

  frame_error-none :
      (s : Session) (frame : ConnectResponse)
      → s.is_closed ≡ false
      → (frame_error rt size_in s frame ≡ none) ↔ Sendable s frame
  unfolding frame_error
  frame_error-none s frame up = rw up (
      after_validation-accepts _ _ (
        seq_accepts _ _ (reject_accepts _ _ (same_bytes_iff (tunnel_id_of frame.header) s.id)) (
          seq_accepts _ _ (reject_accepts _ _ (at_most (size_in frame) s.limits.max_frame_bytes)) (
            seq_accepts _ _
              (reject_accepts _ _
                (at_most (length (in_data frame.payload)) s.limits.max_data_bytes))
              (reject_accepts _ _ (at_most (in_credit frame.payload) s.limits.max_credit_bytes))))))

  -- A frame of the peer that the reader handles.
  abbrev pub Receivable : Session → ConnectRequest → Type 0
  Receivable s frame =
      (validate_gateway_out_frame rt (some frame) ≡ none)
      × ((is_hello frame.payload ≡ false)
          × ((size_out frame ≤ s.limits.max_frame_bytes)
              × ((tunnel_id_of frame.header ≡ s.id)
                  × ((length (out_data frame.payload) ≤ s.limits.max_data_bytes)
                      × ((out_credit frame.payload ≤ s.limits.max_credit_bytes)
                          × ((length (out_metadata frame.payload) ≤ s.limits.max_metadata_entries)
                              × All (Short s.limits.max_metadata_value_bytes)
                                  (out_metadata frame.payload)))))))

  pub validate_inbound-none :
      (s : Session) (frame : ConnectRequest)
      → (validate_inbound rt size_in size_out until s frame ≡ none) ↔ Receivable s frame
  unfolding validate_inbound
  validate_inbound-none s frame = after_validation-accepts _ _ (
      seq_accepts _ _ (reject_accepts _ _ (λ h. h, λ h. h)) (
        seq_accepts _ _ (reject_accepts _ _ (at_most (size_out frame) s.limits.max_frame_bytes)) (
          seq_accepts _ _ (reject_accepts _ _ (same_bytes_iff (tunnel_id_of frame.header) s.id)) (
            seq_accepts _ _
              (reject_accepts _ _
                (at_most (length (out_data frame.payload)) s.limits.max_data_bytes))
              (seq_accepts _ _
                (reject_accepts _ _ (at_most (out_credit frame.payload) s.limits.max_credit_bytes))
                (seq_accepts _ _
                  (reject_accepts _ _
                    (at_most (length (out_metadata frame.payload)) s.limits.max_metadata_entries))
                  (reject_accepts _ _ (
                    any_too_long_iff s.limits.max_metadata_value_bytes
                      (out_metadata frame.payload)))))))))

  open_still :
      (s : Session) (frame : ConnectResponse)
      → frame_error rt size_in s frame ≡ none
      → s.is_closed ≡ false
  unfolding frame_error
  open_still s frame h = ground arith

  -- A frame stands last in the lane of its class.
  pub record Queues (s : Session) (frame : ConnectResponse) (t : Session) : Type 0 where
    pub lane : ℕ
    pub lane_is : queue_lane (traffic_class_of frame.header) ≡ some lane
    pub last : t.outbound.lanes lane ≡ s.outbound.lanes lane ++ (frame ∷ [])

  accepted :
      (ctx : Option TunnelError) (s : Session) (frame : ConnectResponse)
      → frame_error rt size_in s frame ≡ none
      → enqueue_frame rt size_in ctx s frame ≡ (
        record s { outbound = (enqueue ctx s.outbound frame).0 },
        (enqueue ctx s.outbound frame).1,
      )
  unfolding enqueue_frame
  accepted ctx s frame e = ground (arith, e)

  no_error :
      (ctx : Option TunnelError) (s : Session) (frame : ConnectResponse)
      → (enqueue_frame rt size_in ctx s frame).1 ≡ none
      → frame_error rt size_in s frame ≡ none
  unfolding enqueue_frame
  no_error ctx s frame h = elim (Option-cases (frame_error rt size_in s frame)) [
    | inl e ↦ e
    | inr (x, e) ↦ absurd (ground (arith, e))
  ]

  pub enqueue_frame-Queues :
      (ctx : Option TunnelError) (s : Session) (frame : ConnectResponse)
      → (enqueue_frame rt size_in ctx s frame).1 ≡ none
      → Sendable s frame × Queues s frame (enqueue_frame rt size_in ctx s frame).0
  enqueue_frame-Queues ctx s frame h =
      let checked = no_error ctx s frame h in
      let is = accepted ctx s frame checked in
      let taken : (enqueue ctx s.outbound frame).1 ≡ none =
        sym (ap (λ (o : Session × Option TunnelError). o.1) is) ∙ h in
      let (lane, (lane_is, last)) = enqueue-last ctx s.outbound frame taken in
      (
        (frame_error-none s frame (open_still s frame checked)).0 checked,
        record {
          lane = lane;
          lane_is = lane_is;
          last = ap (λ (o : Session × Option TunnelError). o.0.outbound.lanes lane) is ∙ last;
        },
      )
