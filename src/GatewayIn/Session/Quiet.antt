-- ===== src/GatewayIn/Session/Quiet.antt =====
-- The frames and timers of session.go start and end no request.
use marketmesh.Prelude.{
  ℕ, ◌+◌, ◌≡◌, refl, sym, ap, ◌∙◌, ◌↔◌, inl, inr, true, Option, some, none, List, [], ◌∷◌, map,
  arith, Bool-cases,
}
use mathlib.Core.Path.{subst}
use mathlib.Core.Logic.{if_pos, if_neg}
use marketmesh.Protocol.Messages.{Bytes, InPayload, ConnectRequest, ConnectResponse}
use marketmesh.Protocol.Payloads.{ProtoRuntime}
use marketmesh.GatewayIn.Errors.{TunnelError}
use marketmesh.GatewayIn.Request.{Request, request_frame, next_sequence}
use marketmesh.GatewayIn.Request.Sending.{Sent, grant_receive_credit, enqueue_payload}
use marketmesh.GatewayIn.Request.Inbound.{Inbound, returns, grants, handle_inbound}
use marketmesh.GatewayIn.Scheduler.{OutboundQueue}
use marketmesh.GatewayIn.Session.{
  Session, Entry, put_tombstone, same_bytes, bytes_discrete, find_entry,
}
use marketmesh.GatewayIn.Session.Traffic.{
  enqueue_frame, enqueue_control, control_frame, request_inbound, after_request, store_request,
  Found, in_flight, tombstone, nothing, find_request, session_ctx,
}
use marketmesh.GatewayIn.Session.Reading.{write_request, request_of}
use marketmesh.GatewayIn.Session.Kept.{key, Same, names, Names, inbound-names, inbound-outcome}

-- A session whose queue alone may be another.
abbrev pub Queued : Session → Session → Type 0
Queued s t = t ≡ record s { outbound = t.outbound }

pub Queued-Same : (s t : Session) → Queued s t → Same s t
Queued-Same s t q = subst (Same s) (sym q) (record {
  limits_is = refl;
  order_is = refl;
  position_is = refl;
  active_is = refl;
  keys_is = refl;
  recorded = λ id. (λ h. h, λ h. h);
})

module _ (rt : ProtoRuntime) (size_in : ConnectResponse → ℕ) where
  pub enqueue_frame-Queued :
      (ctx : Option TunnelError) (s : Session) (frame : ConnectResponse)
      → Queued s (enqueue_frame rt size_in ctx s frame).0
  unfolding enqueue_frame
  enqueue_frame-Queued ctx s frame = ground arith

  pub enqueue_control-Queued :
      (ctx : Option TunnelError) (p : InPayload) (s : Session)
      → Queued s (enqueue_control rt size_in ctx p s).0
  unfolding enqueue_control
  enqueue_control-Queued ctx p s = ground (arith, enqueue_frame-Queued ctx s (control_frame s.id p))

  -- A send from a request that leaves its names, and of the session all but the queue.
  pub record Calm (s : Session) (r : Request) (sent : Sent Session) : Type 0 where
    pub queued : Queued s sent.queue
    pub names_same : names sent.request ≡ names r
    pub outcome : r.is_completed ≡ true → sent.request.is_completed ≡ true

  payload-Calm :
      (ctx : Option TunnelError) (p : InPayload) (s : Session) (r : Request)
      → Calm s r (enqueue_payload (enqueue_frame rt size_in) s.id ctx p s r)
  unfolding enqueue_payload
  payload-Calm ctx p s r =
      let sent =
        enqueue_frame-Queued ctx s (request_frame s.id r (next_sequence r.outbound_sequence) p) in
      record {
        queued = ground (arith, sent);
        names_same = ground arith;
        outcome = λ h. ground arith;
      }

  grant-Calm :
      (n : ℕ) (ctx : Option TunnelError) (s : Session) (r : Request)
      → Calm s r (grant_receive_credit (enqueue_frame rt size_in) s.id n ctx s r)
  unfolding grant_receive_credit
  grant-Calm n ctx s r =
      let sent =
        payload-Calm ctx (InPayload.credit (some (record { bytes = n }))) s
          (record r { receive_credit = r.receive_credit + n }) in
      record {
        queued = ground (arith, sent.queued);
        names_same = ground (arith, sent.names_same);
        outcome = λ h. ground (arith, sent.outcome h);
      }

  after_request-Calm :
      (s : Session) (out : Request × Inbound) → Calm s out.0 (after_request rt size_in s out)
  unfolding after_request
  after_request-Calm s (r, returns failure) = record {
    queued = refl;
    names_same = refl;
    outcome = λ h. h;
  }
  after_request-Calm s (r, grants n) = grant-Calm n (session_ctx s) s r

  pub request_inbound-Calm :
      (frame : ConnectRequest) (s : Session) (r : Request)
      → Calm s r (request_inbound rt size_in frame s r)
  unfolding request_inbound
  request_inbound-Calm frame s r =
      let after = after_request-Calm s (handle_inbound frame r) in
      record {
        queued = after.queued;
        names_same = after.names_same ∙ inbound-names frame r;
        outcome = λ h. after.outcome (inbound-outcome frame r h);
      }

store-keys :
    (id : Bytes) (r : Request) (es : List Entry) (e : Entry)
    → find_entry id es ≡ some e
    → names r ≡ names e.request
    → map key (store_request id r es) ≡ map key es
unfolding find_entry store_request
store-keys id r [] e h n = refl
store-keys id r (x ∷ xs) e h n = elim (Bool-cases (same_bytes x.request.id id)) [
  | inl t ↦
      let first : some x ≡ some e = rw (t) at h in
      rw t (ap (λ (k : Names). (x.handle, k) ∷ map key xs) (n ∙ cc))
  | inr f ↦
      let later : find_entry id xs ≡ some e = rw (f) at h in
      rw f (ap (◌∷◌ (key x)) (store-keys id r xs e later n))
]

pub find_request-in_flight :
    (id : Bytes) (s : Session) (e : Entry)
    → find_request id s ≡ in_flight e
    → find_entry id s.requests ≡ some e
unfolding find_request
find_request-in_flight id s e h = ground arith

find_request-tombstone :
    (id : Bytes) (s : Session) (e : Entry)
    → find_request id s ≡ tombstone e
    → s.tombstones id ≡ some e
unfolding find_request
find_request-tombstone id s e h = ground arith

module _ (id : Bytes) (s : Session) (r r' : Request) (q : OutboundQueue)
    (e : names r' ≡ names r) where
  pub write_found :
      (f : Found)
      → find_request id s ≡ f
      → request_of f ≡ some r
      → Same s (write_request id f r' (record s { outbound = q }))
  unfolding write_request put_tombstone same_bytes
  write_found (in_flight x) h g = record {
    limits_is = refl;
    order_is = refl;
    position_is = refl;
    active_is = refl;
    keys_is = store-keys id r' s.requests x (find_request-in_flight id s x h) cc;
    recorded = λ i. (λ h. h, λ h. h);
  }
  write_found (tombstone x) h g = record {
    limits_is = refl;
    order_is = refl;
    position_is = refl;
    active_is = refl;
    keys_is = refl;
    recorded = put_kept (find_request-tombstone id s x h);
  }
    where
      put_kept :
          s.tombstones id ≡ some x
          → (i : Bytes)
          → (put_tombstone id (some (record x { request = r' })) s.tombstones i ≡ none)
            ↔ (s.tombstones i ≡ none)
      put_kept was i = elim (bytes_discrete id i) [
        | yes p ↦ rw (if_pos (bytes_discrete id i) p) (λ k. cc, λ k. cc)
        | no n ↦ rw (if_neg (bytes_discrete id i) n) (λ k. k, λ k. k)
      ]
  write_found nothing h g = cc
