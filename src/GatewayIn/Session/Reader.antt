-- ===== src/GatewayIn/Session/Reader.antt =====
-- The rounds of the reader and the sends of session.go leave the requests and the tombstones of a session
-- what they are.
use marketmesh.Prelude.{ℕ, ◌+◌, ◌≡◌, refl, sym, ◌∙◌, Bool, true, Option, some, none, arith}
use mathlib.Core.Path.{subst}
use marketmesh.Protocol.Enums.{DrainReason}
use marketmesh.Protocol.Messages.{Timestamp, InPayload, OutPayload, ConnectRequest, ConnectResponse}
use marketmesh.Protocol.Payloads.{ProtoRuntime, ℤ}
use marketmesh.GatewayIn.Errors.{TunnelError, queue_full}
use marketmesh.GatewayIn.Request.{Request}
use marketmesh.GatewayIn.Session.{
  Session, Announcement, nth, remove_nth, drain_unsupported, drain_enqueue_failed, pong_timeout,
}
use marketmesh.GatewayIn.Session.Traffic.{
  enqueue_control, request_inbound, Found, find_request, abort_full, session_ctx, Marked, marked,
  unmarked, mark_draining, request_id_of,
}
use marketmesh.GatewayIn.Session.Reading.{
  write_request, request_of, random_failure, saturated_failure, ping_sent, ping_with, deliver,
  dispatch, read_checked, drain_announced, announce_with, announce_drain, to_announce, nonce_of,
  deadline_of, read_frame, ping_due, initiate_drain, handle_session_inbound, handle_request_frame,
  after_inbound, validate_inbound, violation_failure, unavailable_failure, draining_failure,
}
use marketmesh.GatewayIn.Session.Kept.{Same, same, alike, Same-trans, fail-Same, names, abort-names}
use marketmesh.GatewayIn.Session.Quiet.{
  Queued-Same, request_inbound-Calm, enqueue_control-Queued, write_found,
}
use marketmesh.GatewayIn.Session.Steady.{receive_pong-Same, receive_drain-Same, mark_draining-Same}

module _ (rt : ProtoRuntime) (size_in : ConnectResponse → ℕ) (size_out : ConnectRequest → ℕ)
    (until : Option Timestamp → ℤ) where
  enqueue_control-Same :
      (ctx : Option TunnelError) (p : InPayload) (s : Session)
      → Same s (enqueue_control rt size_in ctx p s).0
  enqueue_control-Same ctx p s = Queued-Same s _ (enqueue_control-Queued rt size_in ctx p s)

  abort_full-names : (e : Option TunnelError) (r : Request) → names (abort_full e r) ≡ names r
  unfolding abort_full
  abort_full-names none r = refl
  abort_full-names (some queue_full) r = abort-names queue_full r
  abort_full-names (some _) r = refl

  deliver-Same :
      (frame : ConnectRequest) (s : Session) (found : Found) (o : Option Request)
      → find_request (request_id_of frame.header) s ≡ found
      → request_of found ≡ o
      → Same s (deliver rt size_in size_out until frame found o s).0
  unfolding deliver
  deliver-Same frame s found none f g = same s
  deliver-Same frame s found (some r) f g =
      let sent = request_inbound rt size_in frame s r in
      let calm = request_inbound-Calm rt size_in frame s r in
      let stored : Same s (
          write_request (request_id_of frame.header) found (abort_full sent.failure sent.request)
            sent.queue) =
        subst
          (λ (t : Session). Same s (
            write_request (request_id_of frame.header) found (abort_full sent.failure sent.request)
              t))
          (sym calm.queued)
          (write_found (request_id_of frame.header) s r (abort_full sent.failure sent.request)
            sent.queue.outbound (abort_full-names sent.failure sent.request ∙ calm.names_same) found
            f g) in
      ground (arith, same s, stored)

  dispatch-Same :
      (frame : ConnectRequest) (p : Option OutPayload) (s : Session)
      → Same s (dispatch rt size_in size_out until frame p s).0
  unfolding dispatch handle_request_frame
  dispatch-Same frame (some (OutPayload.ping p)) s =
      enqueue_control-Same (session_ctx s) (InPayload.pong (some (record { nonce = nonce_of p }))) s
  dispatch-Same frame (some (OutPayload.pong p)) s = receive_pong-Same p s
  dispatch-Same frame (some (OutPayload.drain d)) s = receive_drain-Same (until (deadline_of d)) s
  dispatch-Same frame (some (OutPayload.revoke_session r)) s = same s
  dispatch-Same frame (some (OutPayload.hello h)) s = deliver-Same frame s _ _ refl refl
  dispatch-Same frame (some (OutPayload.data_frame h)) s = deliver-Same frame s _ _ refl refl
  dispatch-Same frame (some (OutPayload.half_close h)) s = deliver-Same frame s _ _ refl refl
  dispatch-Same frame (some (OutPayload.cancel h)) s = deliver-Same frame s _ _ refl refl
  dispatch-Same frame (some (OutPayload.result h)) s = deliver-Same frame s _ _ refl refl
  dispatch-Same frame (some (OutPayload.credit h)) s = deliver-Same frame s _ _ refl refl
  dispatch-Same frame none s = deliver-Same frame s _ _ refl refl

  after_inbound-Same :
      (s : Session) (out : Session × Option TunnelError)
      → Same s out.0
      → Same s (after_inbound rt size_in size_out until out)
  unfolding after_inbound
  after_inbound-Same s (t, none) h = h
  after_inbound-Same s (t, some e) h =
      ground (arith, h, Same-trans h (fail-Same violation_failure t))

  pub read_frame-Same :
      (now : ℕ) (frame : ConnectRequest) (s : Session)
      → Same s (read_frame rt size_in size_out until now frame s)
  unfolding read_frame handle_session_inbound
  read_frame-Same now frame s = by_check (validate_inbound rt size_in size_out until s frame)
    where
      by_check :
          (e : Option TunnelError) → Same s (read_checked rt size_in size_out until now frame e s)
      by_check (some e) = fail-Same violation_failure s
      by_check none =
          let noted : Session = record s { last_activity = now } in
          after_inbound-Same s (dispatch rt size_in size_out until frame frame.payload noted) (
            Same-trans (alike s noted refl refl refl refl refl refl)
              (dispatch-Same frame frame.payload noted))

  ping_sent-Same :
      (s : Session) (out : Session × Option TunnelError) → Same s out.0 → Same s (ping_sent out)
  unfolding ping_sent
  ping_sent-Same s (t, none) h = h
  ping_sent-Same s (t, some e) h = Same-trans h (fail-Same saturated_failure t)

  pub ping_due-Same :
      (nonce : Option ℕ) (s : Session) → Same s (ping_due rt size_in size_out until nonce s)
  unfolding ping_due
  ping_due-Same nonce s =
      ground (arith, fail-Same (unavailable_failure pong_timeout) s, by_nonce nonce)
    where
      by_nonce : (nonce : Option ℕ) → Same s (ping_with rt size_in size_out until nonce s)
      by_nonce none = fail-Same random_failure s
      by_nonce (some n) =
          let asked : Session = record s { pending_ping = n } in
          ping_sent-Same s _ (
            Same-trans (alike s asked refl refl refl refl refl refl) (
              enqueue_control-Same (session_ctx s) (InPayload.ping (some (record { nonce = n })))
                asked))

  drain_announced-Same :
      (finish : Bool) (s : Session) (out : Session × Option TunnelError)
      → Same s out.0
      → Same s (drain_announced rt size_in size_out until finish out).0
  unfolding drain_announced
  drain_announced-Same finish s (t, some e) h =
      Same-trans h (fail-Same (draining_failure drain_enqueue_failed) t)
  drain_announced-Same finish s (t, none) h =
      let waited : Same s (record t { finishers = t.finishers + 1 }) =
        Same-trans h (alike t _ refl refl refl refl refl refl) in
      ground (arith, h, waited)

  pub announce_drain-Same :
      (i : ℕ) (s : Session) → Same s (announce_drain rt size_in size_out until i s).0
  unfolding announce_drain
  announce_drain-Same i s = by_call (nth i s.announcing)
    where
      by_call : (o : Option Announcement) → Same s (announce_with rt size_in size_out until o i s).0
      by_call none = same s
      by_call (some a) =
          let t : Session = record s { announcing = remove_nth i s.announcing } in
          drain_announced-Same a.finish s _ (
            Same-trans (alike s t refl refl refl refl refl refl) (
              enqueue_control-Same (session_ctx t)
                (InPayload.drain (some (record { deadline = a.deadline; reason = a.reason }))) t))

  to_announce-Same :
      (deadline : Option Timestamp) (reason : DrainReason) (s : Session) (m : Marked)
      → ((finish : Bool) (t : Session) → m ≡ marked finish t → Same s t)
      → Same s (to_announce rt size_in size_out until deadline reason s m).0
  unfolding to_announce
  to_announce-Same deadline reason s (unmarked e) h = same s
  to_announce-Same deadline reason s (marked finish t) h =
      Same-trans (h finish t refl) (alike t _ refl refl refl refl refl refl)

  pub initiate_drain-Same :
      (deadline : Option Timestamp) (reason : DrainReason) (s : Session)
      → Same s (initiate_drain rt size_in size_out until deadline reason s).0
  unfolding initiate_drain
  initiate_drain-Same deadline reason s = ground (
    arith,
    fail-Same (draining_failure drain_unsupported) s,
    to_announce-Same deadline reason s (mark_draining (until deadline) true s)
        (λ finish t. mark_draining-Same (until deadline) true finish s t),
  )
