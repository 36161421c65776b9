-- ===== src/GatewayIn/Session/Steady.antt =====
-- The rounds of the reader, the writer and the timers of session.go leave the requests and the
-- tombstones of a session what they are.
use marketmesh.Prelude.{
  ℕ, ◌≡◌, refl, Bool, true, false, ◌||◌, ◌&&◌, ltb, if_rule, Option, some, none, map, arith,
}
use marketmesh.Protocol.Enums.{RouteId}
use marketmesh.Protocol.Messages.{Bytes, Pong}
use marketmesh.Protocol.Payloads.{ℤ, pos, negsuc}
use marketmesh.GatewayIn.Scheduler.{poll}
use marketmesh.GatewayIn.Session.{
  Session, Entry, send_failed, stale_failure, become_ready, accepts, drained_failure,
}
use marketmesh.GatewayIn.Session.Traffic.{Marked, marked, unmarked, mark_draining}
use marketmesh.GatewayIn.Session.Reading.{
  receive_pong, receive_drain, drain_marked, timer_fired, written, Polled, write_one,
  finish_after_send, start_finish, finish_canceled, drain_expired, unavailable_failure,
  handle_read_error,
}
use marketmesh.GatewayIn.Session.Runs.{Change, change_entry}
use marketmesh.GatewayIn.Session.Kept.{
  key, Same, same, alike, Same-trans, map-keys, fail-Same, names, Names,
}

pub receive_pong-Same : (p : Option Pong) (s : Session) → Same s (receive_pong p s).0
unfolding receive_pong
receive_pong-Same none s = same s
receive_pong-Same (some p) s =
    let answered : Same s (record s { pending_ping = 0; pong_received = true }) =
      alike s _ refl refl refl refl refl refl in
    ground (arith, same s, answered)

pub mark_draining-Same :
    (remaining : ℤ) (local finish : Bool) (s t : Session)
    → mark_draining remaining local s ≡ marked finish t
    → Same s t
unfolding mark_draining
mark_draining-Same (negsuc n) local finish s t h = cc
mark_draining-Same (pos n) local finish s t h =
    let draining : Same s (record s {
      is_draining = true;
      local_drain = s.local_drain || local;
      drain_timer = some n;
    }) =
      alike s _ refl refl refl refl refl refl in
    ground (arith, draining)

drain_marked-Same :
    (s : Session) (m : Marked)
    → ((finish : Bool) (t : Session) → m ≡ marked finish t → Same s t)
    → Same s (drain_marked s m).0
unfolding drain_marked
drain_marked-Same s (unmarked e) h = same s
drain_marked-Same s (marked finish t) h =
    ground (arith, h finish t refl, Same-trans (h finish t refl) (fail-Same drained_failure t))

pub receive_drain-Same : (remaining : ℤ) (s : Session) → Same s (receive_drain remaining s).0
unfolding receive_drain
receive_drain-Same remaining s = ground (
  arith,
  same s,
  drain_marked-Same s (mark_draining remaining false s)
      (λ finish t. mark_draining-Same remaining false finish s t),
)

pub accepts-Same :
    (now stale_after : ℕ) (route : RouteId) (s : Session)
    → Same s (accepts now stale_after route s).0
unfolding accepts
accepts-Same now stale_after route s =
    let unready : Same s (record s { is_ready = false }) =
      alike s _ refl refl refl refl refl refl in
    ground
      (arith, same s, Same-trans unready (fail-Same stale_failure (record s { is_ready = false })))

pub become_ready-Same : (now : ℕ) (s : Session) → Same s (become_ready now s)
unfolding become_ready
become_ready-Same now s = alike s _ refl refl refl refl refl refl

pub handle_read_error-Same : (finish : Bool) (s : Session) → Same s (handle_read_error finish s)
unfolding handle_read_error
handle_read_error-Same true s = fail-Same _ s
handle_read_error-Same false s = fail-Same _ s

pub drain_expired-Same : (s : Session) → Same s (drain_expired s)
unfolding drain_expired
drain_expired-Same s = by_timer s.drain_timer
  where
    by_timer : (t : Option ℕ) → Same s (timer_fired t s)
    by_timer none = same s
    by_timer (some n) = fail-Same _ s

pub finish_after_send-Same : (s : Session) → Same s (finish_after_send s)
unfolding finish_after_send
finish_after_send-Same s =
    let taken : Same s (record s { drain_sent = false; finishing = false }) =
      alike s _ refl refl refl refl refl refl in
    ground (
      arith,
      same s,
      Same-trans taken
          (fail-Same drained_failure (record s { drain_sent = false; finishing = false })),
    )

pub start_finish-Same : (s : Session) → Same s (start_finish s)
unfolding start_finish
start_finish-Same s =
    if_rule (Same s) (ltb 0 s.finishers) _ s (λ t. alike s _ refl refl refl refl refl refl)
      (λ f. same s)

pub finish_canceled-Same : (s : Session) → Same s (finish_canceled s)
unfolding finish_canceled
finish_canceled-Same s =
    if_rule (Same s) (s.finishing && s.ctx_done) _ s (λ t. alike s _ refl refl refl refl refl refl)
      (λ f. same s)

pub write_one-Same : (sent : Bool) (s : Session) → Same s (write_one sent s).0
unfolding write_one written
write_one-Same sent s = by_poll (poll s.outbound)
  where
    by_poll : (p : Polled) → Same s (written sent s p).0
    by_poll none = same s
    by_poll (some (lane, frame, q)) =
        let s' : Session = record s { outbound = q } in
        let polled : Same s s' = alike s _ refl refl refl refl refl refl in
        let flagged : Same s (record s' { drain_sent = true }) =
          alike s _ refl refl refl refl refl refl in
        ground (
          arith,
          polled,
          flagged,
          Same-trans polled (fail-Same (unavailable_failure send_failed) s'),
        )

pub change-Same :
    (handle : ℕ) (c : Change) (s : Session)
    → Same s (record s { requests = map (change_entry handle c) s.requests })
unfolding change_entry
change-Same handle c s = record {
  limits_is = refl;
  order_is = refl;
  position_is = refl;
  active_is = refl;
  keys_is = map-keys (change_entry handle c) kept s.requests;
  recorded = λ id. (λ h. h, λ h. h);
}
  where
    kept : (e : Entry) → key (change_entry handle c e) ≡ key e
    kept e =
        let named : names (c.apply e.request) ≡ names e.request =
          pairs (c.keeps_id e.request) (c.keeps_route e.request) in
        ground (arith, named)
      where
        pairs : {a b : Bytes} {r t : RouteId} → a ≡ b → r ≡ t → ◌≡◌ {A = Names} (a, r) (b, t)
        pairs p q = cc
