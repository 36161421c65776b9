-- ===== src/GatewayIn/Session/Over.antt =====
-- The end of a tunnel in session.go: what `fail` leaves, and when a drain is over. One operation at a
-- time.
use marketmesh.Prelude.{
  ℕ, ◌≡◌, refl, sym, ◌≢◌, ◌⊎◌, inl, inr, ◌==◌, Bool-cases, Bool, true, false, not, ◌||◌, Option,
  some, none, List, [], ◌∷◌, arith, ltb, All,
}
use mathlib.Core.List.{Mem}
use mathlib.Core.Path.{subst}
use marketmesh.Protocol.Enums.{RouteId}
use marketmesh.Protocol.Messages.{Pong}
use marketmesh.Protocol.Payloads.{ℤ, pos, negsuc}
use marketmesh.GatewayIn.Scheduler.{poll}
use marketmesh.GatewayIn.Session.{
  Session, Entry, Failure, Ending, Announcement, not_failed, completing, send_failed, fail,
  drained_failure, stale_failure, become_ready, accepts,
}
use marketmesh.GatewayIn.Session.Requests.{is_empty}
use marketmesh.GatewayIn.Session.Traffic.{Marked, marked, unmarked, mark_draining}
use marketmesh.GatewayIn.Session.Reading.{
  receive_pong, drain_marked, receive_drain, handle_read_error, drain_expired, timer_fired, written,
  write_one, Polled, unavailable_failure,
}
use marketmesh.GatewayIn.Session.Quiet.{Queued}

abbrev pub Completed : Entry → Type 0
Completed e = e.request.is_completed ≡ true

-- A request with an outcome, or with its place among those that `fail` has still to complete.
abbrev pub Due : List ℕ → Entry → Type 0
Due handles e = Completed e ⊎ Mem e.handle handles

abbrev pub left : Ending → List ℕ
left (completing f handles) = handles
left _ = []

abbrev pub has_finish : List Announcement → Bool
has_finish [] = false
has_finish (a ∷ rest) = a.finish || has_finish rest

-- The tunnel has ended or its context is over, or the goroutine that waits for its Drain to be sent is
-- there, or one is at the call that starts it, at a call of `fail`, or at the send of a Drain after which
-- it goes there.
abbrev pub ends : Session → Bool
ends s =
    s.is_closed
    || (s.ctx_done
        || (s.finishing
            || (ltb 0 s.finishers || (not (is_empty s.failing) || has_finish s.announcing))))

abbrev pub waits : Session → Bool
waits s = s.is_closed || (s.ctx_done || (s.finishing || not (is_empty s.failing)))

-- What `fail` has done: nothing before the tunnel is closed, and then each request still held has an
-- outcome or is among those that it goes on to complete.
pub record Failed (is_closed : Bool) (ending : Ending) (requests : List Entry) : Type 0 where
  pub quiet : is_closed ≡ false → ending ≡ not_failed
  pub begun : is_closed ≡ true → ending ≢ not_failed
  pub held : is_closed ≡ true → All (Due (left ending)) requests

abbrev pub FailedIn : Session → Type 0
FailedIn s = Failed s.is_closed s.ending s.requests

-- A draining tunnel without requests has ended or ends by a step that some goroutine is at; what `fail`
-- has done; and the wait for the Drain to be sent is not given up.
pub record Over (s : Session) : Type 0 where
  pub settled : s.is_draining ≡ true → is_empty s.requests ≡ true → ends s ≡ true
  pub once : s.drain_once ≡ true → waits s ≡ true
  pub failed : FailedIn s

-- At a call of `fail` nothing more is needed.
pub fail-Over : (f : Failure) (s : Session) → FailedIn s → Over (fail f s)
unfolding fail is_empty
fail-Over f s ok = record { settled = λ d e. ground arith; once = λ d. ground arith; failed = ok }

pub queued-Over : {s t : Session} → Queued s t → Over s → Over t
queued-Over {s} {t} q ok =
    subst Over (sym q) (record { settled = ok.settled; once = ok.once; failed = ok.failed })

pub become_ready-Over : (now : ℕ) (s : Session) → Over s → Over (become_ready now s)
unfolding become_ready
become_ready-Over now s ok = record { settled = ok.settled; once = ok.once; failed = ok.failed }

pub accepts-Over :
    (now stale_after : ℕ) (route : RouteId) (s : Session)
    → Over s
    → Over (accepts now stale_after route s).0
unfolding accepts
accepts-Over now stale_after route s ok =
    let unready : Session = record s { is_ready = false } in
    let to_fail : Over (fail stale_failure unready) = fail-Over stale_failure unready ok.failed in
    ground (arith, ok, to_fail)

pub receive_pong-Over : (p : Option Pong) (s : Session) → Over s → Over (receive_pong p s).0
unfolding receive_pong
receive_pong-Over none s ok = ok
receive_pong-Over (some p) s ok =
    let answered : Over (record s { pending_ping = 0; pong_received = true }) = record {
      settled = ok.settled;
      once = ok.once;
      failed = ok.failed;
    } in
    ground (arith, ok, answered)

-- What `markDraining` marks.
pub record Marking (s : Session) (finish : Bool) (t : Session) : Type 0 where
  pub marks :
      t ≡ record s { is_draining = true; local_drain = t.local_drain; drain_timer = t.drain_timer }
  pub finish_is : finish ≡ is_empty s.requests

pub mark_draining-Marking :
    (remaining : ℤ) (local finish : Bool) (s t : Session)
    → mark_draining remaining local s ≡ marked finish t
    → Marking s finish t
unfolding mark_draining
mark_draining-Marking (negsuc n) local finish s t h = cc
mark_draining-Marking (pos n) local finish s t h = elim (Bool-cases (n == 0)) [
  | inl zero_left ↦ absurd (ground (arith, zero_left, h))
  | inr time_left ↦ elim (Bool-cases s.is_closed) [
    | inl down ↦ absurd (ground (arith, time_left, down, h))
    | inr up ↦
        let both =
          parts (is_empty s.requests) finish drained t (ground (arith, time_left, up, h)) in
        record {
          marks =
              subst
                (λ (x : Session). x ≡ record s {
                  is_draining = true;
                  local_drain = x.local_drain;
                  drain_timer = x.drain_timer;
                })
                both.1 refl;
          finish_is = sym both.0;
        }
  ]
]
  where
    drained : Session
    drained = record s {
      is_draining = true;
      local_drain = s.local_drain || local;
      drain_timer = some n;
    }

    parts : (a b : Bool) (u v : Session) → marked a u ≡ marked b v → (a ≡ b) × (u ≡ v)
    parts a b u v e = (cc, cc)

pub Marking-Failed : {s t : Session} {b : Bool} → Marking s b t → Over s → FailedIn t
Marking-Failed m ok = subst FailedIn (sym m.marks) ok.failed

-- With requests left, nothing is settled yet.
pub Marking-Over : {s t : Session} → Marking s false t → Over s → Over t
Marking-Over {s} m ok =
    subst Over (sym m.marks)
      (record { settled = λ d e. absurd (busy e); once = ok.once; failed = ok.failed })
  where
    busy : is_empty s.requests ≡ true → ⊥
    busy e = let same = m.finish_is in cc

drain_marked-Over :
    (s : Session) (m : Marked)
    → Over s
    → ((finish : Bool) (t : Session) → m ≡ marked finish t → Marking s finish t)
    → Over (drain_marked s m).0
unfolding drain_marked
drain_marked-Over s (unmarked e) ok h = ok
drain_marked-Over s (marked true t) ok h =
    fail-Over drained_failure t (Marking-Failed (h true t refl) ok)
drain_marked-Over s (marked false t) ok h = Marking-Over (h false t refl) ok

pub receive_drain-Over : (remaining : ℤ) (s : Session) → Over s → Over (receive_drain remaining s).0
unfolding receive_drain
receive_drain-Over remaining s ok = ground (
  arith,
  ok,
  drain_marked-Over s (mark_draining remaining false s) ok
      (λ finish t. mark_draining-Marking remaining false finish s t),
)

pub read_error-Over : (over : Bool) (s : Session) → Over s → Over (handle_read_error over s)
unfolding handle_read_error
read_error-Over true s ok = fail-Over _ s ok.failed
read_error-Over false s ok = fail-Over _ s ok.failed

pub drain_expired-Over : (s : Session) → Over s → Over (drain_expired s)
unfolding drain_expired
drain_expired-Over s ok = by_timer s.drain_timer
  where
    by_timer : (t : Option ℕ) → Over (timer_fired t s)
    by_timer none = ok
    by_timer (some n) = fail-Over _ s ok.failed

pub write_one-Over : (sent : Bool) (s : Session) → Over s → Over (write_one sent s).0
unfolding write_one written
write_one-Over sent s ok = by_poll (poll s.outbound)
  where
    by_poll : (p : Polled) → Over (written sent s p).0
    by_poll none = ok
    by_poll (some (lane, frame, q)) =
        let s' : Session = record s { outbound = q } in
        let polled : Over s' = record {
          settled = ok.settled;
          once = ok.once;
          failed = ok.failed;
        } in
        let flagged : Over (record s' { drain_sent = true }) = record {
          settled = ok.settled;
          once = ok.once;
          failed = ok.failed;
        } in
        ground (arith, polled, flagged, fail-Over (unavailable_failure send_failed) s' ok.failed)
