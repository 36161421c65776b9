-- ===== src/GatewayIn/Session/Ended.antt =====
-- The end of a tunnel along its runs.
use marketmesh.Prelude.{
  ℕ, ◌≡◌, refl, sym, ◌∙◌, inl, inr, ◌+◌, ltb, length, Bool, true, false, not, ◌&&◌, Option, some,
  none, List, [], ◌∷◌, map, arith, ◌==◌, if◌then◌else◌, if_rule, Bool-cases, All,
}
use mathlib.Core.List.{Mem}
use mathlib.Core.Path.{subst}
use marketmesh.Protocol.Enums.{RouteId}
use marketmesh.Protocol.Messages.{Bytes}
use marketmesh.GatewayIn.Errors.{TunnelError, queue_full}
use marketmesh.GatewayIn.Request.{Request, RoutePolicy, complete_locked, complete_local_abort}
use marketmesh.GatewayIn.Scheduler.{OutboundQueue}
use marketmesh.GatewayIn.Session.{
  Session, Entry, fail, drained_failure, find_entry, delete_entry, same_bytes,
}
use marketmesh.GatewayIn.Session.Requests.{
  is_empty, finish_drain, add_tombstone, add_request, compacted, drop_request, remove_found,
}
use marketmesh.GatewayIn.Session.Traffic.{
  abort_full, store_request, Found, in_flight, tombstone, nothing, find_request,
}
use marketmesh.GatewayIn.Session.Reading.{write_request, request_of}
use marketmesh.GatewayIn.Session.Runs.{Change, change_entry}
use marketmesh.GatewayIn.Session.Quiet.{find_request-in_flight}
use marketmesh.GatewayIn.Session.Counts.{Opens}
use marketmesh.GatewayIn.Session.Over.{Completed, Due, left, waits, FailedIn, Over, fail-Over}

-- A list of entries that another takes the place of: empty together, and due where it was.
record Follows (es fs : List Entry) : Type 0 where
  emptiness : is_empty fs ≡ is_empty es
  due : (handles : List ℕ) → All (Due handles) es → All (Due handles) fs

follow-Over :
    (s t : Session)
    → Follows s.requests t.requests
    → t ≡ record s { outbound = t.outbound; requests = t.requests; tombstones = t.tombstones }
    → Over s
    → Over t
follow-Over s t f same ok = subst Over (sym same) (record {
  settled = λ d e. ok.settled d (sym f.emptiness ∙ e);
  once = ok.once;
  failed = record {
    quiet = ok.failed.quiet;
    begun = ok.failed.begun;
    held = λ k. f.due (left s.ending) (ok.failed.held k);
  };
})

-- A request that keeps its place, and an outcome where it has one.
keeps_place :
    (handles : List ℕ) (e f : Entry)
    → f.handle ≡ e.handle
    → (Completed e → Completed f)
    → Due handles e
    → Due handles f
keeps_place handles e f same k (inl done) = inl (k done)
keeps_place handles e f same k (inr listed) =
    inr (subst (λ (h : ℕ). Mem h handles) (sym same) listed)

change-Follows :
    (handle : ℕ) (c : Change) (es : List Entry) → Follows es (map (change_entry handle c) es)
unfolding change_entry is_empty
change-Follows handle c [] = record { emptiness = refl; due = λ hs h. h }
change-Follows handle c (e ∷ es) = record {
  emptiness = refl;
  due = λ hs h. (
    keeps_place hs e (change_entry handle c e) (ground arith)
        (λ done.
          if_rule Completed (e.handle == handle) (record e { request = c.apply e.request }) e
            (λ t. c.keeps_outcome e.request done) (λ f. done))
        h.0,
    (change-Follows handle c es).due hs h.1,
  );
}

pub change-Over :
    (handle : ℕ) (c : Change) (s : Session)
    → Over s
    → Over (record s { requests = map (change_entry handle c) s.requests })
change-Over handle c s ok = follow-Over s _ (change-Follows handle c s.requests) refl ok

store-Follows :
    (id : Bytes) (r : Request) (es : List Entry) (e : Entry)
    → find_entry id es ≡ some e
    → (e.request.is_completed ≡ true → r.is_completed ≡ true)
    → Follows es (store_request id r es)
unfolding store_request is_empty find_entry
store-Follows id r [] e h k = record { emptiness = refl; due = λ hs a. a }
store-Follows id r (x ∷ xs) e h k = elim (Bool-cases (same_bytes x.request.id id)) [
  | inl t ↦
      let is_first : some x ≡ some e = rw t at h in
      let same : x ≡ e = cc in
      rw t (record {
        emptiness = refl;
        due = λ hs a. (
          keeps_place hs x (record x { request = r }) refl (λ done. k (subst Completed same done))
              a.0,
          a.1,
        );
      })
  | inr f ↦
      let is_later : find_entry id xs ≡ some e = rw f at h in
      let rest = store-Follows id r xs e is_later k in
      rw f (record { emptiness = refl; due = λ hs a. (a.0, rest.due hs a.1) })
]

pub write_found-Over :
    (id : Bytes) (s : Session) (r r' : Request) (q : OutboundQueue)
    → (r.is_completed ≡ true → r'.is_completed ≡ true)
    → (f : Found) → find_request id s ≡ f
    → request_of f ≡ some r
    → Over s
    → Over (write_request id f r' (record s { outbound = q }))
unfolding write_request
write_found-Over id s r r' q k (in_flight x) h g ok =
    let same : x.request ≡ r = cc in
    follow-Over s _
      (store-Follows id r' s.requests x (find_request-in_flight id s x h)
        (λ c. k (subst (λ (y : Request). y.is_completed ≡ true) same c)))
      refl ok
write_found-Over id s r r' q k (tombstone x) h g ok = record {
  settled = ok.settled;
  once = ok.once;
  failed = ok.failed;
}
write_found-Over id s r r' q k nothing h g ok = cc

pub begin-Over :
    (route : RouteId) (policy : RoutePolicy) (s s' : Session) (e : Entry)
    → Opens route policy s s' e
    → Over s
    → Over s'
unfolding add_request is_empty
begin-Over route policy s s' e o ok = subst Over (sym o.adds) (record {
  settled = λ d k. cc;
  once = ok.once;
  failed = record {
    quiet = ok.failed.quiet;
    begun = ok.failed.begun;
    held = λ k. let up = o.not_closed in absurd (clash k up);
  };
})
  where
    clash : s.is_closed ≡ true → s.is_closed ≡ false → ⊥
    clash k up = cc

finish_drain-Over :
    (s : Session) → (s.drain_once ≡ true → waits s ≡ true) → FailedIn s → Over (finish_drain s)
unfolding finish_drain
finish_drain-Over s once failed =
    if_rule Over (s.is_draining && is_empty s.requests) _ s
      (λ t.
        if_rule Over s.local_drain (record s { finishers = s.finishers + 1 })
          (fail drained_failure s)
          (λ l. record { settled = λ d e. ground arith; once = once; failed = failed })
          (λ l. fail-Over drained_failure s failed))
      (λ f. record { settled = λ d e. absurd (clash d e f); once = once; failed = failed })
  where
    clash :
        s.is_draining ≡ true
        → is_empty s.requests ≡ true
        → (s.is_draining && is_empty s.requests) ≡ false
        → ⊥
    clash d e f = ground arith

all_deleted :
    (handles : List ℕ) (id : Bytes) (es : List Entry)
    → All (Due handles) es
    → All (Due handles) (delete_entry id es)
unfolding delete_entry
all_deleted handles id [] h = tt
all_deleted handles id (e ∷ es) h = elim (Bool-cases (same_bytes e.request.id id)) [
  | inl t ↦ rw t h.1
  | inr f ↦ rw f (h.0, all_deleted handles id es h.1)
]

-- A tombstone changes nothing that `Over` is about.
tombstone-Over :
    (e : Entry) (s : Session)
    → (s.drain_once ≡ true → waits s ≡ true)
    → FailedIn s
    → Over (finish_drain (add_tombstone e s))
unfolding add_tombstone
tombstone-Over e s once failed =
    if_rule Finished (ltb (length s.tombstone_order) s.limits.max_in_flight_requests) _ _
      (λ t. finish_drain-Over _ once failed) (λ f. finish_drain-Over _ once failed)
  where
    Finished : Session → Type 0
    Finished t = Over (finish_drain t)

pub remove_found-Over :
    (record_it : Bool) (handle : ℕ) (o : Option Entry) (s : Session)
    → Over s
    → Over (remove_found record_it handle o s).0
unfolding remove_found
remove_found-Over record_it handle none s ok = ok
remove_found-Over record_it handle (some e) s ok =
    let dropped = drop_request e s in
    let tomb : Session × Bool = (finish_drain (add_tombstone (compacted e) dropped), true) in
    let plain : Session × Bool = (finish_drain dropped, true) in
    let kept : FailedIn dropped = record {
      quiet = ok.failed.quiet;
      begun = ok.failed.begun;
      held = λ c. all_deleted (left s.ending) e.request.id s.requests (ok.failed.held c);
    } in
    if_rule Removed (not (e.handle == handle)) (s, false) (if record_it then tomb else plain)
      (λ t. ok)
      (λ f.
        if_rule Removed record_it tomb plain
          (λ t. tombstone-Over (compacted e) dropped ok.once kept)
          (λ t. finish_drain-Over dropped ok.once kept))
  where
    Removed : Session × Bool → Type 0
    Removed out = Over out.0

pub abort_full-outcome :
    (e : Option TunnelError) (r : Request)
    → r.is_completed ≡ true
    → (abort_full e r).is_completed ≡ true
unfolding abort_full complete_local_abort complete_locked
abort_full-outcome none r h = h
abort_full-outcome (some queue_full) r h = ground arith
abort_full-outcome (some _) r h = h
