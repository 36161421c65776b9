-- ===== src/GatewayIn/Session/Within.antt =====
-- The requests of a tunnel along its runs: bounded, counted, and told apart from each other and from
-- the tombstones.
use mathlib.Core.Logic.{if_pos, if_neg}
use mathlib.Core.Path.{subst}
use marketmesh.Prelude.{
  ℕ, suc, ◌+◌, ◌-◌, ◌≤◌, ◌<◌, ◌≡◌, refl, sym, ap, ◌∙◌, ◌≢◌, inl, ite, Bool, true, false, not,
  Option, some, none, List, [], ◌∷◌, map, arith, ◌==◌, if◌then◌else◌, if_rule, length, get_or, All,
  Distinct, All-map, All-zip,
}
use marketmesh.Protocol.Enums.{RouteId, RouteId-discrete}
use marketmesh.Protocol.Messages.{Bytes}
use marketmesh.GatewayIn.Request.{RoutePolicy}
use marketmesh.GatewayIn.Scheduler.{QueueLimits}
use marketmesh.GatewayIn.Handshake.{Negotiation}
use marketmesh.GatewayIn.Session.{
  new_session, Session, Entry, drained_failure, find_entry, same_bytes, bytes_discrete, set_active,
  put_tombstone,
}
use marketmesh.GatewayIn.Session.Requests.{
  effective_policy, add_request, compacted, add_tombstone, drop_request, finish_drain, remove_found,
  remove_request,
}
use marketmesh.GatewayIn.Session.Ring.{RingOk, recent}
use marketmesh.GatewayIn.Session.Memory.{Absent, add_tombstone-RingOk}
use marketmesh.GatewayIn.Session.Kept.{Key, key, Same, same, alike, fail-Same}
use marketmesh.GatewayIn.Session.Counts.{
  id_of, count, Without, Without-length, Without-count, Without-All, Apart, Without-Apart,
  Without-gone, Without-other, found_id, delete-Without, unknown_id, Opens,
}

-- The requests in flight are no more than were negotiated, and those of a route no more than its
-- policy allows; the count of a route is that of its requests; no two have one id, and none has the
-- id of a tombstone, and the tombstones are well formed.
pub record SessionOk (policies : RouteId → RoutePolicy) (s : Session) : Type 0 where
  pub within : length (map key s.requests) ≤ s.limits.max_in_flight_requests
  pub counted : (route : RouteId) → s.route_active route ≡ count route (map key s.requests)
  pub route_within : (route : RouteId) → s.route_active route ≤ (policies route).max_in_flight
  pub apart : Apart (map key s.requests)
  pub unrecorded : All (λ (k : Key). s.tombstones (id_of k) ≡ none) (map key s.requests)
  pub ring : RingOk s

finish_drain-Same : (s : Session) → Same s (finish_drain s)
unfolding finish_drain
finish_drain-Same s =
    let waited : Same s (record s { finishers = s.finishers + 1 }) =
      alike s _ refl refl refl refl refl refl in
    ground (arith, same s, waited, fail-Same drained_failure s)

-- Recording a tombstone leaves the requests and their counts.
add_tombstone-rest :
    (e : Entry) (s : Session)
    → ((add_tombstone e s).limits ≡ s.limits)
      × (((add_tombstone e s).requests ≡ s.requests)
          × ((add_tombstone e s).route_active ≡ s.route_active))
unfolding add_tombstone
add_tombstone-rest e s = (ground arith, (ground arith, ground arith))

put-none :
    (id j : Bytes) (o : Option Entry) (t : Bytes → Option Entry)
    → id ≢ j
    → put_tombstone id o t j ≡ t j
unfolding put_tombstone same_bytes
put-none id j o t n = rw (if_neg (bytes_discrete id j) n) refl

forget-none :
    (id j : Bytes) (t : Bytes → Option Entry) → t j ≡ none → put_tombstone id none t j ≡ none
unfolding put_tombstone
forget-none id j t h = ground arith

still :
    (e : Entry) (s : Session) (j : Bytes)
    → s.tombstones j ≡ none
    → e.request.id ≢ j
    → (add_tombstone e s).tombstones j ≡ none
unfolding add_tombstone
still e s j h n =
    let old = get_or s.tombstone_order s.tombstone_position [] in
    let short : put_tombstone e.request.id (some e) s.tombstones j ≡ none =
      put-none e.request.id j (some e) s.tombstones n ∙ h in
    let full : put_tombstone e.request.id (some e) (put_tombstone old none s.tombstones) j ≡ none =
      put-none e.request.id j (some e) (put_tombstone old none s.tombstones) n
      ∙ forget-none old j s.tombstones h in
    ground arith

module _ (policies : RouteId → RoutePolicy) where
  Same-RingOk : {s t : Session} → Same s t → RingOk s → RingOk t
  unfolding recent
  Same-RingOk {s} {t} m ok =
      let ids : recent t ≡ recent s = cc in
      record {
        positive = rw m.limits_is ok.positive;
        shape = rw (m.limits_is, m.order_is, m.position_is) ok.shape;
        distinct = subst Distinct (sym ids) ok.distinct;
        held = λ id. (
          λ h. subst (Absent id) (sym ids) ((ok.held id).0 ((m.recorded id).0 h)),
          λ h. (m.recorded id).1 ((ok.held id).1 (subst (Absent id) ids h)),
        );
      }

  pub Same-SessionOk : {s t : Session} → Same s t → SessionOk policies s → SessionOk policies t
  Same-SessionOk {s} {t} m ok = record {
    within = rw (m.limits_is, m.keys_is) ok.within;
    counted = λ route.
        ap (λ (f : RouteId → ℕ). f route) m.active_is
        ∙ ok.counted route
        ∙ sym (ap (count route) m.keys_is);
    route_within = λ route. rw m.active_is (ok.route_within route);
    apart = subst Apart (sym m.keys_is) ok.apart;
    unrecorded =
        subst (All (λ (k : Key). t.tombstones (id_of k) ≡ none)) (sym m.keys_is)
          (All-map _ _ (map key s.requests) (λ k. (m.recorded (id_of k)).1) ok.unrecorded);
    ring = Same-RingOk m ok.ring;
  }

  own_place : (k r : RouteId) → k ≡ r → ◌≡◌ {A = ℕ} (ite (RouteId-discrete k r) 1 0) 1
  own_place k r p = if_pos (RouteId-discrete k r) p 1 0

  no_place : (k r : RouteId) → k ≢ r → ◌≡◌ {A = ℕ} (ite (RouteId-discrete k r) 1 0) 0
  no_place k r n = if_neg (RouteId-discrete k r) n 1 0

  length-keys : (es : List Entry) → length (map key es) ≡ length es
  length-keys [] = refl
  length-keys (e ∷ es) = ap suc (length-keys es)

  pub begin-SessionOk :
      (route : RouteId) (s s' : Session) (e : Entry)
      → Opens route (effective_policy s (policies route)) s s' e
      → SessionOk policies s
      → SessionOk policies s'
  unfolding add_request set_active recent effective_policy
  begin-SessionOk route s s' e o ok = subst (SessionOk policies) (sym o.adds) (record {
    within = omega (arith, length-keys s.requests, o.room);
    counted = λ r. elim (RouteId-discrete e.request.route r) [
      | yes p ↦
          let one = own_place e.request.route r p in
          rw (if_pos (RouteId-discrete e.request.route r) p)
            (omega (arith, one, ok.counted r, ap s.route_active p))
      | no n ↦
          let zero_more = no_place e.request.route r n in
          rw (if_neg (RouteId-discrete e.request.route r) n)
            (omega (arith, zero_more, ok.counted r))
    ];
    route_within = λ r. elim (RouteId-discrete e.request.route r) [
      | yes p ↦ rw (if_pos (RouteId-discrete e.request.route r) p) (most r p)
      | no n ↦ rw (if_neg (RouteId-discrete e.request.route r) n) (ok.route_within r)
    ];
    apart = (unknown_id e.request.id s.requests o.unknown, ok.apart);
    unrecorded = (o.unrecorded, ok.unrecorded);
    ring = record {
      positive = ok.ring.positive;
      shape = ok.ring.shape;
      distinct = ok.ring.distinct;
      held = ok.ring.held;
    };
  })
    where
      most :
          (r : RouteId)
          → e.request.route ≡ r
          → s.route_active e.request.route + 1 ≤ (policies r).max_in_flight
      most r p =
          let same_count = ap s.route_active o.route_is in
          let same_policy = ap (λ (x : RouteId). (policies x).max_in_flight) (sym o.route_is ∙ p) in
          let room = o.route_room in omega arith

  -- A session without one of its requests.
  module _ (s : Session) (e : Entry) (found : find_entry e.request.id s.requests ≡ some e) where
    without : Without (key e) (map key s.requests) (map key (drop_request e s).requests)
    without = delete-Without e.request.id s.requests e found

    dropped-SessionOk : SessionOk policies s → SessionOk policies (drop_request e s)
    unfolding set_active recent
    dropped-SessionOk ok = record {
      within = omega (arith, Without-length without, ok.within);
      counted = λ r. elim (RouteId-discrete e.request.route r) [
        | yes p ↦ rw (if_pos (RouteId-discrete e.request.route r) p) (minus_one r p (ok.counted r))
        | no n ↦ rw (if_neg (RouteId-discrete e.request.route r) n) (unchanged r n (ok.counted r))
      ];
      route_within = λ r. elim (RouteId-discrete e.request.route r) [
        | yes p ↦ rw (if_pos (RouteId-discrete e.request.route r) p) (fewer r p (ok.route_within r))
        | no n ↦ rw (if_neg (RouteId-discrete e.request.route r) n) (ok.route_within r)
      ];
      apart = Without-Apart without ok.apart;
      unrecorded = Without-All _ without ok.unrecorded;
      ring = record {
        positive = ok.ring.positive;
        shape = ok.ring.shape;
        distinct = ok.ring.distinct;
        held = ok.ring.held;
      };
    }
      where
        own :
            (r : RouteId)
            → e.request.route ≡ r
            → count r (map key s.requests) ≡ 1 + count r (map key (drop_request e s).requests)
        own r p =
            let one = own_place e.request.route r p in omega (arith, one, Without-count r without)

        minus_one :
            (r : RouteId)
            → e.request.route ≡ r
            → s.route_active r ≡ count r (map key s.requests)
            → s.route_active e.request.route - 1 ≡ count r (map key (drop_request e s).requests)
        minus_one r p c = omega (arith, own r p, c, ap s.route_active p)

        unchanged :
            (r : RouteId)
            → e.request.route ≢ r
            → s.route_active r ≡ count r (map key s.requests)
            → s.route_active r ≡ count r (map key (drop_request e s).requests)
        unchanged r n c =
            let zero_more = no_place e.request.route r n in
            omega (arith, zero_more, Without-count r without, c)

        fewer :
            (r : RouteId)
            → e.request.route ≡ r
            → s.route_active r ≤ (policies r).max_in_flight
            → s.route_active e.request.route - 1 ≤ (policies r).max_in_flight
        fewer r p c = omega (arith, c, ap s.route_active p)

    fresh_id : SessionOk policies s → s.tombstones e.request.id ≡ none
    fresh_id ok = Without-other _ without ok.unrecorded

    -- What the requests that are left are, beside the one that is gone.
    others_apart :
        SessionOk policies s
        → All (λ (k : Key). e.request.id ≢ id_of k) (map key (drop_request e s).requests)
    others_apart ok = Without-gone without ok.apart

    recorded-SessionOk :
        SessionOk policies s → SessionOk policies (add_tombstone (compacted e) (drop_request e s))
    unfolding compacted
    recorded-SessionOk ok =
        let dropped = dropped-SessionOk ok in
        let ring =
          add_tombstone-RingOk (compacted e) (drop_request e s) dropped.ring (fresh_id ok) in
        let (limits_is, (requests_is, active_is)) =
          add_tombstone-rest (compacted e) (drop_request e s) in
        record {
          within = rw (limits_is, requests_is) dropped.within;
          counted = λ r. rw (active_is, requests_is) (dropped.counted r);
          route_within = λ r. rw active_is (dropped.route_within r);
          apart = rw requests_is dropped.apart;
          unrecorded = rw requests_is (
              All-map _ _ (map key (drop_request e s).requests)
                (λ k h. still (compacted e) (drop_request e s) (id_of k) h.0 h.1)
                (All-zip _ _ (map key (drop_request e s).requests) dropped.unrecorded
                  (others_apart ok)));
          ring = ring;
        }

  abbrev Removed : Session × Bool → Type 0
  Removed out = SessionOk policies out.0

  remove_found-SessionOk :
      (tombstone : Bool) (id : Bytes) (handle : ℕ) (o : Option Entry) (s : Session)
      → find_entry id s.requests ≡ o
      → SessionOk policies s
      → SessionOk policies (remove_found tombstone handle o s).0
  unfolding remove_found
  remove_found-SessionOk tombstone id handle none s found ok = ok
  remove_found-SessionOk tombstone id handle (some e) s found ok =
      let here : find_entry e.request.id s.requests ≡ some e =
        ap (λ (i : Bytes). find_entry i s.requests) (found_id id s.requests e found) ∙ found in
      let recorded = Same-SessionOk (finish_drain-Same _) (recorded-SessionOk s e here ok) in
      let plain = Same-SessionOk (finish_drain-Same _) (dropped-SessionOk s e here ok) in
      let tomb : Session × Bool =
        (finish_drain (add_tombstone (compacted e) (drop_request e s)), true) in
      let none_left : Session × Bool = (finish_drain (drop_request e s), true) in
      if_rule Removed (not (e.handle == handle)) (s, false) (if tombstone then tomb else none_left)
        (λ t. ok) (λ f. if_rule Removed tombstone tomb none_left (λ t. recorded) (λ u. plain))

  pub remove-SessionOk :
      (tombstone : Bool) (id : Bytes) (handle : ℕ) (s : Session)
      → SessionOk policies s
      → SessionOk policies (remove_request tombstone id handle s).0
  unfolding remove_request
  remove-SessionOk tombstone id handle s ok =
      remove_found-SessionOk tombstone id handle (find_entry id s.requests) s refl ok

-- A session that has just been negotiated.
pub new_session-SessionOk :
    (policies : RouteId → RoutePolicy) (queues : QueueLimits) (id : Bytes) (n : Negotiation)
    → 0 < n.limits.max_in_flight_requests
    → SessionOk policies (new_session queues id n)
unfolding new_session recent
new_session-SessionOk policies queues id n h = record {
  within = omega arith;
  counted = λ r. refl;
  route_within = λ r. omega arith;
  apart = tt;
  unrecorded = tt;
  ring = record {
    positive = h;
    shape = inl (h, refl);
    distinct = tt;
    held = λ i. (λ e. tt, λ e. refl);
  };
}
