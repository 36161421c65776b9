-- ===== src/GatewayIn/Session/Counts.antt =====
-- What `startRequest` and `removeRequest` of session.go do to the map of requests and its counts.
use mathlib.Core.Logic.{if_pos, if_neg}
use mathlib.Core.Path.{subst}
use marketmesh.Prelude.{
  ℕ, zero, suc, ◌+◌, ◌≤◌, ◌<◌, ◌≡◌, refl, sym, ap, ◌∙◌, ◌≢◌, inl, inr, ite, Bool, true, false, not,
  ◌||◌, Option, some, none, List, [], ◌∷◌, map, arith, leb, if◌then◌else◌, Bool-cases, Option-cases,
  length, All, contains,
}
use marketmesh.Protocol.Enums.{RouteId, RouteId-discrete}
use marketmesh.Protocol.Messages.{Bytes}
use marketmesh.GatewayIn.Errors.{TunnelError, route_not_allowed, queue_full}
use marketmesh.GatewayIn.Request.{RoutePolicy, new_logical_request}
use marketmesh.GatewayIn.Session.{
  Session, Entry, find_entry, delete_entry, same_bytes, bytes_discrete,
}
use marketmesh.GatewayIn.Session.Requests.{
  Attempt, collides, refuses, opens, opened, claim_id, start_attempt, start_from, start_request,
  start_rounds, effective_policy, add_request, new_entry,
}
use marketmesh.GatewayIn.Session.Kept.{Key, key}

abbrev pub id_of : Key → Bytes
id_of k = k.1.0

-- The requests of a route.
abbrev pub count : RouteId → List Key → ℕ
count route [] = 0
count route (k ∷ ks) = ite (RouteId-discrete k.1.1 route) 1 0 + count route ks

-- A list and what is left of it without one element.
pub data Without (k : Key) : List Key → List Key → Type 0 where
  first : {ks : List Key} → Without k (k ∷ ks) ks
  later : {x : Key} {ks js : List Key} → Without k ks js → Without k (x ∷ ks) (x ∷ js)

pub Without-length : {k : Key} {ks js : List Key} → Without k ks js → length ks ≡ length js + 1
Without-length first = omega arith
Without-length (later w) = omega (arith, Without-length w)

pub Without-count :
    (route : RouteId) {k : Key} {ks js : List Key}
    → Without k ks js
    → count route ks ≡ ite (RouteId-discrete k.1.1 route) 1 0 + count route js
Without-count route first = refl
Without-count route (later w) = omega (arith, Without-count route w)

pub Without-All :
    (P : Key → Type 0) {k : Key} {ks js : List Key} → Without k ks js → All P ks → All P js
Without-All P first h = h.1
Without-All P (later w) h = (h.0, Without-All P w h.1)

-- Ids that are all different.
abbrev pub Apart : List Key → Type 0
Apart [] = Unit
Apart (k ∷ ks) = All (λ j. id_of k ≢ id_of j) ks × Apart ks

pub Without-Apart : {k : Key} {ks js : List Key} → Without k ks js → Apart ks → Apart js
Without-Apart first h = h.1
Without-Apart (later w) h = (Without-All _ w h.0, Without-Apart w h.1)

pub Without-other :
    (P : Key → Type 0) {k : Key} {ks js : List Key} → Without k ks js → All P ks → P k
Without-other P first h = h.0
Without-other P (later w) h = Without-other P w h.1

pub Without-gone :
    {k : Key} {ks js : List Key} → Without k ks js → Apart ks → All (λ j. id_of k ≢ id_of j) js
Without-gone first h = h.0
Without-gone (later w) h = (λ e. Without-other _ w h.0 (sym e), Without-gone w h.1)

-- A found entry is known by the id that was looked for.
pub found_id :
    (id : Bytes) (es : List Entry) (e : Entry) → find_entry id es ≡ some e → e.request.id ≡ id
unfolding find_entry same_bytes
found_id id [] e h = cc
found_id id (x ∷ xs) e h = elim (bytes_discrete x.request.id id) [
  | yes p ↦
      let is_first : some x ≡ some e = rw (if_pos (bytes_discrete x.request.id id) p) at h in cc
  | no n ↦ found_id id xs e (rw (if_neg (bytes_discrete x.request.id id) n) at h)
]

pub delete-Without :
    (id : Bytes) (es : List Entry) (e : Entry)
    → find_entry id es ≡ some e
    → Without (key e) (map key es) (map key (delete_entry id es))
unfolding find_entry delete_entry
delete-Without id [] e h = cc
delete-Without id (x ∷ xs) e h = elim (Bool-cases (same_bytes x.request.id id)) [
  | inl t ↦
      let is_first : some x ≡ some e = rw t at h in
      let same : x ≡ e = cc in
      rw t (subst (λ (y : Entry). Without (key y) (key x ∷ map key xs) (map key xs)) same first)
  | inr f ↦
      let is_later : find_entry id xs ≡ some e = rw f at h in
      rw f (later (delete-Without id xs e is_later))
]

pub unknown_id :
    (id : Bytes) (es : List Entry)
    → find_entry id es ≡ none
    → All (λ (k : Key). id ≢ id_of k) (map key es)
unfolding find_entry same_bytes
unknown_id id [] h = tt
unknown_id id (x ∷ xs) h = elim (bytes_discrete x.request.id id) [
  | yes p ↦ let is_first : some x ≡ none = rw (if_pos (bytes_discrete x.request.id id) p) at h in cc
  | no n ↦ (λ e. n (sym e), unknown_id id xs (rw (if_neg (bytes_discrete x.request.id id) n) at h))
]

-- What holds when a request is started.
pub record Opens (route : RouteId) (policy : RoutePolicy) (s s' : Session) (e : Entry)
    : Type 0 where
  pub adds : s' ≡ add_request e s
  pub route_is : e.request.route ≡ route
  pub policy_is : e.request.policy ≡ policy
  pub pending : e.request.is_completed ≡ false
  pub room : length s.requests < s.limits.max_in_flight_requests
  pub route_room : s.route_active route < policy.max_in_flight
  pub unknown : find_entry e.request.id s.requests ≡ none
  pub unrecorded : s.tombstones e.request.id ≡ none
  pub ready : s.is_ready ≡ true
  pub not_draining : s.is_draining ≡ false
  pub not_closed : s.is_closed ≡ false
  pub supported : contains RouteId-discrete s.routes route ≡ true

unless_refused :
    (b : Bool) (x : TunnelError) (a : Attempt) (s : Session) (e : Entry)
    → (if b then refuses x else a) ≡ opens s e
    → (b ≡ false) × (a ≡ opens s e)
unless_refused true x a s e h = cc
unless_refused false x a s e h = (refl, h)

claimed :
    (found recorded : Option Entry) (x : Entry) (s s' : Session) (e : Entry)
    → claim_id found recorded x s ≡ opens s' e
    → (found ≡ none) × ((recorded ≡ none) × ((s' ≡ add_request x s) × (e ≡ x)))
unfolding claim_id
claimed (some y) recorded x s s' e h = cc
claimed none (some y) x s s' e h = cc
claimed none none x s s' e h = (refl, (refl, (cc, cc)))

start_attempt-Opens :
    (route : RouteId) (policy : RoutePolicy) (id : Bytes) (s s' : Session) (e : Entry)
    → start_attempt route policy id s ≡ opens s' e
    → Opens route policy s s' e
unfolding start_attempt new_logical_request
start_attempt-Opens route policy id s s' e h =
    let x = new_entry id route policy s in
    let taken = claim_id (find_entry id s.requests) (s.tombstones id) x s in
    let full =
      leb s.limits.max_in_flight_requests (length s.requests)
      || leb policy.max_in_flight (s.route_active route) in
    let other = not (contains RouteId-discrete s.routes route) in
    let down = not s.is_ready || (s.is_draining || s.is_closed) in
    let (up, h1) =
      unless_refused down TunnelError.draining
        (if other then refuses route_not_allowed else if full then refuses queue_full else taken) s'
        e h in
    let (supported, h2) =
      unless_refused other route_not_allowed (if full then refuses queue_full else taken) s' e h1 in
    let (room, h3) = unless_refused full queue_full taken s' e h2 in
    let (unknown, (unrecorded, (adds, is_new))) = claimed _ _ x s s' e h3 in
    record {
      adds = adds ∙ ap (λ (x : Entry). add_request x s) (sym is_new);
      route_is = ap (λ (x : Entry). x.request.route) is_new;
      policy_is = ap (λ (x : Entry). x.request.policy) is_new;
      pending = ap (λ (x : Entry). x.request.is_completed) is_new;
      room = ground arith;
      route_room = ground arith;
      unknown = ap (λ (x : Entry). find_entry x.request.id s.requests) is_new ∙ unknown;
      unrecorded = ap (λ (x : Entry). s.tombstones x.request.id) is_new ∙ unrecorded;
      ready = ground arith;
      not_draining = ground arith;
      not_closed = ground arith;
      supported = ground arith;
    }

start_from-Opens :
    (rounds : ℕ) (random : ℕ → Option Bytes) (route : RouteId) (policy : RoutePolicy)
    (s s' : Session) (e : Entry)
    → start_from rounds random route policy s ≡ opened s' e
    → Opens route policy s s' e
unfolding start_from
start_from-Opens zero random route policy s s' e h = cc
start_from-Opens (suc rounds) random route policy s s' e h =
    let again = start_from-Opens rounds random route policy s s' e in
    elim (Option-cases (random rounds)) [
      | inl absent ↦ ground arith
      | inr (id, given) ↦ by_attempt again id (start_attempt route policy id s) refl given
    ]
  where
    by_attempt :
        (start_from rounds random route policy s ≡ opened s' e → Opens route policy s s' e)
        → (id : Bytes) (a : Attempt) → start_attempt route policy id s ≡ a
        → random rounds ≡ some id
        → Opens route policy s s' e
    by_attempt again id collides k given = again (ground arith)
    by_attempt again id (refuses x) k given = ground arith
    by_attempt again id (opens t x) k given =
        start_attempt-Opens route policy id s s' e (ground arith)

pub start_request-Opens :
    (random : ℕ → Option Bytes) (route : RouteId) (policy : RoutePolicy) (request_bytes : ℕ)
    (s s' : Session) (e : Entry)
    → start_request random route policy request_bytes s ≡ opened s' e
    → Opens route (effective_policy s policy) s s' e
      × (request_bytes ≤ (effective_policy s policy).max_request_bytes)
unfolding start_request
start_request-Opens random route policy request_bytes s s' e h =
    let began = start_from-Opens start_rounds random route (effective_policy s policy) s s' e in
    ground (arith, began)
