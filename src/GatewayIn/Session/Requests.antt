-- ===== src/GatewayIn/Session/Requests.antt =====
-- `startRequest`, `removeRequest` and `addTombstoneLocked` of session.go. Nothing else takes the
-- session's lock between two rounds of the loop of `startRequest`, and the bytes of a request that is
-- removed are dropped in the same step.
use marketmesh.Prelude.{
  ℕ, zero, suc, ◌+◌, ◌-◌, ◌%◌, min, Bool, true, false, not, ◌&&◌, ◌||◌, Option, some, none, List,
  [], ◌∷◌, ◌++◌, ltb, leb, ◌==◌, if◌then◌else◌, length, get_or, contains,
}
use marketmesh.Protocol.Enums.{RouteId, RouteId-discrete, ResultCode}
use marketmesh.Protocol.Messages.{Bytes}
use marketmesh.GatewayIn.Errors.{
  TunnelError, route_not_allowed, queue_full, request_id_collision, random_failed, result_error,
}
use marketmesh.GatewayIn.Request.{RoutePolicy, new_logical_request, compact_for_tombstone}
use marketmesh.GatewayIn.Session.{
  Session, Entry, find_entry, delete_entry, put_tombstone, set_active, set_order, fail,
  drained_failure,
}

unfoldable pub effective_policy : Session → RoutePolicy → RoutePolicy
effective_policy s policy = record policy {
  max_request_bytes = min policy.max_request_bytes s.limits.max_message_bytes;
  max_response_bytes = min policy.max_response_bytes s.limits.max_message_bytes;
  max_in_flight = min policy.max_in_flight s.limits.max_in_flight_requests;
}

abbrev pub new_entry : Bytes → RouteId → RoutePolicy → Session → Entry
new_entry id route policy s = record {
  handle = s.next_handle;
  request = new_logical_request id route policy;
}

unfoldable pub add_request : Entry → Session → Session
unfolding set_active
add_request e s = record s {
  requests = e ∷ s.requests;
  route_active = set_active e.request.route (s.route_active e.request.route + 1) s.route_active;
  next_handle = s.next_handle + 1;
}

-- One round of the loop of `startRequest` under the lock.
pub data Attempt : Type 0 where
  collides : Attempt
  refuses : TunnelError → Attempt
  opens : Session → Entry → Attempt

-- The tests on the id: what the maps have there.
unfoldable pub claim_id : Option Entry → Option Entry → Entry → Session → Attempt
unfolding add_request
claim_id (some x) recorded e s = collides
claim_id none (some x) e s = collides
claim_id none none e s = opens (add_request e s) e

unfoldable pub start_attempt : RouteId → RoutePolicy → Bytes → Session → Attempt
unfolding contains RouteId-discrete find_entry claim_id new_logical_request
start_attempt route policy id s =
    if not s.is_ready || (s.is_draining || s.is_closed)
    then refuses TunnelError.draining
    else if not (contains RouteId-discrete s.routes route)
    then refuses route_not_allowed
    else if leb s.limits.max_in_flight_requests (length s.requests)
        || leb policy.max_in_flight (s.route_active route)
    then refuses queue_full
    else claim_id (find_entry id s.requests) (s.tombstones id) (new_entry id route policy s) s

pub data Started : Type 0 where
  opened : Session → Entry → Started
  failed : TunnelError → Started

-- The loop, with the rounds that are left; `random` gives the id of each, `none` where the source of
-- random bytes fails.
unfoldable pub start_from : ℕ → (ℕ → Option Bytes) → RouteId → RoutePolicy → Session → Started
unfolding start_attempt
start_from zero random route policy s = failed request_id_collision
start_from (suc rounds) random route policy s = elim (random rounds) [
  | none ↦ failed random_failed
  | some id ↦ elim (start_attempt route policy id s) [
    | collides ↦ start_from rounds random route policy s
    | refuses e ↦ failed e
    | opens s' e ↦ opened s' e
  ]
]

abbrev pub start_rounds : ℕ
start_rounds = 4

unfoldable pub start_request : (ℕ → Option Bytes) → RouteId → RoutePolicy → ℕ → Session → Started
unfolding effective_policy start_from
start_request random route policy request_bytes s =
    if ltb (effective_policy s policy).max_request_bytes request_bytes
    then failed (result_error ResultCode.resource_exhausted)
    else start_from start_rounds random route (effective_policy s policy) s

unfoldable pub compacted : Entry → Entry
unfolding compact_for_tombstone
compacted e = record e { request = compact_for_tombstone e.request }

unfoldable pub add_tombstone : Entry → Session → Session
unfolding put_tombstone set_order
add_tombstone e s =
    let capacity = s.limits.max_in_flight_requests in
    if ltb (length s.tombstone_order) capacity
    then record s {
      tombstone_order = s.tombstone_order ++ (e.request.id ∷ []);
      tombstones = put_tombstone e.request.id (some e) s.tombstones;
    }
    else record s {
      tombstone_order = set_order s.tombstone_position e.request.id s.tombstone_order;
      tombstones =
          put_tombstone e.request.id (some e)
            (put_tombstone (get_or s.tombstone_order s.tombstone_position []) none s.tombstones);
      tombstone_position = (s.tombstone_position + 1) % capacity;
    }

abbrev pub drop_request : Entry → Session → Session
drop_request e s = record s {
  requests = delete_entry e.request.id s.requests;
  route_active = set_active e.request.route (s.route_active e.request.route - 1) s.route_active;
}

unfoldable pub is_empty : {A : Type 0} → List A → Bool
is_empty [] = true
is_empty (x ∷ xs) = false

-- What a removal goes on to when the tunnel drains, as it is seen under the lock.
unfoldable pub finish_drain : Session → Session
unfolding is_empty fail
finish_drain s =
    if s.is_draining && is_empty s.requests
    then (if s.local_drain
        then record s { finishers = s.finishers + 1 }
        else fail drained_failure s)
    else s

-- The lookup of `removeRequest` and what follows it; the flag says that the registry is told to
-- release the instance.
unfoldable pub remove_found : Bool → ℕ → Option Entry → Session → Session × Bool
unfolding delete_entry set_active add_tombstone finish_drain compacted
remove_found tombstone handle none s = (s, false)
remove_found tombstone handle (some e) s =
    if not (e.handle == handle)
    then (s, false)
    else if tombstone
    then (finish_drain (add_tombstone (compacted e) (drop_request e s)), true)
    else (finish_drain (drop_request e s), true)

-- The request that a caller holds is its id and the object.
unfoldable pub remove_request : Bool → Bytes → ℕ → Session → Session × Bool
unfolding find_entry remove_found
remove_request tombstone id handle s = remove_found tombstone handle (find_entry id s.requests) s

unfoldable pub finish_request : Bytes → ℕ → Session → Session × Bool
unfolding remove_request
finish_request id handle s = remove_request true id handle s

unfoldable pub rollback_request_before_open : Bytes → ℕ → Session → Session × Bool
unfolding remove_request
rollback_request_before_open id handle s = remove_request false id handle s
