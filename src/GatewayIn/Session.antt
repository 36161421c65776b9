-- ===== src/GatewayIn/Session.antt =====
-- backend/services/gateway-in/internal/tunnel/session.go: the state of a tunnel, with the start and
-- the end of its requests. A method returns the new session. An object that the maps share is an
-- entry with its identity; times are nanoseconds. The classes, the data center, the instance and the
-- logs and metrics are left out.
pub mod Requests
pub mod Ring
pub mod Memory
pub mod Traffic
pub mod Reading
pub mod Frames
pub mod Runs
pub mod Kept
pub mod Quiet
pub mod Steady
pub mod Reader
pub mod Counts
pub mod Within
pub mod Bounded
pub mod Over
pub mod Ended
pub mod Failing
pub mod Outcome
use marketmesh.Prelude.{
  ℕ, zero, suc, ◌+◌, ◌-◌, ◌*◌, ◌/◌, ◌%◌, ◌^◌, ◌≤◌, ◌<◌, min, String, ◌≡◌, refl, sym, ap, ◌∙◌, ◌≢◌,
  ◌↔◌, ◌⊎◌, inl, inr, ite, Bool, true, false, not, ◌&&◌, ◌||◌, Option, some, none, List, [], ◌∷◌,
  ◌++◌, map, arith, ℕ_discrete, ltb, leb, ◌==◌, if◌then◌else◌, ==_iff, ite_iff, if_rule, unless_iff,
  or_false, not-false, not-eq-true, and_true, Bool-cases, at_most, within, equals, positive, both,
  negated, excluded, Option-cases, List-cases, length, get_or, take, drop, All, Distinct,
  length-append, length-take, length-drop, take-append-drop, contains, All-map, All-zip,
  contains_iff, take-append, drop-append, drop-field, take-all, drop_past, get_or_past, get_or_at,
  keep, length-keep, All-keep, All-kept, Distinct-keep, insert_by, sort_by, length-sort_by,
  All-sort_by, Distinct-sort_by, All-keys-keep, Distinct-keys-keep, ◌>>◌, reject_if, >>-eq-none,
  reject_if-eq-none, seq_accepts, reject_accepts,
}
use marketmesh.Protocol.Enums.{Capability, RouteId, RouteId-discrete, ResultCode, DrainReason}
use marketmesh.Protocol.Messages.{Bytes, Limits, Timestamp}
use marketmesh.GatewayIn.Errors.{
  TunnelError, tunnel_closed, route_not_allowed, queue_full, request_id_collision, random_failed,
  result_error,
}
use marketmesh.GatewayIn.Request.{
  Request, RoutePolicy, new_logical_request, empty_response, complete, compact_for_tombstone,
}
use marketmesh.GatewayIn.Scheduler.{QueueLimits, OutboundQueue, new_outbound_queue}
use marketmesh.GatewayIn.Handshake.{Negotiation}

-- The codes of `rpcErr`.
pub data RpcCode : Type 0 where
  invalid_argument unavailable resource_exhausted internal : RpcCode

pub data FailureReason : Type 0 where
  stale drained protocol_violation peer_closed receive_failed send_failed : FailureReason
  pong_timeout random_unavailable control_queue_full drain_deadline drain_unsupported :
      FailureReason
  drain_enqueue_failed : FailureReason

pub record Failure : Type 0 where
  pub request_err : TunnelError
  pub rpc_err : Option RpcCode
  pub reason : FailureReason

-- A request object: what the pointer is, and what it points to.
pub record Entry : Type 0 where
  pub handle : ℕ
  pub request : Request

-- How far the body of `fail` is, which runs once: the requests that it has still to complete; the
-- context is cancelled; the failure is in `terminal`.
pub data Ending : Type 0 where
  not_failed : Ending
  completing : Failure → List ℕ → Ending
  canceling : Failure → Ending
  reported : Failure → Ending

-- A call of `initiateDrain` behind `markDraining`: the Drain to be sent, and `shouldFinish`.
pub record Announcement : Type 0 where
  pub deadline : Option Timestamp
  pub reason : DrainReason
  pub finish : Bool

-- `drain_sent` and `pong_received` are the channels of one place, `drain_timer` the time that is left on
-- the timer, and `next_handle` the object that is allocated next. The lock is dropped in the middle of
-- some methods, and what a goroutine is to do then is in the state: `failing` the calls of `fail`,
-- `announcing` those of `initiateDrain`, `finishers` how many are at `finishLocalDrainAfterSend`,
-- `drain_once` whether one of these has run and `finishing` whether the goroutine that it starts waits.
-- `ctx_done` is whether the tunnel's context is over.
pub record Session : Type 0 where
  pub id : Bytes
  pub limits : Limits
  pub routes : List RouteId
  pub capabilities : List Capability
  pub outbound : OutboundQueue
  pub ending : Ending
  pub failing : List Failure
  pub announcing : List Announcement
  pub is_ready : Bool
  pub is_draining : Bool
  pub is_closed : Bool
  pub last_activity : ℕ
  pub requests : List Entry
  pub route_active : RouteId → ℕ
  pub tombstones : Bytes → Option Entry
  pub tombstone_order : List Bytes
  pub tombstone_position : ℕ
  pub pending_ping : ℕ
  pub local_drain : Bool
  pub drain_timer : Option ℕ
  pub drain_sent : Bool
  pub pong_received : Bool
  pub finishers : ℕ
  pub drain_once : Bool
  pub finishing : Bool
  pub ctx_done : Bool
  pub next_handle : ℕ

unfoldable pub new_session : QueueLimits → Bytes → Negotiation → Session
unfolding new_outbound_queue
new_session queues id n = record {
  id = id;
  limits = n.limits;
  routes = n.routes;
  capabilities = n.capabilities;
  outbound = new_outbound_queue queues;
  ending = not_failed;
  failing = [];
  announcing = [];
  is_ready = false;
  is_draining = false;
  is_closed = false;
  last_activity = 0;
  requests = [];
  route_active = λ r. 0;
  tombstones = λ i. none;
  tombstone_order = [];
  tombstone_position = 0;
  pending_ping = 0;
  local_drain = false;
  drain_timer = none;
  drain_sent = false;
  pong_received = false;
  finishers = 0;
  drain_once = false;
  finishing = false;
  ctx_done = false;
  next_handle = 0;
}

-- The first critical section of `run`.
unfoldable pub become_ready : ℕ → Session → Session
become_ready now s = record s { is_ready = true; last_activity = now }

pub head_is : (x y : ℕ) (xs ys : Bytes) → ◌≡◌ {A = Bytes} (x ∷ xs) (y ∷ ys) → x ≡ y
head_is x y xs ys e = cc

pub tail_is : (x y : ℕ) (xs ys : Bytes) → ◌≡◌ {A = Bytes} (x ∷ xs) (y ∷ ys) → xs ≡ ys
tail_is x y xs ys e = cc

pub both_are : (x y : ℕ) (xs ys : Bytes) → x ≡ y → xs ≡ ys → ◌≡◌ {A = Bytes} (x ∷ xs) (y ∷ ys)
both_are x y xs ys p q = cc

unfoldable pub bytes_discrete : Discrete Bytes
unfolding ℕ_discrete
bytes_discrete [] [] = yes refl
bytes_discrete [] (y ∷ ys) = no (λ e. cc)
bytes_discrete (x ∷ xs) [] = no (λ e. cc)
bytes_discrete (x ∷ xs) (y ∷ ys) =
    let rest = bytes_discrete xs ys in
    elim (ℕ_discrete x y) [
      | no n ↦ no (λ e. n (head_is x y xs ys e))
      | yes p ↦ elim rest [
        | no n ↦ no (λ e. n (tail_is x y xs ys e))
        | yes q ↦ yes (both_are x y xs ys p q)
      ]
    ]

unfoldable pub same_bytes : Bytes → Bytes → Bool
unfolding bytes_discrete
same_bytes a b = ite (bytes_discrete a b) true false

unfoldable pub find_entry : Bytes → List Entry → Option Entry
unfolding same_bytes
find_entry id [] = none
find_entry id (e ∷ es) =
    let rest = find_entry id es in if same_bytes e.request.id id then some e else rest

unfoldable pub delete_entry : Bytes → List Entry → List Entry
unfolding same_bytes
delete_entry id [] = []
delete_entry id (e ∷ es) =
    let rest = delete_entry id es in if same_bytes e.request.id id then es else e ∷ rest

unfoldable pub put_tombstone : Bytes → Option Entry → (Bytes → Option Entry) → Bytes → Option Entry
unfolding same_bytes
put_tombstone id e tombstones i = if same_bytes id i then e else tombstones i

unfoldable pub set_active : RouteId → ℕ → (RouteId → ℕ) → RouteId → ℕ
set_active route n active r = ite (RouteId-discrete route r) n (active r)

-- `order[position] = id`.
unfoldable pub set_order : ℕ → Bytes → List Bytes → List Bytes
set_order position id [] = []
set_order zero id (x ∷ xs) = id ∷ xs
set_order (suc n) id (x ∷ xs) = x ∷ set_order n id xs

-- The element at a place, and the list without it.
unfoldable pub nth : {A : Type 0} → ℕ → List A → Option A
nth n [] = none
nth zero (x ∷ xs) = some x
nth (suc n) (x ∷ xs) = nth n xs

unfoldable pub remove_nth : {A : Type 0} → ℕ → List A → List A
remove_nth n [] = []
remove_nth zero (x ∷ xs) = xs
remove_nth (suc n) (x ∷ xs) = x ∷ remove_nth n xs

-- A goroutine is at a call of `fail`, behind what it has done under the lock.
unfoldable pub fail : Failure → Session → Session
fail failure s = record s { failing = failure ∷ s.failing }

-- The critical section of `fail`, for the first call that gets there.
unfoldable pub close_tunnel : Failure → Session → Session
close_tunnel failure s = if s.is_closed then s else record s {
  is_closed = true;
  is_ready = false;
  drain_timer = none;
  ending = completing failure (map (λ (e : Entry). e.handle) s.requests);
}

unfoldable pub close_with : Option Failure → ℕ → Session → Session
unfolding close_tunnel remove_nth
close_with none i s = s
close_with (some failure) i s = close_tunnel failure (record s { failing = remove_nth i s.failing })

-- One of the waiting calls gets to the critical section.
unfoldable pub fail_begins : ℕ → Session → Session
unfolding close_with nth
fail_begins i s = close_with (nth i s.failing) i s

-- `complete` of the request at a pointer. One that has left the map has its outcome already.
unfoldable pub end_entry : TunnelError → ℕ → Entry → Entry
unfolding complete
end_entry err handle e =
    if e.handle == handle
    then record e { request = complete empty_response (some err) e.request }
    else e

-- What `fail` does next behind its critical section.
unfoldable pub end_step : Ending → Session → Session
unfolding end_entry
end_step not_failed s = s
end_step (completing f (h ∷ hs)) s = record s {
  requests = map (end_entry f.request_err h) s.requests;
  ending = completing f hs;
}
end_step (completing f []) s = record s { ending = canceling f; ctx_done = true }
end_step (canceling f) s = record s { ending = reported f }
end_step (reported f) s = s

unfoldable pub fail_continues : Session → Session
unfolding end_step
fail_continues s = end_step s.ending s

abbrev pub drained_failure : Failure
drained_failure = record { request_err = TunnelError.draining; rpc_err = none; reason = drained }

abbrev pub stale_failure : Failure
stale_failure = record { request_err = tunnel_closed; rpc_err = some unavailable; reason = stale }

unfoldable pub is_stale : ℕ → ℕ → Session → Bool
is_stale now stale_after s = leb stale_after (now - s.last_activity)

-- `accepts`: a tunnel that is found stale is to be ended.
unfoldable pub accepts : ℕ → ℕ → RouteId → Session → Session × Bool
unfolding is_stale fail contains RouteId-discrete
accepts now stale_after route s =
    if not s.is_ready || (s.is_draining || s.is_closed)
    then (s, false)
    else if is_stale now stale_after s
    then (fail stale_failure (record s { is_ready = false }), false)
    else (s, contains RouteId-discrete s.routes route)

unfoldable pub is_ready_for_route : ℕ → ℕ → RouteId → Session → Bool
unfolding is_stale contains RouteId-discrete
is_ready_for_route now stale_after route s =
    if not s.is_ready || (s.is_draining || s.is_closed)
    then false
    else contains RouteId-discrete s.routes route && not (is_stale now stale_after s)
