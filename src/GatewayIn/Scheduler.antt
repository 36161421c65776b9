-- ===== src/GatewayIn/Scheduler.antt =====
-- backend/services/gateway-in/internal/tunnel/scheduler.go: four bounded lanes served in rotation.
-- A buffered channel is a list, oldest first, with its capacity; the wake channel holds one token.
pub mod Rotation
pub mod Wake
use marketmesh.Prelude.{
  ℕ, zero, suc, ◌+◌, ◌-◌, ◌*◌, ◌/◌, ◌%◌, ◌^◌, ◌≤◌, ◌<◌, min, String, ◌≡◌, refl, sym, ap, ◌∙◌, ◌≢◌,
  ◌↔◌, ◌⊎◌, inl, inr, ite, Bool, true, false, not, ◌&&◌, ◌||◌, Option, some, none, List, [], ◌∷◌,
  ◌++◌, map, arith, ℕ_discrete, ltb, leb, ◌==◌, if◌then◌else◌, ==_iff, ite_iff, unless_iff,
  or_false, not-false, not-eq-true, and_true, Bool-cases, at_most, within, equals, positive, both,
  negated, excluded, Option-cases, length, get_or, take, drop, All, Distinct, length-append,
  length-take, length-drop, take-append-drop, contains, All-map, All-zip, contains_iff, take-append,
  drop-append, drop-field, take-all, drop_past, get_or_past, get_or_at, ◌>>◌, reject_if, >>-eq-none,
  reject_if-eq-none, seq_accepts, reject_accepts,
}
use marketmesh.Protocol.Enums.{TrafficClass}
use marketmesh.Protocol.Messages.{ConnectResponse}
use marketmesh.Protocol.Validate.{traffic_class_of}
use marketmesh.GatewayIn.Errors.{TunnelError, queue_full, protocol_violation}

abbrev pub scheduler_lanes : ℕ
scheduler_lanes = 4

pub record QueueLimits : Type 0 where
  pub tunnel_control : ℕ
  pub control_auth : ℕ
  pub regular : ℕ
  pub realtime : ℕ

pub record OutboundQueue : Type 0 where
  pub lanes : ℕ → List ConnectResponse
  pub capacity : ℕ → ℕ
  pub wake : Bool
  pub next : ℕ

unfoldable pub lane_capacity : QueueLimits → ℕ → ℕ
lane_capacity limits i =
    if i == 0
    then limits.tunnel_control
    else if i == 1
    then limits.control_auth
    else if i == 2
    then limits.regular
    else limits.realtime

unfoldable pub new_outbound_queue : QueueLimits → OutboundQueue
unfolding lane_capacity
new_outbound_queue limits = record {
  lanes = λ i. [];
  capacity = lane_capacity limits;
  wake = false;
  next = 0;
}

unfoldable pub queue_lane : TrafficClass → Option ℕ
queue_lane TrafficClass.unspecified = some 0
queue_lane TrafficClass.control_auth = some 1
queue_lane TrafficClass.regular = some 2
queue_lane TrafficClass.realtime = some 3
queue_lane (TrafficClass.unrecognized n) = none

unfoldable pub set_lane :
    (ℕ → List ConnectResponse) → ℕ → List ConnectResponse → ℕ → List ConnectResponse
set_lane lanes i frames j = if j == i then frames else lanes j

-- The outer select with its default: a full lane refuses.
unfoldable pub push :
    OutboundQueue → ConnectResponse → Option ℕ → OutboundQueue × Option TunnelError
unfolding set_lane
push q frame none = (q, some protocol_violation)
push q frame (some lane) =
    if ltb (length (q.lanes lane)) (q.capacity lane)
    then (record q { lanes = set_lane q.lanes lane (q.lanes lane ++ (frame ∷ [])) }, none)
    else (q, some queue_full)

-- The inner select: a second token is dropped.
unfoldable pub signal : OutboundQueue → OutboundQueue
signal q = record q { wake = true }

-- Where an `enqueue` stands: at the send to the lane, or at the send to the wake channel.
pub data Producer : Type 0 where
  lane_send : ConnectResponse → Producer
  wake_send : ConnectResponse → Producer

-- What follows the send to the lane.
unfoldable pub after_push :
    ConnectResponse → OutboundQueue × Option TunnelError → OutboundQueue × Option Producer
after_push frame (q, none) = (q, some (wake_send frame))
after_push frame (q, some e) = (q, none)

-- One channel operation of an `enqueue`, and where it stands then.
unfoldable pub produce : OutboundQueue → Producer → OutboundQueue × Option Producer
unfolding push signal after_push
produce q (lane_send frame) =
    after_push frame (push q frame (queue_lane (traffic_class_of frame.header)))
produce q (wake_send frame) = (signal q, none)

unfoldable pub signalled : OutboundQueue × Option TunnelError → OutboundQueue × Option TunnelError
unfolding signal
signalled (q, none) = (signal q, none)
signalled (q, some e) = (q, some e)

-- `enqueue` where nothing comes between its two sends. The first argument is `ctx.Err()`.
unfoldable pub enqueue :
    Option TunnelError → OutboundQueue → ConnectResponse → OutboundQueue × Option TunnelError
unfolding push signalled
enqueue (some e) q frame = (q, some e)
enqueue none q frame = signalled (push q frame (queue_lane (traffic_class_of frame.header)))

-- The lane that a scan looks at.
unfoldable pub lane_at : OutboundQueue → ℕ → ℕ
lane_at q offset = (q.next + offset) % scheduler_lanes

-- What a receive from a lane does to the queue.
unfoldable pub take_from : OutboundQueue → ℕ → List ConnectResponse → OutboundQueue
unfolding set_lane
take_from q lane rest = record q {
  lanes = set_lane q.lanes lane rest;
  next = (lane + 1) % scheduler_lanes;
}

-- The loop over the offsets, with the rounds that are left: the lane and the frame received.
unfoldable pub poll_from : ℕ → ℕ → OutboundQueue → Option (ℕ × ConnectResponse × OutboundQueue)
unfolding take_from lane_at
poll_from zero offset q = none
poll_from (suc rounds) offset q = elim (q.lanes (lane_at q offset)) [
  | frame ∷ rest ↦ some (lane_at q offset, frame, take_from q (lane_at q offset) rest)
  | [] ↦ poll_from rounds (offset + 1) q
]

unfoldable pub poll : OutboundQueue → Option (ℕ × ConnectResponse × OutboundQueue)
unfolding poll_from
poll q = poll_from scheduler_lanes 0 q

-- `discard` drains the four lanes.
unfoldable pub discard : OutboundQueue → OutboundQueue
discard q = record q { lanes = λ i. if ltb i scheduler_lanes then [] else q.lanes i }
