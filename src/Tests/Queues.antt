-- ===== src/Tests/Queues.antt =====
-- The theorems on the scheduler and on the routes, at the samples.
use marketmesh.Prelude.{ℕ, ◌≡◌, refl, sym, ◌∙◌, ◌≢◌, ◌↔◌, false, Option, some, none, [], ◌∷◌, arith}
use marketmesh.Protocol.Enums.{RouteId}
use marketmesh.Protocol.Hello.{bad_route, bad_traffic_class}
use marketmesh.Protocol.Routes
use marketmesh.GatewayIn.Routes.{route_traffic_class}
use marketmesh.GatewayIn.Routes.Spec.{route_traffic_class_agrees, route_traffic_class-classifies}
use marketmesh.Protocol.Validate.{traffic_class_of}
use marketmesh.GatewayIn.Scheduler.{
  queue_lane, QueueLimits, OutboundQueue, new_outbound_queue, push, after_push, Producer, lane_send,
  produce, enqueue,
}
use marketmesh.GatewayIn.Scheduler.Wake.{
  looking, waiting, call, proceed, pass, block, Reach, here, then_step, start, set_producer,
  Announced, no_lost_wake,
}
use marketmesh.Tests.Samples.{open_response}

route_traffic_class_agrees_example :
    route_traffic_class RouteId.user_get_me ≡ Routes.route_traffic_class RouteId.user_get_me
route_traffic_class_agrees_example = route_traffic_class_agrees RouteId.user_get_me

route_traffic_class-classifies_example :
    (bad_route RouteId.user_get_me ≡ false)
    ↔ (bad_traffic_class (route_traffic_class RouteId.user_get_me) ≡ false)
route_traffic_class-classifies_example = route_traffic_class-classifies RouteId.user_get_me

abbrev pub queue_limits : QueueLimits
queue_limits = record { tunnel_control = 2; control_auth = 2; regular = 1; realtime = 1 }

abbrev empty_queue : OutboundQueue
empty_queue = new_outbound_queue queue_limits

-- One Open in the lane of control and auth.
abbrev queued : OutboundQueue
queued = (enqueue none empty_queue open_response).0

empty_lane : (i : ℕ) → empty_queue.lanes i ≡ []
unfolding new_outbound_queue
empty_lane i = refl

abbrev idle : ℕ → Option Producer
idle i = none

abbrev calling : ℕ → Option Producer
calling = set_producer idle 7 (some (lane_send open_response))

-- The consumer passes the four lanes, the frame is sent to its lane, and the consumer blocks before the
-- token is sent.
abbrev between : ℕ → Option Producer
between = set_producer calling 7 (produce empty_queue (lane_send open_response)).1

abbrev stored : OutboundQueue
stored = (produce empty_queue (lane_send open_response)).0

asleep :
    Reach (start queue_limits) (record { queue = stored; consumer = waiting; producers = between })
asleep =
    then_step
      (then_step
        (then_step
          (then_step
            (then_step
              (then_step (then_step here (pass empty_queue idle 0 (omega arith) (empty_lane _)))
                (pass empty_queue idle 1 (omega arith) (empty_lane _)))
              (pass empty_queue idle 2 (omega arith) (empty_lane _)))
            (pass empty_queue idle 3 (omega arith) (empty_lane _)))
          (call empty_queue (looking 4) idle 7 open_response refl))
        (proceed empty_queue (looking 4) calling 7 (lane_send open_response) refl))
      (block stored between 4 (omega arith))

stored-head : stored.lanes 1 ≡ open_response ∷ []
unfolding produce after_push push new_outbound_queue queue_lane traffic_class_of
stored-head = refl

stored-nonempty : stored.lanes 1 ≢ []
stored-nonempty e = cc (sym stored-head ∙ e)

no_lost_wake_example :
    Announced (record { queue = stored; consumer = waiting; producers = between })
no_lost_wake_example =
    no_lost_wake queue_limits stored between 1 asleep (omega arith) stored-nonempty
