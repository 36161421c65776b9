-- ===== src/GatewayIn/Scheduler/Wake.antt =====
-- `dequeue` against concurrent `enqueue`s, one channel operation at a time: the consumer looks at one
-- lane and then the next and sleeps on the wake channel, and a producer sends a frame and then a token.
use marketmesh.Prelude.{
  ℕ, ◌+◌, ◌-◌, ◌%◌, ◌≤◌, ◌<◌, ◌≡◌, sym, ap, ◌∙◌, ◌≢◌, ◌⊎◌, inl, inr, true, false, Option, some,
  none, ◌==◌, if◌then◌else◌, List, [], ◌∷◌, arith, ℕ_discrete, refl, if_rule, ltb, length,
}
use mathlib.Core.Path.{subst}
use marketmesh.Protocol.Messages.{ConnectResponse}
use marketmesh.Protocol.Validate.{traffic_class_of}
use marketmesh.GatewayIn.Errors.{TunnelError}
use marketmesh.GatewayIn.Scheduler.{
  scheduler_lanes, QueueLimits, OutboundQueue, new_outbound_queue, push, queue_lane, signal,
  Producer, lane_send, wake_send, after_push, produce, lane_at, take_from,
}

-- Where the consumer stands: about to look at the lane of an offset, or blocked on the wake channel.
pub data Consumer : Type 0 where
  looking : ℕ → Consumer
  waiting : Consumer

-- `producers` has where each goroutine stands in `enqueue`, `none` outside of it.
pub record Run : Type 0 where
  pub queue : OutboundQueue
  pub consumer : Consumer
  pub producers : ℕ → Option Producer

abbrev pub set_producer : (ℕ → Option Producer) → ℕ → Option Producer → ℕ → Option Producer
set_producer producers i p j = if j == i then p else producers j

pub data Step : Run → Run → Type 0 where
  -- A goroutine calls `enqueue`, and its context is not over.
  call :
      (q : OutboundQueue) (c : Consumer) (ps : ℕ → Option Producer) (i : ℕ)
      (frame : ConnectResponse)
      → ps i ≡ none
      → Step
          (record { queue = q; consumer = c; producers = ps })
          (record {
            queue = q;
            consumer = c;
            producers = set_producer ps i (some (lane_send frame));
          })
  -- One of its two sends.
  proceed :
      (q : OutboundQueue) (c : Consumer) (ps : ℕ → Option Producer) (i : ℕ) (p : Producer)
      → ps i ≡ some p
      → Step
          (record { queue = q; consumer = c; producers = ps })
          (record {
            queue = (produce q p).0;
            consumer = c;
            producers = set_producer ps i (produce q p).1;
          })
  -- A frame is received and sent; the next call starts again at offset 0.
  receive :
      (q : OutboundQueue) (ps : ℕ → Option Producer) (k : ℕ) (frame : ConnectResponse)
      (rest : List ConnectResponse)
      → k < scheduler_lanes
      → q.lanes (lane_at q k) ≡ frame ∷ rest
      → Step
          (record { queue = q; consumer = looking k; producers = ps })
          (record { queue = take_from q (lane_at q k) rest; consumer = looking 0; producers = ps })
  -- The lane is empty: the default case of the select.
  pass :
      (q : OutboundQueue) (ps : ℕ → Option Producer) (k : ℕ)
      → k < scheduler_lanes
      → q.lanes (lane_at q k) ≡ []
      → Step
          (record { queue = q; consumer = looking k; producers = ps })
          (record { queue = q; consumer = looking (k + 1); producers = ps })
  block :
      (q : OutboundQueue) (ps : ℕ → Option Producer) (k : ℕ)
      → scheduler_lanes ≤ k
      → Step
          (record { queue = q; consumer = looking k; producers = ps })
          (record { queue = q; consumer = waiting; producers = ps })
  -- The token of the wake channel is taken.
  awake :
      (q : OutboundQueue) (ps : ℕ → Option Producer)
      → q.wake ≡ true
      → Step
          (record { queue = q; consumer = waiting; producers = ps })
          (record { queue = record q { wake = false }; consumer = looking 0; producers = ps })

pub data Reach (s : Run) : Run → Type 0 where
  here : Reach s s
  then_step : {t u : Run} → Reach s t → Step t u → Reach s u

abbrev pub start : QueueLimits → Run
start limits = record {
  queue = new_outbound_queue limits;
  consumer = looking 0;
  producers = λ i. none;
}

-- How many offsets the consumer has looked at.
abbrev looked : Consumer → ℕ
looked (looking k) = k
looked waiting = scheduler_lanes

-- A token is in the wake channel, or a producer that has sent its frame is at the send of one.
abbrev pub Announced : Run → Type 0
Announced r =
    (r.queue.wake ≡ true)
    ⊎ ((i : ℕ) × ((frame : ConnectResponse) × (r.producers i ≡ some (wake_send frame))))

abbrev Passed : Run → Type 0
Passed r =
    (j : ℕ) → j < looked r.consumer → j < scheduler_lanes → r.queue.lanes (lane_at r.queue j) ≡ []

-- The invariant: `next` is a lane, and unless a token is announced, the lanes that the consumer has
-- passed by are empty.
record Inv (r : Run) : Type 0 where
  next_lane : r.queue.next < scheduler_lanes
  announced : Announced r ⊎ Passed r

push-next :
    (q : OutboundQueue) (frame : ConnectResponse) (o : Option ℕ) → (push q frame o).0.next ≡ q.next
unfolding push
push-next q frame none = refl
push-next q frame (some lane) = ground arith

produce-next : (q : OutboundQueue) (p : Producer) → (produce q p).0.next ≡ q.next
unfolding produce after_push signal
produce-next q (wake_send frame) = refl
produce-next q (lane_send frame) =
    by_push (push q frame (queue_lane (traffic_class_of frame.header)))
      (push-next q frame (queue_lane (traffic_class_of frame.header)))
  where
    by_push :
        (o : OutboundQueue × Option TunnelError)
        → o.0.next ≡ q.next
        → (after_push frame o).0.next ≡ q.next
    by_push (q', none) h = h
    by_push (q', some e) h = h

-- A send to a lane goes on to the send of a token, or leaves the queue as it was.
lane_send-cases :
    (q : OutboundQueue) (frame : ConnectResponse)
    → ((produce q (lane_send frame)).1 ≡ some (wake_send frame))
      ⊎ (((produce q (lane_send frame)).1 ≡ none) × ((produce q (lane_send frame)).0 ≡ q))
unfolding produce after_push push
lane_send-cases q frame = by_lane (queue_lane (traffic_class_of frame.header))
  where
    Sent : OutboundQueue × Option TunnelError → Type 0
    Sent out =
        ((after_push frame out).1 ≡ some (wake_send frame))
        ⊎ (((after_push frame out).1 ≡ none) × ((after_push frame out).0 ≡ q))

    by_lane : (o : Option ℕ) → Sent (push q frame o)
    by_lane none = inr (refl, refl)
    by_lane (some lane) =
        if_rule Sent (ltb (length (q.lanes lane)) (q.capacity lane)) _ _ (λ t. inl refl)
          (λ f. inr (refl, refl))

-- Who is at the send of a token stays there when another goroutine moves.
others :
    (ps : ℕ → Option Producer) (i : ℕ) (o : Option Producer)
    → ((frame : ConnectResponse) → ps i ≢ some (wake_send frame))
    → (j : ℕ) (frame : ConnectResponse) → ps j ≡ some (wake_send frame)
    → set_producer ps i o j ≡ some (wake_send frame)
others ps i o away j frame h = elim (ℕ_discrete j i) [
  | yes p ↦ absurd (away frame (subst (λ k. ps k ≡ some (wake_send frame)) p h))
  | no n ↦ ground (arith, n, h)
]

moved :
    (q : OutboundQueue) (c : Consumer) (ps : ℕ → Option Producer) (i : ℕ) (o : Option Producer)
    → ((frame : ConnectResponse) → ps i ≢ some (wake_send frame))
    → Inv (record { queue = q; consumer = c; producers = ps })
    → Inv (record { queue = q; consumer = c; producers = set_producer ps i o })
moved q c ps i o away v = record {
  next_lane = v.next_lane;
  announced = elim v.announced [
    | inl (inl w) ↦ inl (inl w)
    | inl (inr (j, (frame, h))) ↦ inl (inr (j, (frame, others ps i o away j frame h)))
    | inr empty ↦ inr empty
  ];
}

at_place : (ps : ℕ → Option Producer) (i : ℕ) (o : Option Producer) → set_producer ps i o i ≡ o
at_place ps i o = ground arith

Step-Inv : {r s : Run} → Step r s → Inv r → Inv s
Step-Inv (call q c ps i frame h) v = moved q c ps i (some (lane_send frame)) (λ f e. cc) v
Step-Inv (proceed q c ps i (wake_send frame) h) v = record {
  next_lane = omega (arith, produce-next q (wake_send frame), v.next_lane);
  announced = inl (inl (unfold produce signal in refl));
}
Step-Inv (proceed q c ps i (lane_send frame) h) v = elim (lane_send-cases q frame) [
  | inl sent ↦ record {
    next_lane = omega (arith, produce-next q (lane_send frame), v.next_lane);
    announced = inl (inr (i, (frame, at_place ps i _ ∙ sent)));
  }
  | inr (over, same) ↦
      subst
        (λ x. Inv (record {
          queue = x;
          consumer = c;
          producers = set_producer ps i (produce q (lane_send frame)).1;
        }))
        (sym same)
        (moved q c ps i (produce q (lane_send frame)).1 (λ f e. absurd (apart f (sym h ∙ e))) v)
]
  where
    apart : (f : ConnectResponse) → some (lane_send frame) ≡ some (wake_send f) → ⊥
    apart f e = cc
Step-Inv (receive q ps k frame rest b e) v = record {
  next_lane = unfold take_from in omega arith;
  announced = inr (λ j a c. absurd (omega arith));
}
Step-Inv (pass q ps k b e) v = record {
  next_lane = v.next_lane;
  announced = elim v.announced [
    | inl a ↦ inl a
    | inr empty ↦
        inr (λ j a c. elim (ℕ_discrete j k) [ yes p ↦ rw p e | no p ↦ empty j (omega arith) c ])
  ];
}
Step-Inv (block q ps k b) v = record {
  next_lane = v.next_lane;
  announced = elim v.announced [
    | inl a ↦ inl a
    | inr empty ↦ inr (λ j a c. empty j (omega arith) c)
  ];
}
Step-Inv (awake q ps w) v = record {
  next_lane = v.next_lane;
  announced = inr (λ j a c. absurd (omega arith));
}

start-Inv : (limits : QueueLimits) → Inv (start limits)
unfolding new_outbound_queue
start-Inv limits = record {
  next_lane = omega arith;
  announced = inr (λ j a c. absurd (omega arith));
}

Reach-Inv : {r s : Run} → Reach r s → Inv r → Inv s
Reach-Inv here v = v
Reach-Inv (then_step rs st) v = Step-Inv st (Reach-Inv rs v)

lane_at-all :
    (q : OutboundQueue) (i : ℕ) → q.next < 4 → i < 4 → lane_at q ((i + 4 - q.next) % 4) ≡ i
unfolding lane_at
lane_at-all q i n h = omega arith

-- No wake-up is lost. Each `enqueue` is two channel operations, and other producers and the consumer
-- may come between them: while a consumer is blocked and a frame stands in one of the four lanes, a
-- token is in the wake channel, or a producer that has sent its frame has still to send its token.
pub no_lost_wake :
    (limits : QueueLimits) (q : OutboundQueue) (ps : ℕ → Option Producer) (i : ℕ)
    → Reach (start limits) (record { queue = q; consumer = waiting; producers = ps })
    → i < scheduler_lanes
    → q.lanes i ≢ []
    → Announced (record { queue = q; consumer = waiting; producers = ps })
no_lost_wake limits q ps i r h e =
    let v = Reach-Inv r (start-Inv limits) in
    elim v.announced [
      | inl a ↦ a
      | inr empty ↦ absurd (
          e (
            ap q.lanes (sym (lane_at-all q i v.next_lane h))
            ∙ empty ((i + 4 - q.next) % 4) (omega arith) (omega arith)))
    ]
