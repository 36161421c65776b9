-- ===== src/GatewayIn/Scheduler/Rotation.antt =====
-- The scan of the lanes in rotation, from the side of one lane.
use marketmesh.Prelude.{ℕ, ◌+◌, ◌-◌, ◌%◌, ◌≤◌, ◌<◌, ◌≡◌, List, [], ◌∷◌}
use marketmesh.Protocol.Messages.{ConnectResponse}
use marketmesh.GatewayIn.Scheduler.{scheduler_lanes, OutboundQueue, lane_at, take_from}

-- Rounds until the scan comes to a lane.
abbrev pub distance : OutboundQueue → ℕ → ℕ
distance q i = (i + scheduler_lanes - q.next) % scheduler_lanes

-- What a scan of `rounds` lanes from `offset` receives: the head of the first lane with a frame.
abbrev pub Receives : ℕ → ℕ → OutboundQueue → ℕ → ConnectResponse → OutboundQueue → Type 0
Receives rounds offset q lane frame q' =
    (k : ℕ) × (rest : List ConnectResponse) × (offset ≤ k)
    × (k < offset + rounds)
    × (lane ≡ lane_at q k)
    × (q.lanes lane ≡ frame ∷ rest)
    × (q' ≡ take_from q lane rest)
    × ((j : ℕ) → offset ≤ j → j < k → q.lanes (lane_at q j) ≡ [])
