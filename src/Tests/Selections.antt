-- ===== src/Tests/Selections.antt =====
-- The theorem on the choice of a tunnel: the first has no room, the queue of the second is full.
use marketmesh.Prelude.{◌==◌, ◌≡◌, refl, false, Option, some, none, List, [], ◌∷◌, if◌then◌else◌}
use marketmesh.GatewayIn.Errors.{TunnelError, queue_full}
use marketmesh.GatewayIn.Registry.{Tunnel, Settings, Registry}
use marketmesh.GatewayIn.Registry.Order.{Group, order_sessions, rotations, order_sessions_lem}
use marketmesh.GatewayIn.Registry.Selection.{
  select_and_open, OpenedOnce, select_and_open-OpenedOnce,
}

abbrev settings : Settings
settings = record { max_tunnels = 4; max_tunnels_per_instance = 2; max_in_flight_per_instance = 2 }

abbrev crowded : Tunnel
crowded = record { handle = 0; id = 17; instance_id = 3 }

abbrev busy : Tunnel
busy = record { handle = 1; id = 18; instance_id = 4 }

abbrev spare : Tunnel
spare = record { handle = 2; id = 19; instance_id = 5 }

abbrev order : List Tunnel
order = crowded ∷ busy ∷ spare ∷ []

-- Two data centers; in the second the last tunnel is due.
abbrev groups : List Group
groups =
    record { next_session = 0; sessions = spare ∷ [] }
    ∷ record { next_session = 5; sessions = crowded ∷ busy ∷ [] }
    ∷ []

busy_due : order_sessions groups ≡ spare ∷ busy ∷ crowded ∷ []
unfolding order_sessions
busy_due = refl

order_sessions_lem_example : order_sessions groups ≡ rotations groups
order_sessions_lem_example = order_sessions_lem groups

abbrev starts : Tunnel → Option TunnelError
starts t = none

abbrev queues : Tunnel → Option TunnelError
queues t = if t.handle == 1 then some queue_full else none

abbrev registry : Registry
registry = record {
  sessions = order;
  instance_tunnels = λ i. 1;
  instance_active = λ i. if i == 3 then 2 else 0;
  handshakes = 0;
  is_draining = false;
}

on_spare : (select_and_open settings starts queues (λ t. false) order registry).result ≡ some spare
unfolding select_and_open
on_spare = refl

select_and_open-OpenedOnce_example :
    OpenedOnce settings starts queues
      (λ t. false)
      order
      registry
      (select_and_open settings starts queues (λ t. false) order registry)
select_and_open-OpenedOnce_example =
    select_and_open-OpenedOnce settings starts queues (λ t. false) order registry
