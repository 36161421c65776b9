-- ===== src/Tests/Registries.antt =====
-- The theorems on the registry, at a registry of one tunnel.
use marketmesh.Prelude.{ℕ, ◌+◌, ◌≤◌, ◌≡◌, refl, false, none, map, arith, length, Distinct}
use marketmesh.Protocol.Payloads.{pos}
use marketmesh.GatewayIn.Registry.{
  Tunnel, Settings, Registry, new_registry, lookup, begin_handshake, register_from_handshake,
  failback_weight,
}
use marketmesh.GatewayIn.Registry.Admission.{
  tunnels_of, begins, registers, Reach, created, then_step, id_of,
}
use marketmesh.GatewayIn.Registry.Runs.{registered, admission_bounds, handshake_has_place}
use marketmesh.GatewayIn.Registry.Weight.{failback_weight_grows}

abbrev settings : Settings
settings = record { max_tunnels = 2; max_tunnels_per_instance = 1; max_in_flight_per_instance = 8 }

abbrev first : Tunnel
first = record { handle = 0; id = 17; instance_id = 3 }

abbrev second : Tunnel
second = record { handle = 1; id = 18; instance_id = 4 }

abbrev one_tunnel : Registry
one_tunnel = (register_from_handshake settings first (begin_handshake settings new_registry).0).0

-- One tunnel, and the handshake of a second.
abbrev one_handshake : Registry
one_handshake = (begin_handshake settings one_tunnel).0

one_handshake-Reach : Reach settings one_handshake
one_handshake-Reach =
    then_step
      (then_step (then_step created (begins new_registry))
        (registers first (begin_handshake settings new_registry).0))
      (begins one_tunnel)

admission_bounds_example :
    (length one_handshake.sessions + one_handshake.handshakes ≤ 2)
    × (one_handshake.instance_tunnels 3 ≡ tunnels_of 3 one_handshake.sessions)
    × (tunnels_of 3 one_handshake.sessions ≤ 1)
    × (one_handshake.instance_active 3 ≤ 8)
    × Distinct (map id_of one_handshake.sessions)
admission_bounds_example = admission_bounds settings one_handshake 3 one_handshake-Reach

open_handshake : one_handshake.handshakes ≡ 1
unfolding begin_handshake register_from_handshake new_registry
open_handshake = refl

not_draining : one_handshake.is_draining ≡ false
unfolding begin_handshake register_from_handshake new_registry
not_draining = refl

new_instance : tunnels_of 4 one_handshake.sessions ≡ 0
unfolding begin_handshake register_from_handshake new_registry
new_instance = refl

new_id : lookup 18 one_handshake.sessions ≡ none
unfolding begin_handshake register_from_handshake new_registry lookup
new_id = refl

handshake_has_place_example :
    register_from_handshake settings second one_handshake ≡ (registered second one_handshake, none)
handshake_has_place_example =
    handshake_has_place settings one_handshake second one_handshake-Reach
      (omega (arith, open_handshake)) not_draining (omega (arith, new_instance)) new_id

-- A third and two thirds of the default warmup of 30 seconds.
failback_weight_grows_example :
    (a : ℕ) × ((b : ℕ) × (((failback_weight (pos 10000000000) (pos 30000000000) ≡ pos a)
          × (failback_weight (pos 20000000000) (pos 30000000000) ≡ pos b))
        × (((100 ≤ a) × (a ≤ b)) × ((b ≤ 1000) × (30000000000 ≤ 20000000000 → b ≡ 1000)))))
failback_weight_grows_example =
    failback_weight_grows 10000000000 20000000000 30000000000 (omega arith) (omega arith)
