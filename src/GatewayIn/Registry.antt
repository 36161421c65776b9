-- ===== src/GatewayIn/Registry.antt =====
-- backend/services/gateway-in/internal/tunnel/registry.go: admission of tunnels and reservations of
-- instances, each method under the registry's lock, and the weight of a data center. A [16]byte id
-- is its number. A map of counts is a function, 0 where the key is missing, and the map of sessions
-- is a list with one entry per id. Of the state of the selection only the place of the tunnel that is
-- due is read, in Order.
pub mod Admission
pub mod Runs
pub mod Weight
pub mod Selection
pub mod Order
use marketmesh.Prelude.{
  ℕ, zero, suc, ◌+◌, ◌-◌, ◌*◌, ◌/◌, ◌%◌, ◌^◌, ◌≤◌, ◌<◌, min, String, ◌≡◌, refl, sym, ap, ◌∙◌, ◌≢◌,
  ◌↔◌, ◌⊎◌, inl, inr, ite, Bool, true, false, not, ◌&&◌, ◌||◌, Option, some, none, List, [], ◌∷◌,
  ◌++◌, map, arith, ℕ_discrete, ltb, leb, ◌==◌, if◌then◌else◌, ==_iff, ite_iff, if_rule, unless_iff,
  or_false, not-false, not-eq-true, and_true, Bool-cases, at_most, within, equals, positive, both,
  negated, excluded, Option-cases, List-cases, length, get_or, take, drop, All, Distinct,
  length-append, length-take, length-drop, take-append-drop, contains, All-map, All-zip,
  contains_iff, take-append, drop-append, drop-field, take-all, drop_past, get_or_past, get_or_at,
  ◌>>◌, reject_if, >>-eq-none, reject_if-eq-none, seq_accepts, reject_accepts,
}
use marketmesh.GatewayIn.Errors.{TunnelError, protocol_violation, queue_full}
use marketmesh.Protocol.Payloads.{ℤ, pos, negsuc}

-- What the registry reads of a session; `handle` is the identity of the object.
pub record Tunnel : Type 0 where
  pub handle : ℕ
  pub id : ℕ
  pub instance_id : ℕ

pub record Settings : Type 0 where
  pub max_tunnels : ℕ
  pub max_tunnels_per_instance : ℕ
  pub max_in_flight_per_instance : ℕ

pub record Registry : Type 0 where
  pub sessions : List Tunnel
  pub instance_tunnels : ℕ → ℕ
  pub instance_active : ℕ → ℕ
  pub handshakes : ℕ
  pub is_draining : Bool

unfoldable pub new_registry : Registry
new_registry = record {
  sessions = [];
  instance_tunnels = λ i. 0;
  instance_active = λ i. 0;
  handshakes = 0;
  is_draining = false;
}

unfoldable pub put : (ℕ → ℕ) → ℕ → ℕ → ℕ → ℕ
put counts key value i = if i == key then value else counts i

unfoldable pub lookup : ℕ → List Tunnel → Option Tunnel
lookup id [] = none
lookup id (s ∷ ss) = let rest = lookup id ss in if s.id == id then some s else rest

unfoldable pub delete : ℕ → List Tunnel → List Tunnel
delete id [] = []
delete id (s ∷ ss) = let rest = delete id ss in if s.id == id then rest else s ∷ rest

unfoldable pub begin_handshake : Settings → Registry → Registry × Bool
begin_handshake settings r =
    if r.is_draining || leb settings.max_tunnels (length r.sessions + r.handshakes)
    then (r, false)
    else (record r { handshakes = r.handshakes + 1 }, true)

unfoldable pub release_handshake : Registry → Registry
release_handshake r = if ltb 0 r.handshakes then record r { handshakes = r.handshakes - 1 } else r

-- The handshake's place is given up before the tests.
unfoldable pub register_from_handshake :
    Settings → Tunnel → Registry → Registry × Option TunnelError
unfolding lookup put
register_from_handshake settings s r =
    if r.handshakes == 0
    then (r, some protocol_violation)
    else (let r' = record r { handshakes = r.handshakes - 1 } in
        if r.is_draining
        then (r', some TunnelError.draining)
        else if leb settings.max_tunnels (length r.sessions + (r.handshakes - 1))
        then (r', some queue_full)
        else if leb settings.max_tunnels_per_instance (r.instance_tunnels s.instance_id)
        then (r', some queue_full)
        else elim (lookup s.id r.sessions) [
          | some t ↦ (r', some protocol_violation)
          | none ↦ (
            record r' {
              sessions = s ∷ r.sessions;
              instance_tunnels =
                  put r.instance_tunnels s.instance_id (r.instance_tunnels s.instance_id + 1);
            },
            none,
          )
        ])

-- What is deleted of `instanceTunnels` and `instanceActive` is a count of 0.
unfoldable pub unregister : Tunnel → Registry → Registry
unfolding lookup delete put
unregister s r = elim (lookup s.id r.sessions) [
  | none ↦ r
  | some current ↦ if not (current.handle == s.handle) then r else record r {
    sessions = delete s.id r.sessions;
    instance_tunnels = put r.instance_tunnels s.instance_id (r.instance_tunnels s.instance_id - 1);
  }
]

pub data ReservationResult : Type 0 where
  accepted draining saturated : ReservationResult

unfoldable pub reserve_instance : Settings → ℕ → Registry → Registry × ReservationResult
unfolding put
reserve_instance settings instance_id r =
    if r.is_draining
    then (r, ReservationResult.draining)
    else if leb settings.max_in_flight_per_instance (r.instance_active instance_id)
    then (r, ReservationResult.saturated)
    else (
      record r {
        instance_active = put r.instance_active instance_id (r.instance_active instance_id + 1);
      },
      ReservationResult.accepted,
    )

unfoldable pub release_instance : ℕ → Registry → Registry
unfolding put
release_instance instance_id r =
    if ltb 0 (r.instance_active instance_id)
    then record r {
      instance_active = put r.instance_active instance_id (r.instance_active instance_id - 1);
    }
    else r

-- The flag that `Drain` sets.
unfoldable pub set_draining : Registry → Registry
set_draining r = record r { is_draining = true }

-- A product of int64, of operands that are not negative.
unfoldable pub wrap_int64 : ℕ → ℤ
wrap_int64 n = let m = n % 2 ^ 64 in if ltb m (2 ^ 63) then pos m else negsuc (2 ^ 64 - 1 - m)

-- The quotient of an int64 by a positive one, truncated, with 100 added.
unfoldable pub share_of : ℤ → ℕ → ℤ
share_of (pos n) w = pos (100 + n / w)
share_of (negsuc n) w =
    if leb (suc n / w) 100 then pos (100 - suc n / w) else negsuc (suc n / w - 101)

unfoldable pub failback_weight : ℤ → ℤ → ℤ
unfolding wrap_int64 share_of
failback_weight elapsed (negsuc w) = pos 1000
failback_weight (negsuc e) (pos w) = if w == 0 then pos 1000 else pos 100
failback_weight (pos e) (pos w) =
    if w == 0 || leb w e
    then pos 1000
    else if e == 0
    then pos 100
    else share_of (wrap_int64 (e * (1000 - 100))) w
