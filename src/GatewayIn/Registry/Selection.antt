-- ===== src/GatewayIn/Registry/Selection.antt =====
-- `selectAndOpenRequest` of registry.go, from the order of the tunnels that `selectionOrder` gives. The
-- outcomes of `startRequest` and `enqueueOpen` on a tunnel, and whether the caller's context is over
-- after it, are parameters; `accepted` are the tunnels whose queue took the Open.
use marketmesh.Prelude.{
  ℕ, ◌+◌, ◌<◌, ◌≡◌, refl, sym, ◌⊎◌, inl, inr, Bool, true, Option, some, none, List, [], ◌∷◌, ◌++◌,
  arith, ℕ_discrete, leb, ◌==◌, if◌then◌else◌, ==_iff, if_rule, Bool-cases, All, All-map,
}
use mathlib.Core.List.{Mem, mem-cons}
use mathlib.Core.Logic.Or
use mathlib.Core.Path.{subst}
use marketmesh.GatewayIn.Errors.{TunnelError, no_tunnel, queue_full}
use marketmesh.GatewayIn.Registry.{
  Tunnel, Settings, Registry, put, ReservationResult, reserve_instance, release_instance,
}

pub record Selection : Type 0 where
  pub registry : Registry
  pub accepted : List Tunnel
  pub result : Option Tunnel
  pub errors : List TunnelError

abbrev pub gives_up : Registry → List Tunnel → List TunnelError → Selection
gives_up r taken errors = record { registry = r; accepted = taken; result = none; errors = errors }

abbrev pub opens_on : Registry → List Tunnel → Tunnel → Selection
opens_on r taken t = record { registry = r; accepted = taken; result = some t; errors = [] }

-- The errors at the end of the loop.
unfoldable pub selection_errors : List TunnelError → List TunnelError
selection_errors [] = no_tunnel ∷ []
selection_errors (e ∷ es) = e ∷ es

module _ (settings : Settings) (start enqueue_open : Tunnel → Option TunnelError)
    (is_over : Tunnel → Bool) where
  -- The tunnel that has been reserved, with the tunnels whose queue has taken an Open and the errors so
  -- far, and the rest of the loop.
  unfoldable pub try_tunnel :
      Tunnel
      → Option TunnelError
      → Option TunnelError
      → Registry
      → List Tunnel
      → List TunnelError
      → (Registry → List Tunnel → List TunnelError → Selection)
      → Selection
  unfolding release_instance
  try_tunnel t (some e) opened r taken errors rest =
      rest (release_instance t.instance_id r) taken (errors ++ (e ∷ []))
  try_tunnel t none none r taken errors rest = opens_on r (taken ++ (t ∷ [])) t
  try_tunnel t none (some e) r taken errors rest =
      if is_over t
      then gives_up (release_instance t.instance_id r) taken (errors ++ (e ∷ []))
      else rest (release_instance t.instance_id r) taken (errors ++ (e ∷ []))

  unfoldable pub on_reservation :
      Tunnel
      → Registry × ReservationResult
      → List Tunnel
      → List TunnelError
      → (Registry → List Tunnel → List TunnelError → Selection)
      → Selection
  unfolding try_tunnel
  on_reservation t (r, ReservationResult.draining) taken errors rest =
      gives_up r taken (TunnelError.draining ∷ [])
  on_reservation t (r, ReservationResult.saturated) taken errors rest =
      rest r taken (errors ++ (queue_full ∷ []))
  on_reservation t (r, ReservationResult.accepted) taken errors rest =
      try_tunnel t (start t) (enqueue_open t) r taken errors rest

  unfoldable pub open_from : List Tunnel → Registry → List Tunnel → List TunnelError → Selection
  unfolding reserve_instance on_reservation selection_errors
  open_from [] r taken errors = gives_up r taken (selection_errors errors)
  open_from (t ∷ ts) r taken errors =
      on_reservation t (reserve_instance settings t.instance_id r) taken errors (open_from ts)

  unfoldable pub select_and_open : List Tunnel → Registry → Selection
  unfolding open_from
  select_and_open ordered r =
      if r.is_draining then gives_up r [] (TunnelError.draining ∷ []) else open_from ordered r [] []

  -- Counts of calls in flight that are the same.
  abbrev Level : Registry → Registry → Type 0
  Level r r' = (i : ℕ) → r'.instance_active i ≡ r.instance_active i

  -- Nothing was opened, and nothing is reserved; or one tunnel of the order took the Open, and one call
  -- more of its instance is in flight.
  pub data OpenedOnce (ordered : List Tunnel) (r : Registry) (o : Selection) : Type 0 where
    nowhere :
        o.result ≡ none
        → o.accepted ≡ []
        → ((i : ℕ) → o.registry.instance_active i ≡ r.instance_active i)
        → OpenedOnce ordered r o
    on_tunnel :
        (t : Tunnel)
        → Mem t ordered
        → o.result ≡ some t
        → o.accepted ≡ t ∷ []
        → ((i : ℕ)
            → o.registry.instance_active i
              ≡ put r.instance_active t.instance_id (r.instance_active t.instance_id + 1) i)
        → r.instance_active t.instance_id < settings.max_in_flight_per_instance
        → OpenedOnce ordered r o

  abbrev reserved : Tunnel → Registry → Registry
  reserved t r = record r {
    instance_active = put r.instance_active t.instance_id (r.instance_active t.instance_id + 1);
  }

  reserve_cases :
      (t : Tunnel) (r : Registry)
      → (reserve_instance settings t.instance_id r ≡ (r, ReservationResult.draining))
        ⊎ ((reserve_instance settings t.instance_id r ≡ (r, ReservationResult.saturated))
            ⊎ ((reserve_instance settings t.instance_id r
                  ≡ (reserved t r, ReservationResult.accepted))
                × (r.instance_active t.instance_id < settings.max_in_flight_per_instance)))
  unfolding reserve_instance
  reserve_cases t r = elim (Bool-cases r.is_draining) [
    | inl d ↦ inl (ground (arith, d))
    | inr n ↦
        elim (Bool-cases
          (leb settings.max_in_flight_per_instance (r.instance_active t.instance_id))) [
            | inl f ↦ inr (inl (ground (arith, n, f)))
            | inr f ↦ inr (inr (ground (arith, n, f), ground (arith, f)))
          ]
  ]

  -- A reservation that is given back.
  given_back :
      (t : Tunnel) (r0 r : Registry)
      → Level r0 r
      → Level r0 (release_instance t.instance_id (reserved t r))
  unfolding release_instance put
  given_back t r0 r level i =
      let same = level i in
      let here : (t.instance_id == t.instance_id) ≡ true =
        (==_iff t.instance_id t.instance_id).1 refl in
      elim (ℕ_discrete i t.instance_id) [
        | yes p ↦ ground (arith, here, same, p)
        | no n ↦ ground (arith, here, same, n)
      ]

  raised :
      (t : Tunnel) (r0 r : Registry)
      → Level r0 r
      → (i : ℕ)
      → put r.instance_active t.instance_id (r.instance_active t.instance_id + 1) i
        ≡ put r0.instance_active t.instance_id (r0.instance_active t.instance_id + 1) i
  unfolding put
  raised t r0 r level i =
      let same = level i in let same_here = level t.instance_id in ground (arith, same, same_here)

  try_tunnel-OpenedOnce :
      (ordered : List Tunnel) (r0 r : Registry) (t : Tunnel) (o p : Option TunnelError)
      (errors : List TunnelError) (rest : Registry → List Tunnel → List TunnelError → Selection)
      → Mem t ordered
      → Level r0 r
      → r.instance_active t.instance_id < settings.max_in_flight_per_instance
      → ((r' : Registry) (errors' : List TunnelError)
          → Level r0 r'
          → OpenedOnce ordered r0 (rest r' [] errors'))
      → OpenedOnce ordered r0 (try_tunnel t o p (reserved t r) [] errors rest)
  unfolding try_tunnel put
  try_tunnel-OpenedOnce ordered r0 r t (some e) p errors rest m level room again =
      again _ _ (given_back t r0 r level)
  try_tunnel-OpenedOnce ordered r0 r t none none errors rest m level room again =
      on_tunnel t m refl refl (λ i. raised t r0 r level i)
        (let same_here = level t.instance_id in omega arith)
  try_tunnel-OpenedOnce ordered r0 r t none (some e) errors rest m level room again =
      if_rule (OpenedOnce ordered r0) (is_over t)
        (gives_up (release_instance t.instance_id (reserved t r)) [] (errors ++ (e ∷ [])))
        (rest (release_instance t.instance_id (reserved t r)) [] (errors ++ (e ∷ [])))
        (λ over. nowhere refl refl (given_back t r0 r level))
        (λ on. again _ _ (given_back t r0 r level))

  on_reservation-OpenedOnce :
      (ordered : List Tunnel) (r0 r : Registry) (t : Tunnel) (errors : List TunnelError)
      (rest : Registry → List Tunnel → List TunnelError → Selection)
      → Mem t ordered
      → Level r0 r
      → ((r' : Registry) (errors' : List TunnelError)
          → Level r0 r'
          → OpenedOnce ordered r0 (rest r' [] errors'))
      → OpenedOnce ordered r0
          (on_reservation t (reserve_instance settings t.instance_id r) [] errors rest)
  unfolding on_reservation
  on_reservation-OpenedOnce ordered r0 r t errors rest m level again = elim (reserve_cases t r) [
    | inl e ↦ subst Holds (sym e) (nowhere refl refl level)
    | inr (inl e) ↦ subst Holds (sym e) (again r (errors ++ (queue_full ∷ [])) level)
    | inr (inr (e, room)) ↦ subst Holds (sym e) (
        try_tunnel-OpenedOnce ordered r0 r t (start t) (enqueue_open t) errors rest m level room
          again)
  ]
    where
      Holds : Registry × ReservationResult → Type 0
      Holds out = OpenedOnce ordered r0 (on_reservation t out [] errors rest)

  open_from-OpenedOnce :
      (ordered ts : List Tunnel) (r0 r : Registry) (errors : List TunnelError)
      → All (λ t. Mem t ordered) ts
      → Level r0 r
      → OpenedOnce ordered r0 (open_from ts r [] errors)
  unfolding open_from
  open_from-OpenedOnce ordered [] r0 r errors ms level = nowhere refl refl level
  open_from-OpenedOnce ordered (t ∷ ts) r0 r errors ms level =
      on_reservation-OpenedOnce ordered r0 r t errors (open_from ts) ms.0 level
        (λ r' errors' l. open_from-OpenedOnce ordered ts r0 r' errors' ms.1 l)

  all_members : (xs : List Tunnel) → All (λ x. Mem x xs) xs
  all_members [] = tt
  all_members (x ∷ xs) =
      (mem-cons.1 (Or.inl refl), All-map _ _ xs (λ y m. mem-cons.1 (Or.inr m)) (all_members xs))

  -- An Open is queued on one tunnel at most. Whatever the tunnels of the order answer: either the call
  -- fails, no queue took its Open, and as many calls are in flight on each instance as before; or one
  -- tunnel of the order took it and is returned, and one call more is in flight on its instance, which
  -- had room.
  pub select_and_open-OpenedOnce :
      (ordered : List Tunnel) (r : Registry) → OpenedOnce ordered r (select_and_open ordered r)
  unfolding select_and_open
  select_and_open-OpenedOnce ordered r =
      if_rule (OpenedOnce ordered r) r.is_draining (gives_up r [] (TunnelError.draining ∷ []))
        (open_from ordered r [] []) (λ d. nowhere refl refl (λ i. refl))
        (λ n. open_from-OpenedOnce ordered ordered r r [] (all_members ordered) (λ i. refl))
