-- ===== src/GatewayIn/Registry/Admission.antt =====
-- The steps of the registry, its runs and their invariant, with the counts of a list of sessions.
use marketmesh.Prelude.{
  ℕ, ◌+◌, ◌≤◌, ◌≡◌, refl, sym, ap, ◌≢◌, inl, inr, false, some, none, List, [], ◌∷◌, map, arith,
  ◌==◌, if◌then◌else◌, ==_iff, if_rule, Bool-cases, length, All, Distinct,
}
use mathlib.Core.Path.{subst}
use marketmesh.GatewayIn.Registry.{
  Tunnel, Settings, Registry, new_registry, lookup, delete, begin_handshake, release_handshake,
  register_from_handshake, unregister, reserve_instance, release_instance, set_draining,
}

-- How many of the sessions are of an instance.
abbrev pub tunnels_of : ℕ → List Tunnel → ℕ
tunnels_of i [] = 0
tunnels_of i (s ∷ ss) = (if s.instance_id == i then 1 else 0) + tunnels_of i ss

abbrev pub id_of : Tunnel → ℕ
id_of s = s.id

abbrev instance_of : Tunnel → ℕ
instance_of s = s.instance_id

pub data Step (st : Settings) : Registry → Registry → Type 0 where
  begins : (r : Registry) → Step st r (begin_handshake st r).0
  gives_up : (r : Registry) → Step st r (release_handshake r)
  registers : (s : Tunnel) (r : Registry) → Step st r (register_from_handshake st s r).0
  -- The session that is given is the one that was registered: one object has one instance.
  unregisters :
      (s : Tunnel) (r : Registry)
      → ((t : Tunnel)
          → lookup s.id r.sessions ≡ some t
          → t.handle ≡ s.handle
          → t.instance_id ≡ s.instance_id)
      → Step st r (unregister s r)
  reserves : (i : ℕ) (r : Registry) → Step st r (reserve_instance st i r).0
  releases : (i : ℕ) (r : Registry) → Step st r (release_instance i r)
  drains : (r : Registry) → Step st r (set_draining r)

pub data Reach (st : Settings) : Registry → Type 0 where
  created : Reach st new_registry
  then_step : {r r' : Registry} → Reach st r → Step st r r' → Reach st r'

pub record Inv (st : Settings) (r : Registry) : Type 0 where
  pub room : length r.sessions + r.handshakes ≤ st.max_tunnels
  pub counted : (i : ℕ) → r.instance_tunnels i ≡ tunnels_of i r.sessions
  pub per_instance : (i : ℕ) → r.instance_tunnels i ≤ st.max_tunnels_per_instance
  pub active : (i : ℕ) → r.instance_active i ≤ st.max_in_flight_per_instance
  pub ids : Distinct (map id_of r.sessions)

pub lookup-none :
    (id : ℕ) (ss : List Tunnel) → lookup id ss ≡ none → All (λ y. id ≢ y) (map id_of ss)
unfolding lookup
lookup-none id [] h = tt
lookup-none id (s ∷ ss) h =
    let ne : (s.id == id) ≡ false = ground arith in
    let more : lookup id ss ≡ none = ground arith in (λ e. ground arith, lookup-none id ss more)

delete-absent : (id : ℕ) (ss : List Tunnel) → All (λ y. id ≢ y) (map id_of ss) → delete id ss ≡ ss
unfolding delete
delete-absent id [] h = refl
delete-absent id (s ∷ ss) (n, h) =
    let ne : (s.id == id) ≡ false = elim (Bool-cases (s.id == id)) [
      | inl y ↦ absurd (n (sym ((==_iff _ _).0 y)))
      | inr y ↦ y
    ] in
    rw ne (ap (λ x. s ∷ x) (delete-absent id ss h))

-- What a deletion of a session that is there leaves.
pub delete-counts :
    (id : ℕ) (ss : List Tunnel) (t : Tunnel)
    → Distinct (map id_of ss)
    → lookup id ss ≡ some t
    → (length (delete id ss) + 1 ≡ length ss)
      × ((i : ℕ)
          → tunnels_of i (delete id ss) + (if t.instance_id == i then 1 else 0) ≡ tunnels_of i ss)
unfolding lookup delete
delete-counts id [] t d h = cc
delete-counts id (s ∷ ss) t (n, d) h = elim (Bool-cases (s.id == id)) [
  | inl y ↦
      let same : s ≡ t = ground arith in
      let gone : delete id ss ≡ ss =
        delete-absent id ss (subst (λ x. All (λ y. x ≢ y) (map id_of ss)) ((==_iff _ _).0 y) n) in
      rw y (rw gone (omega arith, λ i. rw same (omega arith)))
  | inr y ↦
      let more : lookup id ss ≡ some t = ground arith in
      let (size, counts) = delete-counts id ss t d more in
      rw y (omega arith, λ i. omega (arith, counts i))
]

delete-All :
    (P : ℕ → Type 0) (id : ℕ) (ss : List Tunnel)
    → All P (map id_of ss)
    → All P (map id_of (delete id ss))
unfolding delete
delete-All P id [] h = tt
delete-All P id (s ∷ ss) (p, h) =
    if_rule Held (s.id == id) _ _ (λ y. delete-All P id ss h) (λ y. (p, delete-All P id ss h))
  where
    Held : List Tunnel → Type 0
    Held xs = All P (map id_of xs)

pub delete-Distinct :
    (id : ℕ) (ss : List Tunnel) → Distinct (map id_of ss) → Distinct (map id_of (delete id ss))
unfolding delete
delete-Distinct id [] d = tt
delete-Distinct id (s ∷ ss) (n, d) =
    if_rule Held (s.id == id) _ _ (λ y. delete-Distinct id ss d)
      (λ y. (delete-All _ id ss n, delete-Distinct id ss d))
  where
    Held : List Tunnel → Type 0
    Held xs = Distinct (map id_of xs)
