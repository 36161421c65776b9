-- ===== src/GatewayIn/Registry/Runs.antt =====
-- The runs of the registry, step by step, and the invariant `Inv` along them.
use marketmesh.Prelude.{
  ℕ, ◌+◌, ◌-◌, ◌≤◌, ◌<◌, ◌≡◌, refl, sym, ◌⊎◌, inl, inr, false, some, none, ◌∷◌, map, arith, ◌==◌,
  ==_iff, Bool-cases, Option-cases, length, Distinct,
}
use mathlib.Core.Path.{subst}
use marketmesh.GatewayIn.Registry.{
  Tunnel, Settings, Registry, new_registry, put, lookup, delete, begin_handshake, release_handshake,
  register_from_handshake, unregister, reserve_instance, release_instance, set_draining,
}
use marketmesh.GatewayIn.Registry.Admission.{
  tunnels_of, Step, begins, gives_up, registers, unregisters, reserves, releases, drains, Reach,
  created, then_step, Inv, id_of, lookup-none, delete-counts, delete-Distinct,
}

abbrev kept : Registry → ℕ → Registry
kept r n = record r { handshakes = n }

abbrev pub registered : Tunnel → Registry → Registry
registered s r = record r {
  sessions = s ∷ r.sessions;
  instance_tunnels = put r.instance_tunnels s.instance_id (r.instance_tunnels s.instance_id + 1);
  handshakes = r.handshakes - 1;
}

abbrev unregistered : Tunnel → Registry → Registry
unregistered s r = record r {
  sessions = delete s.id r.sessions;
  instance_tunnels = put r.instance_tunnels s.instance_id (r.instance_tunnels s.instance_id - 1);
}

abbrev activated : ℕ → ℕ → Registry → Registry
activated i n r = record r { instance_active = put r.instance_active i n }

kept-Inv :
    (st : Settings) (r : Registry) (n : ℕ)
    → length r.sessions + n ≤ st.max_tunnels
    → Inv st r
    → Inv st (kept r n)
kept-Inv st r n h v = record {
  room = h;
  counted = v.counted;
  per_instance = v.per_instance;
  active = v.active;
  ids = v.ids;
}

registered-Inv :
    (st : Settings) (s : Tunnel) (r : Registry)
    → 0 < r.handshakes
    → r.instance_tunnels s.instance_id < st.max_tunnels_per_instance
    → lookup s.id r.sessions ≡ none
    → Inv st r
    → Inv st (registered s r)
unfolding put
registered-Inv st s r p f e v = record {
  room = omega (arith, v.room);
  counted = λ i. ground (arith, v.counted i, v.counted s.instance_id);
  per_instance = λ i. ground (arith, v.per_instance i);
  active = v.active;
  ids = (lookup-none s.id r.sessions e, v.ids);
}

unregistered-Inv :
    (st : Settings) (s t : Tunnel) (r : Registry)
    → lookup s.id r.sessions ≡ some t
    → t.instance_id ≡ s.instance_id
    → Inv st r
    → Inv st (unregistered s r)
unfolding put
unregistered-Inv st s t r e h v =
    let (size, counts) = delete-counts s.id r.sessions t v.ids e in
    record {
      room = omega (arith, v.room);
      counted =
          λ i. ground (arith, v.counted i, v.counted s.instance_id, counts i, counts s.instance_id);
      per_instance = λ i. ground (arith, v.per_instance i, v.per_instance s.instance_id);
      active = v.active;
      ids = delete-Distinct s.id r.sessions v.ids;
    }

activated-Inv :
    (st : Settings) (i n : ℕ) (r : Registry)
    → n ≤ st.max_in_flight_per_instance
    → Inv st r
    → Inv st (activated i n r)
unfolding put
activated-Inv st i n r h v = record {
  room = v.room;
  counted = v.counted;
  per_instance = v.per_instance;
  active = λ j. ground (arith, v.active j);
  ids = v.ids;
}

-- What `registerFromHandshake` leaves, and when.
pub register-cases :
    (st : Settings) (s : Tunnel) (r : Registry)
    → ((register_from_handshake st s r).0 ≡ r)
      ⊎ (((register_from_handshake st s r).0 ≡ kept r (r.handshakes - 1))
          ⊎ (((register_from_handshake st s r).0 ≡ registered s r)
              × (0 < r.handshakes)
              × (r.instance_tunnels s.instance_id < st.max_tunnels_per_instance)
              × (lookup s.id r.sessions ≡ none)))
unfolding register_from_handshake
register-cases st s r = ground arith

unregister-cases :
    (s : Tunnel) (r : Registry)
    → (unregister s r ≡ r)
      ⊎ ((t : Tunnel) × (lookup s.id r.sessions ≡ some t)
          × (t.handle ≡ s.handle)
          × (unregister s r ≡ unregistered s r))
unfolding unregister
unregister-cases s r = elim (Option-cases (lookup s.id r.sessions)) [
  | inl e ↦ inl (rw (e, unregister) refl)
  | inr (t, e) ↦ elim (Bool-cases (t.handle == s.handle)) [
    | inl y ↦ inr (t, e, (==_iff _ _).0 y, rw (e, unregister) (rw y refl))
    | inr y ↦ inl (rw (e, unregister) (rw y refl))
  ]
]

begin-cases :
    (st : Settings) (r : Registry)
    → ((begin_handshake st r).0 ≡ r)
      ⊎ (((begin_handshake st r).0 ≡ kept r (r.handshakes + 1))
          × (length r.sessions + r.handshakes < st.max_tunnels))
unfolding begin_handshake
begin-cases st r = ground arith

release-cases :
    (r : Registry) → (release_handshake r ≡ r) ⊎ (release_handshake r ≡ kept r (r.handshakes - 1))
unfolding release_handshake
release-cases r = ground arith

reserve-cases :
    (st : Settings) (i : ℕ) (r : Registry)
    → ((reserve_instance st i r).0 ≡ r)
      ⊎ (((reserve_instance st i r).0 ≡ activated i (r.instance_active i + 1) r)
          × (r.instance_active i < st.max_in_flight_per_instance))
unfolding reserve_instance
reserve-cases st i r = ground arith

free-cases :
    (i : ℕ) (r : Registry)
    → (release_instance i r ≡ r) ⊎ (release_instance i r ≡ activated i (r.instance_active i - 1) r)
unfolding release_instance
free-cases i r = ground arith

Step-Inv : {st : Settings} {r r' : Registry} → Step st r r' → Inv st r → Inv st r'
unfolding set_draining
Step-Inv {st = st} (begins r) v = elim (begin-cases st r) [
  | inl e ↦ subst (Inv st) (sym e) v
  | inr (e, h) ↦ subst (Inv st) (sym e) (kept-Inv st r _ (omega arith) v)
]
Step-Inv {st = st} (gives_up r) v = elim (release-cases r) [
  | inl e ↦ subst (Inv st) (sym e) v
  | inr e ↦ subst (Inv st) (sym e) (kept-Inv st r _ (omega (arith, v.room)) v)
]
Step-Inv {st = st} (registers s r) v = elim (register-cases st s r) [
  | inl e ↦ subst (Inv st) (sym e) v
  | inr (inl e) ↦ subst (Inv st) (sym e) (kept-Inv st r _ (omega (arith, v.room)) v)
  | inr (inr (e, p, f, a)) ↦ subst (Inv st) (sym e) (registered-Inv st s r p f a v)
]
Step-Inv {st = st} (unregisters s r h) v = elim (unregister-cases s r) [
  | inl e ↦ subst (Inv st) (sym e) v
  | inr (t, e, same, u) ↦ subst (Inv st) (sym u) (unregistered-Inv st s t r e (h t e same) v)
]
Step-Inv {st = st} (reserves i r) v = elim (reserve-cases st i r) [
  | inl e ↦ subst (Inv st) (sym e) v
  | inr (e, h) ↦ subst (Inv st) (sym e) (activated-Inv st i _ r (omega arith) v)
]
Step-Inv {st = st} (releases i r) v = elim (free-cases i r) [
  | inl e ↦ subst (Inv st) (sym e) v
  | inr e ↦ subst (Inv st) (sym e) (activated-Inv st i _ r (omega (arith, v.active i)) v)
]
Step-Inv {st = st} (drains r) v = record {
  room = v.room;
  counted = v.counted;
  per_instance = v.per_instance;
  active = v.active;
  ids = v.ids;
}

Reach-Inv : {st : Settings} {r : Registry} → Reach st r → Inv st r
unfolding new_registry
Reach-Inv created = record {
  room = omega arith;
  counted = λ i. refl;
  per_instance = λ i. omega arith;
  active = λ i. omega arith;
  ids = tt;
}
Reach-Inv (then_step rs st) = Step-Inv st (Reach-Inv rs)

-- The registry keeps its settings. In every run from the new registry, whatever handshakes, sessions
-- and calls do and in whatever order: the tunnels and the open handshakes together are within the
-- limit of tunnels, no instance has more tunnels than its limit or more calls in flight than its
-- limit, its counter of tunnels is the number of its sessions, and no two sessions share an id.
pub admission_bounds :
    (st : Settings) (r : Registry) (i : ℕ)
    → Reach st r
    → (length r.sessions + r.handshakes ≤ st.max_tunnels)
      × (r.instance_tunnels i ≡ tunnels_of i r.sessions)
      × (tunnels_of i r.sessions ≤ st.max_tunnels_per_instance)
      × (r.instance_active i ≤ st.max_in_flight_per_instance)
      × Distinct (map id_of r.sessions)
admission_bounds st r i reach =
    let v = Reach-Inv reach in
    (v.room, v.counted i, omega (arith, v.counted i, v.per_instance i), v.active i, v.ids)

-- An open handshake has a place. In every run, while the registry is not draining and a handshake is
-- open, a session with a new id, of an instance with fewer tunnels than its limit, is registered:
-- the limit of tunnels does not refuse it.
pub handshake_has_place :
    (st : Settings) (r : Registry) (s : Tunnel)
    → Reach st r
    → 0 < r.handshakes
    → r.is_draining ≡ false
    → tunnels_of s.instance_id r.sessions < st.max_tunnels_per_instance
    → lookup s.id r.sessions ≡ none
    → register_from_handshake st s r ≡ (registered s r, none)
unfolding register_from_handshake
handshake_has_place st r s reach h d l e =
    let v = Reach-Inv reach in ground (arith, v.room, v.counted s.instance_id)
