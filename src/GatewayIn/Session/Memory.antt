-- ===== src/GatewayIn/Session/Memory.antt =====
-- The tombstone map of session.go against the ring of its ids, and a run of finished requests.
use mathlib.Core.Path.{subst}
use native.Mathlib.Nat.{mod-lt}
use mathlib.Core.Logic.{if_pos, if_neg}
use marketmesh.Prelude.{
  ℕ, suc, ◌+◌, ◌%◌, ◌<◌, ◌≡◌, refl, sym, ◌∙◌, ◌≢◌, ◌↔◌, ◌⊎◌, inl, inr, true, false, Option, some,
  none, List, [], ◌∷◌, ◌++◌, arith, ltb, Bool-cases, length, get_or, take, drop, All, Distinct,
  length-append, All-map,
}
use marketmesh.Protocol.Messages.{Bytes}
use marketmesh.GatewayIn.Session.{
  Session, Entry, put_tombstone, set_order, same_bytes, bytes_discrete,
}
use marketmesh.GatewayIn.Session.Requests.{add_tombstone}
use marketmesh.GatewayIn.Session.Ring.{
  RingOk, recent, turned, turned-drop, remember-short, All-append, append_assoc, length-set_order,
  recent-filling, length-turned, turned-full,
}

-- A list without an id.
abbrev pub Absent : Bytes → List Bytes → Type 0
Absent id = All (λ x. x ≢ id)

-- What a map that forgets exactly the absent ids is.
abbrev Records : (Bytes → Option Entry) → List Bytes → Type 0
Records tombstones ids = (id : Bytes) → (tombstones id ≡ none) ↔ Absent id ids

Distinct-last :
    (xs : List Bytes) (id : Bytes) → Distinct xs → Absent id xs → Distinct (xs ++ (id ∷ []))
Distinct-last [] id d h = (tt, tt)
Distinct-last (x ∷ xs) id d h =
    ((All-append _ xs (id ∷ [])).1 (d.0, (h.0, tt)), Distinct-last xs id d.1 h.1)

Records-put :
    (t : Bytes → Option Entry) (xs : List Bytes) (id : Bytes) (e : Entry)
    → Records t xs
    → Records (put_tombstone id (some e) t) (xs ++ (id ∷ []))
unfolding put_tombstone same_bytes
Records-put t xs id e r j = elim (bytes_discrete id j) [
  | yes p ↦
      rw (if_pos (bytes_discrete id j) p)
        (λ h. cc, λ h. absurd (((All-append _ xs (id ∷ [])).0 h).1.0 p))
  | no n ↦ rw (if_neg (bytes_discrete id j) n) (
    λ h. (All-append _ xs (id ∷ [])).1 ((r j).0 h, (n, tt)),
    λ h. (r j).1 ((All-append _ xs (id ∷ [])).0 h).0,
  )
]

Records-forget :
    (t : Bytes → Option Entry) (old : Bytes) (xs : List Bytes)
    → Distinct (old ∷ xs)
    → Records t (old ∷ xs)
    → Records (put_tombstone old none t) xs
unfolding put_tombstone same_bytes
Records-forget t old xs d r j = elim (bytes_discrete old j) [
  | yes p ↦
      rw (if_pos (bytes_discrete old j) p)
        (λ h. All-map _ _ xs (λ x n e. n (p ∙ sym e)) d.0, λ h. refl)
  | no n ↦ rw (if_neg (bytes_discrete old j) n) (λ h. ((r j).0 h).1, λ h. (r j).1 (n, h))
]

module _ (e : Entry) (s : Session) (ok : RingOk s) (fresh : s.tombstones e.request.id ≡ none) where
  abbrev place : ℕ
  place = s.tombstone_position

  abbrev order : List Bytes
  order = s.tombstone_order

  abbrev appended : Session
  appended = record s {
    tombstone_order = order ++ (e.request.id ∷ []);
    tombstones = put_tombstone e.request.id (some e) s.tombstones;
  }

  abbrev replaced : Session
  replaced = record s {
    tombstone_order = set_order place e.request.id order;
    tombstones =
        put_tombstone e.request.id (some e)
          (put_tombstone (get_or order place []) none s.tombstones);
    tombstone_position = (place + 1) % s.limits.max_in_flight_requests;
  }

  unused : Absent e.request.id (recent s)
  unused = (ok.held e.request.id).0 fresh

  filling-RingOk : length order < s.limits.max_in_flight_requests → place ≡ 0 → RingOk appended
  unfolding recent
  filling-RingOk short start =
      let grown = length-append order (e.request.id ∷ []) in
      let next =
        recent-filling s.limits.max_in_flight_requests place e.request.id order short start
        ∙ remember-short s.limits.max_in_flight_requests e.request.id (turned place order)
            (omega (arith, length-turned place order (omega arith))) in
      record {
        positive = ok.positive;
        shape = elim (Bool-cases (ltb (length order + 1) s.limits.max_in_flight_requests)) [
          | inl t ↦ inl (ground (arith, grown), start)
          | inr f ↦ inr (ground (arith, grown), omega (arith, start, ok.positive))
        ];
        distinct = subst Distinct (sym next) (Distinct-last _ _ ok.distinct unused);
        held =
            subst (Records (put_tombstone e.request.id (some e) s.tombstones)) (sym next)
              (Records-put s.tombstones (turned place order) e.request.id e ok.held);
      }

  full-RingOk :
      length order ≡ s.limits.max_in_flight_requests
      → place < s.limits.max_in_flight_requests
      → RingOk replaced
  unfolding recent
  full-RingOk full here =
      let old = turned-drop place order (omega arith) in
      let rest = drop (suc place) order ++ take place order in
      let apart : Distinct (get_or order place [] ∷ rest) = subst Distinct old ok.distinct in
      let gone : Absent e.request.id (get_or order place [] ∷ rest) =
        subst (Absent e.request.id) old unused in
      let next : turned replaced.tombstone_position replaced.tombstone_order
          ≡ rest ++ (e.request.id ∷ []) =
        turned-full s.limits.max_in_flight_requests place e.request.id order full here
        ∙ sym (append_assoc (drop (suc place) order) (take place order) (e.request.id ∷ [])) in
      record {
        positive = ok.positive;
        shape = inr (
          omega (arith, length-set_order place e.request.id order, full),
          mod-lt (place + 1) ok.positive,
        );
        distinct = subst Distinct (sym next) (Distinct-last _ _ apart.1 gone.1);
        held =
            subst
              (Records (
                put_tombstone e.request.id (some e)
                  (put_tombstone (get_or order place []) none s.tombstones)))
              (sym next)
              (Records-put _ rest e.request.id e (
                Records-forget s.tombstones (get_or order place []) rest apart
                  (subst (Records s.tombstones) old ok.held)));
      }

  -- Recording a request whose id has no tombstone keeps the ring well formed: the ring is being filled
  -- from its start or is full, no id stands in it twice, and the map holds a tombstone for exactly the
  -- ids of the ring.
  pub add_tombstone-RingOk : RingOk (add_tombstone e s)
  unfolding add_tombstone
  add_tombstone-RingOk = by_shape ok.shape
    where
      by_shape :
          ((length order < s.limits.max_in_flight_requests) × (place ≡ 0))
            ⊎ ((length order ≡ s.limits.max_in_flight_requests)
                × (place < s.limits.max_in_flight_requests))
          → RingOk (add_tombstone e s)
      by_shape (inl (short, start)) =
          let below : ltb (length order) s.limits.max_in_flight_requests ≡ true = ground arith in
          rw below (filling-RingOk short start)
      by_shape (inr (full, here)) =
          let above : ltb (length order) s.limits.max_in_flight_requests ≡ false = ground arith in
          rw above (full-RingOk full here)
