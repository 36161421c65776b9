-- ===== src/GatewayIn/Session/Kept.antt =====
-- The operations of a session that start and end no request.
use marketmesh.Prelude.{
  ℕ, ◌≡◌, refl, sym, ap, ◌∙◌, ◌↔◌, true, Option, some, none, List, [], ◌∷◌, map, arith, if_rule,
}
use marketmesh.Protocol.Enums.{RouteId}
use marketmesh.Protocol.Messages.{Bytes, OutPayload, ConnectRequest}
use marketmesh.GatewayIn.Errors.{TunnelError}
use marketmesh.GatewayIn.Request.{
  Request, next_sequence, complete, complete_locked, complete_local_abort,
}
use marketmesh.GatewayIn.Request.Inbound.{
  handle_inbound, handle_completed_inbound, receive, receive_tail, receive_data,
}
use marketmesh.GatewayIn.Session.{
  Session, Entry, Failure, Ending, not_failed, completing, canceling, reported, nth, remove_nth,
  end_entry, fail, close_tunnel, close_with, fail_begins, end_step, fail_continues,
}

-- What a caller's request is known by.
abbrev pub Key : Type 0
Key = ℕ × (Bytes × RouteId)

abbrev pub key : Entry → Key
key e = (e.handle, (e.request.id, e.request.route))

-- Neither the requests nor the tombstones are others than before.
pub record Same (s t : Session) : Type 0 where
  pub limits_is : t.limits ≡ s.limits
  pub order_is : t.tombstone_order ≡ s.tombstone_order
  pub position_is : t.tombstone_position ≡ s.tombstone_position
  pub active_is : t.route_active ≡ s.route_active
  pub keys_is : map key t.requests ≡ map key s.requests
  pub recorded : (id : Bytes) → (t.tombstones id ≡ none) ↔ (s.tombstones id ≡ none)

pub same : (s : Session) → Same s s
same s = record {
  limits_is = refl;
  order_is = refl;
  position_is = refl;
  active_is = refl;
  keys_is = refl;
  recorded = λ id. (λ h. h, λ h. h);
}

pub Same-trans : {s t u : Session} → Same s t → Same t u → Same s u
Same-trans a b = record {
  limits_is = b.limits_is ∙ a.limits_is;
  order_is = b.order_is ∙ a.order_is;
  position_is = b.position_is ∙ a.position_is;
  active_is = b.active_is ∙ a.active_is;
  keys_is = b.keys_is ∙ a.keys_is;
  recorded = λ id.
      (λ h. (a.recorded id).0 ((b.recorded id).0 h), λ h. (b.recorded id).1 ((a.recorded id).1 h));
}

-- A map over the requests that keeps what each is known by.
pub map-keys :
    (f : Entry → Entry)
    → ((e : Entry) → key (f e) ≡ key e)
    → (es : List Entry) → map key (map f es) ≡ map key es
map-keys f k [] = refl
map-keys f k (e ∷ es) = ap2 (k e) (map-keys f k es)
  where
    ap2 : {x y : Key} {xs ys : List Key} → x ≡ y → xs ≡ ys → x ∷ xs ≡ y ∷ ys
    ap2 p q = cc

end_entry-key : (err : TunnelError) (handle : ℕ) (e : Entry) → key (end_entry err handle e) ≡ key e
unfolding end_entry complete complete_locked
end_entry-key err handle e = ground arith

pub fail-Same : (f : Failure) (s : Session) → Same s (fail f s)
unfolding fail
fail-Same f s = record {
  limits_is = refl;
  order_is = refl;
  position_is = refl;
  active_is = refl;
  keys_is = refl;
  recorded = λ id. (λ h. h, λ h. h);
}

-- Sessions with the same maps.
pub alike :
    (s t : Session)
    → t.limits ≡ s.limits
    → t.tombstone_order ≡ s.tombstone_order
    → t.tombstone_position ≡ s.tombstone_position
    → t.route_active ≡ s.route_active
    → t.requests ≡ s.requests
    → t.tombstones ≡ s.tombstones
    → Same s t
alike s t l o p a r m = record {
  limits_is = l;
  order_is = o;
  position_is = p;
  active_is = a;
  keys_is = ap (map key) r;
  recorded = λ id. (
    λ h. sym (ap (λ (f : Bytes → Option Entry). f id) m) ∙ h,
    λ h. ap (λ (f : Bytes → Option Entry). f id) m ∙ h,
  );
}

close_tunnel-Same : (f : Failure) (s t : Session) → Same s t → Same s (close_tunnel f t)
unfolding close_tunnel
close_tunnel-Same f s t h =
    if_rule (Same s) t.is_closed t _ (λ c. h)
      (λ c. Same-trans h (alike t _ refl refl refl refl refl refl))

pub fail_begins-Same : (i : ℕ) (s : Session) → Same s (fail_begins i s)
unfolding fail_begins
fail_begins-Same i s = by_call (nth i s.failing)
  where
    by_call : (o : Option Failure) → Same s (close_with o i s)
    by_call none = same s
    by_call (some f) =
        close_tunnel-Same f s (record s { failing = remove_nth i s.failing })
          (alike s _ refl refl refl refl refl refl)

pub fail_continues-Same : (s : Session) → Same s (fail_continues s)
unfolding fail_continues
fail_continues-Same s = by_ending s.ending
  where
    by_ending : (e : Ending) → Same s (end_step e s)
    by_ending not_failed = same s
    by_ending (completing f (h ∷ hs)) = record {
      limits_is = refl;
      order_is = refl;
      position_is = refl;
      active_is = refl;
      keys_is = map-keys (end_entry f.request_err h) (end_entry-key f.request_err h) s.requests;
      recorded = λ id. (λ h. h, λ h. h);
    }
    by_ending (completing f []) = alike s _ refl refl refl refl refl refl
    by_ending (canceling f) = alike s _ refl refl refl refl refl refl
    by_ending (reported f) = same s

-- What a request is known by, on the request's side.
abbrev pub Names : Type 0
Names = Bytes × RouteId

abbrev pub names : Request → Names
names r = (r.id, r.route)

receive_data-names : (bytes : List ℕ) (r : Request) → names (receive_data bytes r).0 ≡ names r
unfolding receive_data
receive_data-names bytes r = ground arith

receive-names : (p : Option OutPayload) (r : Request) → names (receive p r).0 ≡ names r
unfolding receive complete_locked
receive-names (some (OutPayload.credit c)) r = ground arith
receive-names (some (OutPayload.data_frame d)) r = receive_data-names _ r
receive-names (some (OutPayload.half_close h)) r = ground arith
receive-names (some (OutPayload.result res)) r = ground arith
receive-names (some (OutPayload.cancel c)) r = ground arith
receive-names (some (OutPayload.hello h)) r = refl
receive-names (some (OutPayload.ping h)) r = refl
receive-names (some (OutPayload.pong h)) r = refl
receive-names (some (OutPayload.drain h)) r = refl
receive-names (some (OutPayload.revoke_session h)) r = refl
receive-names none r = refl

receive_tail-names : (p : Option OutPayload) (r : Request) → names (receive_tail p r).0 ≡ names r
unfolding receive_tail
receive_tail-names (some (OutPayload.credit c)) r = ground arith
receive_tail-names (some (OutPayload.data_frame d)) r = ground arith
receive_tail-names (some (OutPayload.half_close h)) r = ground arith
receive_tail-names (some (OutPayload.result res)) r = ground arith
receive_tail-names (some (OutPayload.cancel c)) r = refl
receive_tail-names (some (OutPayload.hello h)) r = refl
receive_tail-names (some (OutPayload.ping h)) r = refl
receive_tail-names (some (OutPayload.pong h)) r = refl
receive_tail-names (some (OutPayload.drain h)) r = refl
receive_tail-names (some (OutPayload.revoke_session h)) r = refl
receive_tail-names none r = refl

pub inbound-names :
    (frame : ConnectRequest) (r : Request) → names (handle_inbound frame r).0 ≡ names r
unfolding handle_inbound handle_completed_inbound
inbound-names frame r =
    let next : Request = record r { inbound_sequence = next_sequence r.inbound_sequence } in
    let a = receive-names frame.payload next in
    let b = receive_tail-names frame.payload next in ground arith

pub abort-names : (err : TunnelError) (r : Request) → names (complete_local_abort err r) ≡ names r
unfolding complete_local_abort complete_locked
abort-names err r = ground arith

receive-outcome :
    (p : Option OutPayload) (r : Request)
    → r.is_completed ≡ true
    → (receive p r).0.is_completed ≡ true
unfolding receive receive_data complete_locked
receive-outcome (some (OutPayload.credit c)) r h = ground arith
receive-outcome (some (OutPayload.data_frame d)) r h = ground arith
receive-outcome (some (OutPayload.half_close x)) r h = ground arith
receive-outcome (some (OutPayload.result res)) r h = ground arith
receive-outcome (some (OutPayload.cancel c)) r h = ground arith
receive-outcome (some (OutPayload.hello x)) r h = h
receive-outcome (some (OutPayload.ping x)) r h = h
receive-outcome (some (OutPayload.pong x)) r h = h
receive-outcome (some (OutPayload.drain x)) r h = h
receive-outcome (some (OutPayload.revoke_session x)) r h = h
receive-outcome none r h = h

receive_tail-outcome :
    (p : Option OutPayload) (r : Request)
    → r.is_completed ≡ true
    → (receive_tail p r).0.is_completed ≡ true
unfolding receive_tail
receive_tail-outcome (some (OutPayload.credit c)) r h = ground arith
receive_tail-outcome (some (OutPayload.data_frame d)) r h = ground arith
receive_tail-outcome (some (OutPayload.half_close x)) r h = ground arith
receive_tail-outcome (some (OutPayload.result res)) r h = ground arith
receive_tail-outcome (some (OutPayload.cancel c)) r h = h
receive_tail-outcome (some (OutPayload.hello x)) r h = h
receive_tail-outcome (some (OutPayload.ping x)) r h = h
receive_tail-outcome (some (OutPayload.pong x)) r h = h
receive_tail-outcome (some (OutPayload.drain x)) r h = h
receive_tail-outcome (some (OutPayload.revoke_session x)) r h = h
receive_tail-outcome none r h = h

-- A request that has an outcome keeps one.
pub inbound-outcome :
    (frame : ConnectRequest) (r : Request)
    → r.is_completed ≡ true
    → (handle_inbound frame r).0.is_completed ≡ true
unfolding handle_inbound handle_completed_inbound
inbound-outcome frame r h =
    let next : Request = record r { inbound_sequence = next_sequence r.inbound_sequence } in
    let b = receive_tail-outcome frame.payload next h in ground arith
