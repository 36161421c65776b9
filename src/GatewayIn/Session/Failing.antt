-- ===== src/GatewayIn/Session/Failing.antt =====
-- The body of `fail`, and the ways to it and to `finishLocalDrainAfterSend`, one critical section or
-- channel operation at a time.
use marketmesh.Prelude.{
  ℕ, zero, suc, ◌-◌, ◌≡◌, refl, sym, ◌∙◌, ◌≢◌, inl, inr, true, false, not, ◌&&◌, ◌||◌, Option, some,
  none, List, [], ◌∷◌, map, arith, ltb, if_rule, Bool-cases, ℕ_discrete, All, All-map,
}
use mathlib.Core.List.{Mem, Mem-prop, mem-cons, not-mem-nil}
use mathlib.Core.Logic.Or
use mathlib.Core.Path.{subst}
use marketmesh.GatewayIn.Errors.{TunnelError}
use marketmesh.GatewayIn.Request.{complete, complete_locked}
use marketmesh.GatewayIn.Session.{
  Session, Entry, Failure, Ending, Announcement, not_failed, completing, canceling, reported, nth,
  remove_nth, close_tunnel, close_with, fail_begins, end_entry, end_step, fail_continues,
  drained_failure,
}
use marketmesh.GatewayIn.Session.Requests.{is_empty}
use marketmesh.GatewayIn.Session.Reading.{start_finish, finish_after_send, finish_canceled}
use marketmesh.GatewayIn.Session.Over.{Completed, Due, left, has_finish, FailedIn, Over, fail-Over}

all_listed : (es : List Entry) → All (Due (map (λ (e : Entry). e.handle) es)) es
all_listed [] = tt
all_listed (e ∷ es) =
    (inr (mem-cons.1 (Or.inl refl)), All-map _ _ es (λ f d. later f d) (all_listed es))
  where
    later :
        (f : Entry)
        → Due (map (λ (e : Entry). e.handle) es) f
        → Due (e.handle ∷ map (λ (e : Entry). e.handle) es) f
    later f (inl done) = inl done
    later f (inr m) = inr (mem-cons.1 (Or.inr m))

close_tunnel-Over : (f : Failure) (s : Session) → FailedIn s → Over (close_tunnel f s)
unfolding close_tunnel
close_tunnel-Over f s failed =
    if_rule Over s.is_closed s _
      (λ c. record { settled = λ d e. ground arith; once = λ d. ground arith; failed = failed })
      (λ n. record {
        settled = λ d e. refl;
        once = λ d. refl;
        failed = record { quiet = λ c. cc; begun = λ c e. cc; held = λ c. all_listed s.requests };
      })

pub fail_begins-Over : (i : ℕ) (s : Session) → Over s → Over (fail_begins i s)
unfolding fail_begins
fail_begins-Over i s ok = by_call (nth i s.failing)
  where
    by_call : (o : Option Failure) → Over (close_with o i s)
    by_call none = ok
    by_call (some f) = close_tunnel-Over f (record s { failing = remove_nth i s.failing }) ok.failed

-- The request at the head of the list is completed, and the others stay.
end_entry-Due :
    (err : TunnelError) (h : ℕ) (hs : List ℕ) (e : Entry)
    → Due (h ∷ hs) e
    → Due hs (end_entry err h e)
unfolding end_entry complete complete_locked
end_entry-Due err h hs e (inl done) = inl (ground (arith, done))
end_entry-Due err h hs e (inr m) = elim (ℕ_discrete e.handle h) [
  | yes p ↦ inl (ground (arith, p))
  | no n ↦ inr (rw same_handle (others n))
]
  where
    same_handle : (end_entry err h e).handle ≡ e.handle
    same_handle = ground arith

    others : e.handle ≢ h → Mem e.handle hs
    others n = Or.elim Mem-prop (mem-cons.0 m) (λ p. absurd (n p)) (λ k. k)

all_end :
    (err : TunnelError) (h : ℕ) (hs : List ℕ) (es : List Entry)
    → All (Due (h ∷ hs)) es
    → All (Due hs) (map (end_entry err h) es)
all_end err h hs [] a = tt
all_end err h hs (e ∷ es) a = (end_entry-Due err h hs e a.0, all_end err h hs es a.1)

empty-map : (f : Entry → Entry) (es : List Entry) → is_empty (map f es) ≡ is_empty es
unfolding is_empty
empty-map f [] = refl
empty-map f (e ∷ es) = refl

-- Where `fail` has begun, the tunnel is closed.
closed_is : (s : Session) → FailedIn s → s.ending ≢ not_failed → s.is_closed ≡ true
closed_is s failed n = elim (Bool-cases s.is_closed) [
  | inl t ↦ t
  | inr f ↦ absurd (n (failed.quiet f))
]

-- On a tunnel that is closed only `fail` is left to follow.
closed-Over :
    (s : Session)
    → s.is_closed ≡ true
    → s.ending ≢ not_failed
    → All (Due (left s.ending)) s.requests
    → Over s
closed-Over s c n h = record {
  settled = λ d e. ground arith;
  once = λ d. ground arith;
  failed = record { quiet = λ f. absurd (clash f); begun = λ t. n; held = λ t. h };
}
  where
    clash : s.is_closed ≡ false → ⊥
    clash f = cc

pub fail_continues-Over : (s : Session) → Over s → Over (fail_continues s)
unfolding fail_continues
fail_continues-Over s ok = by_ending s.ending refl
  where
    begun : (e : Ending) → s.ending ≡ e → e ≢ not_failed → s.is_closed ≡ true
    begun e same n = closed_is s ok.failed (λ x. n (sym same ∙ x))

    due : (e : Ending) → s.ending ≡ e → s.is_closed ≡ true → All (Due (left e)) s.requests
    due e same c = subst (λ (x : Ending). All (Due (left x)) s.requests) same (ok.failed.held c)

    by_ending : (e : Ending) → s.ending ≡ e → Over (end_step e s)
    by_ending not_failed same = ok
    by_ending (completing f (h ∷ hs)) same =
        let c = begun (completing f (h ∷ hs)) same (λ x. cc) in
        closed-Over _ c (λ x. cc)
          (all_end f.request_err h hs s.requests (due (completing f (h ∷ hs)) same c))
    by_ending (completing f []) same =
        let c = begun (completing f []) same (λ x. cc) in
        closed-Over _ c (λ x. cc) (due (completing f []) same c)
    by_ending (canceling f) same =
        let c = begun (canceling f) same (λ x. cc) in
        closed-Over _ c (λ x. cc) (due (canceling f) same c)
    by_ending (reported f) same = ok

-- Once the failure is reported, no caller is without an outcome.
pub reported-Completed :
    (s : Session) (f : Failure) → Over s → s.ending ≡ reported f → All Completed s.requests
reported-Completed s f ok same = All-map _ _ s.requests no_handle (
    subst (λ (x : Ending). All (Due (left x)) s.requests) same
      (ok.failed.held (closed_is s ok.failed (λ x. apart (sym same ∙ x)))))
  where
    apart : reported f ≡ not_failed → ⊥
    apart x = cc

    no_handle : (e : Entry) → Due [] e → Completed e
    no_handle e (inl done) = done
    no_handle e (inr m) = absurd (not-mem-nil m)

pub start_finish-Over : (s : Session) → Over s → Over (start_finish s)
unfolding start_finish
start_finish-Over s ok =
    if_rule Over (ltb 0 s.finishers) _ s
      (λ t. record { settled = λ d e. there; once = λ d. waiting; failed = ok.failed }) (λ f. ok)
  where
    waiting :
        s.is_closed
          || (s.ctx_done || ((s.finishing || not s.drain_once) || not (is_empty s.failing)))
        ≡ true
    waiting = elim (Bool-cases s.drain_once) [
      | inl t ↦ (let w = ok.once t in ground (arith, w))
      | inr f ↦ ground (arith, f)
    ]

    there :
        s.is_closed
          || (s.ctx_done
              || ((s.finishing || not s.drain_once)
                  || (ltb 0 (s.finishers - 1)
                      || (not (is_empty s.failing) || has_finish s.announcing))))
        ≡ true
    there = let w = waiting in ground (arith, w)

pub finish_after_send-Over : (s : Session) → Over s → Over (finish_after_send s)
unfolding finish_after_send
finish_after_send-Over s ok =
    if_rule Over (s.finishing && s.drain_sent) _ s
      (λ t.
        fail-Over drained_failure (record s { drain_sent = false; finishing = false }) ok.failed)
      (λ f. ok)

-- With the context over there is nothing to wait for.
pub done-Over : (s : Session) → s.ctx_done ≡ true → FailedIn s → Over s
done-Over s c failed = record {
  settled = λ d e. ground arith;
  once = λ d. ground arith;
  failed = failed;
}

pub finish_canceled-Over : (s : Session) → Over s → Over (finish_canceled s)
unfolding finish_canceled
finish_canceled-Over s ok =
    if_rule Over (s.finishing && s.ctx_done) _ s
      (λ t. done-Over (record s { finishing = false }) (ground (arith, t)) ok.failed) (λ f. ok)

pub removed_finish :
    (i : ℕ) (a : Announcement) (xs : List Announcement)
    → nth i xs ≡ some a
    → a.finish ≡ false
    → has_finish xs ≡ true
    → has_finish (remove_nth i xs) ≡ true
unfolding nth remove_nth
removed_finish i a [] e f h = cc
removed_finish zero a (x ∷ xs) e f h =
    let is_first : some x ≡ some a = e in
    let same : x.finish ≡ a.finish = cc in ground (arith, f, h, same)
removed_finish (suc i) a (x ∷ xs) e f h = ground (arith, h, removed_finish i a xs e f)
