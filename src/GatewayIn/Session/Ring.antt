-- ===== src/GatewayIn/Session/Ring.antt =====
-- The tombstones of session.go as a bounded memory: the ring of ids and the map beside it, against a
-- queue that drops its oldest element.
use marketmesh.Prelude.{
  ℕ, zero, suc, ◌+◌, ◌-◌, ◌%◌, ◌≤◌, ◌<◌, ◌≡◌, refl, sym, ap, ◌∙◌, ◌≢◌, ◌↔◌, ◌⊎◌, inl, inr, true,
  false, none, List, [], ◌∷◌, ◌++◌, arith, ltb, Bool-cases, length, get_or, take, drop, All,
  Distinct, length-append, length-take, length-drop, take-all,
}
use mathlib.Core.Path.{subst}
use native.Mathlib.Nat.{mod-eq_of_lt, mod_self}
use marketmesh.Prelude.{drop-get_or}
use marketmesh.Protocol.Messages.{Bytes}
use marketmesh.GatewayIn.Session.{Session, Entry, set_order}
use marketmesh.GatewayIn.Session.Requests.{add_tombstone}

module _ {ℓ} {A : Type ℓ} where
  pub append_assoc : (xs ys zs : List A) → (xs ++ ys) ++ zs ≡ xs ++ (ys ++ zs)
  append_assoc [] ys zs = refl
  append_assoc (x ∷ xs) ys zs = ap (◌∷◌ x) (append_assoc xs ys zs)

  append_nil : (xs : List A) → xs ++ [] ≡ xs
  append_nil [] = refl
  append_nil (x ∷ xs) = ap (◌∷◌ x) (append_nil xs)

  drop_all : (n : ℕ) (xs : List A) → length xs ≤ n → drop n xs ≡ []
  drop_all zero [] h = refl
  drop_all zero (x ∷ xs) h = absurd (omega arith)
  drop_all (suc n) [] h = refl
  drop_all (suc n) (x ∷ xs) h = drop_all n xs (omega arith)

  pub All-append {κ} : (P : A → Type κ) (xs ys : List A) → All P (xs ++ ys) ↔ (All P xs × All P ys)
  All-append P [] ys = (λ h. (tt, h), λ h. h.1)
  All-append P (x ∷ xs) ys =
      let (split, join) = All-append P xs ys in
      (λ h. ((h.0, (split h.1).0), (split h.1).1), λ h. (h.0.0, join (h.0.1, h.1)))

pub length-set_order :
    (p : ℕ) (id : Bytes) (xs : List Bytes) → length (set_order p id xs) ≡ length xs
unfolding set_order
length-set_order p id [] = refl
length-set_order zero id (x ∷ xs) = refl
length-set_order (suc p) id (x ∷ xs) = ap suc (length-set_order p id xs)

behind : (p : ℕ) (id : Bytes) (xs : List Bytes) → drop (suc p) (set_order p id xs) ≡ drop (suc p) xs
unfolding set_order
behind p id [] = refl
behind zero id (x ∷ xs) = refl
behind (suc p) id (x ∷ xs) = behind p id xs

before :
    (p : ℕ) (id : Bytes) (xs : List Bytes)
    → p < length xs
    → take (suc p) (set_order p id xs) ≡ take p xs ++ (id ∷ [])
unfolding set_order
before p id [] h = absurd (omega arith)
before zero id (x ∷ xs) h = refl
before (suc p) id (x ∷ xs) h = ap (◌∷◌ x) (before p id xs (omega arith))

-- The ids of the ring, the oldest first.
abbrev pub turned : ℕ → List Bytes → List Bytes
turned p xs = drop p xs ++ take p xs

unfoldable pub recent : Session → List Bytes
recent s = turned s.tombstone_position s.tombstone_order

-- A memory of `capacity` ids that forgets the oldest.
unfoldable pub remember : ℕ → Bytes → List Bytes → List Bytes
remember capacity id ids = drop (length ids + 1 - capacity) (ids ++ (id ∷ []))

-- The ring is being filled from its start, or full.
pub record RingOk (s : Session) : Type 0 where
  pub positive : 0 < s.limits.max_in_flight_requests
  pub shape :
      ((length s.tombstone_order < s.limits.max_in_flight_requests) × (s.tombstone_position ≡ 0))
      ⊎ ((length s.tombstone_order ≡ s.limits.max_in_flight_requests)
          × (s.tombstone_position < s.limits.max_in_flight_requests))
  pub distinct : Distinct (recent s)
  pub held : (id : Bytes) → (s.tombstones id ≡ none) ↔ All (λ x. x ≢ id) (recent s)

-- One place on.
turned-set_order :
    (p : ℕ) (id : Bytes) (xs : List Bytes)
    → p < length xs
    → turned ((p + 1) % length xs) (set_order p id xs) ≡ drop (suc p) xs ++ (take p xs ++ (id ∷ []))
turned-set_order p id xs h = elim (Bool-cases (ltb (p + 1) (length xs))) [
  | inl t ↦
      let inside : p + 1 < length xs = ground arith in
      ap (λ (k : ℕ). turned k (set_order p id xs)) (mod-eq_of_lt inside ∙ next)
      ∙ ap (λ (ys : List Bytes). ys ++ take (suc p) (set_order p id xs)) (behind p id xs)
      ∙ ap (λ (ys : List Bytes). drop (suc p) xs ++ ys) (before p id xs h)
  | inr f ↦
      let last : p + 1 ≡ length xs = ground arith in
      ap (λ (k : ℕ). turned k (set_order p id xs))
        (ap (λ (n : ℕ). n % length xs) last ∙ mod_self (length xs))
      ∙ append_nil (set_order p id xs)
      ∙ sym (take-all (suc p) (set_order p id xs) (omega (arith, last, length-set_order p id xs)))
      ∙ before p id xs h
      ∙ sym (
          ap (λ (ys : List Bytes). ys ++ (take p xs ++ (id ∷ [])))
            (drop_all (suc p) xs (omega arith)))
]
  where
    next : p + 1 ≡ suc p
    next = omega arith

pub turned-full :
    (capacity p : ℕ) (id : Bytes) (xs : List Bytes)
    → length xs ≡ capacity
    → p < capacity
    → turned ((p + 1) % capacity) (set_order p id xs) ≡ drop (suc p) xs ++ (take p xs ++ (id ∷ []))
turned-full capacity p id xs full here =
    subst
      (λ (n : ℕ).
        turned ((p + 1) % n) (set_order p id xs) ≡ drop (suc p) xs ++ (take p xs ++ (id ∷ [])))
      full (turned-set_order p id xs (omega arith))

pub turned-drop :
    (p : ℕ) (xs : List Bytes)
    → p < length xs
    → turned p xs ≡ get_or xs p [] ∷ (drop (suc p) xs ++ take p xs)
turned-drop p xs h = ap (λ (ys : List Bytes). ys ++ take p xs) (drop-get_or p xs [] h)

pub length-turned : (p : ℕ) (xs : List Bytes) → p ≤ length xs → length (turned p xs) ≡ length xs
length-turned p xs h =
    omega (arith, length-append (drop p xs) (take p xs), length-drop p xs, length-take p xs)

pub remember-short :
    (capacity : ℕ) (id : Bytes) (xs : List Bytes)
    → length xs < capacity
    → remember capacity id xs ≡ xs ++ (id ∷ [])
unfolding remember
remember-short capacity id xs h = ap (λ (n : ℕ). drop n (xs ++ (id ∷ []))) all_fit
  where
    all_fit : length xs + 1 - capacity ≡ 0
    all_fit = omega arith

-- A full ring, read from the oldest.
pub remember-full :
    (p : ℕ) (id : Bytes) (xs : List Bytes)
    → p < length xs
    → remember (length xs) id (turned p xs) ≡ drop (suc p) xs ++ (take p xs ++ (id ∷ []))
unfolding remember
remember-full p id xs h =
    ap (λ (n : ℕ). drop n (turned p xs ++ (id ∷ []))) one_over
    ∙ ap (λ (ys : List Bytes). drop 1 (ys ++ (id ∷ []))) (turned-drop p xs h)
    ∙ append_assoc (drop (suc p) xs) (take p xs) (id ∷ [])
  where
    one_over : length (turned p xs) + 1 - length xs ≡ 1
    one_over = omega (arith, length-turned p xs (omega arith))

pub recent-filling :
    (capacity p : ℕ) (id : Bytes) (xs : List Bytes)
    → length xs < capacity
    → p ≡ 0
    → turned p (xs ++ (id ∷ [])) ≡ remember capacity id (turned p xs)
recent-filling capacity p id xs short start = rw start (
    append_nil (xs ++ (id ∷ []))
    ∙ sym (remember-short capacity id xs short)
    ∙ ap (remember capacity id) (sym (append_nil xs)))

recent-full :
    (capacity p : ℕ) (id : Bytes) (xs : List Bytes)
    → length xs ≡ capacity
    → p < capacity
    → turned ((p + 1) % capacity) (set_order p id xs) ≡ remember capacity id (turned p xs)
recent-full capacity p id xs full here =
    subst (λ (n : ℕ). turned ((p + 1) % n) (set_order p id xs) ≡ remember n id (turned p xs)) full
      (turned-set_order p id xs (omega arith) ∙ sym (remember-full p id xs (omega arith)))

-- The ring of tombstones implements the memory: whichever requests a tunnel has finished before,
-- recording one more drops the oldest id once as many are held as requests may be in flight, and
-- drops none before.
pub recent-add_tombstone :
    (e : Entry) (s : Session)
    → RingOk s
    → recent (add_tombstone e s) ≡ remember s.limits.max_in_flight_requests e.request.id (recent s)
unfolding recent add_tombstone
recent-add_tombstone e s ok = by_shape ok.shape
  where
    capacity : ℕ
    capacity = s.limits.max_in_flight_requests

    by_shape :
        ((length s.tombstone_order < capacity) × (s.tombstone_position ≡ 0))
          ⊎ ((length s.tombstone_order ≡ capacity) × (s.tombstone_position < capacity))
        → recent (add_tombstone e s) ≡ remember capacity e.request.id (recent s)
    by_shape (inl (short, start)) =
        let below : ltb (length s.tombstone_order) capacity ≡ true = ground arith in
        rw below
          (recent-filling capacity s.tombstone_position e.request.id s.tombstone_order short start)
    by_shape (inr (full, here)) =
        let above : ltb (length s.tombstone_order) capacity ≡ false = ground arith in
        rw above
          (recent-full capacity s.tombstone_position e.request.id s.tombstone_order full here)
