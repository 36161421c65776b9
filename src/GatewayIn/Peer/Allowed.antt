-- ===== src/GatewayIn/Peer/Allowed.antt =====
-- Which peers the checks of peer.go let in.
use marketmesh.Prelude.{
  ℕ, ◌≤◌, ◌≡◌, refl, sym, ◌↔◌, inl, inr, true, Option, some, none, List, [], ◌∷◌, arith, ℕ_discrete,
  ite_iff, Bool-cases, Option-cases, All, All-map, contains_iff,
}
use mathlib.Core.List.{Mem, mem-cons}
use mathlib.Core.Logic.Or
use mathlib.Core.Path.{subst}
use mathlib.Core.Logic.{if_pos, if_neg}
use marketmesh.Protocol.Messages.{Bytes}
use marketmesh.GatewayIn.Session.{bytes_discrete, same_bytes}
use marketmesh.GatewayIn.Peer.{
  ParsedUri, PeerPolicy, Authorizer, authorizer, refused, invalid_data_center, is_identity,
  valid_data_center, lookup_uri, data_center_for, with_data_center, admit, admit_all, within_counts,
  new_peer_authorizer, Certificate, TlsState, first_certificate, first_verified, only_uri,
  allows_client_auth, check_leaf, check_first, authorize,
}

-- An entry of the map of an authorizer.
abbrev Admitted : (Bytes → Option ParsedUri) → List Bytes → Bytes × Bytes → Type 0
Admitted parse uris e =
    (Mem e.0 uris × (is_identity (parse e.0) ≡ true)) × (valid_data_center e.1 ≡ true)

all_members : (xs : List Bytes) → All (λ x. Mem x xs) xs
all_members [] = tt
all_members (x ∷ xs) =
    (mem-cons.1 (Or.inl refl), All-map _ _ xs (λ y m. mem-cons.1 (Or.inr m)) (all_members xs))

same_table : (a b : List (Bytes × Bytes)) → authorizer a ≡ authorizer b → a ≡ b
same_table a b e = cc

with_data_center-Admitted :
    (parse : Bytes → Option ParsedUri) (uris : List Bytes) (identity : Bytes)
    (table table' : List (Bytes × Bytes)) (o : Option Bytes)
    → Mem identity uris
    → is_identity (parse identity) ≡ true
    → All (Admitted parse uris) table
    → with_data_center identity table o ≡ authorizer table'
    → All (Admitted parse uris) table'
unfolding with_data_center
with_data_center-Admitted parse uris identity table table' none m i h e = cc
with_data_center-Admitted parse uris identity table table' (some d) m i h e =
    elim (Bool-cases (valid_data_center d)) [
      | inl t ↦
          let kept : authorizer ((identity, d) ∷ table) ≡ authorizer table' = rw t at e in
          subst (All (Admitted parse uris)) (same_table _ _ kept) (((m, i), t), h)
      | inr f ↦ let gone : refused invalid_data_center ≡ authorizer table' = rw f at e in cc
    ]

admit-Admitted :
    (parse : Bytes → Option ParsedUri) (uris : List Bytes) (policy : PeerPolicy) (identity : Bytes)
    (table table' : List (Bytes × Bytes))
    → Mem identity uris
    → All (Admitted parse uris) table
    → admit parse policy table identity ≡ authorizer table'
    → All (Admitted parse uris) table'
unfolding admit
admit-Admitted parse uris policy identity table table' m h e =
    elim (Bool-cases (is_identity (parse identity))) [
      | inl t ↦ elim (Option-cases (lookup_uri identity table)) [
        | inl absent ↦
            with_data_center-Admitted parse uris identity table table'
              (data_center_for policy identity) m t h (ground (arith, t, absent, e))
        | inr (x, present) ↦ absurd (ground (arith, t, present, e))
      ]
      | inr f ↦ absurd (ground (arith, f, e))
    ]

admit_all-Admitted :
    (parse : Bytes → Option ParsedUri) (uris : List Bytes) (policy : PeerPolicy)
    (identities : List Bytes) (table table' : List (Bytes × Bytes))
    → All (λ x. Mem x uris) identities
    → All (Admitted parse uris) table
    → admit_all parse policy identities table ≡ authorizer table'
    → All (Admitted parse uris) table'
unfolding admit_all
admit_all-Admitted parse uris policy [] table table' ms h e =
    subst (All (Admitted parse uris)) (same_table _ _ e) h
admit_all-Admitted parse uris policy (i ∷ is) table table' ms h e =
    by_admit (admit parse policy table i) refl
      (λ t. admit_all-Admitted parse uris policy is t table' ms.1)
  where
    by_admit :
        (a : Authorizer)
        → admit parse policy table i ≡ a
        → ((t : List (Bytes × Bytes))
            → All (Admitted parse uris) t
            → admit_all parse policy is t ≡ authorizer table'
            → All (Admitted parse uris) table')
        → All (Admitted parse uris) table'
    by_admit (refused x) k again = absurd (ground (arith, k, e))
    by_admit (authorizer t) k again =
        again t (admit-Admitted parse uris policy i table t ms.0 h k) (ground (arith, k, e))

same_some : (a b : Bytes) → some a ≡ some b → a ≡ b
same_some a b e = cc

lookup-Admitted :
    (parse : Bytes → Option ParsedUri) (uris : List Bytes) (uri data_center : Bytes)
    (table : List (Bytes × Bytes))
    → All (Admitted parse uris) table
    → lookup_uri uri table ≡ some data_center
    → Admitted parse uris (uri, data_center)
unfolding lookup_uri same_bytes
lookup-Admitted parse uris uri d [] h e = cc
lookup-Admitted parse uris uri d ((k, v) ∷ es) h e = elim (bytes_discrete k uri) [
  | yes p ↦
      let is_first : some v ≡ some d = rw (if_pos (bytes_discrete k uri) p) at e in
      (
        (subst (λ (x : Bytes). Mem x uris) p h.0.0.0, rw (sym p) h.0.0.1),
        rw (sym (same_some v d is_first)) h.0.1,
      )
  | no n ↦ lookup-Admitted parse uris uri d es h.1 (rw (if_neg (bytes_discrete k uri) n) at e)
]

-- A connection that `authorize` lets in.
pub record Authorized (client_auth now : ℕ) (table : List (Bytes × Bytes)) (tls : TlsState)
    (data_center : Bytes) : Type 0 where
  pub leaf : Certificate
  pub verified : Certificate
  pub uri : Bytes
  pub leaf_is : first_certificate tls.peer_certificates ≡ some leaf
  pub verified_is : first_verified tls.verified_chains ≡ some verified
  pub same_certificate : leaf.raw ≡ verified.raw
  pub one_uri : leaf.uris ≡ some uri ∷ []
  pub client : Mem client_auth leaf.ext_key_usage
  pub current : (leaf.not_before ≤ now) × (now ≤ leaf.not_after)
  pub mapped : lookup_uri uri table ≡ some data_center

only_uri_is : (us : List (Option Bytes)) (u : Bytes) → only_uri us ≡ some u → us ≡ some u ∷ []
unfolding only_uri
only_uri_is [] u h = cc
only_uri_is (x ∷ []) u h = cc
only_uri_is (x ∷ (y ∷ us)) u h = cc

same_raw : (a b : Bytes) → (same_bytes a b ≡ true) ↔ (a ≡ b)
unfolding same_bytes
same_raw a b = ite_iff (bytes_discrete a b)

check_leaf-Authorized :
    (client_auth now : ℕ) (tls : TlsState) (table : List (Bytes × Bytes)) (leaf : Certificate)
    (o : Option Bytes) (v : Option Certificate) (d : Bytes)
    → first_certificate tls.peer_certificates ≡ some leaf
    → only_uri leaf.uris ≡ o
    → first_verified tls.verified_chains ≡ v
    → check_leaf client_auth now table leaf o v ≡ some d
    → Authorized client_auth now table tls d
unfolding check_leaf allows_client_auth
check_leaf-Authorized client_auth now tls table leaf none v d l u w h = cc
check_leaf-Authorized client_auth now tls table leaf (some uri) none d l u w h = cc
check_leaf-Authorized client_auth now tls table leaf (some uri) (some verified) d l u w h = record {
  leaf = leaf;
  verified = verified;
  uri = uri;
  leaf_is = l;
  verified_is = w;
  same_certificate = (same_raw leaf.raw verified.raw).0 (ground arith);
  one_uri = only_uri_is leaf.uris uri u;
  client = (contains_iff ℕ_discrete leaf.ext_key_usage client_auth).0 (ground arith);
  current = (ground arith, ground arith);
  mapped = ground arith;
}

authorize-Authorized :
    (client_auth now : ℕ) (table : List (Bytes × Bytes)) (tls : TlsState) (d : Bytes)
    → authorize client_auth now table (some tls) ≡ some d
    → Authorized client_auth now table tls d
unfolding authorize check_first
authorize-Authorized client_auth now table tls d h =
    by_leaf (first_certificate tls.peer_certificates) refl h
  where
    by_leaf :
        (o : Option Certificate)
        → first_certificate tls.peer_certificates ≡ o
        → check_first client_auth now table o (first_verified tls.verified_chains) ≡ some d
        → Authorized client_auth now table tls d
    by_leaf none k g = cc
    by_leaf (some leaf) k g =
        check_leaf-Authorized client_auth now tls table leaf _ _ d k refl refl g

counted :
    (policy : PeerPolicy) (a : Authorizer) (table : List (Bytes × Bytes))
    → within_counts policy a ≡ authorizer table
    → a ≡ authorizer table
unfolding within_counts
counted policy (refused e) table h = cc
counted policy (authorizer t) table h = ground (arith, h)

built-Admitted :
    (parse : Bytes → Option ParsedUri) (policy : PeerPolicy) (table : List (Bytes × Bytes))
    → new_peer_authorizer parse policy ≡ authorizer table
    → All (Admitted parse policy.allowed_uris) table
unfolding new_peer_authorizer
built-Admitted parse policy table h =
    admit_all-Admitted parse policy.allowed_uris policy policy.allowed_uris [] table
      (all_members policy.allowed_uris) tt
      (counted policy (admit_all parse policy policy.allowed_uris []) table (ground (arith, h)))

-- A peer that is let in under an allowlist that was accepted showed one certificate: the first of its
-- certificates and of its first verified chain have the same bytes, and the first of them is for
-- client authentication, is valid at the time, and names one URI, to which the map gives the data
-- center that is returned; the URI is in the allowlist and parses as an identity, and the data center
-- is a valid label.
pub authorize-new_peer_authorizer :
    (parse : Bytes → Option ParsedUri) (policy : PeerPolicy) (client_auth now : ℕ)
    (table : List (Bytes × Bytes)) (tls : TlsState) (d : Bytes)
    → new_peer_authorizer parse policy ≡ authorizer table
    → authorize client_auth now table (some tls) ≡ some d
    → (a : Authorized client_auth now table tls d) × ((Mem a.uri policy.allowed_uris
          × (is_identity (parse a.uri) ≡ true))
        × (valid_data_center d ≡ true))
authorize-new_peer_authorizer parse policy client_auth now table tls d built let_in =
    let in_order = authorize-Authorized client_auth now table tls d let_in in
    (
      in_order,
      lookup-Admitted parse policy.allowed_uris in_order.uri d table
          (built-Admitted parse policy table built) in_order.mapped,
    )
