-- ===== src/GatewayIn/Peer.antt =====
-- backend/services/gateway-in/internal/tunnel/peer.go: the allowlist of peers and the check of a
-- certificate. Texts are their bytes: `validDataCenter` ranges over runes, and a byte of a rune
-- beyond ASCII fails its test as the rune does. `url.Parse` is a parameter, and the TLS state enters
-- as what it holds. Missing and nil certificates are one, since they are refused alike.
pub mod Allowed
use marketmesh.Prelude.{
  ℕ, zero, suc, ◌+◌, ◌-◌, ◌*◌, ◌/◌, ◌%◌, ◌^◌, ◌≤◌, ◌<◌, min, String, ◌≡◌, refl, sym, ap, ◌∙◌, ◌≢◌,
  ◌↔◌, ◌⊎◌, inl, inr, ite, Bool, true, false, not, ◌&&◌, ◌||◌, Option, some, none, List, [], ◌∷◌,
  ◌++◌, map, arith, ℕ_discrete, ltb, leb, ◌==◌, if◌then◌else◌, ==_iff, ite_iff, if_rule, unless_iff,
  or_false, not-false, not-eq-true, and_true, Bool-cases, at_most, within, equals, positive, both,
  negated, excluded, Option-cases, List-cases, length, get_or, take, drop, All, Distinct,
  length-append, length-take, length-drop, take-append-drop, contains, All-map, All-zip,
  contains_iff, take-append, drop-append, drop-field, take-all, drop_past, get_or_past, get_or_at,
  keep, length-keep, All-keep, All-kept, Distinct-keep, insert_by, sort_by, length-sort_by,
  All-sort_by, Distinct-sort_by, All-keys-keep, Distinct-keys-keep, ◌>>◌, reject_if, >>-eq-none,
  reject_if-eq-none, seq_accepts, reject_accepts,
}
use marketmesh.Protocol.Messages.{Bytes}
use marketmesh.GatewayIn.Session.{bytes_discrete, same_bytes}

-- What `url.Parse` gives.
pub record ParsedUri : Type 0 where
  pub is_absolute : Bool
  pub host : Bytes
  pub has_user : Bool
  pub raw_query : Bytes
  pub fragment : Bytes

-- The map is the list of its entries, one for each key.
pub record PeerPolicy : Type 0 where
  pub allowed_uris : List Bytes
  pub data_center_by_uri : List (Bytes × Bytes)

pub data PeerError : Type 0 where
  allowlist_bounds invalid_identity duplicate_identity missing_data_center : PeerError
  invalid_data_center unknown_uri data_center_count : PeerError

abbrev pub max_peer_identities : ℕ
max_peer_identities = 256

abbrev pub max_data_centers : ℕ
max_data_centers = 16

-- "local".
abbrev pub default_data_center : Bytes
default_data_center = 108 ∷ 111 ∷ 99 ∷ 97 ∷ 108 ∷ []

unfoldable pub is_blank : Bytes → Bool
is_blank [] = true
is_blank (b ∷ bs) = false

unfoldable pub is_identity : Option ParsedUri → Bool
unfolding is_blank
is_identity none = false
is_identity (some u) = not (
    not u.is_absolute
    || (is_blank u.host
        || (u.has_user || (not (is_blank u.raw_query) || not (is_blank u.fragment)))))

unfoldable pub is_label_byte : ℕ → Bool
is_label_byte b = (leb 97 b && leb b 122) || ((leb 48 b && leb b 57) || b == 45)

unfoldable pub all_label_bytes : Bytes → Bool
unfolding is_label_byte
all_label_bytes [] = true
all_label_bytes (b ∷ bs) = is_label_byte b && all_label_bytes bs

unfoldable pub valid_data_center : Bytes → Bool
unfolding all_label_bytes
valid_data_center value =
    if length value == 0
      || (ltb 32 (length value)
          || (get_or value 0 0 == 45 || get_or value (length value - 1) 0 == 45))
    then false
    else all_label_bytes value

unfoldable pub lookup_uri : Bytes → List (Bytes × Bytes) → Option Bytes
unfolding same_bytes
lookup_uri uri [] = none
lookup_uri uri ((key, value) ∷ es) =
    let rest = lookup_uri uri es in if same_bytes key uri then some value else rest

unfoldable pub data_center_for : PeerPolicy → Bytes → Option Bytes
unfolding lookup_uri
data_center_for policy identity =
    if length policy.data_center_by_uri == 0
    then some default_data_center
    else lookup_uri identity policy.data_center_by_uri

pub data Authorizer : Type 0 where
  authorizer : List (Bytes × Bytes) → Authorizer
  refused : PeerError → Authorizer

-- What follows the look-up of a data center.
unfoldable pub with_data_center : Bytes → List (Bytes × Bytes) → Option Bytes → Authorizer
unfolding valid_data_center
with_data_center identity table none = refused missing_data_center
with_data_center identity table (some data_center) =
    if not (valid_data_center data_center)
    then refused invalid_data_center
    else authorizer ((identity, data_center) ∷ table)

-- The body of the loop over the allowlist, with the map so far.
unfoldable pub admit :
    (Bytes → Option ParsedUri) → PeerPolicy → List (Bytes × Bytes) → Bytes → Authorizer
unfolding is_identity lookup_uri data_center_for with_data_center
admit parse policy table identity =
    if not (is_identity (parse identity))
    then refused invalid_identity
    else elim (lookup_uri identity table) [
      | some x ↦ refused duplicate_identity
      | none ↦ with_data_center identity table (data_center_for policy identity)
    ]

unfoldable pub admit_all :
    (Bytes → Option ParsedUri) → PeerPolicy → List Bytes → List (Bytes × Bytes) → Authorizer
unfolding admit
admit_all parse policy [] table = authorizer table
admit_all parse policy (identity ∷ identities) table = elim (admit parse policy table identity) [
  | refused e ↦ refused e
  | authorizer table' ↦ admit_all parse policy identities table'
]

-- The keys of the set of data centers.
unfoldable pub data_centers_of : List (Bytes × Bytes) → List Bytes
unfolding contains bytes_discrete
data_centers_of [] = []
data_centers_of ((uri, data_center) ∷ es) =
    let rest = data_centers_of es in
    if contains bytes_discrete rest data_center then rest else data_center ∷ rest

unfoldable pub within_counts : PeerPolicy → Authorizer → Authorizer
unfolding data_centers_of
within_counts policy (refused e) = refused e
within_counts policy (authorizer table) =
    if ltb 0 (length policy.data_center_by_uri)
      && not (length policy.data_center_by_uri == length table)
    then refused unknown_uri
    else if ltb max_data_centers (length (data_centers_of table))
    then refused data_center_count
    else authorizer table

unfoldable pub new_peer_authorizer : (Bytes → Option ParsedUri) → PeerPolicy → Authorizer
unfolding admit_all within_counts
new_peer_authorizer parse policy =
    if length policy.allowed_uris == 0 || ltb max_peer_identities (length policy.allowed_uris)
    then refused allowlist_bounds
    else within_counts policy (admit_all parse policy policy.allowed_uris [])

pub record Certificate : Type 0 where
  pub raw : Bytes
  pub uris : List (Option Bytes)
  pub ext_key_usage : List ℕ
  pub not_before : ℕ
  pub not_after : ℕ

-- The TLS state of a connection.
pub record TlsState : Type 0 where
  pub verified_chains : List (List (Option Certificate))
  pub peer_certificates : List (Option Certificate)

unfoldable pub first_certificate : List (Option Certificate) → Option Certificate
first_certificate [] = none
first_certificate (c ∷ cs) = c

unfoldable pub first_verified : List (List (Option Certificate)) → Option Certificate
unfolding first_certificate
first_verified [] = none
first_verified (chain ∷ chains) = first_certificate chain

unfoldable pub only_uri : List (Option Bytes) → Option Bytes
only_uri (u ∷ []) = u
only_uri _ = none

-- `client_auth` is x509.ExtKeyUsageClientAuth.
unfoldable pub allows_client_auth : ℕ → Certificate → Bool
unfolding contains ℕ_discrete
allows_client_auth client_auth c = contains ℕ_discrete c.ext_key_usage client_auth

unfoldable pub check_leaf :
    ℕ → ℕ → List (Bytes × Bytes) → Certificate → Option Bytes → Option Certificate → Option Bytes
unfolding same_bytes allows_client_auth lookup_uri
check_leaf client_auth now table leaf none verified = none
check_leaf client_auth now table leaf (some uri) none = none
check_leaf client_auth now table leaf (some uri) (some verified) =
    if not (same_bytes leaf.raw verified.raw)
      || (not (allows_client_auth client_auth leaf)
          || (ltb now leaf.not_before || ltb leaf.not_after now))
    then none
    else lookup_uri uri table

unfoldable pub check_first :
    ℕ → ℕ → List (Bytes × Bytes) → Option Certificate → Option Certificate → Option Bytes
unfolding check_leaf only_uri
check_first client_auth now table none verified = none
check_first client_auth now table (some leaf) verified =
    check_leaf client_auth now table leaf (only_uri leaf.uris) verified

-- `authorize`: no state is a context without a peer or without TLS, and `none` is
-- ErrPeerUnauthorized.
unfoldable pub authorize : ℕ → ℕ → List (Bytes × Bytes) → Option TlsState → Option Bytes
unfolding check_first first_certificate first_verified
authorize client_auth now table none = none
authorize client_auth now table (some tls) =
    check_first client_auth now table (first_certificate tls.peer_certificates)
      (first_verified tls.verified_chains)
