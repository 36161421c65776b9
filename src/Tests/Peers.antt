-- ===== src/Tests/Peers.antt =====
-- The theorem on peers, at a peer of the default data center.
use marketmesh.Prelude.{◌≡◌, refl, true, false, Option, some, List, [], ◌∷◌}
use marketmesh.Protocol.Messages.{Bytes}
use mathlib.Core.List.{Mem}
use marketmesh.GatewayIn.Peer.{
  ParsedUri, PeerPolicy, Certificate, TlsState, authorizer, new_peer_authorizer, authorize,
  is_identity, valid_data_center, default_data_center,
}
use marketmesh.GatewayIn.Peer.Allowed.{Authorized, authorize-new_peer_authorizer}

-- "g:x" in place of a SPIFFE identity.
abbrev uri : Bytes
uri = 103 ∷ 58 ∷ 120 ∷ []

abbrev parse : Bytes → Option ParsedUri
parse text = some (record {
  is_absolute = true;
  host = 120 ∷ [];
  has_user = false;
  raw_query = [];
  fragment = [];
})

abbrev policy : PeerPolicy
policy = record { allowed_uris = uri ∷ []; data_center_by_uri = [] }

abbrev leaf : Certificate
leaf = record {
  raw = 1 ∷ 2 ∷ [];
  uris = some uri ∷ [];
  ext_key_usage = 1 ∷ 2 ∷ [];
  not_before = 10;
  not_after = 90;
}

abbrev tls : TlsState
tls = record { verified_chains = (some leaf ∷ []) ∷ []; peer_certificates = some leaf ∷ [] }

abbrev table : List (Bytes × Bytes)
table = (uri, default_data_center) ∷ []

built : new_peer_authorizer parse policy ≡ authorizer table
unfolding new_peer_authorizer
built = refl

let_in : authorize 2 50 table (some tls) ≡ some default_data_center
unfolding authorize
let_in = refl

authorize-new_peer_authorizer_example :
    (a : Authorized 2 50 table tls default_data_center) × ((Mem a.uri policy.allowed_uris
        × (is_identity (parse a.uri) ≡ true))
      × (valid_data_center default_data_center ≡ true))
authorize-new_peer_authorizer_example =
    authorize-new_peer_authorizer parse policy 2 50 table tls default_data_center built let_in
