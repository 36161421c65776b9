-- ===== src/Protocol/Validate/Safety.antt =====
-- Properties of the frames that pass, read off the tables of `Spec`.
use marketmesh.Prelude.{◌≡◌, ◌≢◌, false, Option, some, none, All, All-map}
use mathlib.Core.Path.{subst}
use marketmesh.Protocol.Headers.Spec.{Given, IsRequestHeader}
use marketmesh.Protocol.Hello.Spec.{Present}
use marketmesh.Protocol.Payloads.Spec.{ResultOk}
use marketmesh.Protocol.Enums.{MetadataKey}
use marketmesh.Protocol.Messages.{Metadata, Result, OutPayload, ConnectRequest}
use marketmesh.Protocol.Metadata.Spec.{EntryOk, FitsKey}
use marketmesh.Protocol.Payloads.{ProtoRuntime}
use marketmesh.Protocol.Validate.{validate_gateway_out_frame}
use marketmesh.Protocol.Validate.Spec.{OutFrame, validate_gateway_out_frame-none}

abbrev pub NotAssertion : Option Metadata → Type 0
NotAssertion none = Unit
NotAssertion (some m) = m.key ≢ MetadataKey.session_assertion

no_assertion : (e : Option Metadata) → EntryOk false e → NotAssertion e
no_assertion none h = tt
no_assertion (some m) h = λ e. cc (subst (λ k. FitsKey false k m.value) e h.2.1)

-- A Result that gateway-out may send carries no session assertion in any metadata entry: the
-- assertion of a user session only travels inwards.
pub result_without_assertion :
    (rt : ProtoRuntime) (frame : ConnectRequest) (r : Result)
    → validate_gateway_out_frame rt (some frame) ≡ none
    → frame.payload ≡ some (OutPayload.result (some r))
    → All NotAssertion r.metadata
result_without_assertion rt frame r h e =
    let p : Given IsRequestHeader frame.header × ResultOk rt r =
      subst (Present (OutFrame rt frame.header)) e
        ((validate_gateway_out_frame-none rt frame).0 h).1 in
    All-map _ _ r.metadata no_assertion p.1.metadata.1.0
