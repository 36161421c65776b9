-- ===== src/Protocol/Metadata/Tracestate.antt =====
-- A tracestate that is written from its members, as a metadata value.
use marketmesh.Prelude.{
  ◌≤◌, ◌<◌, ◌≡◌, ap, Bool, none, List, [], ◌∷◌, map, arith, refl, length, All, Distinct,
  length-append,
}
use marketmesh.Protocol.Enums.{MetadataKey}
use marketmesh.Protocol.Messages.{Bytes}
use marketmesh.Protocol.Bounds.{max_tracestate_bytes}
use marketmesh.Protocol.Metadata.{validate_metadata_value}
use marketmesh.Protocol.Metadata.Spec.{validate_metadata_value-none}
use marketmesh.Protocol.Trace.Members.{Member, IsValid, member_text}
use marketmesh.Protocol.Trace.State.{render, valid_tracestate-render}

render_nonempty : (m : Member) (ms : List Member) → 0 < length (render m ms)
unfolding render
render_nonempty m [] = omega (arith, length-append m.key (b'=' ∷ m.value))
render_nonempty m (n ∷ ms) = omega (arith, length-append (member_text m) (b',' ∷ render n ms))

-- One to 32 members, each with a valid key and a valid value and no key twice, that are within 512 bytes
-- when they are joined by commas, make a tracestate that the metadata of a frame may hold.
pub validate_metadata_value-render :
    (allow : Bool) (m : Member) (ms : List Member)
    → All IsValid (m ∷ ms)
    → Distinct (map (λ (n : Member). n.key) (m ∷ ms))
    → length (m ∷ ms) ≤ 32
    → length (render m ms) ≤ max_tracestate_bytes
    → validate_metadata_value MetadataKey.tracestate (render m ms) allow ≡ none
validate_metadata_value-render allow m ms v d n short = by_text (render m ms) refl
  where
    by_text :
        (text : Bytes)
        → render m ms ≡ text
        → validate_metadata_value MetadataKey.tracestate text allow ≡ none
    by_text [] e = absurd (omega (arith, render_nonempty m ms, ap (λ (x : Bytes). length x) e))
    by_text (c ∷ cs) e =
        let size = ap (λ (x : Bytes). length x) e in
        (validate_metadata_value-none allow MetadataKey.tracestate (c ∷ cs)).1 (
          (omega arith, omega (arith, short, size)),
          (omega (arith, short, size), valid_tracestate-render m ms c cs v d n e),
        )
