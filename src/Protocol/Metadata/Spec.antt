-- ===== src/Protocol/Metadata/Spec.antt =====
-- What the metadata checks accept, entry by entry.
use marketmesh.Prelude.{
  ℕ, ◌≤◌, ◌<◌, String, ◌≡◌, refl, ap, ◌≢◌, ◌↔◌, Bool, true, false, Option, some, none, List, [],
  ◌∷◌, ◌++◌, arith, not-false, at_most, both, negated, length, All, Distinct, length-append,
  contains, All-map, All-zip, >>-eq-none, reject_if-eq-none, seq_accepts, reject_accepts,
}
use marketmesh.Protocol.Enums.{MetadataKey, MetadataKey-discrete, known_metadata_key}
use marketmesh.Protocol.Messages.{Bytes, Metadata}
use marketmesh.Protocol.Bytes.{equal}
use marketmesh.Protocol.Bytes.Spec.{equal_iff}
use marketmesh.Protocol.Trace.{valid_traceparent, valid_tracestate}
use marketmesh.Protocol.Trace.Parent.{IsTraceparent, valid_traceparent_iff}
use marketmesh.Protocol.Members.Spec.{Unseen, Unseen-cons}
use marketmesh.Protocol.Bounds.{
  max_metadata_entries, max_metadata_value_bytes, max_content_type_bytes, max_traceparent_bytes,
  max_tracestate_bytes,
}
use marketmesh.Protocol.Metadata.{
  protobuf_content_type, validate_value_for, validate_metadata_value, bad_metadata_key,
  metadata_entries, validate_metadata,
}

abbrev pub AcceptedTracestate : Bytes → Type 0
AcceptedTracestate [] = ⊥
AcceptedTracestate (c ∷ cs) = valid_tracestate c cs ≡ true

-- What a value of each key must be; the flag allows a session assertion.
abbrev pub FitsKey : Bool → MetadataKey → Bytes → Type 0
FitsKey allow MetadataKey.content_type value = value ≡ protobuf_content_type
FitsKey allow MetadataKey.traceparent value = IsTraceparent value
FitsKey allow MetadataKey.tracestate value =
    (length value ≤ max_tracestate_bytes) × AcceptedTracestate value
FitsKey allow MetadataKey.session_assertion value = allow ≡ true
FitsKey allow MetadataKey.unspecified value = ⊥
FitsKey allow (MetadataKey.unrecognized n) value = ⊥

abbrev pub ValueOk : Bool → MetadataKey → Bytes → Type 0
ValueOk allow key value =
    ((0 < length value) × (length value ≤ max_metadata_value_bytes)) × FitsKey allow key value

traceparent_length : (value : Bytes) → IsTraceparent value → length value ≤ max_traceparent_bytes
traceparent_length value (trace, parent, flags, e, t, p, k, h) = omega (
  arith,
  ap length e,
  length-append trace (b'-' ∷ (parent ++ (b'-' ∷ flags))),
  length-append parent (b'-' ∷ flags),
)

value_for :
    (allow : Bool) (key : MetadataKey) (c : ℕ) (cs : Bytes)
    → (validate_value_for key c cs allow ≡ none) ↔ FitsKey allow key (c ∷ cs)
unfolding validate_value_for
value_for allow MetadataKey.content_type c cs =
    let t =
      both _ _ (at_most (length (c ∷ cs)) max_content_type_bytes) (
        negated (equal (c ∷ cs) protobuf_content_type)
          (equal_iff (c ∷ cs) protobuf_content_type)) in
    reject_accepts _ _ (λ h. (t.0 h).1, λ h. t.1 (omega (arith, ap length h), h))
value_for allow MetadataKey.traceparent c cs =
    let t =
      both _ _ (at_most (length (c ∷ cs)) max_traceparent_bytes)
        (negated (valid_traceparent (c ∷ cs)) (valid_traceparent_iff (c ∷ cs))) in
    reject_accepts _ _ (λ h. (t.0 h).1, λ h. t.1 (traceparent_length (c ∷ cs) h, h))
value_for allow MetadataKey.tracestate c cs =
    reject_accepts _ _ (
      both _ _ (at_most (length (c ∷ cs)) max_tracestate_bytes) (not-false (valid_tracestate c cs)))
value_for allow MetadataKey.session_assertion c cs = reject_accepts _ _ (not-false allow)
value_for allow MetadataKey.unspecified c cs = (λ h. cc, λ h. absurd h)
value_for allow (MetadataKey.unrecognized n) c cs = (λ h. cc, λ h. absurd h)

-- A value is accepted exactly when it is not empty, within 16 KiB and what its key calls for.
pub validate_metadata_value-none :
    (allow : Bool) (key : MetadataKey) (value : Bytes)
    → (validate_metadata_value key value allow ≡ none) ↔ ValueOk allow key value
unfolding validate_metadata_value
validate_metadata_value-none allow key [] = (λ h. cc, λ h. absurd (omega arith))
validate_metadata_value-none allow key (c ∷ cs) =
    let t =
      seq_accepts _ _ (reject_accepts _ _ (at_most (length (c ∷ cs)) max_metadata_value_bytes))
        (value_for allow key c cs) in
    (λ h. ((omega arith, (t.0 h).0), (t.0 h).1), λ h. t.1 (h.0.1, h.1))

abbrev pub EntryOk : Bool → Option Metadata → Type 0
EntryOk allow none = ⊥
EntryOk allow (some m) =
    (known_metadata_key m.key ≡ true)
    × (m.key ≢ MetadataKey.unspecified)
    × ValueOk allow m.key m.value

abbrev pub keys : List (Option Metadata) → List MetadataKey
keys [] = []
keys (none ∷ es) = keys es
keys (some m ∷ es) = m.key ∷ keys es

bad_metadata_key_iff :
    (k : MetadataKey)
    → (bad_metadata_key k ≡ false) ↔ ((known_metadata_key k ≡ true) × (k ≢ MetadataKey.unspecified))
unfolding bad_metadata_key
bad_metadata_key_iff k = (λ h. ground arith, λ h. ground arith)

module _ (path : String) (allow : Bool) where
  abbrev Accepted : List MetadataKey → List (Option Metadata) → Type 0
  Accepted seen es =
      All (EntryOk allow) es × Distinct (keys es) × All (Unseen MetadataKey-discrete seen) (keys es)

  entries-Accepted :
      (seen : List MetadataKey) (es : List (Option Metadata))
      → metadata_entries path allow seen es ≡ none
      → Accepted seen es
  unfolding metadata_entries
  entries-Accepted seen [] h = (tt, tt, tt)
  entries-Accepted seen (none ∷ es) h = cc
  entries-Accepted seen (some m ∷ es) h =
      let (known, h₁) = (>>-eq-none _ _).0 h in
      let (new, h₂) = (>>-eq-none _ _).0 h₁ in
      let (value, rest) = (>>-eq-none _ _).0 h₂ in
      let (k, u) = (bad_metadata_key_iff m.key).0 ((reject_if-eq-none _ _).0 known) in
      let (all, d, fresh) = entries-Accepted (m.key ∷ seen) es rest in
      let apart : All (λ y. (m.key ≢ y) × Unseen MetadataKey-discrete seen y) (keys es) =
        All-map _ _ (keys es) (λ y. (Unseen-cons MetadataKey-discrete m.key seen y).0) fresh in
      (
        ((k, u, (validate_metadata_value-none allow m.key m.value).0 value), all),
        (All-map _ _ (keys es) (λ y p. p.0) apart, d),
        ((reject_if-eq-none _ _).0 new, All-map _ _ (keys es) (λ y p. p.1) apart),
      )

  Accepted-entries :
      (seen : List MetadataKey) (es : List (Option Metadata))
      → Accepted seen es
      → metadata_entries path allow seen es ≡ none
  unfolding metadata_entries
  Accepted-entries seen [] a = refl
  Accepted-entries seen (none ∷ es) a = absurd a.0.0
  Accepted-entries seen (some m ∷ es) (((k, u, v), all), (apart, d), (new, fresh)) =
      rw
        (
          (bad_metadata_key_iff m.key).1 (k, u),
          new,
          (validate_metadata_value-none allow m.key m.value).1 v,
        )
        (Accepted-entries (m.key ∷ seen) es (
          all,
          d,
          All-map _ _ (keys es) (λ y. (Unseen-cons MetadataKey-discrete m.key seen y).1)
              (All-zip _ _ (keys es) apart fresh),
        ))

Unseen-nil : (ks : List MetadataKey) → All (Unseen MetadataKey-discrete []) ks
unfolding contains
Unseen-nil [] = tt
Unseen-nil (k ∷ ks) = (refl, Unseen-nil ks)

abbrev pub MetadataOk : Bool → List (Option Metadata) → Type 0
MetadataOk allow es =
    (length es ≤ max_metadata_entries) × (All (EntryOk allow) es × Distinct (keys es))

-- Metadata is accepted exactly when it has at most 16 entries, none nil, of declared keys, no key
-- twice, each value non-empty, within 16 KiB and of the form that its key calls for, where a
-- session assertion also needs the flag.
pub validate_metadata-none :
    (path : String) (es : List (Option Metadata)) (allow : Bool)
    → (validate_metadata path es allow ≡ none) ↔ MetadataOk allow es
unfolding validate_metadata
validate_metadata-none path es allow =
    seq_accepts _ _ (reject_accepts _ _ (at_most (length es) max_metadata_entries)) (
      λ h. let a = entries-Accepted path allow [] es h in (a.0, a.1),
      λ h. Accepted-entries path allow [] es (h.0, h.1, Unseen-nil (keys es)),
    )
