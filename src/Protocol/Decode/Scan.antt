-- ===== src/Protocol/Decode/Scan.antt =====
-- What a scan that passes has read, and the fuel of the scan.
use marketmesh.Prelude.{
  ℕ, zero, suc, ◌+◌, ◌≤◌, ◌<◌, ◌≡◌, refl, ◌≢◌, ◌↔◌, ◌⊎◌, inl, inr, Option, some, none, List, [],
  ◌∷◌, arith, ltb, ◌==◌, if◌then◌else◌, Bool-cases, at_most, Option-cases, length, drop, All,
  length-drop,
}
use marketmesh.Protocol.Errors.{Error, empty_frame, frame_too_large}
use marketmesh.Protocol.Messages.{Bytes}
use marketmesh.Protocol.Bounds.{max_encoded_frame_bytes}
use marketmesh.Protocol.Decode.{
  Wire, bytes_type, check_field, read_field, scan_step, scan, validate_encoded_frame,
}

-- The top-level fields of an encoding: number and wire type of each.
pub data Encodes (w : Wire) : List (ℕ × ℕ) → Bytes → Type 0 where
  done : Encodes w [] []
  field :
      {number wire_type c : ℕ} {cs rest : Bytes} {fields : List (ℕ × ℕ)}
      → read_field w (c ∷ cs) ≡ some (number, wire_type, rest)
      → Encodes w fields rest
      → Encodes w ((number, wire_type) ∷ fields) (c ∷ cs)

-- How many fields have number 1, and how many another.
abbrev pub headers_of : List (ℕ × ℕ) → ℕ
headers_of [] = 0
headers_of ((number, wire_type) ∷ fields) = (if number == 1 then 1 else 0) + headers_of fields

abbrev pub payloads_of : List (ℕ × ℕ) → ℕ
payloads_of [] = 0
payloads_of ((number, wire_type) ∷ fields) = (if number == 1 then 0 else 1) + payloads_of fields

-- A field that v1 has, in the wire type of messages.
abbrev pub IsV1 : ℕ → ℕ × ℕ → Type 0
IsV1 last f = ((f.0 ≡ 1) ⊎ ((10 ≤ f.0) × (f.0 ≤ last))) × (f.1 ≡ bytes_type)

check_field_iff :
    (last number wire_type : ℕ)
    → (check_field last number wire_type ≡ none) ↔ IsV1 last (number, wire_type)
unfolding check_field
check_field_iff last number wire_type = (λ h. ground arith, λ h. ground arith)

-- What a scan that passes has read, from `headers` and `payloads` on.
abbrev Reads : Wire → ℕ → ℕ → ℕ → Bytes → Type 0
Reads w last headers payloads cs =
    (fields : List (ℕ × ℕ)) × Encodes w fields cs
    × All (IsV1 last) fields
    × (headers + headers_of fields ≡ 1)
    × (payloads + payloads_of fields ≡ 1)

module _ (w : Wire) (last headers payloads c : ℕ) (cs : Bytes)
    (next : ℕ → ℕ → Bytes → Option (Option Error))
    (reads : (h p : ℕ) (rest : Bytes) → next h p rest ≡ some none → Reads w last h p rest) where
  step-Reads :
      (r : Option (ℕ × ℕ × Bytes))
      → read_field w (c ∷ cs) ≡ r
      → scan_step next last headers payloads r ≡ some none
      → Reads w last headers payloads (c ∷ cs)
  unfolding scan_step
  step-Reads none e h = cc
  step-Reads (some (number, wire_type, rest)) e h =
      elim (Option-cases (check_field last number wire_type)) [
        | inr (bad, b) ↦ absurd (ground arith)
        | inl good ↦
            let more : next (if number == 1 then headers + 1 else headers)
                  (if number == 1 then payloads else payloads + 1) rest
                ≡ some none =
              ground arith in
            let (fields, enc, all, hs, ps) = reads _ _ rest more in
            (
              (number, wire_type) ∷ fields,
              field e enc,
              ((check_field_iff last number wire_type).0 good, all),
              ground arith,
              ground arith,
            )
      ]

scan-Reads :
    (w : Wire) (last fuel headers payloads : ℕ) (cs : Bytes)
    → scan w last fuel headers payloads cs ≡ some none
    → Reads w last headers payloads cs
unfolding scan
scan-Reads w last fuel headers payloads [] h = ([], done, tt, ground arith, ground arith)
scan-Reads w last zero headers payloads (c ∷ cs) h = cc
scan-Reads w last (suc fuel) headers payloads (c ∷ cs) h =
    step-Reads w last headers payloads c cs (scan w last fuel) (scan-Reads w last fuel)
      (read_field w (c ∷ cs)) refl h

-- An encoding that passes is 1 to 2^20 bytes long and splits into fields of v1: exactly one header
-- and exactly one payload, both in the wire type of messages.
pub validate_encoded_frame-Encodes :
    (w : Wire) (last : ℕ) (bytes : Bytes)
    → validate_encoded_frame w last bytes ≡ some none
    → (0 < length bytes)
      × (length bytes ≤ max_encoded_frame_bytes)
      × ((fields : List (ℕ × ℕ)) × Encodes w fields bytes
          × All (IsV1 last) fields
          × (headers_of fields ≡ 1)
          × (payloads_of fields ≡ 1))
unfolding validate_encoded_frame
validate_encoded_frame-Encodes w last [] h = cc
validate_encoded_frame-Encodes w last (c ∷ cs) h =
    elim (Bool-cases (ltb max_encoded_frame_bytes (length (c ∷ cs)))) [
      | inl big ↦ absurd (ground arith)
      | inr fits ↦
          let (fields, enc, all, hs, ps) =
            scan-Reads w last (length (c ∷ cs)) 0 0 (c ∷ cs) (rw fits at h) in
          (omega arith, (at_most _ _).0 fits, (fields, enc, all, omega arith, omega arith))
    ]

-- The documented behaviour of `ConsumeTag`: a tag that is read takes a byte at least.
abbrev pub TagsTakeBytes : Wire → Type 0
TagsTakeBytes w =
    (bytes : Bytes) (number wire_type tag_length : ℕ)
    → w.consume_tag bytes ≡ some (number, wire_type, tag_length)
    → 0 < tag_length

-- So what is left behind a field is shorter.
read_field-shorter :
    (w : Wire)
    → TagsTakeBytes w
    → (c : ℕ) (cs : Bytes) (number wire_type : ℕ) (rest : Bytes)
    → read_field w (c ∷ cs) ≡ some (number, wire_type, rest)
    → length rest ≤ length cs
unfolding read_field
read_field-shorter w tags c cs number wire_type rest h =
    elim (Option-cases (w.consume_tag (c ∷ cs))) [
      | inl e ↦ absurd (ground arith)
      | inr ((m, t, tag_length), e) ↦
          let behind = drop tag_length (c ∷ cs) in
          elim (Option-cases (w.consume_field_value m t behind)) [
            | inl f ↦ absurd (ground arith)
            | inr (k, f) ↦
                let same : drop k behind ≡ rest = ground arith in
                rw (← same) (
                  omega (
                    arith,
                    tags (c ∷ cs) m t tag_length e,
                    length-drop k behind,
                    length-drop tag_length (c ∷ cs),
                  ))
          ]
    ]

module _ (w : Wire) (tags : TagsTakeBytes w) (last : ℕ) where
  scan_total :
      (fuel headers payloads : ℕ) (cs : Bytes)
      → length cs ≤ fuel
      → scan w last fuel headers payloads cs ≢ none
  unfolding scan scan_step
  scan_total fuel headers payloads [] n h = cc
  scan_total zero headers payloads (c ∷ cs) n h = absurd (omega arith)
  scan_total (suc fuel) headers payloads (c ∷ cs) n h =
      elim (Option-cases (read_field w (c ∷ cs))) [
        | inl e ↦ absurd (ground arith)
        | inr ((number, wire_type, rest), e) ↦
            elim (Option-cases (check_field last number wire_type)) [
              | inr (bad, b) ↦ absurd (ground arith)
              | inl good ↦
                  scan_total fuel (if number == 1 then headers + 1 else headers)
                    (if number == 1 then payloads else payloads + 1) rest
                    (omega (arith, read_field-shorter w tags c cs number wire_type rest e))
                    (ground arith)
            ]
      ]

  -- The scan always ends: its fuel, the number of bytes, is enough when every tag takes a byte.
  pub validate_encoded_frame_total :
      (bytes : Bytes) → (r : Option Error) × (validate_encoded_frame w last bytes ≡ some r)
  unfolding validate_encoded_frame
  validate_encoded_frame_total [] = (some empty_frame, refl)
  validate_encoded_frame_total (c ∷ cs) =
      elim (Bool-cases (ltb max_encoded_frame_bytes (length (c ∷ cs)))) [
        | inl big ↦ (some frame_too_large, rw big)
        | inr fits ↦ elim (Option-cases (scan w last (length (c ∷ cs)) 0 0 (c ∷ cs))) [
          | inl e ↦ absurd (scan_total (length (c ∷ cs)) 0 0 (c ∷ cs) (omega arith) e)
          | inr (r, e) ↦ (r, rw fits e)
        ]
      ]
