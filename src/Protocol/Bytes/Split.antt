-- ===== src/Protocol/Bytes/Split.antt =====
-- `Split`, `Cut` and `Trim` undo a concatenation.
use marketmesh.Prelude.{ℕ, ◌≡◌, refl, false, some, [], ◌∷◌, ◌++◌, ◌==◌, ==_iff, All}
use marketmesh.Protocol.Messages.{Bytes}
use marketmesh.Protocol.Bytes.{last, split, cut, trim, trim_left, trim_right}

abbrev pub Without : ℕ → Bytes → Type 0
Without sep = All (λ c. (c == sep) ≡ false)

pub split_one : (sep : ℕ) (cs : Bytes) → Without sep cs → split sep cs ≡ cs ∷ []
unfolding split
split_one sep [] h = refl
split_one sep (c ∷ cs) h = rw (h.0, split_one sep cs h.1)

pub split_field :
    (sep : ℕ) (cs rest : Bytes)
    → Without sep cs
    → split sep (cs ++ (sep ∷ rest)) ≡ cs ∷ split sep rest
unfolding split
split_field sep [] rest h = rw ((==_iff sep sep).1 refl)
split_field sep (c ∷ cs) rest h = rw (h.0, split_field sep cs rest h.1)

pub cut_field :
    (sep : ℕ) (key value : Bytes)
    → Without sep key
    → cut sep (key ++ (sep ∷ value)) ≡ some (key, value)
unfolding cut
cut_field sep [] value h = rw ((==_iff sep sep).1 refl)
cut_field sep (c ∷ cs) value h = rw (h.0, cut_field sep cs value h.1)

trim_right_lem :
    (space c : ℕ) (cs : Bytes) → (last c cs == space) ≡ false → trim_right space (c ∷ cs) ≡ c ∷ cs
unfolding trim_right last
trim_right_lem space c [] h = rw h
trim_right_lem space c (d ∷ ds) h = rw (trim_right_lem space d ds h)

-- Nothing is trimmed from a string that neither begins nor ends with the byte.
pub trim_lem :
    (space c : ℕ) (cs : Bytes)
    → (c == space) ≡ false
    → (last c cs == space) ≡ false
    → trim space (c ∷ cs) ≡ c ∷ cs
unfolding trim trim_left
trim_lem space c cs h e = rw h (trim_right_lem space c cs e)

pub last-append : (c d : ℕ) (cs ds : Bytes) → last c (cs ++ (d ∷ ds)) ≡ last d ds
unfolding last
last-append c d [] ds = refl
last-append c d (e ∷ cs) ds = last-append e d cs ds
