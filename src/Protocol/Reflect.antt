-- ===== src/Protocol/Reflect.antt =====
-- `rejectUnknownFields` of backend/api/tunnel/v1/decode.go, over the tree that protobuf reflection
-- shows of a message: its unknown bytes, and its populated fields in the order of `Range`.
use marketmesh.Prelude.{
  ℕ, ◌+◌, String, ◌≡◌, refl, ◌↔◌, Option, some, none, List, [], ◌∷◌, ◌++◌, ◌>>◌, seq_accepts,
}
use marketmesh.Protocol.Messages.{Bytes}
use marketmesh.Protocol.Errors.{Error, Segment, name, index, unknown_field}

mutual
  pub data Message : Type 0 where
    message : Bytes → Fields → Message

  pub data Fields : Type 0 where
    no_field : Fields
    -- A field of another kind than a message, also a list or a map of such.
    scalar : Fields → Fields
    nested : String → Message → Fields → Fields
    list : String → Messages → Fields → Fields
    message_map : String → Messages → Fields → Fields

  pub data Messages : Type 0 where
    no_message : Messages
    next : Message → Messages → Messages

-- `path + "." + field`, and `field[index]`.
unfoldable mutual
  pub reject_unknown_fields : List Segment → Message → Option Error
  reject_unknown_fields path (message [] fields) = reject_in_fields path fields
  reject_unknown_fields path (message (b ∷ bs) fields) = some (unknown_field path)

  pub reject_in_fields : List Segment → Fields → Option Error
  reject_in_fields path no_field = none
  reject_in_fields path (scalar fields) = reject_in_fields path fields
  reject_in_fields path (nested field m fields) =
      reject_unknown_fields (path ++ (name field ∷ [])) m >> reject_in_fields path fields
  reject_in_fields path (list field ms fields) =
      reject_in_list (path ++ (name field ∷ [])) 0 ms >> reject_in_fields path fields
  reject_in_fields path (message_map field ms fields) =
      reject_in_map (path ++ (name field ∷ [])) ms >> reject_in_fields path fields

  pub reject_in_list : List Segment → ℕ → Messages → Option Error
  reject_in_list path i no_message = none
  reject_in_list path i (next m ms) =
      reject_unknown_fields (path ++ (index i ∷ [])) m >> reject_in_list path (i + 1) ms

  pub reject_in_map : List Segment → Messages → Option Error
  reject_in_map path no_message = none
  reject_in_map path (next m ms) = reject_unknown_fields path m >> reject_in_map path ms

-- No unknown byte anywhere in the tree.
mutual
  pub Clean : Message → Type 0
  Clean (message unknown fields) = (unknown ≡ []) × CleanFields fields

  pub CleanFields : Fields → Type 0
  CleanFields no_field = Unit
  CleanFields (scalar fields) = CleanFields fields
  CleanFields (nested field m fields) = Clean m × CleanFields fields
  CleanFields (list field ms fields) = CleanMessages ms × CleanFields fields
  CleanFields (message_map field ms fields) = CleanMessages ms × CleanFields fields

  pub CleanMessages : Messages → Type 0
  CleanMessages no_message = Unit
  CleanMessages (next m ms) = Clean m × CleanMessages ms

mutual
  unfolding reject_unknown_fields reject_in_fields reject_in_list reject_in_map Clean CleanFields
      CleanMessages

  Clean-message :
      (path : List Segment) (m : Message) → (reject_unknown_fields path m ≡ none) ↔ Clean m
  Clean-message path (message [] fields) =
      (λ h. (refl, (clean_fields path fields).0 h), λ h. (clean_fields path fields).1 h.1)
  Clean-message path (message (b ∷ bs) fields) = (λ h. cc, λ h. cc)

  clean_fields :
      (path : List Segment) (fs : Fields) → (reject_in_fields path fs ≡ none) ↔ CleanFields fs
  clean_fields path no_field = (λ h. tt, λ h. refl)
  clean_fields path (scalar fields) = clean_fields path fields
  clean_fields path (nested field m fields) =
      seq_accepts _ _ (Clean-message (path ++ (name field ∷ [])) m) (clean_fields path fields)
  clean_fields path (list field ms fields) =
      seq_accepts _ _ (clean_list (path ++ (name field ∷ [])) 0 ms) (clean_fields path fields)
  clean_fields path (message_map field ms fields) =
      seq_accepts _ _ (clean_map (path ++ (name field ∷ [])) ms) (clean_fields path fields)

  clean_list :
      (path : List Segment) (i : ℕ) (ms : Messages)
      → (reject_in_list path i ms ≡ none) ↔ CleanMessages ms
  clean_list path i no_message = (λ h. tt, λ h. refl)
  clean_list path i (next m ms) =
      seq_accepts _ _ (Clean-message (path ++ (index i ∷ [])) m) (clean_list path (i + 1) ms)

  clean_map :
      (path : List Segment) (ms : Messages) → (reject_in_map path ms ≡ none) ↔ CleanMessages ms
  clean_map path no_message = (λ h. tt, λ h. refl)
  clean_map path (next m ms) = seq_accepts _ _ (Clean-message path m) (clean_map path ms)

-- A message passes exactly when no message in its tree, at any depth, in lists and in maps, has
-- unknown fields.
pub reject_unknown_fields-none :
    (path : List Segment) (m : Message) → (reject_unknown_fields path m ≡ none) ↔ Clean m
reject_unknown_fields-none path m = Clean-message path m
