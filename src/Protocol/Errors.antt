-- ===== src/Protocol/Errors.antt =====
-- The errors of backend/api/tunnel/v1/decode.go. A wrapped error keeps its parts: the path of the
-- field and the reason, as `invalidFrame` and `unsupportedVersion` format them.
use marketmesh.Prelude.{ℕ, String, List}

-- A path such as `frame.open.metadata[2]`.
pub data Segment : Type 0 where
  name : String → Segment
  index : ℕ → Segment

pub data Error : Type 0 where
  empty_frame frame_too_large malformed_frame unknown_frame_type : Error
  unknown_field : List Segment → Error
  unsupported_version : String → Error
  invalid_frame : String → String → Error
