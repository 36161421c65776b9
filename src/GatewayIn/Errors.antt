-- ===== src/GatewayIn/Errors.antt =====
-- backend/services/gateway-in/internal/tunnel/errors.go, with the context errors that the package
-- passes on. `violation_of` is a protocol violation joined with the frame's error.
use marketmesh.Protocol.Enums.{ResultCode}
use marketmesh.Protocol.Errors.{Error}

pub data TunnelError : Type 0 where
  no_tunnel tunnel_closed queue_full draining route_not_allowed protocol_violation : TunnelError
  canceled deadline_exceeded request_id_collision random_failed peer_unauthorized : TunnelError
  violation_of : Error → TunnelError
  result_error : ResultCode → TunnelError
