-- ===== src/GatewayIn/Session/Outcome.antt =====
-- The end of a tunnel in every state that a run reaches.
use marketmesh.GatewayIn.Request.{Request}
use marketmesh.GatewayIn.Session.{Session}
use marketmesh.GatewayIn.Session.Over.{Over}
