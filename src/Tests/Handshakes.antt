-- ===== src/Tests/Handshakes.antt =====
-- The theorems on settings and negotiations, at one configuration.
use marketmesh.Prelude.{◌≡◌, refl, true, some, none, [], ◌∷◌, ℕ_discrete}
use marketmesh.Protocol.Enums.{RouteId, TrafficClass, Capability}
use marketmesh.Protocol.Payloads.{pos}
use marketmesh.Protocol.Validate.{validate_gateway_in_frame}
use marketmesh.Protocol.Hello.{
  validate_gateway_out_hello, validate_supported_versions, validate_capabilities,
  validate_traffic_classes, validate_routes, validate_limits, validate_gateway_in_hello,
}
use marketmesh.Protocol.Headers.{validate_gateway_in_hello_header}
use marketmesh.Protocol.Numbers.{capability_number}
use marketmesh.Protocol.Reflect.{
  Clean, message, no_field, reject_unknown_fields, reject_unknown_fields-none,
}
use marketmesh.GatewayIn.Request.{RoutePolicy}
use marketmesh.GatewayIn.Config.{
  Config, Settings, seconds, settings_of, settings, new_settings, validate_queue_limits,
  validate_route_policies, validate_local_hello,
}
use marketmesh.GatewayIn.Config.Accepted.{SettingsOk, new_settings-SettingsOk}
use marketmesh.GatewayIn.Handshake.{Negotiation, negotiate, hello_of}
use marketmesh.GatewayIn.Handshake.Negotiated.{negotiated_hello_accepted}
use marketmesh.Tests.Samples.{id16, limits, runtime, out_hello}

abbrev login_policy : RoutePolicy
login_policy = record {
  traffic_class = TrafficClass.control_auth;
  max_request_bytes = 65536;
  max_response_bytes = 65536;
  max_in_flight = 8;
  max_deadline = 10;
}

abbrev config : Config
config = record {
  has_logger = true;
  limits = some limits;
  routes = (RouteId.auth_start_login, login_policy) ∷ [];
  capabilities = Capability.drain ∷ Capability.realtime ∷ [];
  queues = record { tunnel_control = 8; control_auth = 8; regular = 8; realtime = 8 };
  max_tunnels = pos 16;
  max_tunnels_per_instance = pos 2;
  max_in_flight_per_instance = pos 64;
  initial_response_credit = 65536;
  handshake_timeout = pos (seconds 5);
  ping_interval = pos (seconds 20);
  pong_timeout = pos (seconds 5);
  failback_warmup = pos 0;
}

abbrev configured : Settings
configured = settings_of id16 config limits

accepted_config : new_settings runtime none none id16 config ≡ settings configured
unfolding new_settings validate_queue_limits marketmesh.GatewayIn.Config.validate_capabilities
    validate_route_policies validate_local_hello validate_gateway_in_frame reject_unknown_fields
    validate_gateway_in_hello_header validate_gateway_in_hello validate_capabilities
    capability_number validate_traffic_classes validate_routes validate_limits
accepted_config = refl

configured-SettingsOk : SettingsOk configured
configured-SettingsOk =
    new_settings-SettingsOk runtime none none id16 config configured accepted_config

new_settings-SettingsOk_example : SettingsOk configured
new_settings-SettingsOk_example =
    new_settings-SettingsOk runtime none none id16 config configured accepted_config

abbrev negotiated : Negotiation
negotiated = record {
  limits = limits;
  routes = RouteId.auth_start_login ∷ [];
  classes = TrafficClass.control_auth ∷ [];
  capabilities = Capability.drain ∷ [];
}

agrees : negotiate configured out_hello ≡ some negotiated
unfolding negotiate
agrees = refl

sound_hello : validate_gateway_out_hello (some out_hello) ≡ none
unfolding validate_gateway_out_hello validate_supported_versions validate_capabilities
    validate_traffic_classes validate_routes validate_limits ℕ_discrete
sound_hello = refl

clean : Clean (message [] no_field)
unfolding reject_unknown_fields
clean = (reject_unknown_fields-none [] (message [] no_field)).0 refl

negotiated_hello_accepted_example :
    validate_gateway_in_frame runtime (some (hello_of negotiated id16 id16)) ≡ none
negotiated_hello_accepted_example =
    negotiated_hello_accepted runtime configured out_hello negotiated id16 configured-SettingsOk
      (tt, tt) refl refl sound_hello agrees clean
