-- ===== src/Protocol/Enums.antt =====
-- The open enumerations of api/proto/tunnel/v1/tunnel.proto and the tests of
-- backend/api/tunnel/v1/validate.go that recognise their declared values. `unrecognized` holds any
-- other wire value of an open enumeration.
use marketmesh.Prelude.{ℕ, Bool, true, false, ℕ_discrete}

pub data TrafficClass : Type 0 where
  unspecified control_auth regular realtime : TrafficClass
  unrecognized : ℕ → TrafficClass

unfoldable pub TrafficClass-discrete : Discrete TrafficClass
TrafficClass-discrete = hlevel ℕ_discrete

unfoldable pub known_traffic_class : TrafficClass → Bool
known_traffic_class (TrafficClass.unrecognized _) = false
known_traffic_class _ = true

pub data Capability : Type 0 where
  unspecified drain session_revocation realtime : Capability
  unrecognized : ℕ → Capability

unfoldable pub Capability-discrete : Discrete Capability
Capability-discrete = hlevel ℕ_discrete

unfoldable pub known_capability : Capability → Bool
known_capability (Capability.unrecognized _) = false
known_capability _ = true

pub data RouteId : Type 0 where
  unspecified auth_register_credentials auth_login auth_refresh_session auth_revoke_session
        auth_session_assertion auth_logout_all auth_start_login_code_change
        auth_complete_login_code_change auth_change_password auth_start_login auth_complete_login
        auth_resend_login_code auth_request_email_verification auth_confirm_email
        auth_request_password_reset auth_confirm_password_reset auth_get_credentials
        auth_start_email_change auth_confirm_email_change auth_cancel_email_change
        auth_list_sessions auth_revoke_owned_session auth_request_account_deletion
        auth_cancel_account_deletion user_get_me user_update_me user_browser_get_me
        user_browser_update_me user_browser_list_addresses user_browser_create_address
        user_browser_update_address user_browser_delete_address user_browser_set_default_address
        user_browser_get_settings user_browser_update_settings user_browser_get_avatar
        user_browser_set_avatar user_browser_clear_avatar realtime_chat realtime_notifications
        file_create_upload file_complete_upload file_get_status file_create_download file_delete :
      RouteId
  unrecognized : ℕ → RouteId

unfoldable pub RouteId-discrete : Discrete RouteId
RouteId-discrete = hlevel ℕ_discrete

unfoldable pub known_route : RouteId → Bool
known_route (RouteId.unrecognized _) = false
known_route _ = true

pub data MetadataKey : Type 0 where
  unspecified content_type traceparent tracestate session_assertion : MetadataKey
  unrecognized : ℕ → MetadataKey

unfoldable pub MetadataKey-discrete : Discrete MetadataKey
MetadataKey-discrete = hlevel ℕ_discrete

unfoldable pub known_metadata_key : MetadataKey → Bool
known_metadata_key (MetadataKey.unrecognized _) = false
known_metadata_key _ = true

pub data CancelReason : Type 0 where
  unspecified caller deadline drain policy : CancelReason
  unrecognized : ℕ → CancelReason

unfoldable pub CancelReason-discrete : Discrete CancelReason
CancelReason-discrete = hlevel ℕ_discrete

unfoldable pub known_cancel_reason : CancelReason → Bool
known_cancel_reason (CancelReason.unrecognized _) = false
known_cancel_reason _ = true

pub data ResultCode : Type 0 where
  unspecified ok invalid_argument unauthenticated permission_denied not_found conflict
        resource_exhausted deadline_exceeded canceled unavailable internal :
      ResultCode
  unrecognized : ℕ → ResultCode

unfoldable pub ResultCode-discrete : Discrete ResultCode
ResultCode-discrete = hlevel ℕ_discrete

unfoldable pub known_result_code : ResultCode → Bool
known_result_code (ResultCode.unrecognized _) = false
known_result_code _ = true

pub data DrainReason : Type 0 where
  unspecified maintenance shutdown overload : DrainReason
  unrecognized : ℕ → DrainReason

unfoldable pub DrainReason-discrete : Discrete DrainReason
DrainReason-discrete = hlevel ℕ_discrete

unfoldable pub known_drain_reason : DrainReason → Bool
known_drain_reason (DrainReason.unrecognized _) = false
known_drain_reason _ = true
