-- ===== src/GatewayIn/Routes.antt =====
-- `routeTrafficClass`, `routeLabel` and `classLabel` of
-- backend/services/gateway-in/internal/tunnel/config.go.
pub mod Spec
use marketmesh.Prelude.{String}
use marketmesh.Protocol.Enums.{RouteId, TrafficClass}

unfoldable pub route_traffic_class : RouteId → TrafficClass
route_traffic_class RouteId.auth_register_credentials = TrafficClass.control_auth
route_traffic_class RouteId.auth_login = TrafficClass.control_auth
route_traffic_class RouteId.auth_refresh_session = TrafficClass.control_auth
route_traffic_class RouteId.auth_revoke_session = TrafficClass.control_auth
route_traffic_class RouteId.auth_session_assertion = TrafficClass.control_auth
route_traffic_class RouteId.auth_logout_all = TrafficClass.control_auth
route_traffic_class RouteId.auth_start_login_code_change = TrafficClass.control_auth
route_traffic_class RouteId.auth_complete_login_code_change = TrafficClass.control_auth
route_traffic_class RouteId.auth_change_password = TrafficClass.control_auth
route_traffic_class RouteId.auth_start_login = TrafficClass.control_auth
route_traffic_class RouteId.auth_complete_login = TrafficClass.control_auth
route_traffic_class RouteId.auth_resend_login_code = TrafficClass.control_auth
route_traffic_class RouteId.auth_request_email_verification = TrafficClass.control_auth
route_traffic_class RouteId.auth_confirm_email = TrafficClass.control_auth
route_traffic_class RouteId.auth_request_password_reset = TrafficClass.control_auth
route_traffic_class RouteId.auth_confirm_password_reset = TrafficClass.control_auth
route_traffic_class RouteId.auth_get_credentials = TrafficClass.control_auth
route_traffic_class RouteId.auth_start_email_change = TrafficClass.control_auth
route_traffic_class RouteId.auth_confirm_email_change = TrafficClass.control_auth
route_traffic_class RouteId.auth_cancel_email_change = TrafficClass.control_auth
route_traffic_class RouteId.auth_list_sessions = TrafficClass.control_auth
route_traffic_class RouteId.auth_revoke_owned_session = TrafficClass.control_auth
route_traffic_class RouteId.auth_request_account_deletion = TrafficClass.control_auth
route_traffic_class RouteId.auth_cancel_account_deletion = TrafficClass.control_auth
route_traffic_class RouteId.user_get_me = TrafficClass.regular
route_traffic_class RouteId.user_update_me = TrafficClass.regular
route_traffic_class RouteId.user_browser_get_me = TrafficClass.regular
route_traffic_class RouteId.user_browser_update_me = TrafficClass.regular
route_traffic_class RouteId.user_browser_list_addresses = TrafficClass.regular
route_traffic_class RouteId.user_browser_create_address = TrafficClass.regular
route_traffic_class RouteId.user_browser_update_address = TrafficClass.regular
route_traffic_class RouteId.user_browser_delete_address = TrafficClass.regular
route_traffic_class RouteId.user_browser_set_default_address = TrafficClass.regular
route_traffic_class RouteId.user_browser_get_settings = TrafficClass.regular
route_traffic_class RouteId.user_browser_update_settings = TrafficClass.regular
route_traffic_class RouteId.user_browser_get_avatar = TrafficClass.regular
route_traffic_class RouteId.user_browser_set_avatar = TrafficClass.regular
route_traffic_class RouteId.user_browser_clear_avatar = TrafficClass.regular
route_traffic_class RouteId.file_create_upload = TrafficClass.regular
route_traffic_class RouteId.file_complete_upload = TrafficClass.regular
route_traffic_class RouteId.file_get_status = TrafficClass.regular
route_traffic_class RouteId.file_create_download = TrafficClass.regular
route_traffic_class RouteId.file_delete = TrafficClass.regular
route_traffic_class RouteId.realtime_chat = TrafficClass.realtime
route_traffic_class RouteId.realtime_notifications = TrafficClass.realtime
route_traffic_class _ = TrafficClass.unspecified

unfoldable pub route_label : RouteId → String
route_label RouteId.auth_register_credentials = "auth_register_credentials"
route_label RouteId.auth_login = "auth_login"
route_label RouteId.auth_refresh_session = "auth_refresh_session"
route_label RouteId.auth_revoke_session = "auth_revoke_session"
route_label RouteId.auth_session_assertion = "auth_session_assertion"
route_label RouteId.auth_logout_all = "auth_logout_all"
route_label RouteId.auth_start_login_code_change = "auth_start_login_code_change"
route_label RouteId.auth_complete_login_code_change = "auth_complete_login_code_change"
route_label RouteId.auth_change_password = "auth_change_password"
route_label RouteId.auth_start_login = "auth_start_login"
route_label RouteId.auth_complete_login = "auth_complete_login"
route_label RouteId.auth_resend_login_code = "auth_resend_login_code"
route_label RouteId.auth_request_email_verification = "auth_request_email_verification"
route_label RouteId.auth_confirm_email = "auth_confirm_email"
route_label RouteId.auth_request_password_reset = "auth_request_password_reset"
route_label RouteId.auth_confirm_password_reset = "auth_confirm_password_reset"
route_label RouteId.auth_get_credentials = "auth_get_credentials"
route_label RouteId.auth_start_email_change = "auth_start_email_change"
route_label RouteId.auth_confirm_email_change = "auth_confirm_email_change"
route_label RouteId.auth_cancel_email_change = "auth_cancel_email_change"
route_label RouteId.auth_list_sessions = "auth_list_sessions"
route_label RouteId.auth_revoke_owned_session = "auth_revoke_owned_session"
route_label RouteId.auth_request_account_deletion = "auth_request_account_deletion"
route_label RouteId.auth_cancel_account_deletion = "auth_cancel_account_deletion"
route_label RouteId.user_get_me = "user_get_me"
route_label RouteId.user_update_me = "user_update_me"
route_label RouteId.user_browser_get_me = "user_browser_get_me"
route_label RouteId.user_browser_update_me = "user_browser_update_me"
route_label RouteId.user_browser_list_addresses = "user_browser_list_addresses"
route_label RouteId.user_browser_create_address = "user_browser_create_address"
route_label RouteId.user_browser_update_address = "user_browser_update_address"
route_label RouteId.user_browser_delete_address = "user_browser_delete_address"
route_label RouteId.user_browser_set_default_address = "user_browser_set_default_address"
route_label RouteId.user_browser_get_settings = "user_browser_get_settings"
route_label RouteId.user_browser_update_settings = "user_browser_update_settings"
route_label RouteId.user_browser_get_avatar = "user_browser_get_avatar"
route_label RouteId.user_browser_set_avatar = "user_browser_set_avatar"
route_label RouteId.user_browser_clear_avatar = "user_browser_clear_avatar"
route_label RouteId.file_create_upload = "file_create_upload"
route_label RouteId.file_complete_upload = "file_complete_upload"
route_label RouteId.file_get_status = "file_get_status"
route_label RouteId.file_create_download = "file_create_download"
route_label RouteId.file_delete = "file_delete"
route_label RouteId.realtime_chat = "realtime_chat"
route_label RouteId.realtime_notifications = "realtime_notifications"
route_label _ = "unknown"

unfoldable pub class_label : TrafficClass → String
class_label TrafficClass.control_auth = "control_auth"
class_label TrafficClass.regular = "regular"
class_label TrafficClass.realtime = "realtime"
class_label _ = "tunnel_control"
