-- ===== src/Protocol/Routes.antt =====
-- `routeTrafficClass` of backend/api/tunnel/v1/validate.go: the traffic class that v1 fixes for
-- each route.
use marketmesh.Protocol.Enums.{RouteId, TrafficClass}

unfoldable pub route_traffic_class : RouteId → TrafficClass
route_traffic_class RouteId.auth_register_credentials = TrafficClass.control_auth
route_traffic_class RouteId.auth_login = TrafficClass.control_auth
route_traffic_class RouteId.auth_refresh_session = TrafficClass.control_auth
route_traffic_class RouteId.auth_revoke_session = TrafficClass.control_auth
route_traffic_class RouteId.auth_session_assertion = TrafficClass.control_auth
route_traffic_class RouteId.auth_logout_all = TrafficClass.control_auth
route_traffic_class RouteId.auth_start_login_code_change = TrafficClass.control_auth
route_traffic_class RouteId.auth_complete_login_code_change = TrafficClass.control_auth
route_traffic_class RouteId.auth_change_password = TrafficClass.control_auth
route_traffic_class RouteId.auth_start_login = TrafficClass.control_auth
route_traffic_class RouteId.auth_complete_login = TrafficClass.control_auth
route_traffic_class RouteId.auth_resend_login_code = TrafficClass.control_auth
route_traffic_class RouteId.auth_request_email_verification = TrafficClass.control_auth
route_traffic_class RouteId.auth_confirm_email = TrafficClass.control_auth
route_traffic_class RouteId.auth_request_password_reset = TrafficClass.control_auth
route_traffic_class RouteId.auth_confirm_password_reset = TrafficClass.control_auth
route_traffic_class RouteId.auth_get_credentials = TrafficClass.control_auth
route_traffic_class RouteId.auth_start_email_change = TrafficClass.control_auth
route_traffic_class RouteId.auth_confirm_email_change = TrafficClass.control_auth
route_traffic_class RouteId.auth_cancel_email_change = TrafficClass.control_auth
route_traffic_class RouteId.auth_list_sessions = TrafficClass.control_auth
route_traffic_class RouteId.auth_revoke_owned_session = TrafficClass.control_auth
route_traffic_class RouteId.auth_request_account_deletion = TrafficClass.control_auth
route_traffic_class RouteId.auth_cancel_account_deletion = TrafficClass.control_auth
route_traffic_class RouteId.user_get_me = TrafficClass.regular
route_traffic_class RouteId.user_update_me = TrafficClass.regular
route_traffic_class RouteId.user_browser_get_me = TrafficClass.regular
route_traffic_class RouteId.user_browser_update_me = TrafficClass.regular
route_traffic_class RouteId.user_browser_list_addresses = TrafficClass.regular
route_traffic_class RouteId.user_browser_create_address = TrafficClass.regular
route_traffic_class RouteId.user_browser_update_address = TrafficClass.regular
route_traffic_class RouteId.user_browser_delete_address = TrafficClass.regular
route_traffic_class RouteId.user_browser_set_default_address = TrafficClass.regular
route_traffic_class RouteId.user_browser_get_settings = TrafficClass.regular
route_traffic_class RouteId.user_browser_update_settings = TrafficClass.regular
route_traffic_class RouteId.user_browser_get_avatar = TrafficClass.regular
route_traffic_class RouteId.user_browser_set_avatar = TrafficClass.regular
route_traffic_class RouteId.user_browser_clear_avatar = TrafficClass.regular
route_traffic_class RouteId.file_create_upload = TrafficClass.regular
route_traffic_class RouteId.file_complete_upload = TrafficClass.regular
route_traffic_class RouteId.file_get_status = TrafficClass.regular
route_traffic_class RouteId.file_create_download = TrafficClass.regular
route_traffic_class RouteId.file_delete = TrafficClass.regular
route_traffic_class RouteId.realtime_chat = TrafficClass.realtime
route_traffic_class RouteId.realtime_notifications = TrafficClass.realtime
route_traffic_class _ = TrafficClass.unspecified
