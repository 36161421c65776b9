-- ===== src/Protocol/Numbers.antt =====
-- The wire numbers of the enumerations of api/proto/tunnel/v1/tunnel.proto, by which gateway-in
-- sorts them.
use marketmesh.Prelude.{ℕ}
use marketmesh.Protocol.Enums.{TrafficClass, Capability, RouteId}

unfoldable pub traffic_class_number : TrafficClass → ℕ
traffic_class_number TrafficClass.unspecified = 0
traffic_class_number TrafficClass.control_auth = 1
traffic_class_number TrafficClass.regular = 2
traffic_class_number TrafficClass.realtime = 3
traffic_class_number (TrafficClass.unrecognized n) = n

unfoldable pub capability_number : Capability → ℕ
capability_number Capability.unspecified = 0
capability_number Capability.drain = 1
capability_number Capability.session_revocation = 2
capability_number Capability.realtime = 3
capability_number (Capability.unrecognized n) = n

unfoldable pub route_number : RouteId → ℕ
route_number RouteId.unspecified = 0
route_number RouteId.auth_register_credentials = 1
route_number RouteId.auth_login = 2
route_number RouteId.auth_refresh_session = 3
route_number RouteId.auth_revoke_session = 4
route_number RouteId.auth_session_assertion = 5
route_number RouteId.auth_logout_all = 6
route_number RouteId.auth_start_login_code_change = 7
route_number RouteId.auth_complete_login_code_change = 8
route_number RouteId.auth_change_password = 9
route_number RouteId.auth_start_login = 10
route_number RouteId.auth_complete_login = 11
route_number RouteId.auth_resend_login_code = 12
route_number RouteId.auth_request_email_verification = 13
route_number RouteId.auth_confirm_email = 14
route_number RouteId.auth_request_password_reset = 15
route_number RouteId.auth_confirm_password_reset = 16
route_number RouteId.auth_get_credentials = 17
route_number RouteId.auth_start_email_change = 18
route_number RouteId.auth_confirm_email_change = 19
route_number RouteId.auth_cancel_email_change = 20
route_number RouteId.auth_list_sessions = 21
route_number RouteId.auth_revoke_owned_session = 22
route_number RouteId.auth_request_account_deletion = 23
route_number RouteId.auth_cancel_account_deletion = 24
route_number RouteId.user_get_me = 100
route_number RouteId.user_update_me = 101
route_number RouteId.user_browser_get_me = 102
route_number RouteId.user_browser_update_me = 103
route_number RouteId.user_browser_list_addresses = 104
route_number RouteId.user_browser_create_address = 105
route_number RouteId.user_browser_update_address = 106
route_number RouteId.user_browser_delete_address = 107
route_number RouteId.user_browser_set_default_address = 108
route_number RouteId.user_browser_get_settings = 109
route_number RouteId.user_browser_update_settings = 110
route_number RouteId.user_browser_get_avatar = 111
route_number RouteId.user_browser_set_avatar = 112
route_number RouteId.user_browser_clear_avatar = 113
route_number RouteId.realtime_chat = 200
route_number RouteId.realtime_notifications = 201
route_number RouteId.file_create_upload = 300
route_number RouteId.file_complete_upload = 301
route_number RouteId.file_get_status = 302
route_number RouteId.file_create_download = 303
route_number RouteId.file_delete = 304
route_number (RouteId.unrecognized n) = n
