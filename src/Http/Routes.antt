-- ===== src/Http/Routes.antt =====
-- RegisterHandlersWithOptions of internal/api/gen/server.go: the operations of the API, with the method
-- and the path of each, and the ones that its wrappers mark with the security scopes of a session.
-- Which of them answer 402 is in api/openapi.yaml.
pub mod Protected
use pingcast.Prelude.{Bool, true, false, ◌++◌, Text, codes}

pub data Operation : Type 0 where
  list_api_keys create_api_key revoke_api_key : Operation
  login logout get_me : Operation
  register get_founder_status list_channel_types : Operation
  list_channels create_channel delete_channel : Operation
  get_channel update_channel list_custom_domains : Operation
  request_custom_domain delete_custom_domain import_atlassian : Operation
  create_incident update_incident_state list_incident_updates : Operation
  list_maintenance_windows schedule_maintenance_window delete_maintenance_window : Operation
  get_my_branding update_my_branding list_my_subscribers : Operation
  list_monitor_groups create_monitor_group delete_monitor_group : Operation
  update_monitor_group list_monitor_types list_monitors : Operation
  create_monitor delete_monitor get_monitor : Operation
  update_monitor bind_channel unbind_channel : Operation
  assign_monitor_to_group toggle_monitor_pause confirm_newsletter_subscription : Operation
  subscribe_to_newsletter unsubscribe_from_newsletter lookup_custom_domain : Operation
  get_public_stats get_status_page confirm_status_subscription : Operation
  subscribe_to_status_page unsubscribe_from_status_page health_check : Operation

unfoldable pub method_of : Operation → Text
method_of list_api_keys = codes "GET"
method_of create_api_key = codes "POST"
method_of revoke_api_key = codes "DELETE"
method_of login = codes "POST"
method_of logout = codes "POST"
method_of get_me = codes "GET"
method_of register = codes "POST"
method_of get_founder_status = codes "GET"
method_of list_channel_types = codes "GET"
method_of list_channels = codes "GET"
method_of create_channel = codes "POST"
method_of delete_channel = codes "DELETE"
method_of get_channel = codes "GET"
method_of update_channel = codes "PUT"
method_of list_custom_domains = codes "GET"
method_of request_custom_domain = codes "POST"
method_of delete_custom_domain = codes "DELETE"
method_of import_atlassian = codes "POST"
method_of create_incident = codes "POST"
method_of update_incident_state = codes "PATCH"
method_of list_incident_updates = codes "GET"
method_of list_maintenance_windows = codes "GET"
method_of schedule_maintenance_window = codes "POST"
method_of delete_maintenance_window = codes "DELETE"
method_of get_my_branding = codes "GET"
method_of update_my_branding = codes "PATCH"
method_of list_my_subscribers = codes "GET"
method_of list_monitor_groups = codes "GET"
method_of create_monitor_group = codes "POST"
method_of delete_monitor_group = codes "DELETE"
method_of update_monitor_group = codes "PUT"
method_of list_monitor_types = codes "GET"
method_of list_monitors = codes "GET"
method_of create_monitor = codes "POST"
method_of delete_monitor = codes "DELETE"
method_of get_monitor = codes "GET"
method_of update_monitor = codes "PUT"
method_of bind_channel = codes "POST"
method_of unbind_channel = codes "DELETE"
method_of assign_monitor_to_group = codes "PUT"
method_of toggle_monitor_pause = codes "POST"
method_of confirm_newsletter_subscription = codes "GET"
method_of subscribe_to_newsletter = codes "POST"
method_of unsubscribe_from_newsletter = codes "GET"
method_of lookup_custom_domain = codes "GET"
method_of get_public_stats = codes "GET"
method_of get_status_page = codes "GET"
method_of confirm_status_subscription = codes "GET"
method_of subscribe_to_status_page = codes "POST"
method_of unsubscribe_from_status_page = codes "GET"
method_of health_check = codes "GET"

-- The path, with the parameters that stand in it.
unfoldable pub path_of : Operation → (id channel_id : Text) → Text
path_of list_api_keys id channel_id = codes "/api/api-keys"
path_of create_api_key id channel_id = codes "/api/api-keys"
path_of revoke_api_key id channel_id = codes "/api/api-keys/" ++ id
path_of login id channel_id = codes "/api/auth/login"
path_of logout id channel_id = codes "/api/auth/logout"
path_of get_me id channel_id = codes "/api/auth/me"
path_of register id channel_id = codes "/api/auth/register"
path_of get_founder_status id channel_id = codes "/api/billing/founder-status"
path_of list_channel_types id channel_id = codes "/api/channel-types"
path_of list_channels id channel_id = codes "/api/channels"
path_of create_channel id channel_id = codes "/api/channels"
path_of delete_channel id channel_id = codes "/api/channels/" ++ id
path_of get_channel id channel_id = codes "/api/channels/" ++ id
path_of update_channel id channel_id = codes "/api/channels/" ++ id
path_of list_custom_domains id channel_id = codes "/api/custom-domains"
path_of request_custom_domain id channel_id = codes "/api/custom-domains"
path_of delete_custom_domain id channel_id = codes "/api/custom-domains/" ++ id
path_of import_atlassian id channel_id = codes "/api/import/atlassian"
path_of create_incident id channel_id = codes "/api/incidents"
path_of update_incident_state id channel_id = codes "/api/incidents/" ++ id ++ codes "/state"
path_of list_incident_updates id channel_id = codes "/api/incidents/" ++ id ++ codes "/updates"
path_of list_maintenance_windows id channel_id = codes "/api/maintenance-windows"
path_of schedule_maintenance_window id channel_id = codes "/api/maintenance-windows"
path_of delete_maintenance_window id channel_id = codes "/api/maintenance-windows/" ++ id
path_of get_my_branding id channel_id = codes "/api/me/branding"
path_of update_my_branding id channel_id = codes "/api/me/branding"
path_of list_my_subscribers id channel_id = codes "/api/me/subscribers"
path_of list_monitor_groups id channel_id = codes "/api/monitor-groups"
path_of create_monitor_group id channel_id = codes "/api/monitor-groups"
path_of delete_monitor_group id channel_id = codes "/api/monitor-groups/" ++ id
path_of update_monitor_group id channel_id = codes "/api/monitor-groups/" ++ id
path_of list_monitor_types id channel_id = codes "/api/monitor-types"
path_of list_monitors id channel_id = codes "/api/monitors"
path_of create_monitor id channel_id = codes "/api/monitors"
path_of delete_monitor id channel_id = codes "/api/monitors/" ++ id
path_of get_monitor id channel_id = codes "/api/monitors/" ++ id
path_of update_monitor id channel_id = codes "/api/monitors/" ++ id
path_of bind_channel id channel_id = codes "/api/monitors/" ++ id ++ codes "/channels"
path_of unbind_channel id channel_id =
    codes "/api/monitors/" ++ id ++ codes "/channels/" ++ channel_id
path_of assign_monitor_to_group id channel_id = codes "/api/monitors/" ++ id ++ codes "/group"
path_of toggle_monitor_pause id channel_id = codes "/api/monitors/" ++ id ++ codes "/pause"
path_of confirm_newsletter_subscription id channel_id = codes "/api/newsletter/confirm"
path_of subscribe_to_newsletter id channel_id = codes "/api/newsletter/subscribe"
path_of unsubscribe_from_newsletter id channel_id = codes "/api/newsletter/unsubscribe"
path_of lookup_custom_domain id channel_id = codes "/api/public/lookup-domain"
path_of get_public_stats id channel_id = codes "/api/stats/public"
path_of get_status_page id channel_id = codes "/api/status/" ++ id
path_of confirm_status_subscription id channel_id = codes "/api/status/" ++ id ++ codes "/confirm"
path_of subscribe_to_status_page id channel_id = codes "/api/status/" ++ id ++ codes "/subscribe"
path_of unsubscribe_from_status_page id channel_id =
    codes "/api/status/" ++ id ++ codes "/unsubscribe"
path_of health_check id channel_id = codes "/health"

-- The wrapper sets `SessionAuthScopes`.
unfoldable pub is_secured : Operation → Bool
is_secured list_api_keys = true
is_secured create_api_key = true
is_secured revoke_api_key = true
is_secured login = false
is_secured logout = true
is_secured get_me = true
is_secured register = false
is_secured get_founder_status = false
is_secured list_channel_types = false
is_secured list_channels = true
is_secured create_channel = true
is_secured delete_channel = true
is_secured get_channel = true
is_secured update_channel = true
is_secured list_custom_domains = true
is_secured request_custom_domain = true
is_secured delete_custom_domain = true
is_secured import_atlassian = true
is_secured create_incident = true
is_secured update_incident_state = true
is_secured list_incident_updates = false
is_secured list_maintenance_windows = true
is_secured schedule_maintenance_window = true
is_secured delete_maintenance_window = true
is_secured get_my_branding = true
is_secured update_my_branding = true
is_secured list_my_subscribers = true
is_secured list_monitor_groups = true
is_secured create_monitor_group = true
is_secured delete_monitor_group = true
is_secured update_monitor_group = true
is_secured list_monitor_types = false
is_secured list_monitors = true
is_secured create_monitor = true
is_secured delete_monitor = true
is_secured get_monitor = true
is_secured update_monitor = true
is_secured bind_channel = true
is_secured unbind_channel = true
is_secured assign_monitor_to_group = true
is_secured toggle_monitor_pause = true
is_secured confirm_newsletter_subscription = false
is_secured subscribe_to_newsletter = false
is_secured unsubscribe_from_newsletter = false
is_secured lookup_custom_domain = false
is_secured get_public_stats = false
is_secured get_status_page = false
is_secured confirm_status_subscription = false
is_secured subscribe_to_status_page = false
is_secured unsubscribe_from_status_page = false
is_secured health_check = false

-- The operation answers 402 in api/openapi.yaml, those of monitor groups aside, which no gate guards.
unfoldable pub is_pro_only : Operation → Bool
is_pro_only request_custom_domain = true
is_pro_only delete_custom_domain = true
is_pro_only import_atlassian = true
is_pro_only create_incident = true
is_pro_only update_incident_state = true
is_pro_only schedule_maintenance_window = true
is_pro_only delete_maintenance_window = true
is_pro_only update_my_branding = true
is_pro_only _ = false
