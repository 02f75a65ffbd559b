-- ===== src/Http/Routes/Protected.antt =====
-- Every secured operation of the API is behind the middlewares of internal/adapter/http/setup.go.
use pingcast.Prelude.{
  Bool, true, ◌++◌, [], ◌∷◌, Option, some, Text, codes, ◌≡◌, refl, ap, ◌∙◌, arith,
}
use mathlib.Core.List.{reverse, reverse-append}
use pingcast.Prelude.Strings.{has_prefix, has_suffix}
use pingcast.Error.{ok}
use pingcast.Domain.User.{User, pro}
use pingcast.Store.World.{World, Env}
use pingcast.Http.Access.{Request, Server, next, admit, needs_auth, pro_gated}
use pingcast.Http.Access.Gate.{admit-IsAdmitted}
use pingcast.Http.Routes.{
  Operation, method_of, path_of, is_secured, is_pro_only, list_api_keys, create_api_key,
  revoke_api_key, login, logout, get_me, register, get_founder_status, list_channel_types,
  list_channels, create_channel, delete_channel, get_channel, update_channel, list_custom_domains,
  request_custom_domain, delete_custom_domain, import_atlassian, create_incident,
  update_incident_state, list_incident_updates, list_maintenance_windows,
  schedule_maintenance_window, delete_maintenance_window, get_my_branding, update_my_branding,
  list_my_subscribers, list_monitor_groups, create_monitor_group, delete_monitor_group,
  update_monitor_group, list_monitor_types, list_monitors, create_monitor, delete_monitor,
  get_monitor, update_monitor, bind_channel, unbind_channel, assign_monitor_to_group,
  toggle_monitor_pause, confirm_newsletter_subscription, subscribe_to_newsletter,
  unsubscribe_from_newsletter, lookup_custom_domain, get_public_stats, get_status_page,
  confirm_status_subscription, subscribe_to_status_page, unsubscribe_from_status_page, health_check,
}

secured-needs_auth :
    (op : Operation) (id channel_id : Text)
    → is_secured op ≡ true
    → needs_auth (method_of op) (path_of op id channel_id) ≡ true
unfolding is_secured needs_auth method_of path_of
secured-needs_auth list_api_keys id channel_id h = refl
secured-needs_auth create_api_key id channel_id h = refl
secured-needs_auth revoke_api_key id channel_id h = refl
secured-needs_auth login id channel_id h = cc
secured-needs_auth logout id channel_id h = refl
secured-needs_auth get_me id channel_id h = refl
secured-needs_auth register id channel_id h = cc
secured-needs_auth get_founder_status id channel_id h = cc
secured-needs_auth list_channel_types id channel_id h = cc
secured-needs_auth list_channels id channel_id h = refl
secured-needs_auth create_channel id channel_id h = refl
secured-needs_auth delete_channel id channel_id h = refl
secured-needs_auth get_channel id channel_id h = refl
secured-needs_auth update_channel id channel_id h = refl
secured-needs_auth list_custom_domains id channel_id h = refl
secured-needs_auth request_custom_domain id channel_id h = refl
secured-needs_auth delete_custom_domain id channel_id h = refl
secured-needs_auth import_atlassian id channel_id h = refl
secured-needs_auth create_incident id channel_id h = refl
secured-needs_auth update_incident_state id channel_id h = refl
secured-needs_auth list_incident_updates id channel_id h = cc
secured-needs_auth list_maintenance_windows id channel_id h = refl
secured-needs_auth schedule_maintenance_window id channel_id h = refl
secured-needs_auth delete_maintenance_window id channel_id h = refl
secured-needs_auth get_my_branding id channel_id h = refl
secured-needs_auth update_my_branding id channel_id h = refl
secured-needs_auth list_my_subscribers id channel_id h = refl
secured-needs_auth list_monitor_groups id channel_id h = refl
secured-needs_auth create_monitor_group id channel_id h = refl
secured-needs_auth delete_monitor_group id channel_id h = refl
secured-needs_auth update_monitor_group id channel_id h = refl
secured-needs_auth list_monitor_types id channel_id h = cc
secured-needs_auth list_monitors id channel_id h = refl
secured-needs_auth create_monitor id channel_id h = refl
secured-needs_auth delete_monitor id channel_id h = refl
secured-needs_auth get_monitor id channel_id h = refl
secured-needs_auth update_monitor id channel_id h = refl
secured-needs_auth bind_channel id channel_id h = refl
secured-needs_auth unbind_channel id channel_id h = refl
secured-needs_auth assign_monitor_to_group id channel_id h = refl
secured-needs_auth toggle_monitor_pause id channel_id h = refl
secured-needs_auth confirm_newsletter_subscription id channel_id h = cc
secured-needs_auth subscribe_to_newsletter id channel_id h = cc
secured-needs_auth unsubscribe_from_newsletter id channel_id h = cc
secured-needs_auth lookup_custom_domain id channel_id h = cc
secured-needs_auth get_public_stats id channel_id h = cc
secured-needs_auth get_status_page id channel_id h = cc
secured-needs_auth confirm_status_subscription id channel_id h = cc
secured-needs_auth subscribe_to_status_page id channel_id h = cc
secured-needs_auth unsubscribe_from_status_page id channel_id h = cc
secured-needs_auth health_check id channel_id h = cc

has_prefix-append : (p s : Text) → has_prefix (p ++ s) p ≡ true
has_prefix-append [] s = refl
has_prefix-append (c ∷ p) s = ground (arith, has_prefix-append p s)

has_suffix-append : (s p : Text) → has_suffix (s ++ p) p ≡ true
has_suffix-append s p =
    ap (λ t. has_prefix t (reverse p)) (reverse-append s p)
    ∙ has_prefix-append (reverse p) (reverse s)

pro_only-pro_gated :
    (op : Operation) (id channel_id : Text)
    → is_pro_only op ≡ true
    → pro_gated (method_of op) (path_of op id channel_id) ≡ true
unfolding is_pro_only pro_gated method_of path_of
pro_only-pro_gated list_api_keys id channel_id h = cc
pro_only-pro_gated create_api_key id channel_id h = cc
pro_only-pro_gated revoke_api_key id channel_id h = cc
pro_only-pro_gated login id channel_id h = cc
pro_only-pro_gated logout id channel_id h = cc
pro_only-pro_gated get_me id channel_id h = cc
pro_only-pro_gated register id channel_id h = cc
pro_only-pro_gated get_founder_status id channel_id h = cc
pro_only-pro_gated list_channel_types id channel_id h = cc
pro_only-pro_gated list_channels id channel_id h = cc
pro_only-pro_gated create_channel id channel_id h = cc
pro_only-pro_gated delete_channel id channel_id h = cc
pro_only-pro_gated get_channel id channel_id h = cc
pro_only-pro_gated update_channel id channel_id h = cc
pro_only-pro_gated list_custom_domains id channel_id h = cc
pro_only-pro_gated request_custom_domain id channel_id h = refl
pro_only-pro_gated delete_custom_domain id channel_id h = refl
pro_only-pro_gated import_atlassian id channel_id h = refl
pro_only-pro_gated create_incident id channel_id h = refl
pro_only-pro_gated update_incident_state id channel_id h =
    ground (arith, has_suffix-append (codes "/api/incidents/" ++ id) (codes "/state"))
pro_only-pro_gated list_incident_updates id channel_id h = cc
pro_only-pro_gated list_maintenance_windows id channel_id h = cc
pro_only-pro_gated schedule_maintenance_window id channel_id h = refl
pro_only-pro_gated delete_maintenance_window id channel_id h = refl
pro_only-pro_gated get_my_branding id channel_id h = cc
pro_only-pro_gated update_my_branding id channel_id h = refl
pro_only-pro_gated list_my_subscribers id channel_id h = cc
pro_only-pro_gated list_monitor_groups id channel_id h = cc
pro_only-pro_gated create_monitor_group id channel_id h = cc
pro_only-pro_gated delete_monitor_group id channel_id h = cc
pro_only-pro_gated update_monitor_group id channel_id h = cc
pro_only-pro_gated list_monitor_types id channel_id h = cc
pro_only-pro_gated list_monitors id channel_id h = cc
pro_only-pro_gated create_monitor id channel_id h = cc
pro_only-pro_gated delete_monitor id channel_id h = cc
pro_only-pro_gated get_monitor id channel_id h = cc
pro_only-pro_gated update_monitor id channel_id h = cc
pro_only-pro_gated bind_channel id channel_id h = cc
pro_only-pro_gated unbind_channel id channel_id h = cc
pro_only-pro_gated assign_monitor_to_group id channel_id h = cc
pro_only-pro_gated toggle_monitor_pause id channel_id h = cc
pro_only-pro_gated confirm_newsletter_subscription id channel_id h = cc
pro_only-pro_gated subscribe_to_newsletter id channel_id h = cc
pro_only-pro_gated unsubscribe_from_newsletter id channel_id h = cc
pro_only-pro_gated lookup_custom_domain id channel_id h = cc
pro_only-pro_gated get_public_stats id channel_id h = cc
pro_only-pro_gated get_status_page id channel_id h = cc
pro_only-pro_gated confirm_status_subscription id channel_id h = cc
pro_only-pro_gated subscribe_to_status_page id channel_id h = cc
pro_only-pro_gated unsubscribe_from_status_page id channel_id h = cc
pro_only-pro_gated health_check id channel_id h = cc

-- Whoever gets through the middlewares to an operation that the API describes as secured has a user, and
-- on an operation that answers 402 in api/openapi.yaml that user is on the plan `pro`, whatever the
-- database, the sessions and the limiters answer. The operations of monitor groups, which answer 402
-- there and have no gate, are not among the latter, and the path is the one that the API registers: the
-- forms of it that the router takes too, such as one with a final slash, are left out.
pub admit-IsProtected :
    (op : Operation) (id channel_id : Text) (env : Env) (srv : Server) (req : Request) (w : World)
    (u : Option User)
    → req.method ≡ method_of op
    → req.path ≡ path_of op id channel_id
    → (admit env srv req w).0 ≡ ok (next u)
    → (is_secured op ≡ true → (user : User) × (u ≡ some user))
      × (is_pro_only op ≡ true → (user : User) × (u ≡ some user) × (user.plan ≡ pro))
admit-IsProtected op id channel_id env srv req w u m p h =
    let (known, on_plan) = admit-IsAdmitted env srv req w u h in
    let at = λ (f : Text → Text → Bool).
      ap (f req.method) p ∙ ap (λ t. f t (path_of op id channel_id)) m in
    (
      λ secured. known (at needs_auth ∙ secured-needs_auth op id channel_id secured),
      λ pro_only. on_plan (at pro_gated ∙ pro_only-pro_gated op id channel_id pro_only),
    )
