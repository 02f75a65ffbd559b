-- ===== src/Http/Handlers/Groups.antt =====
-- internal/adapter/http/monitor_groups.go and custom_domains.go.
use pingcast.Prelude.{ℕ, if◌then◌else◌, Option, none, some, List, map, Text, String}
use pingcast.Prelude.Int.{ℤ, pos}
use pingcast.Error.{Error, Result, is_err, forbidden}
use pingcast.Domain.User.{User}
use pingcast.Domain.Group.{MonitorGroup}
use pingcast.Domain.CustomDomain.{CustomDomain, CustomDomainStatus}
use pingcast.Store.World.{Env}
use pingcast.Store.Exec.{Exec}
use pingcast.Monitoring.Groups.{
  create_monitor_group, list_monitor_groups, update_monitor_group, delete_monitor_group,
  assign_monitor_group,
}
use pingcast.CustomDomains.{request_domain, delete_domain}
use pingcast.Http.Respond.{
  Rendering, Response, answer, failure, envelope, invalid_hostname, forbidden_envelope,
}
use pingcast.Http.Handlers.{
  Libraries, require_user, parsed, write, served, created, succeeded, no_content,
}

pub record ApiMonitorGroup : Type 0 where
  pub id : ℕ
  pub name : Text
  pub ordering : ℤ
  pub created_at : ℕ

abbrev pub group_to_api : MonitorGroup → ApiMonitorGroup
group_to_api g = record {
  id = g.id;
  name = g.name;
  ordering = g.ordering;
  created_at = g.created_at;
}

unfoldable pub list_monitor_groups_handler :
    Env → Libraries → Option User → Exec (Response (List ApiMonitorGroup))
unfolding write
list_monitor_groups_handler env libs user = require_user user λ u.
    served (list_monitor_groups env u.id) (write libs.rendering)
      λ gs. succeeded (map group_to_api gs)

pub record GroupRequest : Type 0 where
  pub name : Text
  pub ordering : Option ℤ

abbrev pub ordering_of : Option ℤ → ℤ
ordering_of none = pos 0
ordering_of (some i) = i

unfoldable pub create_monitor_group_handler :
    Env → Libraries → Option User → Option GroupRequest → Exec (Response ApiMonitorGroup)
unfolding write
create_monitor_group_handler env libs user body = require_user user λ u. parsed body λ req.
    served (create_monitor_group env u.id req.name (ordering_of req.ordering))
      (write libs.rendering) λ g. created (group_to_api g)

unfoldable pub update_monitor_group_handler :
    Env → Libraries → Option User → ℕ → Option GroupRequest → Exec (Response (Unit {0}))
unfolding write
update_monitor_group_handler env libs user id body = require_user user λ u. parsed body λ req.
    served (update_monitor_group env id u.id req.name (ordering_of req.ordering))
      (write libs.rendering) λ _. no_content

unfoldable pub delete_monitor_group_handler :
    Env → Libraries → Option User → ℕ → Exec (Response (Unit {0}))
unfolding write
delete_monitor_group_handler env libs user id =
    require_user user
      λ u. served (delete_monitor_group env id u.id) (write libs.rendering) (λ _. no_content)

-- The body carries the group, or none to take the monitor out of its group.
unfoldable pub assign_monitor_to_group_handler :
    Env → Libraries → Option User → ℕ → Option (Option ℕ) → Exec (Response (Unit {0}))
unfolding write
assign_monitor_to_group_handler env libs user id body = require_user user λ u.
    parsed body λ group_id.
      served (assign_monitor_group env id u.id group_id) (write libs.rendering) λ _. no_content

-- What `RequestDomain` takes beside the user and the hostname.
pub record Hostnames : Type 0 where
  pub to_lower : Text → Text
  pub validate_hostname : Text → Option Error
  pub token : Result Text

abbrev pub refused_hostname : {B : Type 0} → Rendering → Error → Response B
unfolding forbidden_envelope
refused_hostname r e =
    if is_err e forbidden
    then answer (failure forbidden_envelope)
    else answer (failure (envelope 422 invalid_hostname (r.text e)))

pub record ApiCustomDomain : Type 0 where
  pub id : ℕ
  pub hostname : Text
  pub validation_token : Text
  pub status : CustomDomainStatus
  pub last_error : Option String
  pub dns_validated_at : Option ℕ
  pub cert_issued_at : Option ℕ
  pub created_at : ℕ

abbrev pub custom_domain_to_api : CustomDomain → ApiCustomDomain
custom_domain_to_api d = record {
  id = d.id;
  hostname = d.hostname;
  validation_token = d.validation_token;
  status = d.status;
  last_error = d.last_error;
  dns_validated_at = d.dns_validated_at;
  cert_issued_at = d.cert_issued_at;
  created_at = d.created_at;
}

unfoldable pub request_custom_domain_handler :
    Env → Libraries → Hostnames → Option User → Option Text → Exec (Response ApiCustomDomain)
unfolding forbidden_envelope
request_custom_domain_handler env libs h user body = require_user user λ u. parsed body λ hostname.
    served (request_domain env h.to_lower h.validate_hostname h.token u.id hostname)
      (λ e. refused_hostname libs.rendering e) λ d. created (custom_domain_to_api d)

unfoldable pub delete_custom_domain_handler :
    Env → Libraries → Option User → ℕ → Exec (Response (Unit {0}))
unfolding write
delete_custom_domain_handler env libs user id =
    require_user user
      λ u. served (delete_domain env id u.id) (write libs.rendering) (λ _. no_content)
