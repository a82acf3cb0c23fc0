-- ===== src/Guards.antt =====
-- VenueScopedGuard and EntertainerScopedGuard (src/common/guards/venue-scoped.guard.ts,
-- src/common/guards/entertainer-scoped.guard.ts): who may call a route. What the decorators and the
-- request give is an argument.
pub mod Access
use splitcore.Base.{
  ⊤, ℕ, not, Bool, true, false, Option, none, some, ◌==◌, opt_eq, is_some, find_by, if◌then◌else◌,
}
use splitcore.Action.{Result, ok, err, Error}
use splitcore.Schema.{Role, Store}
use splitcore.Auth.{RequestUser}
use splitcore.Entertainers.{is_link}

-- `request.params.venueId || request.body?.venueId`, and `params[name] ?? params.id`
abbrev pub or_else : Option ℕ → Option ℕ → Option ℕ
or_else none other = other
or_else (some id) other = some id

abbrev pub check_venue : RequestUser → Option ℕ → Result Bool
check_venue user none = err Error.forbidden
check_venue user (some resource) =
    if not (opt_eq user.venue_id (some resource)) then err Error.forbidden else ok true

abbrev pub venue_role_check : Role → RequestUser → Option ℕ → Result Bool
venue_role_check Role.platform_admin user resource = ok true
venue_role_check Role.venue_admin user resource = check_venue user resource
venue_role_check Role.entertainer user resource = err Error.forbidden

unfoldable pub venue_scoped_can_activate : Bool → RequestUser → Option ℕ → Option ℕ → Result Bool
venue_scoped_can_activate is_venue_scoped user param body =
    if not is_venue_scoped then ok true else venue_role_check user.role user (or_else param body)

abbrev pub check_self : RequestUser → ℕ → Result Bool
check_self user target =
    if not (opt_eq user.entertainer_id (some target)) then err Error.forbidden else ok true

abbrev pub check_link : Option ℕ → ℕ → Store → Result Bool
check_link none target s = err Error.forbidden
check_link (some venue) target s =
    if not (is_some (find_by (is_link target venue) s.links)) then err Error.forbidden else ok true

abbrev pub entertainer_role_check : Role → RequestUser → ℕ → Store → Result Bool
entertainer_role_check Role.platform_admin user target s = ok true
entertainer_role_check Role.entertainer user target s = check_self user target
entertainer_role_check Role.venue_admin user target s = check_link user.venue_id target s

abbrev pub check_target : Option RequestUser → Option ℕ → Store → Result Bool
check_target user none s = err Error.forbidden
check_target none (some target) s = err Error.forbidden
check_target (some user) (some target) s = entertainer_role_check user.role user target s

unfoldable pub entertainer_scoped_can_activate :
    Bool → Option RequestUser → Option ℕ → Option ℕ → Store → Result Bool
entertainer_scoped_can_activate is_scoped user param id s =
    if not is_scoped then ok true else check_target user (or_else param id) s
