-- ===== src/Guards/Access.antt =====
-- Who passes the guards (src/common/guards), written down without their order of tests.
use splitcore.Base.{
  ℕ, ◌≡◌, ◌⊎◌, ◌≢◌, ==_refl, refl, inl, inr, Bool, true, Option, none, some, opt_eq, opt_eq_iff,
  is_some, find_by, Bool-cases,
}
use splitcore.Action.{Result, ok, err, Error}
use splitcore.Schema.{Role, Store}
use splitcore.Auth.{RequestUser}
use splitcore.Entertainers.{is_link}
use splitcore.Guards.{
  or_else, venue_role_check, check_link, entertainer_role_check, check_target,
  venue_scoped_can_activate, entertainer_scoped_can_activate,
}

-- Every venue for a platform admin, the own venue for a venue admin.
pub data MayEnter (user : RequestUser) (venue : Option ℕ) : Type 0 where
  any_venue : user.role ≡ Role.platform_admin → MayEnter user venue
  own_venue :
      {id : ℕ}
      → user.role ≡ Role.venue_admin
      → venue ≡ some id
      → user.venue_id ≡ some id
      → MayEnter user venue

-- Every entertainer for a platform admin, those linked to the own venue for a venue admin, and oneself
-- for an entertainer.
pub data MayAct (s : Store) : Option RequestUser → Option ℕ → Type 0 where
  anyone :
      {user : RequestUser} {id : ℕ}
      → user.role ≡ Role.platform_admin
      → MayAct s (some user) (some id)
  oneself :
      {user : RequestUser} {id : ℕ}
      → user.role ≡ Role.entertainer
      → user.entertainer_id ≡ some id
      → MayAct s (some user) (some id)
  performer :
      {user : RequestUser} {id venue : ℕ}
      → user.role ≡ Role.venue_admin
      → user.venue_id ≡ some venue
      → is_some (find_by (is_link id venue) s.links) ≡ true
      → MayAct s (some user) (some id)

-- A guard that decides `P`: it passes where `P` holds, and refuses as forbidden where it does not.
abbrev pub Decides : Result Bool → Type 0 → Type 0
Decides result P = ((result ≡ ok true) × P) ⊎ ((result ≡ err Error.forbidden) × (P → ⊥))

no_one_else :
    (user : RequestUser) (venue : Option ℕ) → user.role ≡ Role.entertainer → MayEnter user venue → ⊥
no_one_else user venue r (any_venue h) = cc (r, h)
no_one_else user venue r (own_venue h v o) = cc (r, h)

own_only :
    (user : RequestUser) (venue : Option ℕ)
    → user.role ≡ Role.venue_admin
    → MayEnter user venue
    → opt_eq user.venue_id venue ≡ true × (venue ≢ none)
own_only user venue r (any_venue h) = absurd (cc (r, h))
own_only user venue r (own_venue {id} h v o) = (rw (v, o) (==_refl id), λ n. cc (n, v))

role_decides :
    (r : Role) (user : RequestUser) (venue : Option ℕ)
    → user.role ≡ r
    → Decides (venue_role_check r user venue) (MayEnter user venue)
role_decides Role.platform_admin user venue r = inl (refl, any_venue r)
role_decides Role.entertainer user venue r = inr (refl, no_one_else user venue r)
role_decides Role.venue_admin user none r = inr (refl, λ m. (own_only user none r m).1 refl)
role_decides Role.venue_admin user (some id) r =
    elim (Bool-cases (opt_eq user.venue_id (some id))) [
      | inl a ↦ inl (rw a refl, own_venue r refl ((opt_eq_iff user.venue_id (some id)).0 a))
      | inr a ↦ inr (rw a refl, λ m. cc (a, (own_only user (some id) r m).0))
    ]

venue_scoped_can_activate-Decides :
    (user : RequestUser) (param body : Option ℕ)
    → Decides (venue_scoped_can_activate true user param body) (MayEnter user (or_else param body))
unfolding venue_scoped_can_activate
venue_scoped_can_activate-Decides user param body =
    role_decides user.role user (or_else param body) refl

module _ (s : Store) where
  self_only :
      (user : RequestUser) (id : ℕ)
      → user.role ≡ Role.entertainer
      → MayAct s (some user) (some id)
      → opt_eq user.entertainer_id (some id) ≡ true
  self_only user id r (anyone h) = absurd (cc (r, h))
  self_only user id r (oneself h o) = rw o (==_refl id)
  self_only user id r (performer h v l) = absurd (cc (r, h))

  linked_only :
      (user : RequestUser) (id : ℕ)
      → user.role ≡ Role.venue_admin
      → MayAct s (some user) (some id)
      → check_link user.venue_id id s ≡ ok true
  linked_only user id r (anyone h) = absurd (cc (r, h))
  linked_only user id r (oneself h o) = absurd (cc (r, h))
  linked_only user id r (performer {venue = venue} h v l) = rw v (rw l refl)

  link_decides :
      (user : RequestUser) (id : ℕ)
      → user.role ≡ Role.venue_admin
      → (venue : Option ℕ) → user.venue_id ≡ venue
      → Decides (check_link user.venue_id id s) (MayAct s (some user) (some id))
  link_decides user id r none e = inr (rw e refl, λ m. cc (rw e at (linked_only user id r m)))
  link_decides user id r (some venue) e =
      elim (Bool-cases (is_some (find_by (is_link id venue) s.links))) [
        | inl a ↦ inl (rw e (rw a refl), performer r e a)
        | inr a ↦ inr (rw e (rw a refl), λ m. cc (rw (e, a) at (linked_only user id r m)))
      ]

  act_decides :
      (r : Role) (user : RequestUser) (id : ℕ)
      → user.role ≡ r
      → Decides (entertainer_role_check r user id s) (MayAct s (some user) (some id))
  act_decides Role.platform_admin user id r = inl (refl, anyone r)
  act_decides Role.entertainer user id r =
      elim (Bool-cases (opt_eq user.entertainer_id (some id))) [
        | inl a ↦ inl (rw a refl, oneself r ((opt_eq_iff user.entertainer_id (some id)).0 a))
        | inr a ↦ inr (rw a refl, λ m. cc (a, self_only user id r m))
      ]
  act_decides Role.venue_admin user id r = link_decides user id r user.venue_id refl

  both_given :
      (user : Option RequestUser) (target : Option ℕ)
      → MayAct s user target
      → (is_some user ≡ true) × (is_some target ≡ true)
  both_given _ _ (anyone h) = (refl, refl)
  both_given _ _ (oneself h o) = (refl, refl)
  both_given _ _ (performer h v l) = (refl, refl)

  target_decides :
      (user : Option RequestUser) (target : Option ℕ)
      → Decides (check_target user target s) (MayAct s user target)
  target_decides user none = inr (refl, λ m. cc ((both_given user none m).1))
  target_decides none (some id) = inr (refl, λ m. cc ((both_given none (some id) m).0))
  target_decides (some user) (some id) = act_decides user.role user id refl

-- On a venue-scoped route the guard lets exactly those pass who may enter the venue of the request,
-- and on an entertainer-scoped one those who may act on its entertainer, by the links in the database;
-- everyone else is refused as forbidden.
pub can_activate-Decides :
    (user : RequestUser) (param body : Option ℕ) (requester : Option RequestUser)
    (target id : Option ℕ) (s : Store)
    → Decides (venue_scoped_can_activate true user param body) (MayEnter user (or_else param body))
      × Decides
          (entertainer_scoped_can_activate true requester target id s)
          (MayAct s requester (or_else target id))
unfolding entertainer_scoped_can_activate
can_activate-Decides user param body requester target id s = (
  venue_scoped_can_activate-Decides user param body,
  target_decides s requester (or_else target id),
)
