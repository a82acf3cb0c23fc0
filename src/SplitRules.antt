-- ===== src/SplitRules.antt =====
-- SplitRulesService, SplitRuleSumValidator and PlatformSettingsService
-- (src/split-rules/split-rules.service.ts, src/split-rules/validators/split-rule-sum.validator.ts,
-- src/platform-settings/platform-settings.service.ts). The hash of a token, the random token and
-- the clock are parameters; a token and a hash are numbers that are only compared.
pub mod Consent
pub mod Closing
use splitcore.Base.{
  ⊤, ℕ, suc, ◌&&◌, not, Bool, true, false, Option, none, some, List, [], ◌∷◌, String, ◌==◌, ltb,
  is_some, opt_eq, find_by, filter_by, update_by, count_by, any_by, if◌then◌else◌,
}
use splitcore.Int.{ℤ, pos, ◌+ℤ◌, ◌-ℤ◌, eq_ℤ}
use splitcore.Action.{
  Action, Result, ok, err, Error, ◌>>=◌, ◌>>◌, pure, throw, gets, or_throw, transaction, modify,
  throw_if,
}
use splitcore.Schema.{
  SplitRuleStatus, rule_eq, SplitRuleOrigin, SplitRule, AuditEvent, Actor, venue_admin_actor,
  platform_admin_actor, entertainer_actor, system, SplitRuleAuditEvent, PlatformSettings, Store,
}

abbrev pub default_platform_fee_bps : ℤ
default_platform_fee_bps = pos 500

-- `get`: a missing row is made with the default fee
abbrev pub or_default : Option PlatformSettings → Action Store PlatformSettings
or_default (some settings) = pure settings
or_default none = do
  modify (λ s. record s {
    settings =
        some (record { platform_fee_bps = default_platform_fee_bps; updated_by_user_id = none });
  })
  pure (record { platform_fee_bps = default_platform_fee_bps; updated_by_user_id = none })

unfoldable pub get_settings : Action Store PlatformSettings
get_settings s = or_default s.settings s

unfoldable pub update_settings : ℤ → ℕ → Action Store PlatformSettings
update_settings fee user = do
  get_settings
  modify (λ s. record s {
    settings = some (record { platform_fee_bps = fee; updated_by_user_id = some user });
  })
  pure (record { platform_fee_bps = fee; updated_by_user_id = some user })

-- `value ?? 0`
abbrev or_zero : Option ℤ → ℤ
or_zero none = pos 0
or_zero (some n) = n

-- SplitRuleSumValidator.validate
unfoldable pub is_full_split : Option ℤ → Option ℤ → Option ℤ → Bool
is_full_split entertainer venue platform =
    eq_ℤ (or_zero entertainer +ℤ or_zero venue +ℤ or_zero platform) (pos 10000)

pub record CreateSplitRuleDto : Type 0 where
  pub venue_id : ℕ
  pub entertainer_id : ℕ
  pub entertainer_bps : ℤ
  pub venue_bps : ℤ

pub record OverrideSplitRuleDto : Type 0 where
  pub venue_id : ℕ
  pub entertainer_bps : ℤ
  pub venue_bps : ℤ
  pub platform_bps : ℤ
  pub reason : String

pub data Decision : Type 0 where
  accept reject : Decision

abbrev pub is_open_proposal : SplitRule → Bool
is_open_proposal r = rule_eq r.status SplitRuleStatus.pending_entertainer_approval

-- `{ venueId, status: ACTIVE, effectiveTo: null }`
abbrev pub in_force : ℕ → SplitRule → Bool
in_force venue r =
    r.venue_id == venue && (rule_eq r.status SplitRuleStatus.active && not (is_some r.effective_to))

abbrev pub update_rules : (SplitRule → Bool) → (SplitRule → SplitRule) → Action Store ℕ
update_rules p f s =
    (ok (count_by p s.split_rules), record s { split_rules = update_by p f s.split_rules })

-- another rule has the hash
abbrev pub is_hash_taken : Option ℕ → Store → Bool
is_hash_taken none s = false
is_hash_taken (some hash) s = any_by (λ r. opt_eq r.response_token_hash (some hash)) s.split_rules

-- What the database asks of a new rule: the foreign key of `venueId`, and the unique
-- `responseTokenHash`.
abbrev pub is_storable : SplitRule → Store → Bool
is_storable r s =
    any_by (λ v. v.id == r.venue_id) s.venues && not (is_hash_taken r.response_token_hash s)

abbrev pub insert_rule : Bool → SplitRule → Action Store SplitRule
insert_rule false r s = (err Error.external, s)
insert_rule true r s = (ok r, record s { split_rules = r ∷ s.split_rules; next_id = suc s.next_id })

abbrev pub create_rule : (ℕ → SplitRule) → Action Store SplitRule
create_rule make s = insert_rule (is_storable (make s.next_id) s) (make s.next_id) s

abbrev pub write_audit : ℕ → AuditEvent → Actor → Option ℕ → Action Store ⊤
write_audit id event actor actor_id = modify (λ s. record s {
  audit_events =
      record { split_rule_id = id; event = event; actor_type = actor; actor_id = actor_id }
      ∷ s.audit_events;
})

abbrev pub set_withdrawn : SplitRule → SplitRule
set_withdrawn r = record r { status = SplitRuleStatus.withdrawn; response_token_hash = none }

-- the rule that `propose` creates
abbrev pub proposed_rule : CreateSplitRuleDto → ℤ → ℕ → ℕ → ℕ → ℕ → SplitRule
proposed_rule dto platform_bps user now hash id = record {
  id = id;
  venue_id = dto.venue_id;
  entertainer_bps = dto.entertainer_bps;
  venue_bps = dto.venue_bps;
  platform_bps = platform_bps;
  effective_from = none;
  effective_to = none;
  status = SplitRuleStatus.pending_entertainer_approval;
  origin = SplitRuleOrigin.venue_proposal;
  entertainer_id = some dto.entertainer_id;
  proposed_by_user_id = some user;
  proposed_at = now;
  responded_at = none;
  response_token_hash = some hash;
}

-- the rule that `override` creates
abbrev pub override_rule : OverrideSplitRuleDto → ℕ → ℕ → ℕ → SplitRule
override_rule dto admin now id = record {
  id = id;
  venue_id = dto.venue_id;
  entertainer_bps = dto.entertainer_bps;
  venue_bps = dto.venue_bps;
  platform_bps = dto.platform_bps;
  effective_from = some now;
  effective_to = none;
  status = SplitRuleStatus.active;
  origin = SplitRuleOrigin.admin_override;
  entertainer_id = none;
  proposed_by_user_id = some admin;
  proposed_at = now;
  responded_at = none;
  response_token_hash = none;
}

abbrev pub set_superseded : ℕ → SplitRule → SplitRule
set_superseded at r = record r { status = SplitRuleStatus.superseded; effective_to = some at }

abbrev pub is_other : Option ℕ → ℕ → Bool
is_other none id = true
is_other (some except) id = not (id == except)

-- the loop of `closeOutActive` over the rules that it found
unfoldable pub close_rules : ℕ → Option ℕ → List SplitRule → Action Store ⊤
close_rules at except [] = pure tt
close_rules at except (r ∷ rs) = do
  update_rules (λ x. x.id == r.id) (set_superseded at)
  write_audit r.id (AuditEvent.superseded except) system none
  close_rules at except rs

unfoldable pub close_out_active : ℕ → ℕ → Option ℕ → Action Store ⊤
close_out_active venue at except = do
  outgoing ← gets (λ s. filter_by (λ r. in_force venue r && is_other except r.id) s.split_rules)
  close_rules at except outgoing

-- `orderBy: { effectiveFrom: 'desc' }`, where the database puts null first
abbrev pub is_later : Option ℕ → Option ℕ → Bool
is_later none none = false
is_later none (some b) = true
is_later (some a) none = false
is_later (some a) (some b) = ltb b a

abbrev pub later_of : Option SplitRule → SplitRule → Option SplitRule
later_of none r = some r
later_of (some best) r = if is_later best.effective_from r.effective_from then some best else some r

abbrev pub latest : List SplitRule → Option SplitRule
latest [] = none
latest (r ∷ rs) = later_of (latest rs) r

-- `findActiveByVenue`, without its NotFoundException
unfoldable pub find_active_by_venue : ℕ → Store → Option SplitRule
find_active_by_venue venue s = latest (filter_by (in_force venue) s.split_rules)

abbrev pub set_answered : Decision → ℕ → SplitRule → SplitRule
set_answered accept now r = record r {
  status = SplitRuleStatus.active;
  effective_from = some now;
  responded_at = some now;
  response_token_hash = none;
}
set_answered reject now r = record r {
  status = SplitRuleStatus.rejected;
  responded_at = some now;
  response_token_hash = none;
}

abbrev pub answer_event : Decision → AuditEvent
answer_event accept = AuditEvent.accepted
answer_event reject = AuditEvent.rejected

abbrev pub close_if_accepted : Decision → ℕ → ℕ → ℕ → Action Store ⊤
close_if_accepted accept venue now id = close_out_active venue now (some id)
close_if_accepted reject venue now id = pure tt

module _ (hash_token : ℕ → ℕ) (now : ℕ) where
  -- the transaction of `propose`
  unfoldable pub create_proposal : CreateSplitRuleDto → ℤ → ℕ → ℕ → Action Store SplitRule
  create_proposal dto platform_bps user token = do
    withdrawn ← update_rules (λ r. r.venue_id == dto.venue_id && is_open_proposal r) set_withdrawn
    created ← create_rule (proposed_rule dto platform_bps user now (hash_token token))
    write_audit created.id
        (AuditEvent.proposed dto.entertainer_bps dto.venue_bps platform_bps dto.entertainer_id
          withdrawn)
        venue_admin_actor (some user)
    pure created

  unfoldable pub propose_at :
      CreateSplitRuleDto → ℕ → ℕ → PlatformSettings → Action Store (SplitRule × ℕ)
  propose_at dto user token settings = do
    throw_if
        (not (eq_ℤ (dto.entertainer_bps +ℤ dto.venue_bps) (pos 10000 -ℤ settings.platform_fee_bps)))
        Error.bad_request
    entertainer ← gets (λ s. find_by (λ e. e.id == dto.entertainer_id) s.entertainers)
    throw_if (not (is_some entertainer)) Error.not_found
    link ← gets (λ s.
        find_by (λ l. l.venue_id == dto.venue_id && l.entertainer_id == dto.entertainer_id) s.links)
    throw_if (not (is_some link)) Error.bad_request
    rule ← transaction (create_proposal dto settings.platform_fee_bps user token)
    pure (rule, token)

  unfoldable pub propose : CreateSplitRuleDto → ℕ → ℕ → Action Store (SplitRule × ℕ)
  propose dto user token = do settings ← get_settings; propose_at dto user token settings

  unfoldable pub override : OverrideSplitRuleDto → ℕ → Action Store SplitRule
  override dto admin = transaction do
    close_out_active dto.venue_id now none
    created ← create_rule (override_rule dto admin now)
    write_audit created.id
        (AuditEvent.admin_override dto.reason dto.entertainer_bps dto.venue_bps dto.platform_bps)
        platform_admin_actor (some admin)
    pure created

  abbrev pub has_token : ℕ → SplitRule → Bool
  has_token token r = opt_eq r.response_token_hash (some (hash_token token)) && is_open_proposal r

  abbrev pub if_token : ℕ → Option SplitRule → Option SplitRule
  if_token token none = none
  if_token token (some r) = if has_token token r then some r else none

  -- `findByConsentToken`: an unknown rule, a wrong token and an answered rule look the same
  unfoldable pub find_by_consent_token : ℕ → ℕ → Action Store SplitRule
  find_by_consent_token id token s =
      or_throw Error.not_found (if_token token (find_by (λ r. r.id == id) s.split_rules)) s

  unfoldable pub record_answer : SplitRule → Decision → Action Store SplitRule
  record_answer rule decision = do
    write_audit rule.id (answer_event decision) entertainer_actor rule.entertainer_id
    updated ← gets (λ s. find_by (λ r. r.id == rule.id) s.split_rules)
    or_throw Error.external updated

  unfoldable pub finish_answer : SplitRule → Decision → Action Store SplitRule
  finish_answer rule decision = do
    close_if_accepted decision rule.venue_id now rule.id
    record_answer rule decision

  -- the transaction of `respond`
  unfoldable pub answer : SplitRule → Decision → Action Store SplitRule
  answer rule decision = do
    claimed ← update_rules (λ r. r.id == rule.id && is_open_proposal r) (set_answered decision now)
    if claimed == 0 then throw Error.conflict else finish_answer rule decision

  unfoldable pub respond : ℕ → ℕ → Decision → Action Store SplitRule
  respond id token decision = do
    rule ← find_by_consent_token id token
    transaction (answer rule decision)
