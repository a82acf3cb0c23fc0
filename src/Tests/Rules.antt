-- ===== src/Tests/Rules.antt =====
-- Runs of the rules of a split (src/split-rules/split-rules.service.ts).
use splitcore.Base.{◌≡◌, [], ◌∷◌, filter_by}
use splitcore.Int.{pos}
use splitcore.Action.{ok}
use splitcore.SplitRules.{OverrideSplitRuleDto, in_force, override}
use splitcore.Base.{◌⊎◌, ◌==◌, true, false, any_by}
use splitcore.Action.{err, Error}
use splitcore.Schema.{SplitRule}
use splitcore.SplitRules.Closing.{IsOverride, override-in_force}
use splitcore.Tests.{tables}

abbrev forced : OverrideSplitRuleDto
forced = record {
  venue_id = 10;
  entertainer_bps = pos 5000;
  venue_bps = pos 4500;
  platform_bps = pos 500;
  reason = "dispute";
}

override-in_force_example :
    ((any_by (λ v. v.id == 10) tables.venues ≡ true)
      × ((r : SplitRule) × ((override (λ token. token) 5 forced 30 tables).0 ≡ ok r)
          × (filter_by (in_force 10) (override (λ token. token) 5 forced 30 tables).1.split_rules
              ≡ r ∷ [])
          × IsOverride forced 30 5 r))
    ⊎ ((any_by (λ v. v.id == 10) tables.venues ≡ false)
        × (override (λ token. token) 5 forced 30 tables ≡ (err Error.external, tables)))
override-in_force_example = override-in_force (λ token. token) 5 forced 30 tables
