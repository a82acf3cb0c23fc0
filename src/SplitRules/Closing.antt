-- ===== src/SplitRules/Closing.antt =====
-- Closing the rules in force of a venue (`closeOutActive` of src/split-rules/split-rules.service.ts).
use mathlib.Core.Path.{subst}
use splitcore.Base.{
  ℕ, ◌≡◌, ◌⊎◌, refl, sym, ◌∙◌, ap, inl, inr, ◌&&◌, Bool, true, false, Option, none, some, List, [],
  ◌∷◌, arith, ◌==◌, ==_refl, filter_by, update_by, any_by, All, Bool-cases,
}
use splitcore.Action.{ok, err, Error}
use splitcore.Schema.{SplitRuleOrigin, SplitRule, Store}
use splitcore.SplitRules.{
  in_force, is_other, set_superseded, close_rules, close_out_active, OverrideSplitRuleDto,
  override_rule, override,
}

-- the rules that a call closes
abbrev selected : ℕ → Option ℕ → SplitRule → Bool
selected venue except r = in_force venue r && is_other except r.id

-- Every selected row of a list has its id in another list.
abbrev Covered : ℕ → Option ℕ → List SplitRule → List SplitRule → Type 0
Covered venue except outgoing rs =
    All (λ r. selected venue except r ≡ true → any_by (λ o. o.id == r.id) outgoing ≡ true) rs

other_id : (o r : SplitRule) → (r.id == o.id) ≡ false → (o.id == r.id) ≡ false
other_id o r h = ground (arith, h)

module _ (venue at : ℕ) (except : Option ℕ) where
  Covered-more :
      (o : SplitRule) (os rs : List SplitRule)
      → Covered venue except os rs
      → Covered venue except (o ∷ os) rs
  Covered-more o os [] h = tt
  Covered-more o os (r ∷ rs) h = (
    λ sel. elim (Bool-cases (o.id == r.id)) [
      | inl same ↦ rw same refl
      | inr other ↦ rw other (h.0 sel)
    ],
    Covered-more o os rs h.1,
  )

  Covered-filter :
      (rs : List SplitRule) → Covered venue except (filter_by (selected venue except) rs) rs
  Covered-filter [] = tt
  Covered-filter (r ∷ rs) = elim (Bool-cases (selected venue except r)) [
    | inl hit ↦
        let rest = filter_by (selected venue except) rs in
        let kept : filter_by (selected venue except) (r ∷ rs) ≡ r ∷ rest = rw hit refl in
        subst (λ os. Covered venue except os (r ∷ rs)) (sym kept)
          ((λ sel. rw (==_refl r.id) refl), Covered-more r rest rs (Covered-filter rs))
    | inr miss ↦
        let dropped : filter_by (selected venue except) (r ∷ rs)
            ≡ filter_by (selected venue except) rs =
          rw miss refl in
        subst (λ os. Covered venue except os (r ∷ rs)) (sym dropped)
          ((λ sel. absurd (cc (sel, miss))), Covered-filter rs)
  ]

  closed_rest :
      (o : SplitRule) (os rs : List SplitRule)
      → Covered venue except (o ∷ os) rs
      → Covered venue except os (update_by (λ x. x.id == o.id) (set_superseded at) rs)
  closed_rest o os [] h = tt
  closed_rest o os (r ∷ rs) h = elim (Bool-cases (r.id == o.id)) [
    | inl hit ↦ rw hit ((λ sel. absurd (ground (arith, sel))), closed_rest o os rs h.1)
    | inr miss ↦ rw miss ((λ sel. rw (other_id o r miss) at (h.0 sel)), closed_rest o os rs h.1)
  ]

  none_selected :
      (rs : List SplitRule) → Covered venue except [] rs → filter_by (selected venue except) rs ≡ []
  none_selected [] h = refl
  none_selected (r ∷ rs) h = elim (Bool-cases (selected venue except r)) [
    | inl hit ↦ absurd (cc (h.0 hit))
    | inr miss ↦ rw (miss, none_selected rs h.1) refl
  ]

  close_rules_lem :
      (os : List SplitRule) (s : Store)
      → Covered venue except os s.split_rules
      → filter_by (selected venue except) (close_rules at except os s).1.split_rules ≡ []
  unfolding close_rules
  close_rules_lem [] s h = none_selected s.split_rules h
  close_rules_lem (o ∷ os) s h = close_rules_lem os _ (closed_rest o os s.split_rules h)

  -- After `closeOutActive` no rule of the venue is in force but the one that it spares, however many
  -- there were before.
  pub close_out_active_lem :
      (s : Store)
      → filter_by
          (λ r. in_force venue r && is_other except r.id)
          (close_out_active venue at except s).1.split_rules
        ≡ []
  unfolding close_out_active
  close_out_active_lem s =
      close_rules_lem (filter_by (selected venue except) s.split_rules) s
        (Covered-filter s.split_rules)

filter_and_true :
    (p : SplitRule → Bool) (rs : List SplitRule) → filter_by (λ r. p r && true) rs ≡ filter_by p rs
filter_and_true p [] = refl
filter_and_true p (r ∷ rs) = elim (Bool-cases (p r)) [
  | inl hit ↦ rw (hit, filter_and_true p rs) refl
  | inr miss ↦ rw (miss, filter_and_true p rs) refl
]

-- A rule that an administrator has forced.
pub record IsOverride (dto : OverrideSplitRuleDto) (user now : ℕ) (r : SplitRule) : Type 0 where
  pub entertainer_bps : r.entertainer_bps ≡ dto.entertainer_bps
  pub venue_bps : r.venue_bps ≡ dto.venue_bps
  pub platform_bps : r.platform_bps ≡ dto.platform_bps
  pub origin : r.origin ≡ SplitRuleOrigin.admin_override
  pub admin : r.proposed_by_user_id ≡ some user
  pub from : r.effective_from ≡ some now

close_rules-ok :
    (at : ℕ) (except : Option ℕ) (os : List SplitRule) (s : Store)
    → ((close_rules at except os s).0 ≡ ok tt)
      × ((close_rules at except os s).1.next_id ≡ s.next_id)
      × ((close_rules at except os s).1.venues ≡ s.venues)
unfolding close_rules
close_rules-ok at except [] s = (refl, refl, refl)
close_rules-ok at except (o ∷ os) s = close_rules-ok at except os _

-- An override at a venue that exists returns, and leaves exactly one rule in force there, whatever
-- rules were in force before: the one it creates, of the administrator and with the shares asked for, in
-- force from now on. At a venue that does not exist it is refused, and changes nothing.
pub override-in_force :
    (hash_token : ℕ → ℕ) (now : ℕ) (dto : OverrideSplitRuleDto) (admin : ℕ) (s : Store)
    → ((any_by (λ v. v.id == dto.venue_id) s.venues ≡ true)
        × ((r : SplitRule) × ((override hash_token now dto admin s).0 ≡ ok r)
            × (filter_by (in_force dto.venue_id) (override hash_token now dto admin s).1.split_rules
                ≡ r ∷ [])
            × IsOverride dto admin now r))
      ⊎ ((any_by (λ v. v.id == dto.venue_id) s.venues ≡ false)
          × (override hash_token now dto admin s ≡ (err Error.external, s)))
unfolding override close_out_active
override-in_force hash_token now dto admin s =
    let outgoing = filter_by (λ r. in_force dto.venue_id r && is_other none r.id) s.split_rules in
    let (runs, same, kept) = close_rules-ok now none outgoing s in
    let cleared =
      sym (filter_and_true (in_force dto.venue_id) (close_rules now none outgoing s).1.split_rules)
      ∙ close_out_active_lem dto.venue_id now none s in
    elim (Bool-cases (any_by (λ v. v.id == dto.venue_id) s.venues)) [
      | inl exists ↦ inl (
        exists,
        (
          override_rule dto admin now s.next_id,
          rw (runs, same, kept, exists) refl,
          rw (runs, same, kept, exists, ==_refl dto.venue_id)
              (ap (λ rs. override_rule dto admin now s.next_id ∷ rs) cleared),
          record {
            entertainer_bps = refl;
            venue_bps = refl;
            platform_bps = refl;
            origin = refl;
            admin = refl;
            from = refl;
          },
        ),
      )
      | inr missing ↦ inr (missing, rw (runs, same, kept, missing) refl)
    ]
