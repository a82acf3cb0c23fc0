-- ===== src/SplitRules/Consent.antt =====
-- What a proposal and an answer may do to the rules (src/split-rules/split-rules.service.ts).
use mathlib.Core.Option.{some-injective}
use mathlib.Core.Path.{subst}
use splitcore.Base.{
  ℕ, ◌≡◌, refl, sym, ◌∙◌, ap, inl, inr, ◌&&◌, Bool, true, false, Option, none, some, List, [], ◌∷◌,
  arith, ◌==◌, ==_iff, is_some, find_by, filter_by, update_by, count_by, if◌then◌else◌, Bool-cases,
  Option-cases,
}
use splitcore.Int.{ℤ, pos, ◌+ℤ◌, ◌-ℤ◌, eq_ℤ}
use splitcore.Action.{ok, err, Error}
use splitcore.Action.Keeps.{Keeps, bind-Keeps, pure-Keeps, transaction-Keeps, settled-run}
use splitcore.Schema.{SplitRule, PlatformSettings, Store}
use splitcore.SplitRules.{
  get_settings, is_storable, CreateSplitRuleDto, Decision, accept, reject, is_open_proposal,
  in_force, set_withdrawn, proposed_rule, set_superseded, close_rules, close_out_active,
  set_answered, create_proposal, propose_at, propose, is_other, close_if_accepted, record_answer,
  finish_answer, has_token, if_token, find_by_consent_token, answer, respond,
}

-- Withdrawing open proposals leaves the rules in force, for every venue.
withdraw-in_force :
    (venue v : ℕ) (rs : List SplitRule)
    → filter_by
        (in_force venue)
        (update_by (λ r. r.venue_id == v && is_open_proposal r) set_withdrawn rs)
      ≡ filter_by (in_force venue) rs
withdraw-in_force venue v [] = refl
withdraw-in_force venue v (r ∷ rs) = elim (Bool-cases (r.venue_id == v && is_open_proposal r)) [
  | inr other ↦ rw (other, withdraw-in_force venue v rs) refl
  | inl open_rule ↦ rw (open_rule, withdraw-in_force venue v rs) (ground (arith, open_rule))
]

-- the hash that the rule of an id holds
abbrev hash_of : ℕ → List SplitRule → Option ℕ
hash_of id [] = none
hash_of id (r ∷ rs) = if r.id == id then r.response_token_hash else hash_of id rs

find-hash_of :
    (id : ℕ) (rs : List SplitRule) {r : SplitRule}
    → find_by (λ x. x.id == id) rs ≡ some r
    → hash_of id rs ≡ r.response_token_hash
find-hash_of id [] found = cc
find-hash_of id (x ∷ rs) {r} found = elim (Bool-cases (x.id == id)) [
  | inl mine ↦ rw mine (ap (λ y. y.response_token_hash) (some-injective x r (rw mine at found)))
  | inr other ↦ rw other (find-hash_of id rs (rw other at found))
]

close-hash_of :
    (id other at : ℕ) (rs : List SplitRule)
    → hash_of id (update_by (λ x. x.id == other) (set_superseded at) rs) ≡ hash_of id rs
close-hash_of id other at [] = refl
close-hash_of id other at (r ∷ rs) = elim (Bool-cases (r.id == other)) [
  | inl hit ↦ rw (hit, close-hash_of id other at rs) refl
  | inr miss ↦ rw (miss, close-hash_of id other at rs) refl
]

close_rules-hash_of :
    (id at : ℕ) (except : Option ℕ) (outgoing : List SplitRule) (s : Store)
    → hash_of id (close_rules at except outgoing s).1.split_rules ≡ hash_of id s.split_rules
unfolding close_rules
close_rules-hash_of id at except [] s = refl
close_rules-hash_of id at except (r ∷ rs) s =
    close_rules-hash_of id at except rs _ ∙ close-hash_of id r.id at s.split_rules

set_answered-fields :
    (d : Decision) (now : ℕ) (r : SplitRule)
    → ((set_answered d now r).id ≡ r.id) × ((set_answered d now r).response_token_hash ≡ none)
set_answered-fields accept now r = (refl, refl)
set_answered-fields reject now r = (refl, refl)

answered-hash_of :
    (id now : ℕ) (d : Decision) (rs : List SplitRule) {r : SplitRule}
    → find_by (λ x. x.id == id) rs ≡ some r
    → is_open_proposal r ≡ true
    → hash_of id (update_by (λ x. x.id == id && is_open_proposal x) (set_answered d now) rs) ≡ none
answered-hash_of id now d [] found opened = cc
answered-hash_of id now d (x ∷ rs) {r} found opened = elim (Bool-cases (x.id == id)) [
  | inl mine ↦
      let same = some-injective x r (rw mine at found) in
      let here = subst (λ y. is_open_proposal y ≡ true) (sym same) opened in
      let (kept, burnt) = set_answered-fields d now x in rw (mine, here, kept, mine) burnt
  | inr other ↦ rw (other, other) (answered-hash_of id now d rs (rw other at found) opened)
]

-- The rules in force of a venue are a given list.
abbrev InForce : ℕ → List SplitRule → Store → Type 0
InForce venue rules s = filter_by (in_force venue) s.split_rules ≡ rules

module _ (hash_token : ℕ → ℕ) (now venue : ℕ) where
  pending-in_force :
      (dto : CreateSplitRuleDto) (fee : ℤ) (user hash id : ℕ)
      → in_force venue (proposed_rule dto fee user now hash id) ≡ false
  pending-in_force dto fee user hash id = ground arith

  create_proposal-InForce :
      (dto : CreateSplitRuleDto) (fee : ℤ) (user token : ℕ) (rules : List SplitRule)
      → Keeps (InForce venue rules) (create_proposal hash_token now dto fee user token)
  unfolding create_proposal
  create_proposal-InForce dto fee user token rules = record {
    run = λ s p.
        let open_here = λ (r : SplitRule). r.venue_id == dto.venue_id && is_open_proposal r in
        let kept = withdraw-in_force venue dto.venue_id s.split_rules ∙ p in
        elim (Bool-cases (
          is_storable (proposed_rule dto fee user now (hash_token token) s.next_id)
            (record s { split_rules = update_by open_here set_withdrawn s.split_rules }))) [
              | inr refused ↦ rw refused kept
              | inl stored ↦
                  rw stored (rw (pending-in_force dto fee user (hash_token token) s.next_id) kept)
            ];
  }

  propose_at-InForce :
      (dto : CreateSplitRuleDto) (user token : ℕ) (settings : PlatformSettings)
      (rules : List SplitRule)
      → Keeps (InForce venue rules) (propose_at hash_token now dto user token settings)
  unfolding propose_at
  propose_at-InForce dto user token settings rules = record {
    run = λ s p.
        elim (Bool-cases
          (eq_ℤ (dto.entertainer_bps +ℤ dto.venue_bps) (pos 10000 -ℤ settings.platform_fee_bps))) [
            | inr wrong ↦ rw wrong p
            | inl full ↦
                elim (Bool-cases
                  (is_some (find_by (λ e. e.id == dto.entertainer_id) s.entertainers))) [
                    | inr missing ↦ rw (full, missing) p
                    | inl known ↦
                        elim (Bool-cases (
                          is_some (
                            find_by
                              (λ l.
                                l.venue_id == dto.venue_id
                                && l.entertainer_id == dto.entertainer_id)
                              s.links))) [
                                | inr missing ↦ rw (full, known, missing) p
                                | inl linked ↦
                                    rw (full, known, linked)
                                      ((bind-Keeps
                                          (transaction-Keeps (
                                            create_proposal-InForce dto settings.platform_fee_bps
                                              user token rules))
                                          λ rule. pure-Keeps).run
                                        s p)
                              ]
                  ]
          ];
  }

  -- A proposal, whether it is made or refused, leaves every venue's rules in force as they were.
  pub propose-in_force :
      (dto : CreateSplitRuleDto) (user token : ℕ) (s : Store)
      → filter_by (in_force venue) (propose hash_token now dto user token s).1.split_rules
        ≡ filter_by (in_force venue) s.split_rules
  unfolding propose get_settings
  propose-in_force dto user token s = elim (Option-cases s.settings) [
    | inr (x, set) ↦ rw set (
        (propose_at-InForce dto user token x (filter_by (in_force venue) s.split_rules)).run _ refl)
    | inl unset ↦ rw unset (
        (propose_at-InForce dto user token _ (filter_by (in_force venue) s.split_rules)).run _ refl)
  ]

-- The link of a rule is dead.
abbrev IsBurnt : ℕ → Store → Type 0
IsBurnt id s = hash_of id s.split_rules ≡ none

module _ (hash_token : ℕ → ℕ) (now : ℕ) where
  record_answer-IsBurnt :
      (rule : SplitRule) (d : Decision)
      → Keeps (IsBurnt rule.id) (record_answer hash_token now rule d)
  unfolding record_answer
  record_answer-IsBurnt rule d = record {
    run = λ s p. elim (Option-cases (find_by (λ r. r.id == rule.id) s.split_rules)) [
      | inl missing ↦ rw missing p
      | inr (r, found) ↦ rw found p
    ];
  }

  close_if_accepted-IsBurnt :
      (id venue : ℕ) (d : Decision) → Keeps (IsBurnt id) (close_if_accepted d venue now id)
  unfolding close_out_active
  close_if_accepted-IsBurnt id venue accept = record {
    run = λ s p.
        close_rules-hash_of id now (some id)
          (filter_by (λ r. in_force venue r && is_other (some id) r.id) s.split_rules) s
        ∙ p;
  }
  close_if_accepted-IsBurnt id venue reject = record { run = λ s p. p }

  finish_answer-IsBurnt :
      (rule : SplitRule) (d : Decision)
      → Keeps (IsBurnt rule.id) (finish_answer hash_token now rule d)
  unfolding finish_answer
  finish_answer-IsBurnt rule d =
      bind-Keeps (close_if_accepted-IsBurnt rule.id rule.venue_id d)
        λ _. record_answer-IsBurnt rule d

  answer-IsBurnt :
      (rule : SplitRule) (d : Decision) (s : Store)
      → find_by (λ r. r.id == rule.id) s.split_rules ≡ some rule
      → is_open_proposal rule ≡ true
      → IsBurnt rule.id (answer hash_token now rule d s).1
  unfolding answer
  answer-IsBurnt rule d s found opened =
      let claim : SplitRule → Bool = λ r. r.id == rule.id && is_open_proposal r in
      let s' = record s { split_rules = update_by claim (set_answered d now) s.split_rules } in
      let p = answered-hash_of rule.id now d s.split_rules found opened in
      elim (Bool-cases (count_by claim s.split_rules == 0)) [
        | inl lost ↦ rw lost p
        | inr won ↦ rw won ((finish_answer-IsBurnt rule d).run s' p)
      ]

  burnt-if_token :
      (id token : ℕ) (rs : List SplitRule)
      → hash_of id rs ≡ none
      → if_token hash_token now token (find_by (λ r. r.id == id) rs) ≡ none
  burnt-if_token id token [] burnt = refl
  burnt-if_token id token (r ∷ rs) burnt = elim (Bool-cases (r.id == id)) [
    | inl mine ↦ rw (mine, rw mine at burnt) refl
    | inr other ↦ rw other (burnt-if_token id token rs (rw other at burnt))
  ]

  token_of :
      (id token : ℕ) (rs : List SplitRule) {r : SplitRule}
      → if_token hash_token now token (find_by (λ r. r.id == id) rs) ≡ some r
      → (find_by (λ r. r.id == id) rs ≡ some r) × (r.id ≡ id) × (is_open_proposal r ≡ true)
  token_of id token [] e = cc
  token_of id token (x ∷ rs) {r} e = elim (Bool-cases (x.id == id)) [
    | inr other ↦
        let (found, same, opened) = token_of id token rs (rw other at e) in
        (rw other found, same, opened)
    | inl mine ↦ elim (Bool-cases (has_token hash_token now token x)) [
      | inr wrong ↦ absurd (cc (rw (mine, wrong) at e))
      | inl right ↦
          let same = some-injective x r (rw (mine, right) at e) in
          (
            rw mine (ap some same),
            subst (λ y. y.id ≡ id) same ((==_iff x.id id).0 mine),
            subst (λ y. is_open_proposal y ≡ true) same (ground (arith, right)),
          )
    ]
  ]

  respond-IsBurnt :
      (id token : ℕ) (d : Decision) (s : Store) {r : SplitRule}
      → (respond hash_token now id token d s).0 ≡ ok r
      → IsBurnt id (respond hash_token now id token d s).1
  unfolding respond find_by_consent_token
  respond-IsBurnt id token d s done =
      elim (Option-cases
        (if_token hash_token now token (find_by (λ r. r.id == id) s.split_rules))) [
          | inl refused ↦ absurd (cc (rw refused at done))
          | inr (rule, allowed) ↦
              let (found, same, opened) = token_of id token s.split_rules allowed in
              let burnt =
                subst (λ k. IsBurnt k (answer hash_token now rule d s).1) same
                  (answer-IsBurnt rule d s
                    (subst (λ k. find_by (λ r. r.id == k) s.split_rules ≡ some rule) (sym same)
                      found)
                    opened) in
              rw allowed (
                settled-run (IsBurnt id) (answer hash_token now rule d) s burnt
                  (rw allowed at done))
        ]

  -- Once a proposal was answered, its link is dead: any further answer to it, with whatever token
  -- and decision, is refused as an unknown link, and changes nothing.
  pub respond-once :
      (id token token' : ℕ) (d d' : Decision) (s : Store) {r : SplitRule}
      → (respond hash_token now id token d s).0 ≡ ok r
      → respond hash_token now id token' d' (respond hash_token now id token d s).1
        ≡ (err Error.not_found, (respond hash_token now id token d s).1)
  unfolding respond find_by_consent_token
  respond-once id token token' d d' s done =
      rw
        (burnt-if_token id token' (respond hash_token now id token d s).1.split_rules
          (respond-IsBurnt id token d s done))
        refl
