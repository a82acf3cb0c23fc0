-- ===== src/Reconciliation/Identity.antt =====
-- What a reconciliation report says of sound books (src/reconciliation/reconciliation.service.ts).
use mathlib.Core.Option.{some-injective}
use mathlib.Core.Path.{subst}
use splitcore.Base.{
  ℕ, ◌≡◌, refl, sym, ap, ◌∙◌, ◌⊎◌, inl, inr, ◌&&◌, ◌||◌, not, Bool, true, false, none, some, List,
  [], ◌∷◌, ◌++◌, arith, ◌==◌, is_some, any_by, All, if◌then◌else◌, Bool-cases, Option-cases,
}
use splitcore.Int.{pos_part, neg_part, ℤ, pos, ◌+ℤ◌, ◌-ℤ◌, eq_ℤ_iff, int_laws, zero_+ℤ}
use splitcore.Action.{Result, Result-cases, ok}
use splitcore.Result.{ok-injective}
use splitcore.Schema.{
  LedgerAccountType, entertainer_payable, venue_payable, platform_revenue, processor_clearing,
  account_eq, account_eq_iff, debit, credit, is_debit, LedgerAccount, LedgerEntry, has_key, Store,
}
use splitcore.Ledger.Repository.{sum_where, joined, group_row, get_balance, get_trial_balance}
use splitcore.Ledger.{balance_of}
use splitcore.Ledger.Payouts.{total_of, balance_of-normal}
use splitcore.Books.{find_account, IsSound}
use splitcore.Reconciliation.{
  ReconciliationReport, credited, credit_sum, sum_by_type, report_of, run,
}

module _ (p : LedgerEntry → Bool) where
  no_rows : (es : List LedgerEntry) → any_by p es ≡ false → sum_where p es ≡ pos 0
  no_rows [] h = refl
  no_rows (e ∷ es) h = elim (Bool-cases (p e)) [
    | inl a ↦ absurd (cc (rw a at h))
    | inr a ↦ rw (a, no_rows es (rw a at h)) (zero_+ℤ (pos 0))
  ]

-- The two groups of a balance have the sums of their entries as totals.
group_totals :
    (p q : LedgerEntry → Bool) (es : List LedgerEntry)
    → (total_of debit (group_row debit p es ++ group_row credit q es) ≡ sum_where p es)
      × (total_of credit (group_row debit p es ++ group_row credit q es) ≡ sum_where q es)
group_totals p q es = elim (Bool-cases (any_by p es)) [
  | inl a ↦ elim (Bool-cases (any_by q es)) [
    | inl b ↦ rw (a, b) (omega int_laws, omega int_laws)
    | inr b ↦ rw (a, b, no_rows q es b) (omega int_laws, omega int_laws)
  ]
  | inr a ↦ elim (Bool-cases (any_by q es)) [
    | inl b ↦ rw (a, b, no_rows p es a) (omega int_laws, omega int_laws)
    | inr b ↦ rw (a, b, no_rows p es a, no_rows q es b) (refl, refl)
  ]
]

credit_sum-sum_where :
    (p : LedgerEntry → Bool) (es : List LedgerEntry)
    → credit_sum p es
      ≡ sum_where (λ e. p e && not (is_debit e.direction)) es
        -ℤ sum_where (λ e. p e && is_debit e.direction) es
credit_sum-sum_where p [] = omega int_laws
credit_sum-sum_where p (e ∷ es) = elim (Bool-cases (p e)) [
  | inr a ↦ rw (a, credit_sum-sum_where p es) (omega int_laws)
  | inl a ↦ elim (Bool-cases (is_debit e.direction)) [
    | inl b ↦ rw (a, b, credit_sum-sum_where p es) (omega int_laws)
    | inr b ↦ rw (a, b, credit_sum-sum_where p es) (omega int_laws)
  ]
]

module _ (p q : LedgerEntry → Bool) (es : List LedgerEntry) where
  clearing_balance :
      balance_of processor_clearing (group_row debit p es ++ group_row credit q es)
      ≡ sum_where p es -ℤ sum_where q es
  clearing_balance =
      let (d, c) = group_totals p q es in
      balance_of-normal processor_clearing (group_row debit p es ++ group_row credit q es)
      ∙ rw (d, c) refl

  revenue_balance :
      balance_of platform_revenue (group_row debit p es ++ group_row credit q es)
      ≡ sum_where q es -ℤ sum_where p es
  revenue_balance =
      let (d, c) = group_totals p q es in
      balance_of-normal platform_revenue (group_row debit p es ++ group_row credit q es)
      ∙ rw (d, c) refl

opposite_sum : (a b c : ℤ) → c ≡ b -ℤ a → a -ℤ b ≡ pos 0 -ℤ c
opposite_sum a b c h = rw h (omega int_laws)

get_balance_clearing :
    (s : Store)
    → get_balance processor_clearing none s
      ≡ pos 0 -ℤ credit_sum (joined (has_key processor_clearing none) s.accounts) s.entries
unfolding get_balance
get_balance_clearing s =
    let on = joined (has_key processor_clearing none) s.accounts in
    clearing_balance (λ e. on e && is_debit e.direction) (λ e. on e && not (is_debit e.direction))
      s.entries
    ∙ opposite_sum _ _ _ (credit_sum-sum_where on s.entries)

get_balance_revenue :
    (s : Store)
    → get_balance platform_revenue none s
      ≡ credit_sum (joined (has_key platform_revenue none) s.accounts) s.entries
unfolding get_balance
get_balance_revenue s =
    let on = joined (has_key platform_revenue none) s.accounts in
    revenue_balance (λ e. on e && is_debit e.direction) (λ e. on e && not (is_debit e.direction))
      s.entries
    ∙ sym (credit_sum-sum_where on s.entries)

-- The account of each entry is of one of the four types.
one_of_four :
    (t : LedgerAccountType) (x : ℤ)
    → (if account_eq processor_clearing t then x else pos 0)
        +ℤ (if account_eq platform_revenue t then x else pos 0)
        +ℤ (if account_eq entertainer_payable t then x else pos 0)
        +ℤ (if account_eq venue_payable t then x else pos 0)
      ≡ x
one_of_four entertainer_payable x = omega int_laws
one_of_four venue_payable x = omega int_laws
one_of_four platform_revenue x = omega int_laws
one_of_four processor_clearing x = omega int_laws

abbrev of_type : LedgerAccountType → List LedgerAccount → LedgerEntry → Bool
of_type t accounts = joined (λ a. account_eq t a.type) accounts

credited_split :
    (e : LedgerEntry)
    → credited e
      ≡ (if not (is_debit e.direction) then e.amount_kobo else pos 0)
        -ℤ (if is_debit e.direction then e.amount_kobo else pos 0)
credited_split e = elim (Bool-cases (is_debit e.direction)) [
  | inl a ↦ rw a refl
  | inr a ↦ rw a (omega int_laws)
]

add_heads :
    (a b c d a' b' c' d' x y x' y' : ℤ)
    → a +ℤ b +ℤ c +ℤ d ≡ x -ℤ y
    → a' +ℤ b' +ℤ c' +ℤ d' ≡ x' -ℤ y'
    → (a +ℤ a') +ℤ (b +ℤ b') +ℤ (c +ℤ c') +ℤ (d +ℤ d') ≡ (x +ℤ x') -ℤ (y +ℤ y')
add_heads a b c d a' b' c' d' x y x' y' h h' =
    omega (int_laws, ap pos_part h, ap neg_part h, ap pos_part h', ap neg_part h')

four_types :
    (accounts : List LedgerAccount) (es : List LedgerEntry)
    → All (λ e. is_some (find_account e.account_id accounts) ≡ true) es
    → credit_sum (of_type processor_clearing accounts) es
        +ℤ credit_sum (of_type platform_revenue accounts) es
        +ℤ credit_sum (of_type entertainer_payable accounts) es
        +ℤ credit_sum (of_type venue_payable accounts) es
      ≡ sum_where (λ e. not (is_debit e.direction)) es -ℤ sum_where (λ e. is_debit e.direction) es
four_types accounts [] h = omega int_laws
four_types accounts (e ∷ es) (h, hs) = elim (Option-cases (find_account e.account_id accounts)) [
  | inl a ↦ absurd (cc (rw a at h))
  | inr (account, a) ↦
      let ih = four_types accounts es hs in
      let one = one_of_four account.type (credited e) in
      rw a (add_heads _ _ _ _ _ _ _ _ _ _ _ _ (one ∙ credited_split e) ih)
]

-- The accounts of the processor and of the platform have no owner.
abbrev pub HouseAccounts : List LedgerAccount → Type 0
HouseAccounts = All (λ a.
    (account_eq processor_clearing a.type || account_eq platform_revenue a.type ≡ false)
    ⊎ (a.owner_id ≡ none))

holder :
    (id : ℕ) (accounts : List LedgerAccount) {a : LedgerAccount}
    → find_account id accounts ≡ some a
    → HouseAccounts accounts
    → (account_eq processor_clearing a.type || account_eq platform_revenue a.type ≡ false)
      ⊎ (a.owner_id ≡ none)
holder id [] h all = absurd (cc (h))
holder id (b ∷ bs) {a} h (hb, all) = elim (Bool-cases (b.id == id)) [
  | inl e ↦
      subst
        (λ x.
          (account_eq processor_clearing x.type || account_eq platform_revenue x.type ≡ false)
          ⊎ (x.owner_id ≡ none))
        (some-injective b a (rw e at h)) hb
  | inr e ↦ holder id bs (rw e at h) all
]

-- For those two types the entries with the key are the entries of the type.
key_sum :
    (t : LedgerAccountType) (accounts : List LedgerAccount) (es : List LedgerEntry)
    → account_eq processor_clearing t || account_eq platform_revenue t ≡ true
    → HouseAccounts accounts
    → credit_sum (joined (has_key t none) accounts) es ≡ credit_sum (of_type t accounts) es
key_sum t accounts [] house all = refl
key_sum t accounts (e ∷ es) house all = elim (Option-cases (find_account e.account_id accounts)) [
  | inl a ↦ rw (a, key_sum t accounts es house all) refl
  | inr (account, a) ↦
      let same : has_key t none account ≡ account_eq t account.type =
        elim (holder e.account_id accounts a all) [
          | inr free ↦ rw free (ground arith)
          | inl other ↦ ground (arith, account_eq_iff t account.type)
        ] in
      rw (a, key_sum t accounts es house all) (rw same refl)
]

clearing_identity : (c r e v d k : ℤ) → c +ℤ r +ℤ e +ℤ v ≡ k -ℤ d → d ≡ k → pos 0 -ℤ c ≡ r +ℤ e +ℤ v
clearing_identity c r e v d k h same =
    omega (int_laws, ap pos_part h, ap neg_part h, ap pos_part same, ap neg_part same)

house_identity :
    (s : Store)
    → IsSound s
    → HouseAccounts s.accounts
    → get_balance processor_clearing none s
      ≡ get_balance platform_revenue none s
        +ℤ sum_by_type entertainer_payable s
        +ℤ sum_by_type venue_payable s
unfolding sum_by_type
house_identity s v house =
    get_balance_clearing s
    ∙ ap (λ x. pos 0 -ℤ x) (key_sum processor_clearing s.accounts s.entries refl house)
    ∙ clearing_identity _ _ _ _ _ _ (four_types s.accounts s.entries v.posted_to) v.balanced
    ∙ ap (λ x. x +ℤ sum_by_type entertainer_payable s +ℤ sum_by_type venue_payable s)
        (sym (get_balance_revenue s ∙ key_sum platform_revenue s.accounts s.entries refl house))

drift : (b c f r e v : ℤ) → c ≡ r +ℤ e +ℤ v → b -ℤ (c -ℤ f) ≡ b -ℤ r -ℤ e -ℤ v +ℤ f
drift b c f r e v h = omega (int_laws, ap pos_part h, ap neg_part h)

-- On sound books a report says that the trial balance holds, and that what the ledger holds at the
-- processor is what entertainers and venues are owed and the platform has earned; the drift is what
-- the provider has beyond that, less the payouts that are under way.
pub run-identity :
    (provider : Result ℤ) (now : ℕ) (s : Store) {r : ReconciliationReport}
    → IsSound s
    → HouseAccounts s.accounts
    → (run provider now s).0 ≡ ok r
    → (r.trial_balanced ≡ true)
      × (r.ledger_clearing_kobo
          ≡ r.platform_revenue_kobo +ℤ r.entertainer_payable_kobo +ℤ r.venue_payable_kobo)
      × (r.drift_kobo
          ≡ r.provider_balance_kobo -ℤ r.platform_revenue_kobo -ℤ r.entertainer_payable_kobo
            -ℤ r.venue_payable_kobo +ℤ r.in_flight_payouts_kobo)
unfolding run report_of get_trial_balance
run-identity provider now s {r} v house done = elim (Result-cases provider) [
  | inr (e, a) ↦ absurd (cc (rw a at done))
  | inl (b, a) ↦
      let same : report_of now b s ≡ r = ok-injective _ r (rw a at done) in
      let id = house_identity s v house in
      subst
        (λ (x : ReconciliationReport).
          (x.trial_balanced ≡ true)
          × (x.ledger_clearing_kobo
              ≡ x.platform_revenue_kobo +ℤ x.entertainer_payable_kobo +ℤ x.venue_payable_kobo)
          × (x.drift_kobo
              ≡ x.provider_balance_kobo -ℤ x.platform_revenue_kobo -ℤ x.entertainer_payable_kobo
                -ℤ x.venue_payable_kobo +ℤ x.in_flight_payouts_kobo))
        same ((eq_ℤ_iff _ _).1 v.balanced, id, drift _ _ _ _ _ _ id)
]
