-- ===== src/Ledger.antt =====
-- LedgerService (src/ledger/ledger.service.ts): pure posting logic. Amounts and basis points are
-- integers; `Number.isSafeInteger` keeps its bound, a share is computed in doubles, and fractions
-- cannot be written.
pub mod Totals
pub mod Posting
pub mod Payments
pub mod Shares
pub mod Repository
pub mod Payouts
use splitcore.Base.{
  ⊤, ℕ, ◌+◌, Bool, true, false, not, ◌||◌, Option, none, some, List, [], ◌∷◌, ◌++◌, map, leb,
  is_some, if◌then◌else◌,
}
use splitcore.Int.{ℤ, pos, pos_part, neg_part, ◌+ℤ◌, ◌-ℤ◌, ◌*ℤ◌, ltb_ℤ, leb_ℤ, eq_ℤ}
use splitcore.Double.{times, floor_quotient}
use splitcore.Result.{Result, ok, err, Error, ◌>>=◌, ◌>>◌, fail_if}
use splitcore.Schema.{
  LedgerAccountType, entertainer_payable, venue_payable, platform_revenue, processor_clearing,
  account_eq, LedgerDirection, debit, credit, is_debit,
}

abbrev pub basis_points_total : ℕ
basis_points_total = 10000

abbrev pub max_safe_integer : ℕ
max_safe_integer = 9007199254740991

-- `Number.isSafeInteger`
abbrev pub is_safe_integer : ℤ → Bool
is_safe_integer a = leb (pos_part a + neg_part a) max_safe_integer

pub record LedgerEntrySpec : Type 0 where
  pub account_type : LedgerAccountType
  pub owner_id : Option ℕ
  pub direction : LedgerDirection
  pub amount_kobo : ℤ

pub record PaymentForPosting : Type 0 where
  pub gross_amount_kobo : ℤ
  pub venue_id : ℕ
  pub entertainer_id : Option ℕ

pub record SplitForPosting : Type 0 where
  pub entertainer_bps : ℤ
  pub venue_bps : ℤ
  pub platform_bps : ℤ

pub record PayoutForPosting : Type 0 where
  pub account_type : LedgerAccountType
  pub owner_id : Option ℕ
  pub amount_kobo : ℤ

-- `Math.floor((amountKobo * basisPoints) / BASIS_POINTS_TOTAL)`, with the rounding of both operations
unfoldable pub apply_basis_points : ℤ → ℤ → ℤ
apply_basis_points amount bps = floor_quotient (times amount bps) basis_points_total

-- the loop of `assertBalanced`, from the totals so far
unfoldable pub add_totals : ℤ × ℤ → List LedgerEntrySpec → Result (ℤ × ℤ)
add_totals totals [] = ok totals
add_totals (debits, credits) (e ∷ es) = do
  fail_if (not (is_safe_integer e.amount_kobo) || leb_ℤ e.amount_kobo (pos 0)) Error.invalid_posting
  add_totals
      (if is_debit e.direction
        then (debits +ℤ e.amount_kobo, credits)
        else (debits, credits +ℤ e.amount_kobo))
      es

-- `entries.length === 0`
abbrev is_empty : List LedgerEntrySpec → Bool
is_empty [] = true
is_empty (_ ∷ _) = false

unfoldable pub assert_balanced : List LedgerEntrySpec → Result ⊤
assert_balanced entries = do
  totals ← add_totals (pos 0, pos 0) entries
  fail_if (is_empty entries || not (eq_ℤ totals.0 totals.1)) Error.unbalanced_ledger

unfoldable pub assert_valid_split : SplitForPosting → Result ⊤
assert_valid_split split = do
  fail_if
      (ltb_ℤ split.entertainer_bps (pos 0)
        || ltb_ℤ split.venue_bps (pos 0)
        || ltb_ℤ split.platform_bps (pos 0))
      Error.invalid_posting
  fail_if
      (not (
        eq_ℤ (split.entertainer_bps +ℤ split.venue_bps +ℤ split.platform_bps)
          (pos basis_points_total)))
      Error.invalid_posting

abbrev pub is_payable : LedgerAccountType → Bool
is_payable t = account_eq t entertainer_payable || account_eq t venue_payable

unfoldable pub assert_payable : PayoutForPosting → Result ⊤
assert_payable payout = do
  fail_if (not (is_payable payout.account_type)) Error.invalid_posting
  fail_if (not (is_some payout.owner_id)) Error.invalid_posting

-- zero-value lines are omitted
abbrev pub push_positive : LedgerEntrySpec → List LedgerEntrySpec
push_positive line = if ltb_ℤ (pos 0) line.amount_kobo then line ∷ [] else []

abbrev pub entertainer_share : PaymentForPosting → SplitForPosting → ℤ
entertainer_share payment split =
    if is_some payment.entertainer_id
    then apply_basis_points payment.gross_amount_kobo split.entertainer_bps
    else pos 0

abbrev pub venue_share : PaymentForPosting → SplitForPosting → ℤ
venue_share payment split = apply_basis_points payment.gross_amount_kobo (
    if is_some payment.entertainer_id
    then split.venue_bps
    else split.venue_bps +ℤ split.entertainer_bps)

abbrev pub platform_share : PaymentForPosting → SplitForPosting → ℤ
platform_share payment split =
    payment.gross_amount_kobo -ℤ entertainer_share payment split -ℤ venue_share payment split

-- the lines that `computePaymentEntries` builds, before it checks that they balance
abbrev pub payment_lines : PaymentForPosting → SplitForPosting → List LedgerEntrySpec
payment_lines payment split =
    record {
      account_type = processor_clearing;
      owner_id = none;
      direction = debit;
      amount_kobo = payment.gross_amount_kobo;
    }
    ∷ (push_positive (record {
      account_type = entertainer_payable;
      owner_id = payment.entertainer_id;
      direction = credit;
      amount_kobo = entertainer_share payment split;
    })
        ++ (push_positive (record {
          account_type = venue_payable;
          owner_id = some payment.venue_id;
          direction = credit;
          amount_kobo = venue_share payment split;
        })
            ++ push_positive (record {
              account_type = platform_revenue;
              owner_id = none;
              direction = credit;
              amount_kobo = platform_share payment split;
            })))

unfoldable pub compute_payment_entries :
    PaymentForPosting → SplitForPosting → Result (List LedgerEntrySpec)
unfolding assert_valid_split
compute_payment_entries payment split = do
  assert_valid_split split
  fail_if
      (not (is_safe_integer payment.gross_amount_kobo) || leb_ℤ payment.gross_amount_kobo (pos 0))
      Error.invalid_posting
  assert_balanced (payment_lines payment split)
  ok (payment_lines payment split)

abbrev pub payout_lines : PayoutForPosting → List LedgerEntrySpec
payout_lines payout =
    record {
      account_type = payout.account_type;
      owner_id = payout.owner_id;
      direction = debit;
      amount_kobo = payout.amount_kobo;
    }
    ∷ record {
      account_type = processor_clearing;
      owner_id = none;
      direction = credit;
      amount_kobo = payout.amount_kobo;
    }
    ∷ []

unfoldable pub compute_payout_entries : PayoutForPosting → Result (List LedgerEntrySpec)
unfolding assert_payable
compute_payout_entries payout = do
  assert_payable payout
  assert_balanced (payout_lines payout)
  ok (payout_lines payout)

-- `entry.direction === 'DEBIT' ? 'CREDIT' : 'DEBIT'`
abbrev pub opposite : LedgerEntrySpec → LedgerEntrySpec
opposite e = record e { direction = if is_debit e.direction then credit else debit }

unfoldable pub compute_payout_reversal_entries : PayoutForPosting → Result (List LedgerEntrySpec)
compute_payout_reversal_entries payout = do
  entries ← compute_payout_entries payout
  ok (map opposite entries)

-- the sign of a debit in the account's normal sense
abbrev pub normal_sign : LedgerAccountType → LedgerDirection → ℤ → ℤ
normal_sign t d amount =
    if account_eq t processor_clearing
    then (if is_debit d then amount else pos 0 -ℤ amount)
    else (if is_debit d then pos 0 -ℤ amount else amount)

-- `entries.reduce` with the running sum
sum_from : LedgerAccountType → ℤ → List (LedgerDirection × ℤ) → ℤ
sum_from t sum [] = sum
sum_from t sum ((d, amount) ∷ es) = sum_from t (sum +ℤ normal_sign t d amount) es

unfoldable pub balance_of : LedgerAccountType → List (LedgerDirection × ℤ) → ℤ
unfolding sum_from
balance_of t entries = sum_from t (pos 0) entries
