-- ===== src/Tests/Ledger.antt =====
-- Runs of the ledger's arithmetic (src/ledger), and the theorems at concrete postings.
use splitcore.Base.{◌≡◌, refl, none, some, [], ◌∷◌, map, arith}
use splitcore.Int.{pos, ◌+ℤ◌, ◌-ℤ◌, ◌*ℤ◌}
use splitcore.Action.{ok, err, Error}
use splitcore.Schema.{venue_payable, processor_clearing}
use splitcore.Ledger.{
  PaymentForPosting, SplitForPosting, PayoutForPosting, payment_lines, compute_payment_entries,
  payout_lines, apply_basis_points,
}
use splitcore.Ledger.Totals.{IsBalanced}
use splitcore.Ledger.Posting.{IsSplit, IsExact}
use splitcore.Base.{List, true, false}
use splitcore.Ledger.{LedgerEntrySpec}
use splitcore.Ledger.Shares.{
  amount_on, entertainer_due, venue_due, compute_payment_entries-amount_on,
}
use splitcore.Schema.{entertainer_payable, venue_payable, platform_revenue, processor_clearing}
use splitcore.Ledger.Payouts.{IsPayout, compute_payout_entries-lines}
use splitcore.Ledger.Repository.{post}
use splitcore.Ledger.Repository.Postings.{posted, post-posted}
use splitcore.System.{empty_store}

abbrev payment : PaymentForPosting
payment = record { gross_amount_kobo = pos 100001; venue_id = 10; entertainer_id = some 20 }

abbrev split : SplitForPosting
split = record { entertainer_bps = pos 7000; venue_bps = pos 2500; platform_bps = pos 500 }

abbrev short_split : SplitForPosting
short_split = record { entertainer_bps = pos 7000; venue_bps = pos 2500; platform_bps = pos 0 }

abbrev payout : PayoutForPosting
payout = record { account_type = venue_payable; owner_id = some 10; amount_kobo = pos 2500 }

abbrev clearing_payout : PayoutForPosting
clearing_payout = record {
  account_type = processor_clearing;
  owner_id = none;
  amount_kobo = pos 2500;
}

-- An odd kobo goes to the platform.
platform_gets_the_rest :
    map (λ e. e.amount_kobo) (payment_lines payment split)
    ≡ pos 100001 ∷ pos 70000 ∷ pos 25000 ∷ pos 5001 ∷ []
unfolding apply_basis_points ◌*ℤ◌ ◌-ℤ◌ splitcore.Double.floor_quotient splitcore.Double.times
    splitcore.Double.whole_of_double splitcore.Double.scale_up
platform_gets_the_rest = refl

split-IsSplit : IsSplit split
unfolding ◌+ℤ◌
split-IsSplit = record {
  entertainer = omega arith;
  venue = omega arith;
  platform = omega arith;
  total = refl;
}

kobo-IsExact : IsExact (pos 100001)
kobo-IsExact = (omega arith, omega arith)

payout-IsPayout : IsPayout payout
payout-IsPayout = record { payable = refl; owned = refl; amount = (omega arith, omega arith) }

clearing_payout-refused : ¬ (IsPayout clearing_payout)
clearing_payout-refused p = cc (p.payable)

compute_payment_entries-amount_on_example :
    (es : List LedgerEntrySpec) × (compute_payment_entries payment split ≡ ok es)
    × IsBalanced es
    × (amount_on true processor_clearing none es ≡ pos 100001)
    × (amount_on false entertainer_payable payment.entertainer_id es
        ≡ entertainer_due payment.entertainer_id (pos 100001) split)
    × (amount_on false venue_payable (some payment.venue_id) es
        ≡ venue_due payment.entertainer_id (pos 100001) split)
    × (amount_on false platform_revenue none es
        ≡ pos 100001
          -ℤ entertainer_due payment.entertainer_id (pos 100001) split
          -ℤ venue_due payment.entertainer_id (pos 100001) split)
compute_payment_entries-amount_on_example =
    compute_payment_entries-amount_on payment split split-IsSplit kobo-IsExact

-- A safe integer whose product with 10000 is none is rounded up: the share is above the amount.
large_amount-refused :
    compute_payment_entries
      (record payment { gross_amount_kobo = pos 9007199254740793 })
      (record { entertainer_bps = pos 10000; venue_bps = pos 0; platform_bps = pos 0 })
    ≡ err Error.unbalanced_ledger
unfolding compute_payment_entries ◌+ℤ◌ splitcore.Ledger.assert_balanced splitcore.Ledger.add_totals
    apply_basis_points splitcore.Double.floor_quotient splitcore.Double.times ◌*ℤ◌
    splitcore.Double.whole_of_double splitcore.Double.scale_down splitcore.Double.scale_up ◌-ℤ◌
large_amount-refused = refl

payout_lines_balance : IsBalanced (payout_lines payout)
payout_lines_balance = (compute_payout_entries-lines payout payout-IsPayout).2

post-posted_example :
    post 1 (payout_lines payout) empty_store ≡ (ok tt, posted 1 (payout_lines payout) empty_store)
post-posted_example = post-posted 1 (payout_lines payout) empty_store payout_lines_balance
