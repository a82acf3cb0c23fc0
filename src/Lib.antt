-- ===== src/Lib.antt =====
-- The money of Splitcore, a tipping platform: a guest pays a tip at a venue, the ledger divides it
-- between entertainer, venue and platform, and payouts move the shares to bank accounts.
--
-- Parts. Base, Int, Double, Result and Action are the ground: tables as lists of rows, integers,
-- the rounding of doubles, thrown errors, and methods that read and write the database. Schema is
-- prisma/schema.prisma. The services are Ledger (src/ledger/ledger.service.ts; Ledger/Repository
-- is src/ledger/ledger.repository.ts), Settlement (src/payments/payment-settlement.service.ts),
-- Payouts (src/payouts/payouts.service.ts and bank-codes.ts; Payouts/Transfers has the outcomes
-- of transfers, Payouts/Process the worker, the retry and the sweep), Webhooks
-- (src/webhooks/webhooks.service.ts and webhook-event-handler.service.ts), SplitRules
-- (src/split-rules/split-rules.service.ts, its sum validator, and
-- src/platform-settings/platform-settings.service.ts), Payments
-- (src/payments/payments.service.ts), Kyc (src/kyc/kyc.service.ts; KycProvider has the provider's
-- types, KycView the status view, Names the texts), VenuePayoutAccount
-- (src/venue-payout-account/venue-payout-account.service.ts), Entertainers and Venues
-- (src/entertainers/entertainers.service.ts, src/venues/venues.service.ts), QrCodes and Guest
-- (src/qr-codes/qr-codes.service.ts, src/guest/guest.service.ts), EntertainerAuth
-- (src/entertainer-auth/entertainer-auth.service.ts), Auth (src/auth/auth.service.ts and
-- strategies/jwt.strategy.ts), Guards (src/common/guards), Reconciliation
-- (src/reconciliation/reconciliation.service.ts), Banks (src/banks/banks.service.ts) and Paystack
-- (src/payments/providers, src/kyc/providers). Kyc and VenuePayoutAccount set the columns that
-- decide where a payout goes, with a bank that Banks resolves; a guest scans a code of QrCodes,
-- and Payments starts a payment under a rule of SplitRules; a poll or a webhook runs Settlement,
-- which posts through the Ledger and creates payouts; the worker of Payouts sends them, and
-- webhooks about transfers come back to Payouts. System has these calls as the steps of one
-- database. Books is the invariant that the services share. Tests has runs and instances.
--
-- Correspondence. A method `fooBar` of the code is `foo_bar`; a private piece of a method has a name
-- of its own and a comment, or stands for a branch: `settle` is cut into settle_found,
-- settle_verified, settle_success and after_commit, `processPayout` into process_found,
-- check_previous, after_previous, start_transfer, send_payout and transfer_claimed,
-- `handleTransferEvent` into transfer_event, reverse_payout, fail_attempt and retry_or_review, `handle`
-- into handle_event, dispatch and after_dispatch. `updateMany` is update_by with count_by;
-- `prisma.$transaction` is `transaction`, which restores the database when its body throws; what a
-- method wrote before a throw outside of one stays.
--
-- Choices. An identifier is a number, the next uuid is `next_id`, and a time is a number of
-- milliseconds. A reference is by what its template is made from, so `pay_` and `po_` references
-- differ, and a webhook's external id is the pair of its type and key. Tables have the newest row
-- first; a query that asks for no order, such as the sweep's `take: 500`, gets that one. Texts of
-- errors and logs are left out; reasons of failures are by their parts. Amounts are integers,
-- with the bound of `Number.isSafeInteger` where the code tests it. The share of an amount is
-- computed in doubles, as the code does (Double has the rounding of the product and of the
-- quotient, with fuel for every safe integer); the sums and differences of amounts are exact,
-- which they are in the code up to 2^53. Calls of providers, queues, the clock, hashes, random
-- tokens, the URL class, collation and Unicode's upper case are parameters, and may throw where
-- the code expects it. A text is its characters, and `update` by a unique key is set_first. A
-- timeout of a queue is a refusal. Transactions run one after the other: what concurrent callers
-- do is a sequence of whole calls, and the conditional updates are what the code relies on
-- between them. Every other loop runs over a list.
--
-- Not modelled: triggers of the database, and its checks, foreign keys and unique columns but
-- these: ON CONFLICT of the accounts, the unique external ids of webhooks and references of
-- payments, the amount of a new payment, the venue and the token of a new split rule, and the
-- unique columns and foreign keys that the services on venues, entertainers and codes test by a
-- catch. Nor the retries and deduplication of BullMQ, controllers, DTO validation, dashboards,
-- Redis and start-up; of the HTTP clients, what is sent but for the fields that a caller gives.
pub mod Base
pub mod Int
pub mod Double
pub mod Result
pub mod Action
pub mod Schema
pub mod Ledger
pub mod Books
pub mod Settlement
pub mod Payouts
pub mod Webhooks
pub mod SplitRules
pub mod Names
pub mod KycProvider
pub mod KycView
pub mod Kyc
pub mod VenuePayoutAccount
pub mod Venues
pub mod Entertainers
pub mod QrCodes
pub mod Guest
pub mod EntertainerAuth
pub mod Auth
pub mod Guards
pub mod Reconciliation
pub mod Banks
pub mod Paystack
pub mod Payments
pub mod System
pub mod Tests
