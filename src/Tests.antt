-- ===== src/Tests.antt =====
-- A database and answers of the providers, for the runs of the children.
pub mod Ledger
pub mod Services
pub mod Calls
pub mod Rules
pub mod Onboarding
pub mod Visits
pub mod Access
pub mod Providers
use splitcore.Base.{⊤, ℕ, true, false, Option, none, some, List, [], ◌∷◌, String}
use splitcore.Int.{ℤ, pos}
use splitcore.Action.{Result, ok, err, Error}
use splitcore.Schema.{
  SplitRuleStatus, SplitRuleOrigin, SplitRule, Reference, pay, QrCode, GuestSession, Venue,
  Entertainer, KycStatus, VenueEntertainer, Store,
}
use splitcore.Settlement.{PaymentVerification, VerificationStatus}
use splitcore.Payouts.{PayoutProvider, Transfer, TransferStatus, VerifiedStatus}
use splitcore.Payments.{InitializePaymentDto}
use splitcore.System.{empty_store, World}

abbrev pub rule : SplitRule
rule = record {
  id = 50;
  venue_id = 10;
  entertainer_bps = pos 7000;
  venue_bps = pos 2500;
  platform_bps = pos 500;
  effective_from = some 1;
  effective_to = none;
  status = SplitRuleStatus.active;
  origin = SplitRuleOrigin.venue_proposal;
  entertainer_id = some 20;
  proposed_by_user_id = some 30;
  proposed_at = 0;
  responded_at = some 1;
  response_token_hash = none;
}

abbrev pub proposal : SplitRule
proposal = record rule {
  id = 51;
  status = SplitRuleStatus.pending_entertainer_approval;
  effective_from = none;
  responded_at = none;
  response_token_hash = some 77;
}

abbrev pub venue : Venue
venue = record {
  id = 10;
  name = "Quilox";
  slug = "quilox";
  logo_url = none;
  location = "Lagos";
  is_active = true;
  bank_name = some "UBA";
  bank_code = none;
  account_number = some "0123456789";
  resolved_account_name = none;
  account_resolved_at = none;
  account_confirmed_at = some 1;
}

abbrev pub entertainer : Entertainer
entertainer = record {
  id = 20;
  stage_name = "DJ";
  phone = "+2348012345678";
  legal_name = "Ada Obi";
  is_active = true;
  kyc_status = KycStatus.verified;
  bank_name = some "GTBank";
  bank_code = none;
  account_number = some "9876543210";
  resolved_account_name = none;
  account_resolved_at = none;
  account_confirmed_at = some 1;
  kyc_submitted_at = none;
  kyc_verified_at = none;
  kyc_failure_reason = none;
  identity_check_type = none;
  identity_checked_at = none;
}

abbrev pub tables : Store
tables = record empty_store {
  split_rules = rule ∷ proposal ∷ [];
  venues = venue ∷ [];
  entertainers = entertainer ∷ [];
  links = record { id = 60; venue_id = 10; entertainer_id = 20 } ∷ [];
  qr_codes =
      record {
        id = 60;
        public_token = 61;
        venue_id = 10;
        entertainer_id = some 20;
        location = "Table 4";
        is_active = true;
        deactivated_at = none;
      }
      ∷ [];
  guest_sessions = record { id = 70; qr_code_id = 60; expires_at = 1000 } ∷ [];
}

abbrev pub verified : Reference → Result PaymentVerification
verified _ = ok (record {
  status = VerificationStatus.success;
  amount_kobo = pos 100000;
  currency = some "NGN";
})

-- A world where every call succeeds.
abbrev pub world : World
world = record {
  verify_payment = verified;
  initialize =
      λ params. ok (record { authorization_url = "https://checkout"; access_code = "code" });
  provider = record {
    create_recipient = λ params. ok "RCP_1";
    initiate_transfer =
        λ params. ok (record { status = TransferStatus.success; failure_reason = none });
    verify_transfer = λ reference. ok VerifiedStatus.success;
  };
  add_payout_job = λ id delay. ok tt;
  add_webhook_job = λ id. ok tt;
  verify_signature = λ signature. true;
  queue_enabled = true;
  frontend_url = some "https://tips";
  callback_url = none;
  url_of = λ base token reference. some base;
  now = 5;
}

abbrev pub dto : InitializePaymentDto
dto = record {
  session_id = 70;
  amount_kobo = pos 100000;
  email = none;
  guest_display_name = none;
  display_name_enabled = none;
}
