-- ===== src/KycProvider.antt =====
-- What KycService asks of a provider and what comes back
-- (src/kyc/interfaces/kyc-provider.interface.ts).
use splitcore.Base.{Option, String}

-- The bank's answer: an account, or an AccountResolutionError with its message. What else is thrown
-- is an `err` of the call.
pub data Resolution : Type 0 where
  resolved : (account_name : String) → Resolution
  refused : (message : String) → Resolution

pub data DocumentType : Type 0 where
  bvn nin : DocumentType

pub data IdentityOutcome : Type 0 where
  verified failed unavailable : IdentityOutcome

pub record IdentityCheckResult : Type 0 where
  pub outcome : IdentityOutcome
  pub reason : Option String

pub record IdentityParams : Type 0 where
  pub document_type : DocumentType
  pub document_number : String
  pub first_name : String
  pub last_name : String
  pub account_number : Option String
  pub bank_code : Option String
