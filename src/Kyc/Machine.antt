-- ===== src/Kyc/Machine.antt =====
-- Onboarding as a state machine (src/kyc/kyc.service.ts): what one call may do to the row of an
-- entertainer, and what it does to the database.
use splitcore.Base.{ℕ, ◌≡◌, ◌⊎◌, true, false, ◌||◌, none, some, is_some, find_by, set_first}
use splitcore.Schema.{KycStatus, kyc_eq, Entertainer, Store}
use splitcore.Kyc.{has_id, is_suspended}
use splitcore.KycView.{missing, is_verified}

-- where payouts go: the account, and the holder's name that the bank gave for it
pub record SameDestination (e e' : Entertainer) : Type 0 where
  pub bank : e'.bank_code ≡ e.bank_code
  pub account : e'.account_number ≡ e.account_number
  pub holder : e'.resolved_account_name ≡ e.resolved_account_name

-- What a call does to the row `e` that it has found, to leave the row `e'`.
pub data Move (e e' : Entertainer) : Type 0 where
  -- details of the same account: its confirmation stays
  same_details :
      is_suspended e ≡ false
      → SameDestination e e'
      → e'.account_confirmed_at ≡ e.account_confirmed_at
      → e'.kyc_status ≡ KycStatus.pending
      → Move e e'
  -- details of another account: what was known of the old one is gone
  new_details :
      is_suspended e ≡ false
      → e'.resolved_account_name ≡ none
      → e'.account_confirmed_at ≡ none
      → e'.kyc_status ≡ KycStatus.pending
      → Move e e'
  -- the bank gave a holder for the stored account
  named :
      is_suspended e ≡ false
      → missing e.account_number || missing e.bank_code ≡ false
      → e'.bank_code ≡ e.bank_code
      → e'.account_number ≡ e.account_number
      → e'.account_confirmed_at ≡ none
      → e'.kyc_status ≡ KycStatus.pending
      → Move e e'
  -- a person confirmed the holder
  confirmed :
      is_suspended e ≡ false
      → missing e.resolved_account_name ≡ false
      → SameDestination e e'
      → e'.kyc_status ≡ KycStatus.pending
      → Move e e'
  -- identity checked, or a review decided, in favour
  passed :
      is_suspended e ≡ false
      → is_some e.account_confirmed_at ≡ true
      → SameDestination e e'
      → e'.account_confirmed_at ≡ e.account_confirmed_at
      → e'.kyc_status ≡ KycStatus.verified
      → Move e e'
  -- a refusal of the bank or of the identity check, or a check that did not run, or a rejection
  stopped :
      is_suspended e ≡ false
      → SameDestination e e'
      → e'.account_confirmed_at ≡ e.account_confirmed_at
      → kyc_eq e'.kyc_status KycStatus.failed || kyc_eq e'.kyc_status KycStatus.review ≡ true
      → Move e e'

-- What a call does to the database: nothing, or one move of the row with its id.
pub record Moved (id : ℕ) (s s' : Store) : Type 0 where
  pub row : Entertainer
  pub change : Entertainer → Entertainer
  pub found : find_by (has_id id) s.entertainers ≡ some row
  pub same_id : (change row).id ≡ row.id
  pub move : Move row (change row)
  pub left : s' ≡ record s { entertainers = set_first (has_id id) change s.entertainers }

abbrev pub Outcome : ℕ → Store → Store → Type 0
Outcome id s s' = (s' ≡ s) ⊎ Moved id s s'

-- The destination of a row was asked for at the bank, if it has a holder's name, and a person
-- confirmed that name, if it is confirmed; who is verified has a confirmed destination.
pub record IsVetted (e : Entertainer) : Type 0 where
  pub named_account :
      e.resolved_account_name ≡ none ⊎ (missing e.account_number || missing e.bank_code ≡ false)
  pub confirmed_holder :
      is_some e.account_confirmed_at ≡ false ⊎ (missing e.resolved_account_name ≡ false)
  pub verified_account : is_verified e ≡ false ⊎ (is_some e.account_confirmed_at ≡ true)
