-- ===== src/Tests/Onboarding.antt =====
-- Runs of onboarding and of the changes of entertainers (src/kyc, src/venue-payout-account,
-- src/entertainers).
use splitcore.Base.{
  ◌≤◌, length, ◌≡◌, ◌⊎◌, refl, inl, inr, true, false, none, some, [], ◌∷◌, arith, All, find_by,
  is_some,
}
use splitcore.Action.{ok, err, Error}
use splitcore.Schema.{KycStatus, Entertainer, Venue, Store}
use splitcore.Payouts.{entertainer_ready}
use splitcore.Names.{
  is_space, mask, chars, join, upper_case, normalize_name, parts_of, split_legal_name,
}
use splitcore.Names.Words.{normalize_name-parts_of}
use splitcore.Names.Parts.{full_name, split_legal_name-parts_of}
use splitcore.Kyc.{KycWorld, SubmitBankDetails, has_id, submit, check_identity, run_call}
use splitcore.KycProvider.{resolved, IdentityOutcome, bvn}
use splitcore.KycView.{mask_account_number}
use splitcore.Kyc.Machine.{SameDestination, IsVetted}
use splitcore.Kyc.Onboarding.{run_call-IsVetted, run_call-opens, run_call-closes}
use splitcore.VenuePayoutAccount.{AccountWorld, confirm as confirm_holder, run_call as run_account}
use splitcore.VenuePayoutAccount.Soundness as Account
use splitcore.VenuePayoutAccount.Soundness.{account-IsVetted}
use splitcore.Entertainers.{UpdateEntertainerDto, update, deactivate}
use splitcore.Entertainers.Changes.{update-entertainer_ready, initialize_payment-deactivate}
use splitcore.Payments.{initialize_payment}
use splitcore.Tests.{venue, entertainer, tables, world, dto}

-- A bank that knows every account, and a provider that verifies everyone.
abbrev kyc : KycWorld
kyc = record {
  resolve_bank = λ input. ok (record { name = "UBA"; code = "033" });
  resolve = λ account bank. ok (resolved "ADA OBI");
  verify = λ params. ok (record { outcome = IdentityOutcome.verified; reason = none });
  upper = λ c. c ∷ [];
  now = 5;
}

abbrev details : SubmitBankDetails
details = record { bank_name = some "UBA"; bank_code = none; account_number = "1112223334" }

-- The entertainer with a confirmed account, whose identity is not checked yet.
abbrev confirmed : Entertainer
confirmed = record entertainer {
  kyc_status = KycStatus.pending;
  bank_code = some "058";
  resolved_account_name = some "ADA OBI";
}

abbrev onboarding : Store
onboarding = record tables { entertainers = confirmed ∷ [] }

confirmed-IsVetted : IsVetted confirmed
confirmed-IsVetted = record {
  named_account = inr refl;
  confirmed_holder = inr refl;
  verified_account = inl refl;
}

run_call-IsVetted_example :
    All IsVetted (run_call kyc 20 (submit details) onboarding).1.entertainers
run_call-IsVetted_example =
    run_call-IsVetted kyc 20 (submit details) onboarding (confirmed-IsVetted, tt)

abbrev verified : Entertainer
verified = record confirmed {
  kyc_status = KycStatus.verified;
  kyc_verified_at = some 5;
  identity_check_type = some "BVN";
  identity_checked_at = some 5;
  kyc_failure_reason = none;
}

verified_found :
    find_by
      (has_id 20)
      (run_call kyc 20 (check_identity bvn "22222222222") onboarding).1.entertainers
    ≡ some verified
unfolding run_call splitcore.Kyc.verify_identity splitcore.Kyc.find_entertainer
    splitcore.Kyc.update_entertainer
verified_found = refl

run_call-opens_example :
    (is_some confirmed.account_confirmed_at ≡ true)
    × SameDestination confirmed verified
    × (verified.account_confirmed_at ≡ confirmed.account_confirmed_at)
run_call-opens_example =
    run_call-opens kyc 20 (check_identity bvn "22222222222") onboarding 20 {e = confirmed}
      {e' = verified} refl verified_found refl refl

run_call-closes_example : SameDestination confirmed verified ⊎ (entertainer_ready verified ≡ false)
run_call-closes_example =
    run_call-closes kyc 20 (check_identity bvn "22222222222") onboarding 20 {e = confirmed}
      {e' = verified} refl verified_found

abbrev account_world : AccountWorld
account_world = record {
  resolve_bank = kyc.resolve_bank;
  resolve = kyc.resolve;
  upper = kyc.upper;
  now = 5;
}

abbrev named_venue : Venue
named_venue = record venue { bank_code = some "033"; resolved_account_name = some "QUILOX LTD" }

named_venue-IsVetted : Account.IsVetted named_venue
named_venue-IsVetted = record { named_account = inr refl; confirmed_holder = inr refl }

account-IsVetted_example :
    All Account.IsVetted
      (run_account account_world 10
        (confirm_holder "quilox ltd")
        (record tables { venues = named_venue ∷ [] })).1.venues
account-IsVetted_example =
    account-IsVetted account_world 10 (confirm_holder "quilox ltd")
      (record tables { venues = named_venue ∷ [] }) (named_venue-IsVetted, tt)

abbrev new_account : UpdateEntertainerDto
new_account = record {
  stage_name = none;
  legal_name = none;
  phone = none;
  bank_name = none;
  account_number = some "1112223334";
  is_active = none;
}

update-entertainer_ready_example :
    (e' : Entertainer) × (find_by (has_id 20) (update 20 new_account tables).1.entertainers
      ≡ some e')
    × (e'.account_number ≡ some "1112223334")
    × (entertainer_ready e' ≡ entertainer_ready entertainer)
update-entertainer_ready_example =
    update-entertainer_ready 20 new_account "1112223334" tables {e = entertainer} refl refl refl

initialize_payment-deactivate_example :
    initialize_payment world.frontend_url world.callback_url world.url_of world.initialize world.now
      dto 1
      (deactivate 20 tables).1
    ≡ (err Error.gone, (deactivate 20 tables).1)
initialize_payment-deactivate_example =
    initialize_payment-deactivate world.frontend_url world.callback_url world.url_of
      world.initialize world.now 20 dto 1 tables refl refl refl refl

normalize_name-parts_of_example :
    normalize_name kyc.upper (chars " Ada  Obi ")
    ≡ upper_case kyc.upper (join (parts_of (chars " Ada  Obi ")))
normalize_name-parts_of_example = normalize_name-parts_of kyc.upper (chars " Ada  Obi ")

three_parts : 2 ≤ length (parts_of (chars " Ada  Ngozi Obi"))
unfolding parts_of is_space
three_parts = omega arith

split_legal_name-parts_of_example :
    parts_of (full_name (split_legal_name (chars " Ada  Ngozi Obi")))
    ≡ parts_of (chars " Ada  Ngozi Obi")
split_legal_name-parts_of_example = split_legal_name-parts_of (chars " Ada  Ngozi Obi") three_parts

-- The two parts of a name, and a masked account number.
split_runs :
    split_legal_name (chars " Ada  Ngozi Obi")
    ≡ record { first_name = chars "Ada"; last_name = chars "Ngozi Obi" }
unfolding split_legal_name parts_of is_space
split_runs = refl

mask_runs : mask_account_number (some "0123456789") ≡ some "******6789"
unfolding mask_account_number mask
mask_runs = refl
