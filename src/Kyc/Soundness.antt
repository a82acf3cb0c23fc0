-- ===== src/Kyc/Soundness.antt =====
-- KycService (src/kyc/kyc.service.ts): each call against the machine of onboarding.
use Prim.Native.Char.{Char}
use text.Mathlib.TextEquality.{eq_iff}
use splitcore.Base.{
  ℕ, ◌≡◌, refl, sym, ap, inl, inr, ◌||◌, Bool, true, false, Option, none, some, String, arith,
  is_some, find_by, Bool-cases, Option-cases,
}
use splitcore.Action.{Result, Result-cases, ok, err}
use splitcore.Schema.{KycStatus, kyc_eq, Entertainer, Store}
use splitcore.Payouts.{present}
use splitcore.Names.{Text}
use splitcore.Kyc.{
  SubmitBankDetails, identity_params, Decision, approve, reject, has_id, save, is_suspended,
  same_text, destination_changed, bank_details_data, with_resolved, with_refused, with_confirmed,
  with_checked, with_decision, same_name, or_empty, update_entertainer, find_entertainer,
  submit_bank_details, after_resolve, resolve_account, confirm_account, verify_identity,
  decide_review,
}
use splitcore.KycProvider.{
  Resolution, resolved, refused, DocumentType, IdentityOutcome, IdentityCheckResult, IdentityParams,
}
use splitcore.KycView.{missing, is_verified}
use splitcore.Banks.{Bank}
use splitcore.Kyc.Machine.{
  Move, same_details, new_details, named, confirmed, passed, stopped, Outcome,
}

module _ (id : ℕ) (s : Store) (e : Entertainer)
    (found : find_by (has_id id) s.entertainers ≡ some e) where
  saved-Outcome :
      (f : Entertainer → Entertainer)
      → (f e).id ≡ e.id
      → Move e (f e)
      → Outcome id s (save id f s).1
  unfolding update_entertainer
  saved-Outcome f same step = inr (record {
    row = e;
    change = f;
    found = found;
    same_id = same;
    move = step;
    left = rw found refl;
  })

pub same_text-eq : (o : Option String) (t : String) → same_text o t ≡ true → o ≡ some t
same_text-eq none t h = absurd (cc (h))
same_text-eq (some u) t h = ap some ((eq_iff u t).0 h)

same_destination :
    (account : String) (bank : Bank) (e : Entertainer)
    → destination_changed account bank e ≡ false
    → (e.account_number ≡ some account) × (e.bank_code ≡ some bank.code)
same_destination account bank e h = elim (Bool-cases (same_text e.account_number account)) [
  | inr a ↦ absurd (cc (rw a at h))
  | inl a ↦ elim (Bool-cases (same_text e.bank_code bank.code)) [
    | inr b ↦ absurd (cc (rw (a, b) at h))
    | inl b ↦ (same_text-eq e.account_number account a, same_text-eq e.bank_code bank.code b)
  ]
]

details_same_id :
    (changed : Bool) (now : ℕ) (account : String) (bank : Bank) (e : Entertainer)
    → (bank_details_data changed now account bank e).id ≡ e.id
details_same_id true now account bank e = refl
details_same_id false now account bank e = refl

module _ (resolve_bank : SubmitBankDetails → Result Bank) (now : ℕ) where
  details-Move :
      (input : SubmitBankDetails) (bank : Bank) (e : Entertainer) (changed : Bool)
      → destination_changed input.account_number bank e ≡ changed
      → is_suspended e ≡ false
      → Move e (bank_details_data changed now input.account_number bank e)
  details-Move input bank e true h allowed = new_details allowed refl refl refl
  details-Move input bank e false h allowed =
      let (account, code) = same_destination input.account_number bank e h in
      same_details allowed (record { bank = sym code; account = sym account; holder = refl }) refl
        refl

  pub submit_bank_details-Outcome :
      (id : ℕ) (input : SubmitBankDetails) (s : Store)
      → Outcome id s (submit_bank_details resolve_bank now id input s).1
  unfolding submit_bank_details find_entertainer
  submit_bank_details-Outcome id input s =
      elim (Option-cases (find_by (has_id id) s.entertainers)) [
        | inl a ↦ inl (rw a refl)
        | inr (e, a) ↦ elim (Bool-cases (is_suspended e)) [
          | inl b ↦ inl (rw (a, b) refl)
          | inr b ↦ elim (Result-cases (resolve_bank input)) [
            | inr (x, c) ↦ inl (rw (a, b, c) refl)
            | inl (bank, c) ↦
                rw (a, b, c)
                  (saved-Outcome id s e a _
                    (details_same_id (destination_changed input.account_number bank e) now
                      input.account_number bank e)
                    (details-Move input bank e (destination_changed input.account_number bank e)
                      refl b))
          ]
        ]
      ]

missing-none : (o : Option String) → present o ≡ none → missing o ≡ true
missing-none o h = rw h refl

missing-some : (o : Option String) {t : String} → present o ≡ some t → missing o ≡ false
missing-some o h = rw h refl

module _ (provider : String → String → Result Resolution) (now : ℕ) where
  after_resolve-Outcome :
      (id : ℕ) (s : Store) (e : Entertainer)
      → find_by (has_id id) s.entertainers ≡ some e
      → is_suspended e ≡ false
      → missing e.account_number || missing e.bank_code ≡ false
      → (r : Result Resolution) → Outcome id s (after_resolve now id r s).1
  unfolding after_resolve update_entertainer
  after_resolve-Outcome id s e a b c (ok (resolved name)) =
      saved-Outcome id s e a (with_resolved now name) refl (named b c refl refl refl refl)
  after_resolve-Outcome id s e a b c (ok (refused message)) = inr (record {
    row = e;
    change = with_refused message;
    found = a;
    same_id = refl;
    move = stopped b (record { bank = refl; account = refl; holder = refl }) refl refl;
    left = rw a refl;
  })
  after_resolve-Outcome id s e a b c (err x) = inl refl

  pub resolve_account-Outcome :
      (id : ℕ) (s : Store) → Outcome id s (resolve_account provider now id s).1
  unfolding resolve_account find_entertainer
  resolve_account-Outcome id s = elim (Option-cases (find_by (has_id id) s.entertainers)) [
    | inl a ↦ inl (rw a refl)
    | inr (e, a) ↦ elim (Bool-cases (is_suspended e)) [
      | inl b ↦ inl (rw (a, b) refl)
      | inr b ↦ elim (Option-cases (present e.account_number)) [
        | inl c ↦ inl (rw (a, b, c) refl)
        | inr (account, c) ↦ elim (Option-cases (present e.bank_code)) [
          | inl d ↦ inl (rw (a, b, c, d) refl)
          | inr (code, d) ↦
              rw (a, b, c, d)
                (after_resolve-Outcome id s e a b (rw (c, d) refl) (provider account code))
        ]
      ]
    ]
  ]

pub confirm_account-Outcome :
    (upper : Char → Text) (now id : ℕ) (name : String) (s : Store)
    → Outcome id s (confirm_account upper now id name s).1
unfolding confirm_account find_entertainer
confirm_account-Outcome upper now id name s =
    elim (Option-cases (find_by (has_id id) s.entertainers)) [
      | inl a ↦ inl (rw a refl)
      | inr (e, a) ↦ elim (Bool-cases (is_suspended e)) [
        | inl b ↦ inl (rw (a, b) refl)
        | inr b ↦ elim (Bool-cases (missing e.resolved_account_name)) [
          | inl c ↦ inl (rw (a, b, c) refl)
          | inr c ↦ elim (Bool-cases (same_name upper name (or_empty e.resolved_account_name))) [
            | inr d ↦ inl (rw (a, b, c, d) refl)
            | inl d ↦
                rw (a, b, c, d)
                  (saved-Outcome id s e a (with_confirmed now) refl
                    (confirmed b c (record { bank = refl; account = refl; holder = refl }) refl))
          ]
        ]
      ]
    ]

checked_same_id :
    (now : ℕ) (document : DocumentType) (o : IdentityOutcome) (reason : Option String)
    (e : Entertainer)
    → (with_checked now document o reason e).id ≡ e.id
checked_same_id now document IdentityOutcome.verified reason e = refl
checked_same_id now document IdentityOutcome.failed reason e = refl
checked_same_id now document IdentityOutcome.unavailable reason e = refl

checked-Move :
    (now : ℕ) (document : DocumentType) (o : IdentityOutcome) (reason : Option String)
    (e : Entertainer)
    → is_suspended e ≡ false
    → is_some e.account_confirmed_at ≡ true
    → Move e (with_checked now document o reason e)
checked-Move now document IdentityOutcome.verified reason e a b =
    passed a b (record { bank = refl; account = refl; holder = refl }) refl refl
checked-Move now document IdentityOutcome.failed reason e a b =
    stopped a (record { bank = refl; account = refl; holder = refl }) refl refl
checked-Move now document IdentityOutcome.unavailable reason e a b =
    stopped a (record { bank = refl; account = refl; holder = refl }) refl refl

pub verify_identity-Outcome :
    (provider : IdentityParams → Result IdentityCheckResult) (now id : ℕ) (document : DocumentType)
    (number : String) (s : Store)
    → Outcome id s (verify_identity provider now id document number s).1
unfolding verify_identity find_entertainer
verify_identity-Outcome provider now id document number s =
    elim (Option-cases (find_by (has_id id) s.entertainers)) [
      | inl a ↦ inl (rw a refl)
      | inr (e, a) ↦ elim (Bool-cases (is_suspended e)) [
        | inl b ↦ inl (rw (a, b) refl)
        | inr b ↦ elim (Bool-cases (is_some e.account_confirmed_at)) [
          | inr c ↦ inl (rw (a, b, c) refl)
          | inl c ↦ elim (Bool-cases (is_verified e)) [
            | inl d ↦ inl (rw (a, b, c, d) refl)
            | inr d ↦ elim (Result-cases (provider (identity_params document number e))) [
              | inr (x, f) ↦ inl (rw (a, b, c, d, f) refl)
              | inl (r, f) ↦
                  rw (a, b, c, d, f)
                    (saved-Outcome id s e a _ (checked_same_id now document r.outcome r.reason e)
                      (checked-Move now document r.outcome r.reason e b c))
            ]
          ]
        ]
      ]
    ]

review-not_suspended :
    (e : Entertainer) → kyc_eq e.kyc_status KycStatus.review ≡ true → is_suspended e ≡ false
review-not_suspended e h = ground arith

pub decide_review-Outcome :
    (now id : ℕ) (decision : Decision) (reason : String) (s : Store)
    → Outcome id s (decide_review now id decision reason s).1
unfolding decide_review find_entertainer
decide_review-Outcome now id approve reason s =
    elim (Option-cases (find_by (has_id id) s.entertainers)) [
      | inl a ↦ inl (rw a refl)
      | inr (e, a) ↦ elim (Bool-cases (kyc_eq e.kyc_status KycStatus.review)) [
        | inr b ↦ inl (rw (a, b) refl)
        | inl b ↦ elim (Bool-cases (is_some e.account_confirmed_at)) [
          | inr c ↦ inl (rw (a, b, c) refl)
          | inl c ↦
              rw (a, b, c)
                (saved-Outcome id s e a (with_decision now approve reason) refl (
                  passed (review-not_suspended e b) c
                    (record { bank = refl; account = refl; holder = refl }) refl refl))
        ]
      ]
    ]
decide_review-Outcome now id reject reason s =
    elim (Option-cases (find_by (has_id id) s.entertainers)) [
      | inl a ↦ inl (rw a refl)
      | inr (e, a) ↦ elim (Bool-cases (kyc_eq e.kyc_status KycStatus.review)) [
        | inr b ↦ inl (rw (a, b) refl)
        | inl b ↦
            rw (a, b)
              (saved-Outcome id s e a (with_decision now reject reason) refl (
                stopped (review-not_suspended e b)
                  (record { bank = refl; account = refl; holder = refl }) refl refl))
      ]
    ]
