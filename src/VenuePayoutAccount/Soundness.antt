-- ===== src/VenuePayoutAccount/Soundness.antt =====
-- The payout account of a venue (src/venue-payout-account/venue-payout-account.service.ts): what a
-- call does to the venue, and what the payouts may rely on.
use Prim.Native.Char.{Char}
use mathlib.Core.Path.{subst}
use splitcore.Base.{
  ℕ, ◌≡◌, refl, sym, ◌⊎◌, ◌↔◌, inl, inr, ◌||◌, Bool, true, false, none, some, String, arith,
  is_some, find_by, set_first, All, Bool-cases, Option-cases, All-set_first,
}
use splitcore.Action.{Result, Result-cases, ok, err}
use splitcore.Schema.{Venue, Store}
use splitcore.Payouts.{present}
use splitcore.Names.{Text}
use splitcore.Kyc.{SubmitBankDetails, same_text, same_name, or_empty}
use splitcore.KycProvider.{Resolution, resolved, refused}
use splitcore.KycView.{missing}
use splitcore.Banks.{Bank}
use splitcore.Kyc.Soundness.{same_text-eq}
use splitcore.VenuePayoutAccount.{
  next_step_for, done_step, to_view, has_id, find_venue, update_venue, save, destination_changed,
  bank_details_data, submit_bank_details, with_resolved, after_resolve, resolve_account,
  with_confirmed, confirm_account, AccountWorld, AccountCall, submit, ask_bank, confirm, run_call,
}

-- The destination of a venue was asked for at the bank, if it has a holder's name, and a person
-- confirmed that name, if it is confirmed.
pub record IsVetted (v : Venue) : Type 0 where
  pub named_account :
      v.resolved_account_name ≡ none ⊎ (missing v.account_number || missing v.bank_code ≡ false)
  pub confirmed_holder :
      is_some v.account_confirmed_at ≡ false ⊎ (missing v.resolved_account_name ≡ false)

pub record SameDestination (v v' : Venue) : Type 0 where
  pub bank : v'.bank_code ≡ v.bank_code
  pub account : v'.account_number ≡ v.account_number
  pub holder : v'.resolved_account_name ≡ v.resolved_account_name

-- What a call does to the row `v` that it has found, to leave the row `v'`.
pub data Move (v v' : Venue) : Type 0 where
  same_details : SameDestination v v' → v'.account_confirmed_at ≡ v.account_confirmed_at → Move v v'
  new_details : v'.resolved_account_name ≡ none → v'.account_confirmed_at ≡ none → Move v v'
  named :
      missing v.account_number || missing v.bank_code ≡ false
      → v'.bank_code ≡ v.bank_code
      → v'.account_number ≡ v.account_number
      → v'.account_confirmed_at ≡ none
      → Move v v'
  confirmed : missing v.resolved_account_name ≡ false → SameDestination v v' → Move v v'

-- What a call does to the database, if it does anything: one move of the row with its id.
pub record Moved (id : ℕ) (s s' : Store) : Type 0 where
  pub row : Venue
  pub change : Venue → Venue
  pub found : find_by (has_id id) s.venues ≡ some row
  pub same_id : (change row).id ≡ row.id
  pub move : Move row (change row)
  pub left : s' ≡ record s { venues = set_first (has_id id) change s.venues }

abbrev pub Outcome : ℕ → Store → Store → Type 0
Outcome id s s' = (s' ≡ s) ⊎ Moved id s s'

module _ (id : ℕ) (s : Store) (v : Venue) (found : find_by (has_id id) s.venues ≡ some v) where
  saved-Outcome :
      (f : Venue → Venue) → (f v).id ≡ v.id → Move v (f v) → Outcome id s (save id f s).1
  unfolding update_venue
  saved-Outcome f same step = inr (record {
    row = v;
    change = f;
    found = found;
    same_id = same;
    move = step;
    left = rw found refl;
  })

same_destination :
    (account : String) (bank : Bank) (v : Venue)
    → destination_changed account bank v ≡ false
    → (v.account_number ≡ some account) × (v.bank_code ≡ some bank.code)
same_destination account bank v h = elim (Bool-cases (same_text v.account_number account)) [
  | inr a ↦ absurd (cc (rw a at h))
  | inl a ↦ elim (Bool-cases (same_text v.bank_code bank.code)) [
    | inr b ↦ absurd (cc (rw (a, b) at h))
    | inl b ↦ (same_text-eq v.account_number account a, same_text-eq v.bank_code bank.code b)
  ]
]

details-Move :
    (account : String) (bank : Bank) (v : Venue) (changed : Bool)
    → destination_changed account bank v ≡ changed
    → Move v (bank_details_data changed account bank v)
      × ((bank_details_data changed account bank v).id ≡ v.id)
details-Move account bank v true h = (new_details refl refl, refl)
details-Move account bank v false h =
    let (number, code) = same_destination account bank v h in
    (same_details (record { bank = sym code; account = sym number; holder = refl }) refl, refl)

submit_bank_details-Outcome :
    (resolve_bank : SubmitBankDetails → Result Bank) (id : ℕ) (input : SubmitBankDetails)
    (s : Store)
    → Outcome id s (submit_bank_details resolve_bank id input s).1
unfolding submit_bank_details find_venue
submit_bank_details-Outcome resolve_bank id input s =
    elim (Option-cases (find_by (has_id id) s.venues)) [
      | inl a ↦ inl (rw a refl)
      | inr (v, a) ↦ elim (Result-cases (resolve_bank input)) [
        | inr (x, c) ↦ inl (rw (a, c) refl)
        | inl (bank, c) ↦
            let (move, same) =
              details-Move input.account_number bank v
                (destination_changed input.account_number bank v) refl in
            rw (a, c, a) (saved-Outcome id s v a _ same move)
      ]
    ]

module _ (provider : String → String → Result Resolution) (now id : ℕ) (s : Store) where
  after_resolve-Outcome :
      (v : Venue)
      → find_by (has_id id) s.venues ≡ some v
      → missing v.account_number || missing v.bank_code ≡ false
      → (r : Result Resolution) → Outcome id s (after_resolve now id r s).1
  unfolding after_resolve
  after_resolve-Outcome v a c (ok (resolved name)) =
      saved-Outcome id s v a (with_resolved now name) refl (named c refl refl refl)
  after_resolve-Outcome v a c (ok (refused message)) = inl refl
  after_resolve-Outcome v a c (err x) = inl refl

  resolve_account-Outcome : Outcome id s (resolve_account provider now id s).1
  unfolding resolve_account find_venue
  resolve_account-Outcome = elim (Option-cases (find_by (has_id id) s.venues)) [
    | inl a ↦ inl (rw a refl)
    | inr (v, a) ↦ elim (Option-cases (present v.account_number)) [
      | inl c ↦ inl (rw (a, c) refl)
      | inr (account, c) ↦ elim (Option-cases (present v.bank_code)) [
        | inl d ↦ inl (rw (a, c, d) refl)
        | inr (code, d) ↦
            rw (a, c, d) (after_resolve-Outcome v a (rw (c, d) refl) (provider account code))
      ]
    ]
  ]

confirm_account-Outcome :
    (upper : Char → Text) (now id : ℕ) (name : String) (s : Store)
    → Outcome id s (confirm_account upper now id name s).1
unfolding confirm_account find_venue
confirm_account-Outcome upper now id name s = elim (Option-cases (find_by (has_id id) s.venues)) [
  | inl a ↦ inl (rw a refl)
  | inr (v, a) ↦ elim (Bool-cases (missing v.resolved_account_name)) [
    | inl c ↦ inl (rw (a, c) refl)
    | inr c ↦ elim (Bool-cases (same_name upper name (or_empty v.resolved_account_name))) [
      | inr d ↦ inl (rw (a, c, d) refl)
      | inl d ↦
          rw (a, c, d)
            (saved-Outcome id s v a (with_confirmed now) refl
              (confirmed c (record { bank = refl; account = refl; holder = refl })))
    ]
  ]
]

-- A call, with any answers of the bank and the list of banks, leaves the database as it was, or makes
-- one move of the machine with the row of its venue and leaves all else as it was.
pub account-Outcome :
    (w : AccountWorld) (id : ℕ) (c : AccountCall) (s : Store) → Outcome id s (run_call w id c s).1
unfolding run_call
account-Outcome w id (submit input) s = submit_bank_details-Outcome w.resolve_bank id input s
account-Outcome w id ask_bank s = resolve_account-Outcome w.resolve w.now id s
account-Outcome w id (confirm name) s = confirm_account-Outcome w.upper w.now id name s

move-IsVetted : {v v' : Venue} → Move v v' → IsVetted v → IsVetted v'
move-IsVetted (same_details d c) p = record {
  named_account = rw (d.holder, d.account, d.bank) p.named_account;
  confirmed_holder = rw (c, d.holder) p.confirmed_holder;
}
move-IsVetted (new_details n c) p = record {
  named_account = inl n;
  confirmed_holder = inl (rw c refl);
}
move-IsVetted (named q b i c) p = record {
  named_account = inr (rw (b, i) q);
  confirmed_holder = inl (rw c refl);
}
move-IsVetted (confirmed q d) p = record {
  named_account = rw (d.holder, d.account, d.bank) p.named_account;
  confirmed_holder = inr (rw d.holder q);
}

Outcome-IsVetted :
    {id : ℕ} {s s' : Store} → Outcome id s s' → All IsVetted s.venues → All IsVetted s'.venues
Outcome-IsVetted (inl same) all = subst (λ t. All IsVetted t.venues) (sym same) all
Outcome-IsVetted {id} {s} {s'} (inr m) all =
    subst (λ t. All IsVetted t.venues) (sym m.left)
      (All-set_first IsVetted (has_id id) m.change s.venues m.found all (move-IsVetted m.move))

-- Every call keeps the rows of all venues vetted: a holder's name is only stored beside an account
-- and a bank, and a confirmation only beside a holder's name that is not empty.
pub account-IsVetted :
    (w : AccountWorld) (id : ℕ) (c : AccountCall) (s : Store)
    → All IsVetted s.venues
    → All IsVetted (run_call w id c s).1.venues
account-IsVetted w id c s all = Outcome-IsVetted (account-Outcome w id c s) all

-- For a vetted row the view says DONE exactly when it says that payouts are enabled.
pub account_step-done :
    (v : Venue) → IsVetted v → (next_step_for v ≡ done_step) ↔ ((to_view v).payouts_enabled ≡ true)
unfolding next_step_for to_view
account_step-done v p = ground arith
