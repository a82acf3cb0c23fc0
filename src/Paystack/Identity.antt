-- ===== src/Paystack/Identity.antt =====
-- The verdict of an identity check (src/kyc/providers/paystack-kyc.provider.ts).
use mathlib.Core.Path.{subst}
use splitcore.Base.{
  ◌≤◌, ◌&&◌, Bool, Option, none, some, Option-cases, ◌≡◌, ◌≢◌, ◌↔◌, refl, sym, ◌∙◌, inl, inr, true,
  false, arith, ◌==◌, Bool-cases,
}
use splitcore.Result.{Result, Result-cases, ok, err, ok-injective}
use splitcore.KycProvider.{IdentityOutcome, IdentityCheckResult, IdentityParams}
use splitcore.Paystack.{is_ok}
use splitcore.Paystack.Verification.{
  KycBody, is_true, KycResponse, MatchData, MatchRequest, says_ok, data_in, names_match,
  blacklisted, match_request, identity_verdict, verdict_or_unreachable, verify_identity,
}

-- The response of a check that passes: a status from 200 to 299, a body that says `status: true`, and
-- data in which both names are `true` and `is_blacklisted` is not.
pub record IsMatch (response : KycResponse MatchData) : Type 0 where
  pub success : (200 ≤ response.status) × (response.status ≤ 299)
  pub body : KycBody MatchData
  pub data_ : MatchData
  pub has_body : response.body ≡ some body
  pub accepted : body.status ≡ some true
  pub has_data : body.data_ ≡ some data_
  pub first : data_.first_name ≡ some true
  pub last : data_.last_name ≡ some true
  pub clean : data_.is_blacklisted ≢ some true

-- the same by the tests of the code
record IsAccepted (response : KycResponse MatchData) : Type 0 where
  pub answered : is_ok response.status ≡ true
  pub accepted : says_ok response.body ≡ true
  pub names : names_match (data_in response.body) ≡ true
  pub clean : blacklisted (data_in response.body) ≡ false

verdict_iff :
    (response : KycResponse MatchData)
    → ((identity_verdict response).outcome ≡ IdentityOutcome.verified) ↔ IsAccepted response
unfolding identity_verdict
verdict_iff response = elim (Bool-cases (response.status == 404)) [
  | inl a ↦ (λ h. absurd (cc (rw a at h)), λ m. let m = m.answered in absurd (ground (arith, a, m)))
  | inr a ↦ elim (Bool-cases (is_ok response.status)) [
    | inr b ↦ (λ h. absurd (cc (rw (a, b) at h)), λ m. absurd (cc (b, m.answered)))
    | inl b ↦ elim (Bool-cases (says_ok response.body)) [
      | inr c ↦ (λ h. absurd (cc (rw (a, b, c) at h)), λ m. absurd (cc (c, m.accepted)))
      | inl c ↦ elim (Bool-cases (names_match (data_in response.body))) [
        | inr d ↦ (λ h. absurd (cc (rw (a, b, c, d) at h)), λ m. absurd (cc (d, m.names)))
        | inl d ↦ elim (Bool-cases (blacklisted (data_in response.body))) [
          | inl e ↦ (λ h. absurd (cc (rw (a, b, c, d, e) at h)), λ m. absurd (cc (e, m.clean)))
          | inr e ↦ (
            λ h. record { answered = b; accepted = c; names = d; clean = e },
            λ m. rw (a, b, c, d, e) refl,
          )
        ]
      ]
    ]
  ]
]

is_true_iff : (x : Option Bool) → (is_true x ≡ true) ↔ (x ≡ some true)
is_true_iff none = (λ h. cc h, λ h. cc h)
is_true_iff (some true) = (λ h. refl, λ h. refl)
is_true_iff (some false) = (λ h. cc h, λ h. cc h)

both_true : (a b : Bool) → (a && b) ≡ true → (a ≡ true) × (b ≡ true)
both_true a b h = ground (arith, h)

IsAccepted-IsMatch : (response : KycResponse MatchData) → IsAccepted response → IsMatch response
IsAccepted-IsMatch response m = elim (Option-cases response.body) [
  | inl a ↦ absurd (cc (rw a at m.accepted))
  | inr (b, a) ↦ elim (Option-cases b.data_) [
    | inl c ↦ absurd (cc (rw (a, c) at m.names))
    | inr (d, c) ↦
        let names = both_true _ _ (rw (a, c) at m.names) in
        let answered = m.answered in
        record {
          success = ground (arith, answered);
          body = b;
          data_ = d;
          has_body = a;
          accepted = (is_true_iff b.status).0 (rw a at m.accepted);
          has_data = c;
          first = (is_true_iff d.first_name).0 names.0;
          last = (is_true_iff d.last_name).0 names.1;
          clean = λ h. cc ((is_true_iff d.is_blacklisted).1 h, rw (a, c) at m.clean);
        }
  ]
]

IsMatch-IsAccepted : (response : KycResponse MatchData) → IsMatch response → IsAccepted response
IsMatch-IsAccepted response m = record {
  answered = let within = m.success in ground (arith, within);
  accepted = rw (m.has_body, m.accepted) refl;
  names = rw (m.has_body, m.has_data, m.first, m.last) refl;
  clean =
      rw (m.has_body, m.has_data)
        (elim (Bool-cases (is_true m.data_.is_blacklisted)) [
          | inl h ↦ absurd (m.clean ((is_true_iff m.data_.is_blacklisted).0 h))
          | inr h ↦ h
        ]);
}

-- The check never throws, and it says that an identity is verified exactly when the API has answered
-- with a status from 200 to 299 and `status: true`, both names `true`, and `is_blacklisted` not `true`.
pub verify_identity-verified :
    (fetch : MatchRequest → Result (KycResponse MatchData)) (params : IdentityParams)
    → (r : IdentityCheckResult) × (verify_identity fetch params ≡ ok r)
      × ((r.outcome ≡ IdentityOutcome.verified) ↔ (
          (response : KycResponse MatchData) × (fetch (match_request params) ≡ ok response)
          × IsMatch response))
unfolding verify_identity
verify_identity-verified fetch params = elim (Result-cases (fetch (match_request params))) [
  | inr (e, a) ↦
      (verdict_or_unreachable (err e), rw a refl, (λ h. absurd (cc (h)), λ p. absurd (cc (a, p.1))))
  | inl (response, a) ↦ (
    identity_verdict response,
    rw a refl,
    (
      λ h. (response, a, IsAccepted-IsMatch response ((verdict_iff response).0 h)),
      λ p. (verdict_iff response).1 (
          IsMatch-IsAccepted response
            (subst IsMatch (ok-injective p.0 response (sym p.1 ∙ a)) p.2)),
    ),
  )
]
