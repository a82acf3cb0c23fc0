-- ===== src/Auth/Lockout.antt =====
-- Links, sessions and requests of an entertainer together (src/auth/strategies/jwt.strategy.ts,
-- src/entertainer-auth/entertainer-auth.service.ts, src/common/guards,
-- src/entertainers/entertainers.service.ts).
use splitcore.Base.{
  ℕ, ◌≡◌, refl, ap, ◌∙◌, inl, inr, false, Option, some, String, ◌==◌, ==_refl, ltb, is_some,
  find_by, Bool-cases, find_by-set_first,
}
use splitcore.Action.{Result, err, Error}
use splitcore.Schema.{Role, Entertainer, EntertainerLoginToken, Store}
use splitcore.Kyc.{has_id}
use splitcore.Auth.{JwtPayload, or_sub, validate}
use splitcore.EntertainerAuth.{issue_login_link, redeem}
use splitcore.EntertainerAuth.Redeemed.{token_row}
use splitcore.Entertainers.{with_closed, deactivate}

validate_inactive :
    (payload : JwtPayload) (id : ℕ) (t : Store) {e : Entertainer}
    → payload.role ≡ Role.entertainer
    → or_sub payload.entertainer_id payload.sub ≡ id
    → find_by (has_id id) t.entertainers ≡ some e
    → e.is_active ≡ false
    → validate payload t ≡ (err Error.unauthorized, t)
unfolding validate
validate_inactive payload id t r i a off = rw (r, i, a, off) refl

issue_inactive :
    (hash_token : String → ℕ) (now : ℕ) (frontend_url app_url : Option String) (token : String)
    (id : ℕ) (t : Store) {e : Entertainer}
    → find_by (has_id id) t.entertainers ≡ some e
    → e.is_active ≡ false
    → issue_login_link hash_token now frontend_url app_url token id t ≡ (err Error.unauthorized, t)
unfolding issue_login_link
issue_inactive hash_token now frontend_url app_url token id t a off = rw (a, off) refl

deactivate_closed :
    (id : ℕ) (s : Store) {e : Entertainer}
    → find_by (has_id id) s.entertainers ≡ some e
    → find_by (has_id id) (deactivate id s).1.entertainers ≡ some (with_closed e)
unfolding deactivate
deactivate_closed id s a = rw a (
    find_by-set_first (λ (x : Entertainer). x.id) id id with_closed s.entertainers a refl
    ∙ rw (==_refl id) refl)

deactivate_tokens :
    (id : ℕ) (s : Store) {e : Entertainer}
    → find_by (has_id id) s.entertainers ≡ some e
    → (deactivate id s).1.login_tokens ≡ s.login_tokens
unfolding deactivate
deactivate_tokens id s a = rw a refl

module _ (hash_token : String → ℕ) (now : ℕ) where
  -- A link of an entertainer who is not active is refused.
  redeem_inactive :
      (sign : JwtPayload → Result String) (token : String) (t : Store) {e : Entertainer}
      {c : EntertainerLoginToken}
      → find_by (token_row hash_token token) t.login_tokens ≡ some c
      → find_by (has_id c.entertainer_id) t.entertainers ≡ some e
      → e.is_active ≡ false
      → redeem hash_token now sign token t ≡ (err Error.unauthorized, t)
  unfolding redeem
  redeem_inactive sign token t {e} {c} a b off =
      elim (Bool-cases (hash_token token == c.token_hash)) [
        | inr d ↦ rw (a, b, d) refl
        | inl d ↦ elim (Bool-cases (is_some c.consumed_at)) [
          | inl f ↦ rw (a, b, d, f) refl
          | inr f ↦ elim (Bool-cases (ltb c.expires_at now)) [
            | inl g ↦ rw (a, b, d, f, g) refl
            | inr g ↦ rw (a, b, d, f, g, off) refl
          ]
        ]
      ]

  -- Once an entertainer is deactivated, a token they hold is refused as unauthorized at every request,
  -- no link is issued to them, and a link of theirs that is still open cannot be redeemed; none of
  -- these calls writes anything.
  pub validate-deactivate :
      (frontend_url app_url : Option String) (fresh : String) (sign : JwtPayload → Result String)
      (payload : JwtPayload) (token : String) (id : ℕ) (s : Store) {e : Entertainer}
      {c : EntertainerLoginToken}
      → find_by (has_id id) s.entertainers ≡ some e
      → payload.role ≡ Role.entertainer
      → or_sub payload.entertainer_id payload.sub ≡ id
      → find_by (token_row hash_token token) s.login_tokens ≡ some c
      → c.entertainer_id ≡ id
      → (validate payload (deactivate id s).1 ≡ (err Error.unauthorized, (deactivate id s).1))
        × (issue_login_link hash_token now frontend_url app_url fresh id (deactivate id s).1
            ≡ (err Error.unauthorized, (deactivate id s).1))
        × (redeem hash_token now sign token (deactivate id s).1
            ≡ (err Error.unauthorized, (deactivate id s).1))
  validate-deactivate frontend_url app_url fresh sign payload token id s {e} {c} a b d f g = (
    validate_inactive payload id _ b d closed refl,
    issue_inactive hash_token now frontend_url app_url fresh id _ closed refl,
    redeem_inactive sign token _ (kept ∙ f)
        (ap (λ n. find_by (has_id n) (deactivate id s).1.entertainers) g ∙ closed) refl,
  )
    where
      closed : find_by (has_id id) (deactivate id s).1.entertainers ≡ some (with_closed e)
      closed = deactivate_closed id s a

      kept :
          find_by (token_row hash_token token) (deactivate id s).1.login_tokens
          ≡ find_by (token_row hash_token token) s.login_tokens
      kept = ap (λ ts. find_by (token_row hash_token token) ts) (deactivate_tokens id s a)
