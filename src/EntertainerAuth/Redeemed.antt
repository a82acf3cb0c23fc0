-- ===== src/EntertainerAuth/Redeemed.antt =====
-- What a redeemed link was (src/entertainer-auth/entertainer-auth.service.ts).
use splitcore.Base.{
  ℕ, ◌≡◌, refl, sym, ap, inl, inr, Bool, true, false, some, String, ◌==◌, ltb, is_some, find_by,
  update_by, count_by, Bool-cases, Option-cases,
}
use splitcore.Action.{Result, ok, Result-cases}
use splitcore.Result.{ok-injective}
use splitcore.Schema.{Entertainer, EntertainerLoginToken, Store}
use splitcore.Kyc.{has_id}
use splitcore.Auth.{JwtPayload}
use splitcore.EntertainerAuth.{
  Session, is_claimable, with_consumed, claim_token, jwt_payload, redeem,
}

-- The lookup of a token by its hash.
abbrev pub token_row : (String → ℕ) → String → EntertainerLoginToken → Bool
token_row hash_token token t = t.token_hash == hash_token token

-- The link and the entertainer behind a session, as they stood before the call, and the database that
-- the call left.
pub record Redeemed (hash_token : String → ℕ) (now : ℕ) (token : String) (s s' : Store)
    (v : Session) : Type 0 where
  pub link : EntertainerLoginToken
  pub entertainer : Entertainer
  pub link_found : find_by (token_row hash_token token) s.login_tokens ≡ some link
  pub found : find_by (has_id link.entertainer_id) s.entertainers ≡ some entertainer
  pub same_hash : (hash_token token == link.token_hash) ≡ true
  pub unused : is_some link.consumed_at ≡ false
  pub active : entertainer.is_active ≡ true
  pub session_of : v.entertainer_id ≡ link.entertainer_id
  pub left : s' ≡ record s {
    login_tokens = update_by (is_claimable link.id) (with_consumed now) s.login_tokens;
  }

pub redeem-Redeemed :
    (hash_token : String → ℕ) (now : ℕ) (sign : JwtPayload → Result String) (token : String)
    (s : Store) {v : Session}
    → (redeem hash_token now sign token s).0 ≡ ok v
    → Redeemed hash_token now token s (redeem hash_token now sign token s).1 v
unfolding redeem claim_token
redeem-Redeemed hash_token now sign token s {v} done =
    elim (Option-cases (find_by (token_row hash_token token) s.login_tokens)) [
      | inl a ↦ absurd (cc (rw a at done))
      | inr (c, a) ↦ elim (Option-cases (find_by (has_id c.entertainer_id) s.entertainers)) [
        | inl b ↦ absurd (cc (rw (a, b) at done))
        | inr (e, b) ↦ elim (Bool-cases (hash_token token == c.token_hash)) [
          | inr d ↦ absurd (cc (rw (a, b, d) at done))
          | inl d ↦ elim (Bool-cases (is_some c.consumed_at)) [
            | inl f ↦ absurd (cc (rw (a, b, d, f) at done))
            | inr f ↦ elim (Bool-cases (ltb c.expires_at now)) [
              | inl g ↦ absurd (cc (rw (a, b, d, f, g) at done))
              | inr g ↦ elim (Bool-cases e.is_active) [
                | inr h ↦ absurd (cc (rw (a, b, d, f, g, h) at done))
                | inl h ↦ elim (Bool-cases (count_by (is_claimable c.id) s.login_tokens == 0)) [
                  | inl k ↦ absurd (cc (rw (a, b, d, f, g, h, k) at done))
                  | inr k ↦ elim (Result-cases (sign (jwt_payload c.entertainer_id))) [
                    | inr (x, l) ↦ absurd (cc (rw (a, b, d, f, g, h, k, l) at done))
                    | inl (jwt, l) ↦ record {
                      link = c;
                      entertainer = e;
                      link_found = a;
                      found = b;
                      same_hash = d;
                      unused = f;
                      active = h;
                      session_of = sym (
                          ap (λ (x : Session). x.entertainer_id)
                            (ok-injective _ v (rw (a, b, d, f, g, h, k, l) at done)));
                      left = rw (a, b, d, f, g, h, k, l) refl;
                    }
                  ]
                ]
              ]
            ]
          ]
        ]
      ]
    ]
