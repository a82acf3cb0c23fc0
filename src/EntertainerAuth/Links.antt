-- ===== src/EntertainerAuth/Links.antt =====
-- The life of a login link (src/entertainer-auth/entertainer-auth.service.ts): issued, redeemed,
-- superseded.
use mathlib.Core.Path.{subst}
use splitcore.Base.{
  ℕ, suc, ◌+◌, ◌*◌, ◌≤◌, ◌≡◌, refl, sym, ◌∙◌, inl, inr, true, false, Option, some, List, ◌∷◌,
  String, arith, ◌==◌, ==_refl, ltb, is_some, find_by, any_by, update_by, Bool-cases, Option-cases,
  if◌then◌else◌, find_by-update_by, any_by-none, find_by-key,
}
use splitcore.Action.{Result, ok, err, Error}
use splitcore.Schema.{Entertainer, EntertainerLoginToken, Store}
use splitcore.Kyc.{has_id}
use splitcore.Auth.{JwtPayload}
use splitcore.EntertainerAuth.Redeemed.{token_row, redeem-Redeemed}
use splitcore.EntertainerAuth.{
  link_ttl_minutes, IssuedLoginLink, Session, is_open_of, with_consumed, new_token, insert_token,
  issue_login_link, is_claimable, claim_token, jwt_payload, redeem,
}

one_claimed : (n : ℕ) → (suc n == 0) ≡ false
one_claimed n = ground arith

module _ (hash_token : String → ℕ) (now later : ℕ) where
  -- A link that was consumed is refused, and nothing changes.
  consumed_refused :
      (sign : JwtPayload → Result String) (token : String) (s : Store) {c : EntertainerLoginToken}
      {e : Entertainer}
      → find_by (token_row hash_token token) s.login_tokens ≡ some c
      → find_by (has_id c.entertainer_id) s.entertainers ≡ some e
      → is_some c.consumed_at ≡ true
      → redeem hash_token later sign token s ≡ (err Error.unauthorized, s)
  unfolding redeem
  consumed_refused sign token s {c} a b used =
      elim (Bool-cases (hash_token token == c.token_hash)) [
        | inr other ↦ rw (a, b, other) refl
        | inl same ↦ rw (a, b, same, used) refl
      ]

  -- the row of a link after its claim
  spent :
      (token : String) (c : EntertainerLoginToken) (s : Store)
      → find_by (token_row hash_token token) s.login_tokens ≡ some c
      → is_some c.consumed_at ≡ false
      → find_by
          (token_row hash_token token)
          (update_by (is_claimable c.id) (with_consumed now) s.login_tokens)
        ≡ some (with_consumed now c)
  spent token c s a f =
      find_by-update_by (λ (t : EntertainerLoginToken). t.token_hash) (hash_token token)
        (is_claimable c.id) (with_consumed now) s.login_tokens (λ t. refl) a
      ∙ rw (==_refl c.id, f) refl

  -- A link that was redeemed cannot be redeemed again: every further attempt is refused as
  -- unauthorized and changes nothing.
  pub redeem-once :
      (sign sign' : JwtPayload → Result String) (token : String) (s : Store) {v : Session}
      → (redeem hash_token now sign token s).0 ≡ ok v
      → redeem hash_token later sign' token (redeem hash_token now sign token s).1
        ≡ (err Error.unauthorized, (redeem hash_token now sign token s).1)
  redeem-once sign sign' token s {v} done =
      let r = redeem-Redeemed hash_token now sign token s done in
      subst (λ s'. redeem hash_token later sign' token s' ≡ (err Error.unauthorized, s'))
        (sym r.left)
        (consumed_refused sign' token _ (spent token r.link s r.link_found r.unused) r.found refl)

  -- the row of a link of the entertainer after another one is issued
  superseded :
      (id : ℕ) (old : String) (c : EntertainerLoginToken) (s : Store)
      → find_by (token_row hash_token old) s.login_tokens ≡ some c
      → c.entertainer_id ≡ id
      → (c' : EntertainerLoginToken) × (find_by
            (token_row hash_token old)
            (update_by (is_open_of id) (with_consumed now) s.login_tokens)
          ≡ some c')
        × (c'.entertainer_id ≡ id)
        × (is_some c'.consumed_at ≡ true)
  superseded id old c s a mine = elim (Bool-cases (is_some c.consumed_at)) [
    | inl f ↦ (c, look ∙ rw (mine, ==_refl id, f) refl, mine, f)
    | inr f ↦ (with_consumed now c, look ∙ rw (mine, ==_refl id, f) refl, mine, refl)
  ]
    where
      look :
          find_by
            (token_row hash_token old)
            (update_by (is_open_of id) (with_consumed now) s.login_tokens)
          ≡ some (if is_open_of id c then with_consumed now c else c)
      look =
          find_by-update_by (λ (t : EntertainerLoginToken). t.token_hash) (hash_token old)
            (is_open_of id) (with_consumed now) s.login_tokens (λ t. refl) a

  module _ (frontend_url app_url : Option String) (token : String) (id : ℕ) (s : Store) where
    tokens_after : List EntertainerLoginToken
    tokens_after = update_by (is_open_of id) (with_consumed now) s.login_tokens

    store_after : Store
    store_after = record s {
      login_tokens =
          new_token id (hash_token token) (now + link_ttl_minutes * 60_000) now s.next_id
          ∷ tokens_after;
      next_id = suc s.next_id;
    }

    -- what a link that is issued leaves in the database
    issued_lem :
        {link : IssuedLoginLink}
        → (issue_login_link hash_token now frontend_url app_url token id s).0 ≡ ok link
        → (e : Entertainer) × (find_by (has_id id) s.entertainers ≡ some e)
          × (e.is_active ≡ true)
          × (any_by (token_row hash_token token) tokens_after ≡ false)
          × ((issue_login_link hash_token now frontend_url app_url token id s).1 ≡ store_after)
    unfolding issue_login_link insert_token store_after tokens_after
    issued_lem done = elim (Option-cases (find_by (has_id id) s.entertainers)) [
      | inl b ↦ absurd (cc (rw b at done))
      | inr (e, b) ↦ elim (Bool-cases e.is_active) [
        | inr d ↦ absurd (cc (rw (b, d) at done))
        | inl d ↦ elim (Bool-cases (any_by (token_row hash_token token) tokens_after)) [
          | inl f ↦ absurd (cc (rw (b, d, f) at done))
          | inr f ↦ (e, b, d, f, rw (b, d, f) refl)
        ]
      ]
    ]

    -- Once a link is issued, every link issued to the same entertainer before is refused, and the
    -- attempt changes nothing.
    pub redeem-superseded :
        (sign : JwtPayload → Result String) (old : String) {c : EntertainerLoginToken}
        {link : IssuedLoginLink}
        → (issue_login_link hash_token now frontend_url app_url token id s).0 ≡ ok link
        → find_by (token_row hash_token old) s.login_tokens ≡ some c
        → c.entertainer_id ≡ id
        → redeem hash_token later sign old
            (issue_login_link hash_token now frontend_url app_url token id s).1
          ≡ (
            err Error.unauthorized,
            (issue_login_link hash_token now frontend_url app_url token id s).1,
          )
    unfolding store_after tokens_after
    redeem-superseded sign old {c} done a mine =
        let (e, b, d, f, same) = issued_lem done in
        let (c', look, mine', used) = superseded id old c s a mine in
        let other : (hash_token token == hash_token old) ≡ false = ground (
          arith,
          any_by-none (token_row hash_token token) _ _ f look,
          find_by-key (λ (t : EntertainerLoginToken). t.token_hash) (hash_token old) _ look,
        ) in
        subst (λ t. redeem hash_token later sign old t ≡ (err Error.unauthorized, t)) (sym same)
          (consumed_refused sign old store_after {c = c'} {e = e} (rw other look) (rw mine' b) used)

    -- A link that was issued can be redeemed within its thirty minutes, by the entertainer it was issued
    -- for, if sessions can be signed.
    pub redeem-issue_login_link :
        (sign : JwtPayload → Result String) {jwt : String} {link : IssuedLoginLink}
        → (issue_login_link hash_token now frontend_url app_url token id s).0 ≡ ok link
        → later ≤ now + 30 * 60_000
        → sign (jwt_payload id) ≡ ok jwt
        → (e : Entertainer) × (find_by (has_id id) s.entertainers ≡ some e)
          × ((redeem hash_token later sign token
                (issue_login_link hash_token now frontend_url app_url token id s).1).0
              ≡ ok (record { access_token = jwt; entertainer_id = id; stage_name = e.stage_name }))
    unfolding redeem claim_token store_after
    redeem-issue_login_link sign {jwt} done fresh signed =
        let (e, b, d, f, same) = issued_lem done in
        let in_time : ltb (now + link_ttl_minutes * 60_000) later ≡ false = ground (arith, fresh) in
        let session : Session = record {
          access_token = jwt;
          entertainer_id = id;
          stage_name = e.stage_name;
        } in
        (
          e,
          b,
          subst (λ t. (redeem hash_token later sign token t).0 ≡ ok session) (sym same)
              (rw (==_refl (hash_token token)) (
                rw (b, ==_refl (hash_token token))
                  (rw (in_time, d) (rw (==_refl s.next_id) (rw (one_claimed _, signed) refl))))),
        )
