-- ===== src/Settlement/Handlers.antt =====
-- The paths of `settle` (src/payments/payment-settlement.service.ts) and the books.
use splitcore.Base.{
  update_by, count_by, ⊤, ℕ, inl, inr, ◌&&◌, not, Bool, Option, none, some, List, [], ◌∷◌, ◌==◌,
  find_by, All, Bool-cases, Option-cases,
}
use splitcore.Int.{eq_ℤ}
use splitcore.Action.{pure, Error, transaction, Result, Result-cases, ◌>>=◌}
use splitcore.Schema.{Reference, PaymentStatus, Store, PaymentTransaction}
use splitcore.Ledger.{compute_payment_entries, LedgerEntrySpec}
use splitcore.Ledger.Totals.{IsBalanced}
use splitcore.Books.{IsSound-payments, IsSound-jobs, IsSound}
use splitcore.Settlement.{
  wrong_currency, reload, transition, after_commit, settle_success, settle_verified, settle_found,
  for_posting, split_of, PaymentVerification, VerificationStatus, claim_and_post, enqueue_payouts,
  settle, settleable, set_status,
}
use splitcore.Settlement.Obligations.{IsCreditLine}
use splitcore.Action.Keeps.{
  pure-Keeps, or_throw_same, Keeps, bind-Keeps, lift-Keeps, gets-Keeps, if_Keeps, transaction-Keeps,
}
use splitcore.Settlement.Soundness.{settled-IsSound, post_and_create_lem}
use splitcore.Settlement.Lines.{compute_payment_entries-ok}

module _ (verify_payment : Reference → Result PaymentVerification) (add_job : ℕ → Result ⊤)
    (now : ℕ) where
  claim_and_post-IsSound :
      (id : ℕ) (es : List LedgerEntrySpec)
      → IsBalanced es
      → All IsCreditLine es
      → (s : Store) → IsSound s
      → IsSound (claim_and_post now id es s).1
  unfolding claim_and_post
  claim_and_post-IsSound id es b c s v =
      let s' = record s {
        payments =
            update_by (λ p. p.id == id && settleable p.status) (set_status PaymentStatus.success)
              s.payments;
      } in
      let v' = IsSound-payments s s'.payments v in
      elim (Bool-cases (count_by (λ p. p.id == id && settleable p.status) s.payments == 0)) [
        | inl lost ↦ rw lost v'
        | inr won ↦
            rw (won, post_and_create_lem now id es s' b) (settled-IsSound now id es s' v' b c)
      ]

  enqueue_payouts-IsSound :
      (ids : List ℕ) (s : Store) → IsSound s → IsSound (enqueue_payouts add_job ids s).1
  unfolding enqueue_payouts
  enqueue_payouts-IsSound [] s v = v
  enqueue_payouts-IsSound (id ∷ ids) s v = elim (Result-cases (add_job id)) [
    | inl (u, e) ↦ rw e (enqueue_payouts-IsSound ids _ (IsSound-jobs s _ v))
    | inr (x, e) ↦ rw e (enqueue_payouts-IsSound ids s v)
  ]

  reload-IsSound : (id : ℕ) → Keeps IsSound (reload id)
  unfolding reload
  reload-IsSound id = gets-Keeps λ found. or_throw_same Error.external found

  transition-IsSound :
      (id : ℕ) (from : PaymentStatus → Bool) (to : PaymentStatus)
      → Keeps IsSound (transition id from to)
  unfolding transition
  transition-IsSound id from to = record { run = λ s v. IsSound-payments s _ v }

  after_commit-IsSound :
      (id : ℕ) (ids : Option (List ℕ))
      → Keeps IsSound (after_commit verify_payment add_job now id ids)
  unfolding after_commit
  after_commit-IsSound id none = reload-IsSound id
  after_commit-IsSound id (some ids) =
      bind-Keeps (record { run = enqueue_payouts-IsSound ids }) λ _. reload-IsSound id

  post_settlement-IsSound :
      (p : PaymentTransaction) (es : List LedgerEntrySpec)
      → IsBalanced es
      → All IsCreditLine es
      → Keeps IsSound (
          transaction (claim_and_post now p.id es) >>= after_commit verify_payment add_job now p.id)
  post_settlement-IsSound p es b c =
      bind-Keeps (transaction-Keeps (record { run = claim_and_post-IsSound p.id es b c }))
        (after_commit-IsSound p.id)

  settle_success-IsSound :
      (p : PaymentTransaction) (x : PaymentVerification) (s : Store)
      → IsSound s
      → IsSound (settle_success verify_payment add_job now p x s).1
  unfolding settle_success
  settle_success-IsSound p x s v =
      elim (Bool-cases (not (eq_ℤ x.amount_kobo p.gross_amount_kobo))) [
        | inl e ↦ rw e v
        | inr e ↦ elim (Bool-cases (wrong_currency x.currency)) [
          | inl w ↦ rw (e, w) v
          | inr w ↦ elim (Option-cases p.split_rule_id) [
            | inl n ↦ rw (e, w, n) v
            | inr (id, i) ↦ elim (Option-cases (find_by (λ r. r.id == id) s.split_rules)) [
              | inl n ↦ rw (e, w, i, n) v
              | inr (rule, r) ↦
                  elim (Result-cases (compute_payment_entries (for_posting p) (split_of rule))) [
                    | inl (es, made) ↦
                        let (b, c) =
                          compute_payment_entries-ok (for_posting p) (split_of rule) es made in
                        rw (e, w, i, r, made) ((post_settlement-IsSound p es b c).run s v)
                    | inr (x, made) ↦ rw (e, w, i, r, made) v
                  ]
            ]
          ]
        ]
      ]

  settle_verified-IsSound :
      (p : PaymentTransaction) (x : PaymentVerification) (status : VerificationStatus)
      → Keeps IsSound (settle_verified verify_payment add_job now p x status)
  unfolding settle_verified
  settle_verified-IsSound p x VerificationStatus.success = record {
    run = settle_success-IsSound p x;
  }
  settle_verified-IsSound p x VerificationStatus.failed =
      bind-Keeps (transition-IsSound p.id _ _) λ _. reload-IsSound p.id
  settle_verified-IsSound p x _ = bind-Keeps (transition-IsSound p.id _ _) λ _. reload-IsSound p.id

  settle_found-IsSound :
      (reference : Reference) (found : Option PaymentTransaction)
      → Keeps IsSound (settle_found verify_payment add_job now reference found)
  unfolding settle_found
  settle_found-IsSound reference none = pure-Keeps
  settle_found-IsSound reference (some p) =
      if_Keeps {c = not (settleable p.status)} {m = pure (some p)} (λ _. pure-Keeps {a = some p})
        λ _.
          lift-Keeps {r = verify_payment reference}
            {f = λ x. settle_verified verify_payment add_job now p x x.status >>= λ settled.
              pure (some settled)}
            λ x _. bind-Keeps (settle_verified-IsSound p x x.status) λ _. pure-Keeps

  -- Settling a payment keeps the books sound, whatever the provider and the queue answer, and
  -- however the call ends.
  pub settle-IsSound :
      (reference : Reference) (s : Store)
      → IsSound s
      → IsSound (settle verify_payment add_job now reference s).1
  unfolding settle
  settle-IsSound reference s v = (settle_found-IsSound reference _).run s v
