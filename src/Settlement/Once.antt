-- ===== src/Settlement/Once.antt =====
-- The claim of a settlement (src/payments/payment-settlement.service.ts), and the calls that come
-- after it.
use splitcore.Base.{
  ⊤, ℕ, ◌≡◌, refl, ap, ◌⊎◌, inl, inr, ◌&&◌, Bool, true, false, none, some, List, [], ◌∷◌, arith,
  ◌==◌, find_by, update_by, count_by, Bool-cases,
}
use splitcore.Action.{Result, ok, err, Error}
use splitcore.Schema.{Reference, reference_eq, PaymentStatus, PaymentTransaction, Store}
use splitcore.Ledger.{LedgerEntrySpec}
use splitcore.Ledger.Totals.{IsBalanced}
use splitcore.Settlement.{
  PaymentVerification, settleable, set_status, claim_and_post, settle_found, settle,
}
use splitcore.Settlement.Soundness.{post_and_create_lem, settled}

-- `where: { id, status: { in: SETTLEABLE } }`
abbrev claims : ℕ → PaymentTransaction → Bool
claims id p = p.id == id && settleable p.status

module _ (id : ℕ) where
  claimed-count :
      (ps : List PaymentTransaction)
      → count_by (claims id) (update_by (claims id) (set_status PaymentStatus.success) ps) ≡ 0
  claimed-count [] = refl
  claimed-count (p ∷ ps) = elim (Bool-cases (claims id p)) [
    | inl hit ↦ rw (hit, claimed-count ps) (ground arith)
    | inr miss ↦ rw (miss, claimed-count ps, miss) refl
  ]

  unclaimed-update :
      (ps : List PaymentTransaction)
      → count_by (claims id) ps ≡ 0
      → update_by (claims id) (set_status PaymentStatus.success) ps ≡ ps
  unclaimed-update [] h = refl
  unclaimed-update (p ∷ ps) h = elim (Bool-cases (claims id p)) [
    | inl hit ↦ absurd (ground (arith, rw hit at h))
    | inr miss ↦ rw (miss, unclaimed-update ps (rw miss at h)) refl
  ]

  -- A claim that no payment answers to changes nothing and posts nothing.
  lost_claim :
      (now : ℕ) (es : List LedgerEntrySpec) (s : Store)
      → count_by (claims id) s.payments ≡ 0
      → claim_and_post now id es s ≡ (ok none, s)
  unfolding claim_and_post
  lost_claim now es s h =
      rw h (ap (λ ps. (ok none, record s { payments = ps })) (unclaimed-update s.payments h))

  -- Settlement is exactly-once: after a claim of a payment with a balanced posting has run, won or
  -- lost, any further claim of that payment, with whatever posting, changes nothing and posts
  -- nothing.
  pub claim_and_post-once :
      (now now' : ℕ) (es es' : List LedgerEntrySpec) (s : Store)
      → IsBalanced es
      → claim_and_post now' id es' (claim_and_post now id es s).1
        ≡ (ok none, (claim_and_post now id es s).1)
  unfolding claim_and_post
  claim_and_post-once now now' es es' s b =
      let s' = record s {
        payments = update_by (claims id) (set_status PaymentStatus.success) s.payments;
      } in
      elim (Bool-cases (count_by (claims id) s.payments == 0)) [
        | inl lost ↦ rw lost (lost_claim now' es' s' (claimed-count s.payments))
        | inr won ↦
            rw (won, post_and_create_lem now id es s' b)
              (lost_claim now' es' (settled now id es s') (claimed-count s.payments))
      ]

-- The statuses that a payment does not leave by a settlement.
pub data IsFinal : PaymentStatus → Type 0 where
  success_final : IsFinal PaymentStatus.success
  reversed_final : IsFinal PaymentStatus.reversed
  refunded_final : IsFinal PaymentStatus.refunded

is_final : PaymentStatus → Bool
is_final PaymentStatus.success = true
is_final PaymentStatus.reversed = true
is_final PaymentStatus.refunded = true
is_final _ = false

final_true : {x : PaymentStatus} → IsFinal x → is_final x ≡ true
unfolding is_final
final_true success_final = refl
final_true reversed_final = refl
final_true refunded_final = refl

settleable_iff :
    (x : PaymentStatus)
    → (IsFinal x × (settleable x ≡ false)) ⊎ ((IsFinal x → ⊥) × (settleable x ≡ true))
unfolding is_final
settleable_iff PaymentStatus.created = inr ((λ f. cc (final_true f)), refl)
settleable_iff PaymentStatus.pending = inr ((λ f. cc (final_true f)), refl)
settleable_iff PaymentStatus.failed = inr ((λ f. cc (final_true f)), refl)
settleable_iff PaymentStatus.abandoned = inr ((λ f. cc (final_true f)), refl)
settleable_iff PaymentStatus.success = inl (success_final, refl)
settleable_iff PaymentStatus.reversed = inl (reversed_final, refl)
settleable_iff PaymentStatus.refunded = inl (refunded_final, refl)

-- Exactly the payments that are SUCCESS, REVERSED or REFUNDED are returned as they are, with nothing
-- changed and whatever the provider answers; for every other payment the provider is asked, and a throw
-- of it is the call's.
pub settle-IsFinal :
    (verify : Reference → Result PaymentVerification) (add_job : ℕ → Result ⊤) (now : ℕ) (x : Error)
    (reference : Reference) (s : Store) {p : PaymentTransaction}
    → find_by (λ p. reference_eq reference p.external_reference) s.payments ≡ some p
    → (IsFinal p.status × (settle verify add_job now reference s ≡ (ok (some p), s)))
      ⊎ ((IsFinal p.status → ⊥) × (settle (λ r. err x) add_job now reference s ≡ (err x, s)))
unfolding settle settle_found
settle-IsFinal verify add_job now x reference s {p} found = elim (settleable_iff p.status) [
  | inl (final, closed) ↦ inl (final, rw (found, closed) refl)
  | inr (open_status, opened) ↦ inr (open_status, rw (found, opened) refl)
]
