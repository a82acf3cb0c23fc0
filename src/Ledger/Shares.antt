-- ===== src/Ledger/Shares.antt =====
-- Who is credited by the posting of a payment (`computePaymentEntries` of
-- src/ledger/ledger.service.ts).
use mathlib.Core.List.{append-nil}
use splitcore.Base.{
  ℕ, ◌≤◌, ◌≡◌, refl, sym, ◌∙◌, inl, inr, Bool, true, false, not, ◌&&◌, Option, none, some, List, [],
  ◌∷◌, ◌++◌, arith, opt_eq, opt_eq_iff, Bool-cases, Option-cases, ap, if◌then◌else◌,
}
use splitcore.Int.{
  ℤ, pos, pos_part, neg_part, ◌+ℤ◌, ◌-ℤ◌, ◌≤ℤ◌, ltb_ℤ, int_laws, zero_+ℤ, neg_part_nonneg,
}
use splitcore.Result.{ok}
use splitcore.Schema.{
  LedgerAccountType, entertainer_payable, venue_payable, platform_revenue, processor_clearing,
  account_eq, is_debit,
}
use splitcore.Ledger.{
  LedgerEntrySpec, PaymentForPosting, SplitForPosting, push_positive, payment_lines,
  compute_payment_entries, entertainer_share, venue_share, platform_share,
}
use splitcore.Ledger.Totals.{IsBalanced, assert_balanced_iff}
use splitcore.Ledger.Posting.{
  IsSplit, IsExact, IsExact-IsGross, floor_part, shares_Divides, assert_valid_split_iff,
  apply_basis_points-floor_part,
}
use splitcore.Ledger.Payments.{payment_lines-IsBalanced}

-- a line of an account, on the debit side or the credit side
abbrev pub on_account : Bool → LedgerAccountType → Option ℕ → LedgerEntrySpec → Bool
on_account debits t owner e =
    (if debits then is_debit e.direction else not (is_debit e.direction))
    && account_eq t e.account_type
    && opt_eq owner e.owner_id

-- what the lines of a posting put on one side of an account
pub amount_on : Bool → LedgerAccountType → Option ℕ → List LedgerEntrySpec → ℤ
amount_on debits t owner [] = pos 0
amount_on debits t owner (e ∷ es) =
    (if on_account debits t owner e then e.amount_kobo else pos 0) +ℤ amount_on debits t owner es

-- What the entertainer of a payment is due, and its venue, which has the entertainer's share where
-- there is none.
pub entertainer_due : Option ℕ → ℤ → SplitForPosting → ℤ
entertainer_due none gross s = pos 0
entertainer_due (some id) gross s = floor_part gross s.entertainer_bps

pub venue_due : Option ℕ → ℤ → SplitForPosting → ℤ
venue_due none gross s = floor_part gross (s.venue_bps +ℤ s.entertainer_bps)
venue_due (some id) gross s = floor_part gross s.venue_bps

push_positive-amount_on :
    (debits : Bool) (t : LedgerAccountType) (owner : Option ℕ) (a : LedgerEntrySpec)
    (es : List LedgerEntrySpec)
    → pos 0 ≤ℤ a.amount_kobo
    → amount_on debits t owner (push_positive a ++ es)
      ≡ (if on_account debits t owner a then a.amount_kobo else pos 0)
        +ℤ amount_on debits t owner es
unfolding amount_on
push_positive-amount_on debits t owner a es nonneg =
    elim (Bool-cases (ltb_ℤ (pos 0) a.amount_kobo)) [
      | inl positive ↦ rw positive refl
      | inr zero_amount ↦
          let e : a.amount_kobo ≡ pos 0 = ground arith in
          elim (Bool-cases (on_account debits t owner a)) [
            | inl here ↦ rw (zero_amount, here, e) (sym (zero_+ℤ (amount_on debits t owner es)))
            | inr there ↦ rw (zero_amount, there) (sym (zero_+ℤ (amount_on debits t owner es)))
          ]
    ]

-- no part of a valid split is above 10000 basis points
parts_bounded :
    (s : SplitForPosting)
    → IsSplit s
    → (pos_part s.entertainer_bps ≤ 10000)
      × (pos_part s.venue_bps ≤ 10000)
      × (pos_part (s.venue_bps +ℤ s.entertainer_bps) ≤ 10000)
parts_bounded s split = omega (
  int_laws,
  ap pos_part split.total,
  ap neg_part split.total,
  neg_part_nonneg s.entertainer_bps split.entertainer,
  neg_part_nonneg s.venue_bps split.venue,
  neg_part_nonneg s.platform_bps split.platform,
  neg_part_nonneg (s.venue_bps +ℤ s.entertainer_bps)
      (omega (int_laws, split.entertainer, split.venue)),
)

-- the shares that the code computes are the due ones
shares-due :
    (p : PaymentForPosting) (s : SplitForPosting)
    → IsSplit s
    → IsExact p.gross_amount_kobo
    → (entertainer_share p s ≡ entertainer_due p.entertainer_id p.gross_amount_kobo s)
      × (venue_share p s ≡ venue_due p.entertainer_id p.gross_amount_kobo s)
unfolding entertainer_due venue_due
shares-due p s split exact =
    let g = p.gross_amount_kobo in
    let (b, c, d) = parts_bounded s split in
    elim (Option-cases p.entertainer_id) [
      | inl alone ↦ rw alone (
        refl,
        apply_basis_points-floor_part g (s.venue_bps +ℤ s.entertainer_bps) exact
            (omega (int_laws, split.entertainer, split.venue)) d,
      )
      | inr (x, found) ↦ rw found (
        apply_basis_points-floor_part g s.entertainer_bps exact split.entertainer b,
        apply_basis_points-floor_part g s.venue_bps exact split.venue c,
      )
    ]

same_owner : (o : Option ℕ) → opt_eq o o ≡ true
same_owner o = (opt_eq_iff o o).1 refl

-- what a line puts on an account
line_on : Bool → LedgerAccountType → Option ℕ → LedgerEntrySpec → ℤ
line_on debits t owner e = if on_account debits t owner e then e.amount_kobo else pos 0

module _ (debits : Bool) (t : LedgerAccountType) (owner : Option ℕ) (d a b c : LedgerEntrySpec)
    (na : pos 0 ≤ℤ a.amount_kobo) (nb : pos 0 ≤ℤ b.amount_kobo) (nc : pos 0 ≤ℤ c.amount_kobo) where
  four_lines-amount_on :
      amount_on debits t owner (d ∷ (push_positive a ++ (push_positive b ++ push_positive c)))
      ≡ line_on debits t owner d
        +ℤ (line_on debits t owner a
            +ℤ (line_on debits t owner b +ℤ (line_on debits t owner c +ℤ pos 0)))
  unfolding amount_on line_on
  four_lines-amount_on =
      rw
        (
          push_positive-amount_on debits t owner a (push_positive b ++ push_positive c) na,
          push_positive-amount_on debits t owner b (push_positive c) nb,
          ← append-nil (push_positive c),
          push_positive-amount_on debits t owner c [] nc,
        )
        refl

module _ (p : PaymentForPosting) (s : SplitForPosting) (split : IsSplit s)
    (exact : IsExact p.gross_amount_kobo) where
  -- What the lines of a posting come to on each account.
  amounts :
      (amount_on true processor_clearing none (payment_lines p s) ≡ p.gross_amount_kobo)
      × (amount_on false entertainer_payable p.entertainer_id (payment_lines p s)
          ≡ entertainer_share p s)
      × (amount_on false venue_payable (some p.venue_id) (payment_lines p s) ≡ venue_share p s)
      × (amount_on false platform_revenue none (payment_lines p s) ≡ platform_share p s)
  unfolding line_on
  amounts =
      let (e, v, q, low, high, sum) = shares_Divides p s split exact in
      (
        four_lines-amount_on true processor_clearing none _ _ _ _ e v q ∙ omega int_laws,
        four_lines-amount_on false entertainer_payable p.entertainer_id _ _ _ _ e v q
            ∙ rw (same_owner p.entertainer_id) (omega int_laws),
        four_lines-amount_on false venue_payable (some p.venue_id) _ _ _ _ e v q
            ∙ rw (same_owner (some p.venue_id)) (omega int_laws),
        four_lines-amount_on false platform_revenue none _ _ _ _ e v q ∙ omega int_laws,
      )

-- For a valid split and a gross amount of up to 900719925474 kobo the posting is not refused and
-- balances; it debits the gross amount to the processor, and credits the entertainer and the venue with
-- their shares of it, rounded down, where a venue has the entertainer's basis points too if there is
-- none, and the platform with what is left.
pub compute_payment_entries-amount_on :
    (p : PaymentForPosting) (s : SplitForPosting)
    → IsSplit s
    → IsExact p.gross_amount_kobo
    → (es : List LedgerEntrySpec) × (compute_payment_entries p s ≡ ok es)
      × IsBalanced es
      × (amount_on true processor_clearing none es ≡ p.gross_amount_kobo)
      × (amount_on false entertainer_payable p.entertainer_id es
          ≡ entertainer_due p.entertainer_id p.gross_amount_kobo s)
      × (amount_on false venue_payable (some p.venue_id) es
          ≡ venue_due p.entertainer_id p.gross_amount_kobo s)
      × (amount_on false platform_revenue none es
          ≡ p.gross_amount_kobo
            -ℤ entertainer_due p.entertainer_id p.gross_amount_kobo s
            -ℤ venue_due p.entertainer_id p.gross_amount_kobo s)
unfolding compute_payment_entries
compute_payment_entries-amount_on p s split exact =
    let b = payment_lines-IsBalanced p s split exact in
    let gross = IsExact-IsGross p.gross_amount_kobo exact in
    let (clearing, entertainer, venue, platform) = amounts p s split exact in
    let (e, v) = shares-due p s split exact in
    (
      payment_lines p s,
      rw ((assert_valid_split_iff s).1 split, (assert_balanced_iff (payment_lines p s)).1 b)
          (ground arith),
      b,
      clearing,
      entertainer ∙ e,
      venue ∙ v,
      platform
          ∙ ap (λ x. p.gross_amount_kobo -ℤ x -ℤ venue_share p s) e
          ∙ ap
              (λ x.
                p.gross_amount_kobo -ℤ entertainer_due p.entertainer_id p.gross_amount_kobo s -ℤ x)
              v,
    )
