-- ===== src/Ledger/LifecycleLaws.antt =====
-- src/ledgergate/ledger/lifecycle.py: a well-formed transaction stays so, every permitted event
-- succeeds on it, and refunds never pass the amount.
use ledgergate.Base.{
  Option, Option-cases, ◌≡◌, ◌≢◌, sym, ap, ◌∙◌, Bool, true, false, not, ◌&&◌, ◌||◌, none, some,
  arith, ◌==◌, if◌then◌else◌, list_eq, nat_eq, test_self, Bool-cases, inl, inr, ◌⊎◌, ne_of_test,
}
use ledgergate.Text.{text}
use ledgergate.Int.{
  ℤ, pos, ◌+ℤ◌, ◌-ℤ◌, ◌≤ℤ◌, ◌<ℤ◌, ltb_ℤ, leb_ℤ, int_eq, int_laws, eq_of_parts, +ℤ_parts, -ℤ_parts,
}
use ledgergate.Errors.{
  Result, ok, err, raise_if, raise_if-ok, ◌>>◌, >>=-eq-ok, ok-injective, illegal_transition,
  refund_exceeds_settled,
}
use ledgergate.Ledger.Identifiers.{require_identifier}
use ledgergate.Ledger.Currency.{currency_eq}
use ledgergate.Ledger.Money.{Money, is_positive, sub_money, gt_money, same_currency}
use ledgergate.Ledger.Steps.{require_identifier-eq}
use ledgergate.Ledger.Lifecycle.{
  Status, pending, settled, partially_refunded, refunded, Event, refund_event, transitions,
  transition, Transaction, is_consistent, check_transaction, refunded_money, refundable,
  settled_status, is_refund, is_resolve, advance_transaction, refund_transaction, status_value,
  event_value,
}

-- What `__post_init__` tests.
pub record IsTransaction (t : Transaction) : Type 0 where
  pub named : require_identifier t.transaction_id (text "transaction id") ≡ ok t.transaction_id
  pub positive : pos 1 ≤ℤ t.amount.amount
  pub not_negative : pos 0 ≤ℤ t.refunded_minor
  pub bounded : t.refunded_minor ≤ℤ t.amount.amount
  pub consistent : is_consistent t.status t.amount.amount t.refunded_minor ≡ true

-- The constructor accepts exactly the well-formed transactions, and changes nothing.
check_transaction_of : (t : Transaction) → IsTransaction t → check_transaction t ≡ ok t
unfolding check_transaction is_positive
check_transaction_of t h = rw h.named (ground (arith, h.consistent))

eq_true : (b : Bool) → not b ≡ false → b ≡ true
eq_true b h = ground arith

above_zero : (n : ℤ) → not (ltb_ℤ (pos 0) n) ≡ false → pos 1 ≤ℤ n
above_zero n h = ground arith

in_range : (x y : ℤ) → not (leb_ℤ (pos 0) x && leb_ℤ x y) ≡ false → (pos 0 ≤ℤ x) × (x ≤ℤ y)
in_range x y h = ground arith

pub IsTransaction-check :
    (t u : Transaction) → check_transaction t ≡ ok u → IsTransaction t × (u ≡ t)
unfolding check_transaction is_positive
IsTransaction-check t u h =
    let (name, named, h1) =
      >>=-eq-ok (require_identifier t.transaction_id (text "transaction id")) _ h in
    let (_, positive, h2) = >>=-eq-ok (raise_if (not (is_positive t.amount)) _) _ h1 in
    let (_, range, h3) =
      >>=-eq-ok
        (raise_if (not (leb_ℤ (pos 0) t.refunded_minor && leb_ℤ t.refunded_minor t.amount.amount))
          _)
        _ h2 in
    let (_, story, h4) =
      >>=-eq-ok (raise_if (not (is_consistent t.status t.amount.amount t.refunded_minor)) _) _ h3 in
    let (low, high) = in_range t.refunded_minor t.amount.amount (raise_if-ok _ _ range) in
    (
      record {
        named =
            named ∙ ap ok (require_identifier-eq t.transaction_id (text "transaction id") named);
        positive = above_zero t.amount.amount (raise_if-ok _ _ positive);
        not_negative = low;
        bounded = high;
        consistent = eq_true _ (raise_if-ok _ _ story);
      },
      sym (ok-injective h4),
    )

-- The status that a permitted event leads to fits the refunded total.
consistent_after :
    (s s' : Status) (e : Event) (total done : ℤ)
    → pos 1 ≤ℤ total
    → pos 0 ≤ℤ done
    → done ≤ℤ total
    → is_consistent s total done ≡ true
    → is_refund e ≡ false
    → transitions s e ≡ some s'
    → is_consistent
        (if is_resolve e then (if done == pos 0 then settled else partially_refunded) else s')
        total
        done
      ≡ true
unfolding is_consistent is_refund is_resolve transitions
consistent_after pending s' e total done p l u c r h = ground arith
consistent_after _ s' e total done p l u c r h = ground arith

-- The transaction after a permitted event that is no refund.
abbrev pub after_event : Transaction → Event → Status → Transaction
after_event t e s = record t { status = if is_resolve e then settled_status t else s }

after_event-IsTransaction :
    (t : Transaction) (e : Event) (s : Status)
    → IsTransaction t
    → is_refund e ≡ false
    → transitions t.status e ≡ some s
    → IsTransaction (after_event t e s)
unfolding settled_status
after_event-IsTransaction t e s h r p = record {
  named = h.named;
  positive = h.positive;
  not_negative = h.not_negative;
  bounded = h.bounded;
  consistent =
      consistent_after t.status s e t.amount.amount t.refunded_minor h.positive h.not_negative
        h.bounded h.consistent r p;
}

-- What an event other than a refund should give, by the table's entry for it.
abbrev pub advance_outcome : Transaction → Event → Option Status → Result Transaction
advance_outcome t e none =
    err (illegal_transition t.transaction_id (status_value t.status) (event_value e))
advance_outcome t e (some s) = ok (after_event t e s)

-- On a well-formed transaction an event other than a refund is decided by the table alone: if the
-- table has a status for it, it succeeds and only the status changes, to that one or, when a dispute
-- is resolved, to the one before the dispute. Otherwise the error names status and event.
pub advance_transaction_lem :
    (t : Transaction) (e : Event)
    → IsTransaction t
    → is_refund e ≡ false
    → advance_transaction t e ≡ advance_outcome t e (transitions t.status e)
unfolding advance_transaction transition
advance_transaction_lem t e h r = elim (Option-cases (transitions t.status e)) [
  | inl p ↦ rw (r, p)
  | inr (s, p) ↦
      rw (r, p) (check_transaction_of (after_event t e s) (after_event-IsTransaction t e s h r p))
]

-- The transaction after a refund of `n` minor units.
abbrev pub after_refund : Transaction → ℤ → Transaction
after_refund t n = record t {
  status = if t.refunded_minor +ℤ n == t.amount.amount then refunded else partially_refunded;
  refunded_minor = t.refunded_minor +ℤ n;
}

part_story :
    (done total : ℤ)
    → pos 1 ≤ℤ done
    → done ≤ℤ total
    → done ≢ total
    → (ltb_ℤ (pos 0) done && ltb_ℤ done total) ≡ true
part_story done total p b n = ground (arith, eq_of_parts done total)

story :
    (done total : ℤ)
    → pos 1 ≤ℤ done
    → done ≤ℤ total
    → is_consistent (if done == total then refunded else partially_refunded) total done ≡ true
unfolding is_consistent
story done total p b = elim (Bool-cases (done == total)) [
  | inl all_of_it ↦ rw (all_of_it, all_of_it)
  | inr part ↦ rw part (part_story done total p b (ne_of_test done total part))
]

after_refund-IsTransaction :
    (t : Transaction) (n : ℤ)
    → IsTransaction t
    → pos 1 ≤ℤ n
    → t.refunded_minor +ℤ n ≤ℤ t.amount.amount
    → IsTransaction (after_refund t n)
after_refund-IsTransaction t n h p b = record {
  named = h.named;
  positive = h.positive;
  not_negative = omega (int_laws, h.not_negative);
  bounded = b;
  consistent = story (t.refunded_minor +ℤ n) t.amount.amount (omega (int_laws, h.not_negative)) b;
}

-- A refund is permitted from these two states.
abbrev pub CanRefund : Status → Type 0
CanRefund s = (s ≡ settled) ⊎ (s ≡ partially_refunded)

CanRefund-transitions :
    (s : Status) → CanRefund s → transitions s refund_event ≡ some partially_refunded
unfolding transitions
CanRefund-transitions s (inl e) = rw e
CanRefund-transitions s (inr e) = rw e

abbrev pub left_of : Transaction → Money
left_of t = record { amount = t.amount.amount -ℤ t.refunded_minor; currency = t.amount.currency }

refundable_lem : (t : Transaction) → refundable t ≡ ok (left_of t)
unfolding refundable sub_money same_currency refunded_money
refundable_lem t = rw (test_self t.amount.currency)

gt_money_lem : (a b : Money) → a.currency ≡ b.currency → gt_money a b ≡ ok (ltb_ℤ b.amount a.amount)
unfolding gt_money same_currency
gt_money_lem a b h = rw (h, test_self b.currency)

-- Past the table and the currency, a refund is one test and the constructor.
refund_transaction-tests :
    (t : Transaction) (m : Money)
    → CanRefund t.status
    → m.currency ≡ t.amount.currency
    → refund_transaction t m ≡ (
        raise_if
          (not (ltb_ℤ (pos 0) m.amount) || ltb_ℤ (t.amount.amount -ℤ t.refunded_minor) m.amount)
          (refund_exceeds_settled t.transaction_id (t.amount.amount -ℤ t.refunded_minor) m.amount)
        >> check_transaction (after_refund t m.amount))
unfolding refund_transaction transition is_positive
refund_transaction-tests t m c same =
    let equal : (m.currency == t.amount.currency) ≡ true =
      ap (λ k. k == t.amount.currency) same ∙ test_self t.amount.currency in
    rw (CanRefund-transitions t.status c, equal, refundable_lem t, gt_money_lem m (left_of t) same)

within :
    (a d n : ℤ) → pos 1 ≤ℤ n → d +ℤ n ≤ℤ a → (not (ltb_ℤ (pos 0) n) || ltb_ℤ (a -ℤ d) n) ≡ false
within a d n p b = ground (arith, -ℤ_parts a d, +ℤ_parts d n)

beyond :
    (a d n : ℤ) → (n ≤ℤ pos 0) ⊎ (a <ℤ d +ℤ n) → (not (ltb_ℤ (pos 0) n) || ltb_ℤ (a -ℤ d) n) ≡ true
beyond a d n h = ground (arith, -ℤ_parts a d, +ℤ_parts d n)

-- From SETTLED or PARTIALLY_REFUNDED, in the transaction's currency, a positive refund that keeps
-- the refunded total within the amount succeeds, adds to the total, and leads to REFUNDED when the
-- total is then the amount and to PARTIALLY_REFUNDED when it is not.
pub refund_accepted :
    (t : Transaction) (m : Money)
    → IsTransaction t
    → CanRefund t.status
    → m.currency ≡ t.amount.currency
    → pos 1 ≤ℤ m.amount
    → t.refunded_minor +ℤ m.amount ≤ℤ t.amount.amount
    → refund_transaction t m ≡ ok (after_refund t m.amount)
refund_accepted t m h c same p b =
    refund_transaction-tests t m c same
    ∙ rw (within t.amount.amount t.refunded_minor m.amount p b) (
        check_transaction_of (after_refund t m.amount)
          (after_refund-IsTransaction t m.amount h p b))

-- From SETTLED or PARTIALLY_REFUNDED, in the transaction's currency, a refund that is not positive,
-- or would take the refunded total past the amount, is refused with what is left to refund.
pub refund_refused :
    (t : Transaction) (m : Money)
    → CanRefund t.status
    → m.currency ≡ t.amount.currency
    → (m.amount ≤ℤ pos 0) ⊎ (t.amount.amount <ℤ t.refunded_minor +ℤ m.amount)
    → refund_transaction t m
      ≡ err (refund_exceeds_settled t.transaction_id (t.amount.amount -ℤ t.refunded_minor) m.amount)
refund_refused t m c same o =
    refund_transaction-tests t m c same ∙ rw (beyond t.amount.amount t.refunded_minor m.amount o)
