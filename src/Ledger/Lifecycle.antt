-- ===== src/Ledger/Lifecycle.antt =====
-- src/ledgergate/ledger/lifecycle.py: the payment state machine.
use ledgergate.Base.{
  Bool, true, false, not, ◌&&◌, ◌||◌, Option, none, some, List, [], ◌∷◌, ◌==◌, list_eq,
  if◌then◌else◌, filter_by,
}
use ledgergate.Text.{Text, text}
use ledgergate.Int.{ℤ, pos, ◌+ℤ◌, ltb_ℤ, leb_ℤ, int_eq}
use ledgergate.Errors.{
  Result, ok, ◌>>=◌, ◌>>◌, raise_if, or_raise, invalid_amount, amount_not_positive,
  refunded_out_of_range, inconsistent_status, illegal_transition, currency_mismatch,
  refund_exceeds_settled,
}
use ledgergate.Ledger.Identifiers.{require_identifier}
use ledgergate.Ledger.Currency.{currency_eq}
use ledgergate.Ledger.Money.{Money, is_positive, sub_money, gt_money}

pub data Status : Type 0 where
  pending authorized settled partially_refunded refunded disputed cancelled failed : Status

pub data Event : Type 0 where
  authorize settle refund_event dispute resolve_dispute cancel fail : Event

-- `TransactionStatus.value`
unfoldable pub status_value : Status → Text
status_value pending = text "pending"
status_value authorized = text "authorized"
status_value settled = text "settled"
status_value partially_refunded = text "partially_refunded"
status_value refunded = text "refunded"
status_value disputed = text "disputed"
status_value cancelled = text "cancelled"
status_value failed = text "failed"

-- `TransactionEvent.value`
unfoldable pub event_value : Event → Text
event_value authorize = text "authorize"
event_value settle = text "settle"
event_value refund_event = text "refund"
event_value dispute = text "dispute"
event_value resolve_dispute = text "resolve_dispute"
event_value cancel = text "cancel"
event_value fail = text "fail"

-- `TRANSITIONS`: a row that is missing is an illegal move.
unfoldable pub transitions : Status → Event → Option Status
transitions pending authorize = some authorized
transitions pending cancel = some cancelled
transitions pending fail = some failed
transitions authorized settle = some settled
transitions authorized cancel = some cancelled
transitions authorized fail = some failed
transitions settled refund_event = some partially_refunded
transitions partially_refunded refund_event = some partially_refunded
transitions settled dispute = some disputed
transitions partially_refunded dispute = some disputed
transitions disputed resolve_dispute = some settled
transitions _ _ = none

-- `status in TERMINAL`
unfoldable pub is_terminal : Status → Bool
is_terminal refunded = true
is_terminal cancelled = true
is_terminal failed = true
is_terminal _ = false

-- `event in MONETARY_EVENTS`
unfoldable pub is_monetary : Event → Bool
is_monetary settle = true
is_monetary refund_event = true
is_monetary _ = false

abbrev pub events : List Event
events = authorize ∷ settle ∷ refund_event ∷ dispute ∷ resolve_dispute ∷ cancel ∷ fail ∷ []

unfoldable pub is_allowed : Status → Event → Bool
unfolding transitions
is_allowed status event = elim (transitions status event) [ none ↦ false | some _ ↦ true ]

-- `allowed_events(status)`
unfoldable pub allowed_events : Status → List Event
unfolding is_allowed
allowed_events status = filter_by (is_allowed status) events

-- `transition(transaction_id, status, event)`
unfoldable pub transition : Text → Status → Event → Result Status
unfolding transitions
transition transaction_id status event =
    or_raise (transitions status event)
      (illegal_transition transaction_id (status_value status) (event_value event))

pub record Transaction : Type 0 where
  pub transaction_id : Text
  pub amount : Money
  pub status : Status
  pub refunded_minor : ℤ

-- The status and the refunded total tell the same story.
unfoldable pub is_consistent : Status → ℤ → ℤ → Bool
is_consistent refunded total done = done == total
is_consistent partially_refunded total done = ltb_ℤ (pos 0) done && ltb_ℤ done total
is_consistent disputed total done = ltb_ℤ done total
is_consistent _ total done = done == pos 0

-- `Transaction.__post_init__`, which `replace` runs too.
unfoldable pub check_transaction : Transaction → Result Transaction
unfolding is_positive is_consistent
check_transaction t = do
  checked ← require_identifier t.transaction_id (text "transaction id")
  raise_if (not (is_positive t.amount)) (invalid_amount amount_not_positive)
  raise_if (not (leb_ℤ (pos 0) t.refunded_minor && leb_ℤ t.refunded_minor t.amount.amount))
      (invalid_amount refunded_out_of_range)
  raise_if (not (is_consistent t.status t.amount.amount t.refunded_minor))
      (invalid_amount inconsistent_status)
  ok t

-- `Transaction(transaction_id, amount)`
unfoldable pub open_pending : Text → Money → Result Transaction
unfolding check_transaction
open_pending transaction_id amount = check_transaction (record {
  transaction_id = transaction_id;
  amount = amount;
  status = pending;
  refunded_minor = pos 0;
})

-- `Transaction.refunded`
unfoldable pub refunded_money : Transaction → Money
refunded_money t = record { amount = t.refunded_minor; currency = t.amount.currency }

-- `Transaction.refundable`
unfoldable pub refundable : Transaction → Result Money
unfolding sub_money refunded_money
refundable t = sub_money t.amount (refunded_money t)

-- `Transaction.settled_status`
unfoldable pub settled_status : Transaction → Status
settled_status t = if t.refunded_minor == pos 0 then settled else partially_refunded

unfoldable pub is_refund : Event → Bool
is_refund refund_event = true
is_refund _ = false

unfoldable pub is_resolve : Event → Bool
is_resolve resolve_dispute = true
is_resolve _ = false

-- `Transaction.advance`
unfoldable pub advance_transaction : Transaction → Event → Result Transaction
unfolding is_refund is_resolve transition settled_status check_transaction
advance_transaction t event = do
  raise_if (is_refund event) (
      illegal_transition t.transaction_id (status_value t.status) (text "refund without an amount"))
  status ← transition t.transaction_id t.status event
  check_transaction (record t { status = if is_resolve event then settled_status t else status })

-- `Transaction.refund`
unfoldable pub refund_transaction : Transaction → Money → Result Transaction
refund_transaction t money = do
  permitted ← transition t.transaction_id t.status refund_event
  raise_if (not (money.currency == t.amount.currency))
      (currency_mismatch t.amount.currency.code money.currency.code)
  left ← refundable t
  exceeds ← gt_money money left
  raise_if (not (is_positive money) || exceeds)
      (refund_exceeds_settled t.transaction_id left.amount money.amount)
  let cumulative = t.refunded_minor +ℤ money.amount
  check_transaction (record t {
    status = if cumulative == t.amount.amount then refunded else partially_refunded;
    refunded_minor = cumulative;
  })
