-- ===== src/Ledger/Checks.antt =====
-- src/ledgergate/ledger/state.py: what `Ledger.execute` computes before it consumes an effect.
use ledgergate.Base.{
  true, false, not, Option, none, some, List, [], ◌∷◌, ◌==◌, list_eq, nat_eq, if◌then◌else◌,
}
use ledgergate.Text.{Text}
use ledgergate.Int.{ℤ, pos, ◌+ℤ◌, ◌-ℤ◌, ltb_ℤ}
use ledgergate.Dict.{Dict, lookup, insert, get_or}
use ledgergate.Errors.{
  Result, ok, err, ◌>>=◌, ◌>>◌, raise_if, account_currency_mismatch, insufficient_funds,
  idempotency_conflict, entry_required, entry_amount_mismatch, invalid_amount, naive_time,
  already_reversed, entry_not_allowed,
}
use ledgergate.Ledger.Currency.{currency_eq}
use ledgergate.Ledger.Money.{Money, money_eq, show_money}
use ledgergate.Ledger.Accounts.{Chart, get_account, normal_side, times_sign}
use ledgergate.Ledger.Postings.{Posting, EntryDraft, signed_amount, account_order, moved}
use ledgergate.Ledger.Encoding.{Datetime, as_utc}
use ledgergate.Ledger.Lifecycle.{Event, event_value, is_monetary}
use ledgergate.Ledger.Commands.{OperationRecord, Ledger, Applied, indexed}

-- `_canonical_time`: in UTC, and never naive.
unfoldable pub canonical_time : Datetime → Result Datetime
unfolding as_utc
canonical_time t = elim t.offset [
  | none ↦ err (invalid_amount naive_time)
  | some offset ↦ as_utc t offset
]

-- `_replay`, on the record that the key has.
unfoldable pub recall : Ledger → Text → Text → Option OperationRecord → Result (Option Applied)
unfolding indexed
recall l key print none = ok none
recall l key print (some r) = do
  raise_if (not (r.request == print)) (idempotency_conflict key)
  entry ← indexed l.by_id r.entry_id
  ok (some (record { ledger = l; entry = entry; transaction = r.transaction; replayed = true }))

-- `_replay(key, print_)`
unfoldable pub replay_of : Ledger → Text → Text → Result (Option Applied)
unfolding recall
replay_of l key print = recall l key print (lookup key l.operations)

-- The first loop of `_validate`: the balances after the postings.
unfoldable pub post_balances : Chart → Dict Text ℤ → List Posting → Result (Dict Text ℤ)
unfolding get_account
post_balances chart balances [] = ok balances
post_balances chart balances (p ∷ ps) = do
  account ← get_account chart p.account_id
  raise_if (not (account.currency == p.money.currency))
      (account_currency_mismatch account.account_id account.currency.code p.money.currency.code)
  post_balances chart
      (insert account.account_id (get_or account.account_id (pos 0) balances +ℤ signed_amount p)
        balances)
      ps

-- The second loop of `_validate`: no account below zero that may not be.
unfoldable pub check_funds : Chart → Dict Text ℤ → Dict Text ℤ → List Text → Result (Unit {0})
unfolding get_account
check_funds chart before balances [] = ok tt
check_funds chart before balances (account_id ∷ ids) = do
  account ← get_account chart account_id
  let was = times_sign (normal_side account.kind) (get_or account_id (pos 0) before)
  let after = times_sign (normal_side account.kind) (get_or account_id (pos 0) balances)
  raise_if (if account.allow_negative then false else ltb_ℤ after (pos 0))
      (insufficient_funds account_id was (after -ℤ was))
  check_funds chart before balances ids

-- `_validate(draft)`
unfoldable pub validate : Ledger → EntryDraft → Result (Dict Text ℤ)
unfolding post_balances check_funds
validate l draft = do
  balances ← post_balances l.chart l.balances draft.postings
  check_funds l.chart l.balances balances (account_order draft)
  ok balances

-- `_require_entry_moving`
unfoldable pub require_entry_moving : Option EntryDraft → Text → Event → Money → Result (Unit {0})
unfolding event_value
require_entry_moving none transaction_id event amount =
    err (entry_required transaction_id (event_value event))
require_entry_moving (some entry) transaction_id event amount =
    let found = moved entry amount.currency in
    raise_if (not (found == amount))
      (entry_amount_mismatch transaction_id (show_money amount) (show_money found))

-- The test of `_reverse` on what the reversal index holds.
unfoldable pub not_reversed : Text → Option Text → Result (Unit {0})
not_reversed entry_id none = ok tt
not_reversed entry_id (some by) = err (already_reversed entry_id by)

unfoldable pub no_entry : Option EntryDraft → Text → Event → Result (Unit {0})
unfolding event_value
no_entry none transaction_id event = ok tt
no_entry (some _) transaction_id event = err (entry_not_allowed transaction_id (event_value event))

-- The tests of `_advance` on the entry, for the advanced transaction's id and the amount before.
unfoldable pub check_entry : Text → Event → Option EntryDraft → Money → Result (Unit {0})
unfolding is_monetary require_entry_moving no_entry
check_entry transaction_id event entry amount =
    if is_monetary event
    then require_entry_moving entry transaction_id event amount
    else no_entry entry transaction_id event
