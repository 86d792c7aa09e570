-- ===== src/Ledger/Tests.antt =====
-- The theorems on the ledger at small inputs.
use ledgergate.Base.{inr, ◌≡◌, inl, arith, refl, true, some, [], ◌∷◌, nat_eq, list_eq}
use ledgergate.Text.{text}
use ledgergate.Int.{pos, ◌+ℤ◌, ◌-ℤ◌, ◌≤ℤ◌}
use ledgergate.Dict.{lookup, get_or}
use ledgergate.Errors.{ok, err, idempotency_conflict, refund_exceeds_settled}
use ledgergate.Ledger.Accounts.{normal_side, times_sign}
use ledgergate.Ledger.Balance.{IsDraft, Mirrors, reversed-Mirrors}
use ledgergate.Ledger.Balance.{make_draft-IsDraft}
use ledgergate.Ledger.Chart.{one_exponent}
use ledgergate.Ledger.Verify.{verify_chain}
use ledgergate.Ledger.Reach.{Reach, here, verify_chain-Reach, replay-Reach}
use ledgergate.Ledger.TrialBalance.{trial_balance-Reach}
use ledgergate.Ledger.Books.{posted_to, balance-posted_to}
use ledgergate.Ledger.Funds.{no_overdraft}
use ledgergate.Ledger.Idempotency.{again, retry_replays, reused_key_conflicts}
use ledgergate.Ledger.LifecycleLaws.{
  IsTransaction, after_refund, advance_transaction_lem, refund_accepted, refund_refused,
  advance_outcome,
}
use ledgergate.Ledger.Transactions.{transactions-Reach, transactions_follow, terminal_is_final}
use ledgergate.Ledger.Lifecycle.{
  is_terminal, pending, cancel, transitions, is_refund, Transaction, advance_transaction,
  refund_transaction,
}
use ledgergate.Ledger.Commands.{command_key, empty_ledger, trial_balance, is_balanced}
use ledgergate.Ledger.State.{execute}
use ledgergate.Ledger.Samples.{
  cash_charted, accounts, after_cancel, after_open, after_reopen, after_sale, all_done,
  cancelled_order, cancels, cash, cash_listed, chart, chart_made, dollars, effects,
  fingerprints_differ, first_sale, first_sale-execute, from_sales, open_order, open_order-execute,
  opened_order, order, order_cancelled, order_tracked, other_order, platform, refund_of_sale,
  reopens, sale, sale_made, sale_replayed, reversed-sale, sales, sales_listed, settled_order,
  settled_order-IsTransaction, sold, to_cash,
}

make_draft-IsDraft_example : IsDraft sale × (sale.postings ≡ to_cash 5 ∷ from_sales 5 ∷ [])
make_draft-IsDraft_example =
    make_draft-IsDraft (to_cash 5 ∷ from_sales 5 ∷ []) (text "d") [] sale sale_made

verify_chain-Reach_example : verify_chain platform after_open.ledger ≡ ok true
verify_chain-Reach_example = verify_chain-Reach platform effects accounts chart_made opened_order

trial_balance-Reach_example : is_balanced (trial_balance after_sale.ledger) ≡ ok true
trial_balance-Reach_example = trial_balance-Reach platform effects accounts chart_made sold

balance-posted_to_example :
    get_or (text "cash") (pos 0) after_sale.ledger.balances
    ≡ posted_to (text "cash") after_sale.ledger.entries
balance-posted_to_example =
    balance-posted_to platform effects accounts (text "cash") chart_made sold

no_overdraft_example :
    pos 0
    ≤ℤ times_sign (normal_side cash.kind) (get_or (text "cash") (pos 0) after_sale.ledger.balances)
no_overdraft_example =
    no_overdraft platform effects accounts (text "cash") cash chart_made sold cash_listed refl

retry_replays_example :
    execute platform effects after_sale.ledger first_sale 7
    ≡ (ok (again after_sale.ledger after_sale.entry after_sale.transaction), 7)
retry_replays_example =
    retry_replays platform effects (empty_ledger chart) after_sale.ledger first_sale after_sale 0 1
      7 (make_draft-IsDraft _ _ _ sale sale_made).0 first_sale-execute here

reused_key_conflicts_example :
    execute platform effects after_cancel.ledger other_order 4
    ≡ (err (idempotency_conflict (text "o")), 4)
unfolding command_key
reused_key_conflicts_example =
    reused_key_conflicts platform effects after_sale.ledger after_cancel.ledger open_order
      other_order after_open 1 1 4 tt open_order-execute cancels refl fingerprints_differ

transactions-Reach_example : (order.transaction_id ≡ text "t") × IsTransaction order
transactions-Reach_example =
    transactions-Reach platform effects chart (text "t") order opened_order order_tracked

transactions_follow_example :
    (u : Transaction) × (lookup (text "t") after_cancel.ledger.transactions ≡ some u)
    × (u.transaction_id ≡ order.transaction_id)
    × (u.amount ≡ order.amount)
    × (order.refunded_minor ≤ℤ u.refunded_minor)
transactions_follow_example =
    transactions_follow platform effects chart (text "t") order opened_order cancels order_tracked

terminal_is_final_example :
    lookup (text "t") after_reopen.ledger.transactions ≡ some cancelled_order
unfolding is_terminal
terminal_is_final_example =
    terminal_is_final platform effects chart (text "t") cancelled_order all_done reopens
      order_cancelled refl

advance_transaction_lem_example :
    advance_transaction order cancel ≡ advance_outcome order cancel (transitions pending cancel)
unfolding is_refund
advance_transaction_lem_example =
    advance_transaction_lem order cancel
      (transactions-Reach platform effects chart (text "t") order opened_order order_tracked).1 refl

refund_accepted_example :
    refund_transaction settled_order (dollars 40) ≡ ok (after_refund settled_order (pos 40))
unfolding ◌+ℤ◌
refund_accepted_example =
    refund_accepted settled_order (dollars 40) settled_order-IsTransaction (inl refl) refl
      (omega arith) (omega arith)

refund_refused_example :
    refund_transaction settled_order (dollars 101)
    ≡ err (refund_exceeds_settled (text "t") (pos 100 -ℤ pos 0) (pos 101))
unfolding ◌+ℤ◌
refund_refused_example =
    refund_refused settled_order (dollars 101) (inl refl) refl (inr (omega arith))

one_exponent_example : cash.currency.exponent ≡ sales.currency.exponent
one_exponent_example =
    one_exponent accounts chart (text "cash") (text "sales") cash sales chart_made cash_charted
      sales_listed refl

replay-Reach_example : Reach platform effects (empty_ledger chart) after_sale.ledger
replay-Reach_example =
    replay-Reach platform effects chart (first_sale ∷ []) 0 1
      ((make_draft-IsDraft _ _ _ sale sale_made).0, tt) sale_replayed

reversed-Mirrors_example : IsDraft refund_of_sale × Mirrors sale.postings refund_of_sale.postings
reversed-Mirrors_example = reversed-Mirrors sale refund_of_sale (text "back") reversed-sale
