-- ===== src/Ledger/Samples.antt =====
-- A small chart, and runs of the ledger on it, for the tests.
use ledgergate.Base.{
  ℕ, ◌+◌, ◌≡◌, ◌≢◌, ne_of_test, arith, refl, true, false, none, some, List, [], ◌∷◌, list_dec,
  ℕ_discrete, nat_eq, list_eq,
}
use ledgergate.Text.{Text, text, strip, text_lt}
use ledgergate.Text.Decimal.{decimal}
use ledgergate.Int.{ℤ, pos, negsuc, ◌+ℤ◌, ◌-ℤ◌, int_dec, neg}
use ledgergate.Dict.{Dict, lookup, insert, contains, get_or}
use ledgergate.Errors.{ok}
use ledgergate.Ledger.Identifiers.{require_identifier}
use ledgergate.Ledger.Currency.{usd, currency_dec}
use ledgergate.Ledger.Money.{Money}
use ledgergate.Ledger.Accounts.{
  debit, credit, asset, revenue, Account, Chart, make_chart, normal_side,
}
use ledgergate.Ledger.Postings.{
  Posting, EntryDraft, make_draft, account_order, imbalance, net_by_currency, signed_amount,
  sort_tags, repeats_key, reversed, flipped,
}
use ledgergate.Ledger.Balance.{make_draft-IsDraft}
use ledgergate.Ledger.Reach.{Reach, here, next}
use ledgergate.Ledger.LifecycleLaws.{IsTransaction}
use ledgergate.Ledger.Lifecycle.{
  pending, settled, cancelled, cancel, is_consistent, Transaction, open_pending,
  advance_transaction,
}
use ledgergate.Ledger.Encoding.{Platform, Datetime, fingerprint, as_utc, in_years}
use ledgergate.Text.Integer.{show_int}
use ledgergate.Ledger.Commands.{
  Command, post, command_fingerprint, empty_ledger, Applied, open_transaction, advance,
}
use ledgergate.Ledger.Checks.{validate, canonical_time}
use ledgergate.Ledger.State.{
  Effects, Request, entry_request, with_entry, new_entry, store_transaction, execute, replay,
}

abbrev pub cash : Account
cash = record {
  account_id = text "cash";
  kind = asset;
  currency = usd;
  allow_negative = false;
  name = [];
}

abbrev pub sales : Account
sales = record {
  account_id = text "sales";
  kind = revenue;
  currency = usd;
  allow_negative = true;
  name = [];
}

abbrev pub accounts : List Account
accounts = cash ∷ sales ∷ []

abbrev pub chart : Chart
chart = (text "cash", cash) ∷ (text "sales", sales) ∷ []

-- What a run computes with.
unfoldable pub running : Unit {0}
unfolding make_chart insert contains get_or lookup list_dec ℕ_discrete make_draft imbalance
    net_by_currency currency_dec int_dec ◌+ℤ◌ signed_amount neg sort_tags repeats_key execute
    require_identifier strip empty_ledger validate account_order normal_side decimal canonical_time
    as_utc in_years ◌-ℤ◌ open_pending advance_transaction
running = tt

pub chart_made : make_chart accounts ≡ ok chart
unfolding running
chart_made = refl

abbrev pub dollars : ℕ → Money
dollars n = record { amount = pos n; currency = usd }

abbrev pub to_cash : ℕ → Posting
to_cash n = record { account_id = text "cash"; side = debit; money = dollars n }

abbrev pub from_sales : ℕ → Posting
from_sales n = record { account_id = text "sales"; side = credit; money = dollars n }

abbrev pub sale : EntryDraft
sale = record { postings = to_cash 5 ∷ from_sales 5 ∷ []; description = text "d"; tags = [] }

pub sale_made : make_draft (to_cash 5 ∷ from_sales 5 ∷ []) (text "d") [] ≡ ok sale
unfolding running
sale_made = refl

-- A hash and a printed time that keep all that they are given, and a clock that stands still.
abbrev pub platform : Platform
platform = record { sha256 = λ t. t; isoformat = λ d. text "t" }

abbrev pub noon : Datetime
noon = record { reading = pos 43200; offset = some (pos 0) }

abbrev pub effects : Effects ℕ
effects = record { now = λ n. (ok noon, n); next_id = λ n. (ok (b'e' ∷ decimal n), n + 1) }

abbrev pub first_sale : Command
first_sale = post (text "k") sale

abbrev pub sale_request : Request
sale_request = entry_request (text "k") (command_fingerprint platform first_sale) sale none

abbrev pub sale_balances : Dict Text ℤ
sale_balances = (text "cash", pos 5) ∷ (text "sales", negsuc 4) ∷ []

abbrev pub after_sale : Applied
after_sale =
    with_entry platform (empty_ledger chart) sale_request sale_balances
      (new_entry platform (empty_ledger chart) sale_request (text "e0") noon)

pub first_sale-execute :
    execute platform effects (empty_ledger chart) first_sale 0 ≡ (ok after_sale, 1)
unfolding running
first_sale-execute = refl

pub sold : Reach platform effects (empty_ledger chart) after_sale.ledger
sold =
    next first_sale after_sale 0 1 here (make_draft-IsDraft _ _ _ sale sale_made).0
      first_sale-execute refl

abbrev pub open_order : Command
open_order = open_transaction (text "o") (text "t") (dollars 100)

abbrev pub order : Transaction
order = record {
  transaction_id = text "t";
  amount = dollars 100;
  status = pending;
  refunded_minor = pos 0;
}

abbrev pub after_open : Applied
after_open =
    store_transaction after_sale.ledger (text "o") (command_fingerprint platform open_order) order

pub open_order-execute :
    execute platform effects after_sale.ledger open_order 1 ≡ (ok after_open, 1)
unfolding running
open_order-execute = refl

pub opened_order : Reach platform effects (empty_ledger chart) after_open.ledger
opened_order = next open_order after_open 1 1 sold tt open_order-execute refl

abbrev pub cancel_order : Command
cancel_order = advance (text "c") (text "t") cancel none

abbrev pub cancelled_order : Transaction
cancelled_order = record order { status = cancelled }

abbrev pub after_cancel : Applied
after_cancel =
    store_transaction after_open.ledger (text "c") (command_fingerprint platform cancel_order)
      cancelled_order

pub cancel_order-execute :
    execute platform effects after_open.ledger cancel_order 1 ≡ (ok after_cancel, 1)
unfolding running
cancel_order-execute = refl

pub cancels : Reach platform effects after_open.ledger after_cancel.ledger
cancels = next cancel_order after_cancel 1 1 here tt cancel_order-execute refl

pub order_tracked : lookup (text "t") after_open.ledger.transactions ≡ some order
unfolding running
order_tracked = refl

abbrev pub settled_order : Transaction
settled_order = record order { status = settled }

pub settled_order-IsTransaction : IsTransaction settled_order
unfolding running is_consistent
settled_order-IsTransaction = record {
  named = refl;
  positive = omega arith;
  not_negative = omega arith;
  bounded = omega arith;
  consistent = refl;
}

pub cash_listed : lookup (text "cash") after_sale.ledger.chart ≡ some cash
unfolding running
cash_listed = refl

abbrev pub other_order : Command
other_order = open_transaction (text "o") (text "u") (dollars 100)

pub fingerprints_differ :
    command_fingerprint platform open_order ≢ command_fingerprint platform other_order
unfolding running fingerprint text_lt show_int
fingerprints_differ =
    ne_of_test (command_fingerprint platform open_order) (command_fingerprint platform other_order)
      refl

pub sales_listed : lookup (text "sales") chart ≡ some sales
unfolding running
sales_listed = refl

pub sale_replayed : replay platform effects chart (first_sale ∷ []) 0 ≡ (ok after_sale.ledger, 1)
unfolding running replay
sale_replayed = refl

abbrev pub refund_of_sale : EntryDraft
refund_of_sale = record {
  postings =
      record { account_id = text "cash"; side = credit; money = dollars 5 }
      ∷ record { account_id = text "sales"; side = debit; money = dollars 5 }
      ∷ [];
  description = text "back";
  tags = [];
}

pub reversed-sale : reversed sale (text "back") ≡ ok refund_of_sale
unfolding running reversed flipped
reversed-sale = refl

pub all_done : Reach platform effects (empty_ledger chart) after_cancel.ledger
all_done = next cancel_order after_cancel 1 1 opened_order tt cancel_order-execute refl

pub order_cancelled : lookup (text "t") after_cancel.ledger.transactions ≡ some cancelled_order
unfolding running
order_cancelled = refl

abbrev pub next_order : Transaction
next_order = record order { transaction_id = text "u" }

abbrev pub after_reopen : Applied
after_reopen =
    store_transaction after_cancel.ledger (text "p")
      (command_fingerprint platform (open_transaction (text "p") (text "u") (dollars 100)))
      next_order

next_order-execute :
    execute platform effects after_cancel.ledger
      (open_transaction (text "p") (text "u") (dollars 100))
      1
    ≡ (ok after_reopen, 1)
unfolding running
next_order-execute = refl

pub reopens : Reach platform effects after_cancel.ledger after_reopen.ledger
reopens =
    next (open_transaction (text "p") (text "u") (dollars 100)) after_reopen 1 1 here tt
      next_order-execute refl

pub cash_charted : lookup (text "cash") chart ≡ some cash
unfolding running
cash_charted = refl
