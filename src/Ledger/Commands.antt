-- ===== src/Ledger/Commands.antt =====
-- src/ledgergate/ledger/state.py: the commands, their fingerprints, and the ledger's state with
-- what is read from it.
use ledgergate.Base.{
  ℕ, Bool, true, Option, none, some, List, [], ◌∷◌, ◌++◌, ◌&&◌, map, length, ◌==◌, list_eq, nat_eq,
  if◌then◌else◌, filter_by, any,
}
use ledgergate.Text.{Text, text}
use ledgergate.Text.Decimal.{decimal}
use ledgergate.Int.{ℤ, pos, ◌-ℤ◌, neg, ltb_ℤ, int_eq}
use ledgergate.Dict.{Dict, lookup, insert, contains, get_or}
use ledgergate.Errors.{
  Result, ok, ◌>>=◌, ◌>>◌, raise_if, or_raise, illegal_transition, unknown_entry,
  unknown_transaction, key_error,
}
use ledgergate.Ledger.Currency.{Currency, currency_eq}
use ledgergate.Ledger.Money.{Money, money_eq, zero_money, add_money}
use ledgergate.Ledger.Accounts.{Account, Chart, get_account, accounts_of, normal_side, times_sign}
use ledgergate.Ledger.Postings.{Posting, EntryDraft}
use ledgergate.Ledger.Encoding.{Platform, Entry, fingerprint, draft_canonical, genesis_hash}
use ledgergate.Text.Integer.{show_int}
use ledgergate.Ledger.Lifecycle.{Event, is_refund, event_value, Transaction}

pub data Command : Type 0 where
  post : Text → EntryDraft → Command
  reverse : Text → Text → Text → Command
  open_transaction : Text → Text → Money → Command
  advance : Text → Text → Event → Option EntryDraft → Command
  refund : Text → Text → Money → Option EntryDraft → Command

-- `Advance(...)` with the test of its `__post_init__`
unfoldable pub make_advance : Text → Text → Event → Option EntryDraft → Result Command
make_advance key transaction_id event entry = do
  raise_if (is_refund event) (illegal_transition transaction_id (text "advance") (text "refund"))
  ok (advance key transaction_id event entry)

-- `command.key`
unfoldable pub command_key : Command → Text
command_key (post key _) = key
command_key (reverse key _ _) = key
command_key (open_transaction key _ _) = key
command_key (advance key _ _ _) = key
command_key (refund key _ _ _) = key

-- `"" if entry is None else entry.canonical()`
unfoldable pub entry_field : Option EntryDraft → Text
entry_field none = []
entry_field (some draft) = draft_canonical draft

-- `f"{currency.code}/{currency.exponent}"`
unfoldable pub currency_field : Currency → Text
currency_field c = c.code ++ (b'/' ∷ decimal c.exponent)

-- The kind of a request, its first field.
unfoldable pub kind_of : Command → Text
kind_of (post _ _) = text "post"
kind_of (reverse _ _ _) = text "reverse"
kind_of (open_transaction _ _ _) = text "open"
kind_of (advance _ _ _ _) = text "advance"
kind_of (refund _ _ _ _) = text "refund"

-- The payload of a request. The key is no part of it.
unfoldable pub payload_of : Command → List (Text × Text)
unfolding entry_field currency_field
payload_of (post _ draft) = (text "draft", draft_canonical draft) ∷ []
payload_of (reverse _ entry_id description) =
    (text "entry", entry_id) ∷ (text "description", description) ∷ []
payload_of (open_transaction _ transaction_id amount) =
    (text "txn", transaction_id)
    ∷ (text "amount", show_int amount.amount)
    ∷ (text "ccy", currency_field amount.currency)
    ∷ []
payload_of (advance _ transaction_id event entry) =
    (text "txn", transaction_id)
    ∷ (text "event", event_value event)
    ∷ (text "entry", entry_field entry)
    ∷ []
payload_of (refund _ transaction_id money entry) =
    (text "txn", transaction_id)
    ∷ (text "amount", show_int money.amount)
    ∷ (text "ccy", currency_field money.currency)
    ∷ (text "entry", entry_field entry)
    ∷ []

-- `command_fingerprint(command)`
unfoldable pub command_fingerprint : Platform → Command → Text
unfolding kind_of payload_of
command_fingerprint platform command = fingerprint platform (kind_of command) (payload_of command)

pub record OperationRecord : Type 0 where
  pub request : Text
  pub entry_id : Option Text
  pub transaction : Option Transaction

pub record Ledger : Type 0 where
  pub chart : Chart
  pub entries : List Entry
  pub transactions : Dict Text Transaction
  pub operations : Dict Text OperationRecord
  pub head : Text
  pub balances : Dict Text ℤ
  pub reversals : Dict Text Text
  pub by_id : Dict Text Entry

-- `Ledger.empty(chart)`
unfoldable pub empty_ledger : Chart → Ledger
unfolding genesis_hash
empty_ledger chart = record {
  chart = chart;
  entries = [];
  transactions = [];
  operations = [];
  head = genesis_hash;
  balances = [];
  reversals = [];
  by_id = [];
}

pub record Applied : Type 0 where
  pub ledger : Ledger
  pub entry : Option Entry
  pub transaction : Option Transaction
  pub replayed : Bool

-- `ledger.sequence`
unfoldable pub sequence : Ledger → ℕ
sequence l = length l.entries

-- `ledger.raw_balance(account_id)`
unfoldable pub raw_balance : Ledger → Text → Result ℤ
raw_balance l account_id = do
  account ← get_account l.chart account_id
  ok (get_or account_id (pos 0) l.balances)

-- `ledger.balance(account_id)`
unfoldable pub balance : Ledger → Text → Result Money
unfolding raw_balance
balance l account_id = do
  account ← get_account l.chart account_id
  raw ← raw_balance l account_id
  ok (record { amount = times_sign (normal_side account.kind) raw; currency = account.currency })

-- `ledger.entry(entry_id)`
unfoldable pub get_entry : Ledger → Text → Result Entry
get_entry l entry_id = or_raise (lookup entry_id l.by_id) (unknown_entry entry_id)

-- `ledger.has_entry(entry_id)`
unfoldable pub has_entry : Ledger → Text → Bool
has_entry l entry_id = contains entry_id l.by_id

unfoldable pub posts_to : Text → Entry → Bool
posts_to account_id e = any (λ (p : Posting). p.account_id == account_id) e.draft.postings

-- `ledger.entries_for(account_id)`
unfoldable pub entries_for : Ledger → Text → Result (List Entry)
unfolding posts_to
entries_for l account_id = do
  account ← get_account l.chart account_id
  ok (filter_by (posts_to account_id) l.entries)

-- The entry with an id that an index names.
unfoldable pub indexed : Dict Text Entry → Option Text → Result (Option Entry)
indexed by_id none = ok none
indexed by_id (some entry_id) = do
  entry ← or_raise (lookup entry_id by_id) (key_error entry_id)
  ok (some entry)

-- `ledger.reversal_of(entry_id)`
unfoldable pub reversal_of : Ledger → Text → Result (Option Entry)
unfolding get_entry indexed
reversal_of l entry_id = do
  entry ← get_entry l entry_id
  indexed l.by_id (lookup entry_id l.reversals)

-- `ledger.transaction(transaction_id)`
unfoldable pub get_transaction : Ledger → Text → Result Transaction
get_transaction l transaction_id =
    or_raise (lookup transaction_id l.transactions) (unknown_transaction transaction_id)

pub record TrialBalanceRow : Type 0 where
  pub account : Account
  pub debit_side : Money
  pub credit_side : Money

-- `TrialBalanceRow.balance`
unfoldable pub row_balance : TrialBalanceRow → Money
row_balance row = record {
  amount =
      times_sign (normal_side row.account.kind) (row.debit_side.amount -ℤ row.credit_side.amount);
  currency = row.account.currency;
}

-- `max(n, 0)`
unfoldable pub at_least_zero : ℤ → ℤ
at_least_zero n = if ltb_ℤ n (pos 0) then pos 0 else n

unfoldable pub trial_row : Ledger → Account → TrialBalanceRow
unfolding at_least_zero
trial_row l account =
    let raw = get_or account.account_id (pos 0) l.balances in
    record {
      account = account;
      debit_side = record { amount = at_least_zero raw; currency = account.currency };
      credit_side = record { amount = at_least_zero (neg raw); currency = account.currency };
    }

-- `ledger.trial_balance().rows`
unfoldable pub trial_balance : Ledger → List TrialBalanceRow
unfolding trial_row
trial_balance l = map (trial_row l) (accounts_of l.chart)

-- The loop of `TrialBalance.totals`: debits and credits of each currency.
unfoldable pub totals_from :
    Dict Currency (Money × Money) → List TrialBalanceRow → Result (Dict Currency (Money × Money))
totals_from out [] = ok out
totals_from out (row ∷ rows) = do
  let cur = row.account.currency
  let (debits, credits) = get_or cur (zero_money cur, zero_money cur) out
  debits' ← add_money debits row.debit_side
  credits' ← add_money credits row.credit_side
  totals_from (insert cur (debits', credits') out) rows

-- `TrialBalance.totals()`
unfoldable pub totals : List TrialBalanceRow → Result (Dict Currency (Money × Money))
unfolding totals_from
totals rows = totals_from [] rows

unfoldable pub all_equal : Dict Currency (Money × Money) → Bool
all_equal [] = true
all_equal ((_, (d, c)) ∷ out) = d == c && all_equal out

-- `TrialBalance.is_balanced`
unfoldable pub is_balanced : List TrialBalanceRow → Result Bool
unfolding totals all_equal
is_balanced rows = do out ← totals rows; ok (all_equal out)
