-- ===== src/Ledger/State.antt =====
-- src/ledgergate/ledger/state.py: the write path, `Ledger.execute` and what it calls, and `replay`.
-- A raise leaves the old ledger as it is; the injected clock and ids keep what they have given.
use ledgergate.Base.{◌+◌, false, Option, none, some, List, [], ◌∷◌, ◌++◌, list_eq, nat_eq}
use ledgergate.Text.{Text, text}
use ledgergate.Int.{ℤ}
use ledgergate.Dict.{Dict, lookup, insert, contains}
use ledgergate.Errors.{raise_if, duplicate_entry_id, duplicate_transaction}
use ledgergate.Exec.{Exec, pure, lift, ◌>>=◌, ◌>>◌}
use ledgergate.Ledger.Identifiers.{require_identifier}
use ledgergate.Ledger.Money.{Money}
use ledgergate.Ledger.Accounts.{Chart}
use ledgergate.Ledger.Postings.{EntryDraft, reversed}
use ledgergate.Ledger.Encoding.{Platform, Datetime, Entry, compute_digest}
use ledgergate.Ledger.Lifecycle.{
  Event, refund_event, Transaction, open_pending, advance_transaction, refund_transaction,
}
use ledgergate.Ledger.Commands.{
  Command, post, reverse, open_transaction, advance, refund, command_key, command_fingerprint,
  Ledger, empty_ledger, Applied, sequence, get_entry, get_transaction,
}
use ledgergate.Ledger.Checks.{
  canonical_time, replay_of, validate, require_entry_moving, not_reversed, check_entry,
}

-- `Clock` and `IdGenerator` over their own state `W`; either may raise.
pub record Effects (W : Type 0) : Type 0 where
  pub now : Exec W Datetime
  pub next_id : Exec W Text

-- What `_append` is told: the key, the fingerprint, the draft, what it reverses, and the
-- transactions to store with the one that moved.
pub record Request : Type 0 where
  pub key : Text
  pub print : Text
  pub draft : EntryDraft
  pub reverses : Option Text
  pub transactions : Option (Dict Text Transaction)
  pub transaction : Option Transaction

-- The arguments that `_post` and `_reverse` pass, and those of `_commit_transaction`.
abbrev pub entry_request : Text → Text → EntryDraft → Option Text → Request
entry_request key print draft reverses = record {
  key = key;
  print = print;
  draft = draft;
  reverses = reverses;
  transactions = none;
  transaction = none;
}

abbrev pub transaction_request : Ledger → Text → Text → EntryDraft → Transaction → Request
transaction_request l key print draft t = record {
  key = key;
  print = print;
  draft = draft;
  reverses = none;
  transactions = some (insert t.transaction_id t l.transactions);
  transaction = some t;
}

-- `{reverses: entry_id}` added to the reversal index
unfoldable pub add_reversal : Option Text → Text → Dict Text Text → Dict Text Text
add_reversal none entry_id reversals = reversals
add_reversal (some original) entry_id reversals = insert original entry_id reversals

unfoldable pub transactions_after :
    Option (Dict Text Transaction) → Dict Text Transaction → Dict Text Transaction
transactions_after none old = old
transactions_after (some new) old = new

-- The result when a transaction moved and no entry was posted.
unfoldable pub store_transaction : Ledger → Text → Text → Transaction → Applied
store_transaction l key print t = record {
  ledger = record l {
    transactions = insert t.transaction_id t l.transactions;
    operations =
        insert key (record { request = print; entry_id = none; transaction = some t }) l.operations;
  };
  entry = none;
  transaction = some t;
  replayed = false;
}

-- A recorded result is returned as it is; otherwise the command goes on.
unfoldable pub unless_replayed {ℓ} : {W : Type ℓ} → Option Applied → Exec W Applied → Exec W Applied
unless_replayed none go = go
unless_replayed (some applied) go = pure applied

module _ (platform : Platform) where
  -- The entry that `_append` makes.
  unfoldable pub new_entry : Ledger → Request → Text → Datetime → Entry
  unfolding sequence
  new_entry l r entry_id posted_at = record {
    entry_id = entry_id;
    sequence = sequence l + 1;
    posted_at = posted_at;
    idempotency_key = r.key;
    draft = r.draft;
    previous_hash = l.head;
    digest =
        compute_digest platform entry_id (sequence l + 1) posted_at r.key r.draft l.head r.reverses;
    reverses = r.reverses;
  }

  -- The ledger that `_append` returns, once the balances and the entry are known.
  unfoldable pub with_entry : Ledger → Request → Dict Text ℤ → Entry → Applied
  unfolding add_reversal transactions_after
  with_entry l r balances e = record {
    ledger = record l {
      entries = l.entries ++ e ∷ [];
      transactions = transactions_after r.transactions l.transactions;
      operations =
          insert r.key
            (record { request = r.print; entry_id = some e.entry_id; transaction = r.transaction })
            l.operations;
      head = e.digest;
      balances = balances;
      reversals = add_reversal r.reverses e.entry_id l.reversals;
      by_id = insert e.entry_id e l.by_id;
    };
    entry = some e;
    transaction = r.transaction;
    replayed = false;
  }

  module _ {W : Type 0} (effects : Effects W) where
    -- `_append`: effects are consumed only after validation.
    unfoldable pub append : Ledger → Request → Exec W Applied
    unfolding with_entry new_entry
    append l r = do
      balances ← lift (validate l r.draft)
      given ← effects.next_id
      entry_id ← lift (require_identifier given (text "generated entry id"))
      lift (raise_if (contains entry_id l.by_id) (duplicate_entry_id entry_id))
      time ← effects.now
      posted_at ← lift (canonical_time time)
      pure (with_entry l r balances (new_entry l r entry_id posted_at))

    -- `_commit_transaction`
    unfoldable pub commit_transaction :
        Ledger → Text → Text → Transaction → Option EntryDraft → Exec W Applied
    unfolding store_transaction append
    commit_transaction l key print t none = pure (store_transaction l key print t)
    commit_transaction l key print t (some draft) =
        append l (transaction_request l key print draft t)

    -- `_post`
    unfoldable pub do_post : Ledger → Text → Text → EntryDraft → Exec W Applied
    unfolding append
    do_post l key print draft = append l (entry_request key print draft none)

    -- `_reverse`
    unfoldable pub do_reverse : Ledger → Text → Text → Text → Text → Exec W Applied
    unfolding append not_reversed get_entry
    do_reverse l key print entry_id description = do
      original ← lift (get_entry l entry_id)
      lift (not_reversed entry_id (lookup entry_id l.reversals))
      draft ← lift (reversed original.draft description)
      append l (entry_request key print draft (some entry_id))

    -- `_open`
    unfoldable pub do_open : Ledger → Text → Text → Text → Money → Exec W Applied
    unfolding store_transaction
    do_open l key print transaction_id amount = do
      lift
          (raise_if (contains transaction_id l.transactions) (duplicate_transaction transaction_id))
      t ← lift (open_pending transaction_id amount)
      pure (store_transaction l key print t)

    -- `_advance`
    unfoldable pub do_advance :
        Ledger → Text → Text → Text → Event → Option EntryDraft → Exec W Applied
    unfolding get_transaction advance_transaction check_entry commit_transaction
    do_advance l key print transaction_id event entry = do
      current ← lift (get_transaction l transaction_id)
      t ← lift (advance_transaction current event)
      lift (check_entry t.transaction_id event entry current.amount)
      commit_transaction l key print t entry

    -- `_refund`
    unfoldable pub do_refund :
        Ledger → Text → Text → Text → Money → Option EntryDraft → Exec W Applied
    unfolding get_transaction refund_transaction require_entry_moving commit_transaction
    do_refund l key print transaction_id money entry = do
      current ← lift (get_transaction l transaction_id)
      t ← lift (refund_transaction current money)
      lift (require_entry_moving entry transaction_id refund_event money)
      commit_transaction l key print t entry

    -- The handlers after their first lines, which are the same in all five and stand in `once`.
    unfoldable pub perform : Ledger → Text → Command → Exec W Applied
    unfolding do_post do_reverse do_open do_advance do_refund
    perform l print (post key draft) = do_post l key print draft
    perform l print (reverse key entry_id description) = do_reverse l key print entry_id description
    perform l print (open_transaction key transaction_id amount) =
        do_open l key print transaction_id amount
    perform l print (advance key transaction_id event entry) =
        do_advance l key print transaction_id event entry
    perform l print (refund key transaction_id money entry) =
        do_refund l key print transaction_id money entry

    -- `if replayed := self._replay(key, print_): return replayed`, and then the handler.
    unfoldable pub once : Ledger → Text → Text → Exec W Applied → Exec W Applied
    unfolding replay_of unless_replayed
    once l key print go = do recorded ← lift (replay_of l key print); unless_replayed recorded go

    -- `Ledger.execute`
    unfoldable pub execute : Ledger → Command → Exec W Applied
    unfolding command_key command_fingerprint once perform
    execute l command = do
      key ← lift (require_identifier (command_key command) (text "idempotency key"))
      let print = command_fingerprint platform command
      once l key print (perform l print command)

    -- `ledger.post(draft, key=key)`
    unfoldable pub post_draft : Ledger → EntryDraft → Text → Exec W Applied
    unfolding execute
    post_draft l draft key = execute l (post key draft)

    unfoldable pub replay_from : Ledger → List Command → Exec W Ledger
    unfolding execute
    replay_from l [] = pure l
    replay_from l (command ∷ commands) = do
      applied ← execute l command
      replay_from applied.ledger commands

    -- `replay(chart, commands)`
    unfoldable pub replay : Chart → List Command → Exec W Ledger
    unfolding replay_from empty_ledger
    replay chart commands = replay_from (empty_ledger chart) commands
