-- ===== src/Ledger/Steps.antt =====
-- src/ledgergate/ledger/state.py: what a call of `Ledger.execute` that returns has done. It either
-- found a recorded result, stored a transaction, or posted one entry.
use ledgergate.Base.{◌≡◌, refl, true, false, Option, none, some, arith, nat_eq, list_eq}
use ledgergate.Text.{Text}
use ledgergate.Dict.{Dict, lookup, insert, contains}
use ledgergate.Errors.{ok}
use ledgergate.Ledger.Identifiers.{require_identifier}
use ledgergate.Int.{ℤ}
use ledgergate.Ledger.Money.{Money}
use ledgergate.Ledger.Postings.{EntryDraft}
use ledgergate.Ledger.Balance.{IsDraft, Mirrors}
use ledgergate.Ledger.Encoding.{Platform, Datetime, Entry}
use ledgergate.Ledger.Lifecycle.{
  Transaction, Event, open_pending, advance_transaction, refund_transaction,
}
use ledgergate.Ledger.Commands.{
  reverse, Command, post, advance, refund, command_key, command_fingerprint, Ledger, Applied,
  get_entry, get_transaction,
}
use ledgergate.Ledger.Checks.{validate, replay_of, not_reversed}
use ledgergate.Ledger.State.{Request, with_entry, new_entry, store_transaction}

-- The drafts that a command carries were constructed.
abbrev pub HasDraft : Option EntryDraft → Type 0
HasDraft none = Unit
HasDraft (some draft) = IsDraft draft

abbrev pub IsCommand : Command → Type 0
IsCommand (post _ draft) = IsDraft draft
IsCommand (advance _ _ _ entry) = HasDraft entry
IsCommand (refund _ _ _ entry) = HasDraft entry
IsCommand _ = Unit

-- Where a stored transaction comes from.
pub data Moved (l : Ledger) (t : Transaction) : Type 0 where
  opened :
      (id : Text) (amount : Money)
      → contains id l.transactions ≡ false
      → open_pending id amount ≡ ok t
      → Moved l t
  advanced :
      (id : Text) (u : Transaction) (event : Event)
      → lookup id l.transactions ≡ some u
      → advance_transaction u event ≡ ok t
      → Moved l t
  refunded_part :
      (id : Text) (u : Transaction) (money : Money)
      → lookup id l.transactions ≡ some u
      → refund_transaction u money ≡ ok t
      → Moved l t

-- An entry that reverses names an entry not yet reversed, and mirrors it.
abbrev pub Reverses : Ledger → EntryDraft → Option Text → Type 0
Reverses l draft none = Unit
Reverses l draft (some id) =
    (o : Entry) × (lookup id l.by_id ≡ some o)
    × (lookup id l.reversals ≡ none)
    × Mirrors o.draft.postings draft.postings

-- The transaction that a posting stores beside its entry.
abbrev pub Stores : Ledger → Request → Option Transaction → Type 0
Stores l r none = r.transactions ≡ none
Stores l r (some t) = (r.transactions ≡ some (insert t.transaction_id t l.transactions)) × Moved l t

-- The entry that a command reverses.
abbrev pub reversed_by : Command → Option Text
reversed_by (reverse _ id _) = some id
reversed_by _ = none

module _ (platform : Platform) where
  -- What `_append` does when it returns: the draft was valid, the id is new, the entry is added.
  pub record Appended (l : Ledger) (r : Request) (a : Applied) : Type 0 where
    pub balances : Dict Text ℤ
    pub entry_id : Text
    pub posted_at : Datetime
    pub valid : validate l r.draft ≡ ok balances
    pub new_id : contains entry_id l.by_id ≡ false
    pub result : a ≡ with_entry platform l r balances (new_entry platform l r entry_id posted_at)

  -- What a handler hands to `_append`.
  pub record Fits (l : Ledger) (c : Command) (r : Request) : Type 0 where
    pub keyed : r.key ≡ command_key c
    pub printed : r.print ≡ command_fingerprint platform c
    pub drafted : IsDraft r.draft
    pub names : r.reverses ≡ reversed_by c
    pub reversal : Reverses l r.draft r.reverses
    pub stores : Stores l r r.transaction

  -- What a call that returns has done.
  pub data Step (l : Ledger) (c : Command) (a : Applied) : Type 0 where
    recalled :
        replay_of l (command_key c) (command_fingerprint platform c) ≡ ok (some a) → Step l c a
    posted :
        (r : Request)
        → lookup (command_key c) l.operations ≡ none
        → Fits l c r
        → Appended l r a
        → Step l c a
    stored :
        (t : Transaction)
        → reversed_by c ≡ none
        → lookup (command_key c) l.operations ≡ none
        → Moved l t
        → a ≡ store_transaction l (command_key c) (command_fingerprint platform c) t
        → Step l c a

pub get_entry-eq :
    (l : Ledger) (id : Text) {o : Entry} → get_entry l id ≡ ok o → lookup id l.by_id ≡ some o
unfolding get_entry
get_entry-eq l id h = ground arith

pub get_transaction-eq :
    (l : Ledger) (id : Text) {t : Transaction}
    → get_transaction l id ≡ ok t
    → lookup id l.transactions ≡ some t
unfolding get_transaction
get_transaction-eq l id h = ground arith

pub not_reversed-eq :
    (id : Text) (o : Option Text) {u : Unit {0}} → not_reversed id o ≡ ok u → o ≡ none
unfolding not_reversed
not_reversed-eq id none h = refl
not_reversed-eq id (some by) h = cc

-- The key passes through its check unchanged.
pub require_identifier-eq :
    (value what : Text) {k : Text} → require_identifier value what ≡ ok k → k ≡ value
unfolding require_identifier
require_identifier-eq value what h = ground arith

-- A recorded result comes with the ledger as it is, and no record means a new key.
pub replay_of-some :
    (l : Ledger) (key print : Text) (a : Applied)
    → replay_of l key print ≡ ok (some a)
    → (a.ledger ≡ l) × (a.replayed ≡ true)
unfolding replay_of
replay_of-some l key print a h = ground arith

pub replay_of-none :
    (l : Ledger) (key print : Text)
    → replay_of l key print ≡ ok none
    → lookup key l.operations ≡ none
unfolding replay_of
replay_of-none l key print h = ground arith
