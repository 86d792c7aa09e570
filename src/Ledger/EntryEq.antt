-- ===== src/Ledger/EntryEq.antt =====
-- src/ledgergate/ledger/entries.py: the field-wise `==` of the frozen data classes.
use ledgergate.Base.{Eq, ℕ_discrete, list_dec}
use ledgergate.Int.{int_dec}
use ledgergate.Ledger.Money.{money_dec}
use ledgergate.Ledger.Accounts.{side_dec}
use ledgergate.Ledger.Postings.{Posting}
use ledgergate.Ledger.Encoding.{Entry}

posting_dec : Discrete Posting
posting_dec = hlevel (ℕ_discrete, list_dec, money_dec, side_dec, int_dec)

pub entry_dec : Discrete Entry
entry_dec = hlevel (ℕ_discrete, list_dec, posting_dec, int_dec)

instance abbrev pub entry_eq : Eq Entry
entry_eq = record { dec = entry_dec }
