-- ===== src/Journal/Chains.antt =====
-- src/ledgergate/journal/store.py: `_check_chains`.
use ledgergate.Base.{
  ℕ, Bool, true, false, not, Option, none, some, List, [], ◌∷◌, ◌==◌, list_eq, nat_eq,
}
use ledgergate.Dict.{Dict, lookup, insert}
use ledgergate.Errors.{Result, ok, ◌>>◌, raise_if, integrity_error}
use ledgergate.Journal.Tables.{awaiting_approval, OutcomeRow}

-- `previous != prev_seq or prev_kind != "awaiting_approval"` is false
unfoldable pub follows : OutcomeRow → Option ℕ → Bool
follows last none = false
follows last (some n) = elim last.outcome [ awaiting_approval ↦ n == last.number | _ ↦ false ]

-- One turn of the loop of `_check_chains`, with the tip of the row's operation
unfoldable pub links : Option OutcomeRow → OutcomeRow → Bool
unfolding follows
links none row = elim row.previous [ none ↦ true | some _ ↦ false ]
links (some last) row = follows last row.previous

-- `_check_chains`. The rows are read in the order of their numbers; the source groups them by
-- operation first, which changes only which of several broken chains is named.
unfoldable pub check_chains_from : Dict ℕ OutcomeRow → List OutcomeRow → Result (Unit {0})
unfolding links lookup insert
check_chains_from tips [] = ok tt
check_chains_from tips (row ∷ rows) = do
  raise_if (not (links (lookup row.operation tips) row)) integrity_error
  check_chains_from (insert row.operation row tips) rows

unfoldable pub check_chains : List OutcomeRow → Result (Unit {0})
unfolding check_chains_from
check_chains rows = check_chains_from [] rows
