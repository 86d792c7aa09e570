-- ===== src/Ledger/Verify.antt =====
-- src/ledgergate/ledger/state.py: `Ledger.verify_chain`, which derives every index again from the
-- entries and compares.
use ledgergate.Base.{
  ℕ, suc, Bool, true, not, ◌||◌, List, [], ◌∷◌, ◌==◌, list_eq, nat_eq, if◌then◌else◌,
}
use ledgergate.Text.{Text, text}
use ledgergate.Int.{ℤ, pos, ◌+ℤ◌, int_eq}
use ledgergate.Dict.{Dict, insert, contains, get_or, dict_equal}
use ledgergate.Errors.{Result, ok, ◌>>=◌, ◌>>◌, raise_if, chain_integrity}
use ledgergate.Ledger.Postings.{Posting, signed_amount}
use ledgergate.Ledger.Encoding.{Platform, Entry, recomputed_digest, genesis_hash}
use ledgergate.Ledger.Commands.{Ledger, sequence}
use ledgergate.Ledger.State.{add_reversal}
use ledgergate.Ledger.EntryEq.{entry_eq}

-- The local variables of the loop.
pub record Derived : Type 0 where
  pub previous : Text
  pub balances : Dict Text ℤ
  pub by_id : Dict Text Entry
  pub reversals : Dict Text Text

abbrev pub start : Derived
start = record { previous = genesis_hash; balances = []; by_id = []; reversals = [] }

unfoldable pub add_postings : Dict Text ℤ → List Posting → Dict Text ℤ
add_postings balances [] = balances
add_postings balances (p ∷ ps) =
    add_postings
      (insert p.account_id (get_or p.account_id (pos 0) balances +ℤ signed_amount p) balances) ps

-- `{k: v for k, v in balances.items() if v != 0}`
unfoldable pub nonzero : Dict Text ℤ → Dict Text ℤ
nonzero [] = []
nonzero ((k, v) ∷ d) = let rest = nonzero d in if v == pos 0 then rest else (k, v) ∷ rest

-- The state after one entry that passed its tests.
unfoldable pub derive_entry : Derived → Entry → Derived
unfolding add_postings add_reversal
derive_entry d e = record {
  previous = e.digest;
  balances = add_postings d.balances e.draft.postings;
  by_id = insert e.entry_id e d.by_id;
  reversals = add_reversal e.reverses e.entry_id d.reversals;
}

module _ (platform : Platform) where
  -- The tests on one entry.
  unfoldable pub check_link : ℕ → Derived → Entry → Result (Unit {0})
  unfolding recomputed_digest
  check_link expected d e = do
    raise_if (not (e.sequence == expected) || not (e.previous_hash == d.previous))
        (chain_integrity e.sequence d.previous e.previous_hash)
    raise_if (not (recomputed_digest platform e == e.digest))
        (chain_integrity e.sequence e.digest (recomputed_digest platform e))
    raise_if (contains e.entry_id d.by_id)
        (chain_integrity e.sequence (text "unique id") e.entry_id)

  -- `for expected_seq, entry in enumerate(self.entries, start=1)`
  unfoldable pub derive : ℕ → Derived → List Entry → Result Derived
  unfolding check_link derive_entry
  derive expected d [] = ok d
  derive expected d (e ∷ es) = do
    check_link expected d e
    derive (suc expected) (derive_entry d e) es

  -- The comparisons after the loop.
  unfoldable pub compare_indexes : Ledger → Derived → Result Bool
  unfolding nonzero sequence
  compare_indexes l d = do
    raise_if (not (d.previous == l.head)) (chain_integrity (sequence l) d.previous l.head)
    raise_if (not (dict_equal (nonzero l.balances) (nonzero d.balances)))
        (chain_integrity (sequence l) (text "balances") (text "stored balances"))
    raise_if (not (dict_equal l.by_id d.by_id))
        (chain_integrity (sequence l) (text "entry index") (text "stored index"))
    raise_if (not (dict_equal l.reversals d.reversals))
        (chain_integrity (sequence l) (text "reversal index") (text "stored index"))
    ok true

  -- `ledger.verify_chain()`
  unfoldable pub verify_chain : Ledger → Result Bool
  unfolding derive compare_indexes
  verify_chain l = do d ← derive 1 start l.entries; compare_indexes l d
