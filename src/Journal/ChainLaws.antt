-- ===== src/Journal/ChainLaws.antt =====
-- src/ledgergate/journal/store.py: what `_check_chains` accepts, and that an outcome appended at the tip
-- of its operation keeps it.
use ledgergate.Base.{
  ℕ, ◌≡◌, refl, sym, ap, ◌∙◌, true, false, not, Bool, Option, none, some, List, [], ◌∷◌, ◌++◌,
  arith, nat_eq, ◌==◌, test_self, eq_of_test, ◌⊎◌, inl, inr, if◌then◌else◌,
}
use ledgergate.Dict.{Dict, lookup, insert, lookup-insert}
use ledgergate.Errors.{Result, ok, raise_if, raise_if-ok, >>=-eq-ok, integrity_error}
use ledgergate.Text.{Text}
use ledgergate.Ledger.Encoding.{Datetime}
use ledgergate.Journal.Tables.{
  OutcomeRow, Outcome, applied, rejected, denied, awaiting_approval, tip_from, tip, current_outcome,
  current_outcome_kind, World, Tables, alloc,
}
use ledgergate.Journal.Session.{Session}
use ledgergate.Journal.Rows.{add_outcome, hold_projection}
use ledgergate.Journal.Chains.{links, follows, check_chains_from, check_chains}

-- Where the dictionary holds the tips so far, it holds the tips after one more row.
tips_after :
    (tips : Dict ℕ OutcomeRow) (row : OutcomeRow) (op : ℕ)
    → lookup op (insert row.operation row tips)
      ≡ (if row.operation == op then some row else lookup op tips)
tips_after tips row op = ground (arith, lookup-insert row.operation op row tips)

check_chains_from-append :
    (tips : Dict ℕ OutcomeRow) (rows : List OutcomeRow) (row : OutcomeRow)
    → check_chains_from tips rows ≡ ok tt
    → links (tip_from (lookup row.operation tips) row.operation rows) row ≡ true
    → check_chains_from tips (rows ++ row ∷ []) ≡ ok tt
unfolding check_chains_from tip_from
check_chains_from-append tips [] row h k = rw k
check_chains_from-append tips (first ∷ rows) row h k =
    let (_, linked, rest) =
      >>=-eq-ok (raise_if (not (links (lookup first.operation tips) first)) integrity_error) _ h in
    let moved =
      ap (λ o. links (tip_from o row.operation rows) row) (tips_after tips first row.operation)
      ∙ k in
    rw (raise_if-ok _ _ linked)
      (check_chains_from-append (insert first.operation first tips) rows row rest moved)

check_chains_from-linked :
    (tips : Dict ℕ OutcomeRow) (before : List OutcomeRow) (row : OutcomeRow)
    (after : List OutcomeRow)
    → check_chains_from tips (before ++ row ∷ after) ≡ ok tt
    → links (tip_from (lookup row.operation tips) row.operation before) row ≡ true
unfolding check_chains_from tip_from
check_chains_from-linked tips [] row after h =
    let (_, linked, _) =
      >>=-eq-ok (raise_if (not (links (lookup row.operation tips) row)) integrity_error) _ h in
    not_false _ (raise_if-ok _ _ linked)
  where
    not_false : (b : Bool) → not b ≡ false → b ≡ true
    not_false b h = ground arith
check_chains_from-linked tips (first ∷ before) row after h =
    let (_, _, rest) =
      >>=-eq-ok (raise_if (not (links (lookup first.operation tips) first)) integrity_error) _ h in
    ap (λ o. links (tip_from o row.operation before) row)
      (sym (tips_after tips first row.operation))
    ∙ check_chains_from-linked (insert first.operation first tips) before row after rest

-- The row begins the chain of its operation, or names the last outcome of it, which awaits an approval.
abbrev pub Continues : Option OutcomeRow → Option ℕ → Type 0
Continues last previous =
    ((last ≡ none) × (previous ≡ none))
    ⊎ ((r : OutcomeRow) × (last ≡ some r)
        × (r.outcome ≡ awaiting_approval)
        × (previous ≡ some r.number))

awaiting_named :
    (r : OutcomeRow) (kind : Outcome) (n : ℕ)
    → r.outcome ≡ kind
    → (elim kind as (λ _. Bool) [ awaiting_approval ↦ n == r.number | _ ↦ false ]) ≡ true
    → (r.outcome ≡ awaiting_approval) × (some n ≡ some r.number)
awaiting_named r awaiting_approval n k h = (k, ap some (eq_of_test n r.number h))
awaiting_named r applied n k h = cc
awaiting_named r rejected n k h = cc
awaiting_named r denied n k h = cc

follows-Continues :
    (r : OutcomeRow) (previous : Option ℕ) → follows r previous ≡ true → Continues (some r) previous
unfolding follows
follows-Continues r none h = cc
follows-Continues r (some n) h =
    let (kind, named) = awaiting_named r r.outcome n refl h in inr (r, refl, kind, named)

begins-Continues :
    (previous : Option ℕ)
    → (elim previous as (λ _. Bool) [ none ↦ true | some _ ↦ false ]) ≡ true
    → Continues none previous
begins-Continues none h = inl (refl, refl)
begins-Continues (some n) h = cc

links-Continues :
    (last : Option OutcomeRow) (row : OutcomeRow)
    → links last row ≡ true
    → Continues last row.previous
unfolding links
links-Continues none row h = begins-Continues row.previous h
links-Continues (some r) row h = follows-Continues r row.previous h

-- In a journal whose chains the check accepts, each outcome continues the chain of its operation: the
-- first has no predecessor, and a later one has as predecessor the operation's outcome before it, which
-- awaits an approval.
pub check_chains-linked :
    (before : List OutcomeRow) (row : OutcomeRow) (after : List OutcomeRow)
    → check_chains (before ++ row ∷ after) ≡ ok tt
    → Continues (tip row.operation before) row.previous
unfolding check_chains lookup
check_chains-linked before row after h =
    links-Continues (tip row.operation before) row (check_chains_from-linked [] before row after h)

pub check_chains-append :
    (rows : List OutcomeRow) (row : OutcomeRow)
    → check_chains rows ≡ ok tt
    → links (tip row.operation rows) row ≡ true
    → check_chains (rows ++ row ∷ []) ≡ ok tt
unfolding check_chains lookup
check_chains-append rows row h k = check_chains_from-append [] rows row h k

Awaits : Option OutcomeRow → Type 0
Awaits o =
    ((elim o as (λ _. Option Outcome) [ none ↦ none | some r ↦ some r.outcome ]) ≡ none)
    ⊎ ((elim o as (λ _. Option Outcome) [ none ↦ none | some r ↦ some r.outcome ])
        ≡ some awaiting_approval)

links-own_tip :
    (o : Option OutcomeRow) (row : OutcomeRow)
    → row.previous ≡ (elim o [ none ↦ none | some r ↦ some r.number ])
    → Awaits o
    → links o row ≡ true
unfolding links follows Awaits
links-own_tip none row p k = rw p refl
links-own_tip (some r) row p (inl k) = cc
links-own_tip (some r) row p (inr k) = ap (follows r) p ∙ awaiting r (cc)
  where
    awaiting : (r : OutcomeRow) → r.outcome ≡ awaiting_approval → follows r (some r.number) ≡ true
    awaiting r h = rw h (test_self r.number)

links-tip :
    (op : ℕ) (t : Tables) (row : OutcomeRow)
    → row.previous ≡ current_outcome op t
    → (current_outcome_kind op t ≡ none) ⊎ (current_outcome_kind op t ≡ some awaiting_approval)
    → links (tip op t.outcomes) row ≡ true
unfolding current_outcome current_outcome_kind Awaits
links-tip op t row p k = links-own_tip (tip op t.outcomes) row p k

module _ {W : Type 0} (session : Session W) where
  -- The row that is added.
  add_outcome-row :
      (op : ℕ) (outcome : Outcome) (dec : ℕ) (head after : Text) (entry_id : Option Text)
      (posted_at : Option Datetime) (ledger_sequence : ℕ) (error : Option (Text × Text))
      (w w' : World W) (n : ℕ)
      → add_outcome session op outcome dec head after entry_id posted_at ledger_sequence error w
        ≡ (ok n, w')
      → (row : OutcomeRow) × (w'.tables.outcomes ≡ w.tables.outcomes ++ row ∷ [])
        × (row.operation ≡ op)
        × (row.previous ≡ current_outcome op w.tables)
  unfolding add_outcome alloc hold_projection current_outcome
  add_outcome-row op applied dec head after entry_id posted_at ledger_sequence error w w' n e =
      (_, sym (ap (λ (p : Result ℕ × World W). p.1.tables.outcomes) e), refl, refl)
  add_outcome-row op rejected dec head after entry_id posted_at ledger_sequence error w w' n e =
      (_, sym (ap (λ (p : Result ℕ × World W). p.1.tables.outcomes) e), refl, refl)
  add_outcome-row op denied dec head after entry_id posted_at ledger_sequence error w w' n e =
      (_, sym (ap (λ (p : Result ℕ × World W). p.1.tables.outcomes) e), refl, refl)
  add_outcome-row op awaiting_approval dec head after entry_id posted_at ledger_sequence error w w'
        n e =
      (_, sym (ap (λ (p : Result ℕ × World W). p.1.tables.outcomes) e), refl, refl)

  -- An outcome appended to an operation that has none, or whose last outcome awaits an approval, keeps
  -- the chains that the check accepts.
  pub add_outcome-check_chains :
      (op : ℕ) (outcome : Outcome) (dec : ℕ) (head after : Text) (entry_id : Option Text)
      (posted_at : Option Datetime) (ledger_sequence : ℕ) (error : Option (Text × Text))
      (w w' : World W) (n : ℕ)
      → check_chains w.tables.outcomes ≡ ok tt
      → (current_outcome_kind op w.tables ≡ none)
        ⊎ (current_outcome_kind op w.tables ≡ some awaiting_approval)
      → add_outcome session op outcome dec head after entry_id posted_at ledger_sequence error w
        ≡ (ok n, w')
      → check_chains w'.tables.outcomes ≡ ok tt
  add_outcome-check_chains op outcome dec head after entry_id posted_at ledger_sequence error w w' n
        h k e =
      let (row, added, named, follows) =
        add_outcome-row op outcome dec head after entry_id posted_at ledger_sequence error w w' n
          e in
      let tips = ap (λ o. links (tip o w.tables.outcomes) row) named in
      ap check_chains added
      ∙ check_chains-append w.tables.outcomes row h (tips ∙ links-tip op w.tables row follows k)
