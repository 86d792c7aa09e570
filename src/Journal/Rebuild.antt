-- ===== src/Journal/Rebuild.antt =====
-- src/ledgergate/journal/store.py: `_rebuild`, the projection folded from the outcomes.
use ledgergate.Base.{
  ℕ, not, Option, none, some, List, [], ◌∷◌, ◌==◌, list_eq, nat_eq, Bool, if◌then◌else◌,
}
use ledgergate.Text.{Text}
use ledgergate.Errors.{
  Error, Result, ok, err, raise_if, integrity_error, type_error, is_ledger_error, is_decoding_error,
}
use ledgergate.Exec.{Exec, pure, lift, ◌>>=◌, ◌>>◌}
use ledgergate.Ledger.Encoding.{Datetime}
use ledgergate.Ledger.Commands.{Ledger, empty_ledger}
use ledgergate.Ledger.State.{Effects, execute}
use ledgergate.Codec.Command.{decode_command}
use ledgergate.Journal.Tables.{applied, OutcomeRow, OperationRow, World, operation_numbered, query}
use ledgergate.Journal.Chains.{check_chains}
use ledgergate.Journal.Session.{Session, live_effects}

-- `except ... as exc: raise IntegrityError`, for the errors that the clause names
unfoldable pub as_integrity {ℓ} : {A : Type ℓ} → (Error → Bool) → Result A → Result A
as_integrity named (ok a) = ok a
as_integrity named (err e) = err (if named e then integrity_error else e)

-- `_Effects` with a script: the recorded id, and the recorded time.
unfoldable pub scripted : {W : Type 0} → Text → Datetime → Effects W
scripted entry_id posted_at = record {
  now = λ w. (ok posted_at, w);
  next_id = λ w. (ok entry_id, w);
}

-- `if entry_id is not None: effects.script(entry_id, datetime.fromisoformat(posted_at))`: an id without
-- a time is a `TypeError`, which nothing catches.
unfoldable pub script_of :
    {W : Type 0} → Option Text → Option Datetime → Effects W → Result (Effects W)
unfolding scripted
script_of none posted_at live = ok live
script_of (some entry_id) none live = err type_error
script_of (some entry_id) (some posted_at) live = ok (scripted entry_id posted_at)

-- `except LedgerError as exc: raise IntegrityError` around the call of `execute`
unfoldable pub rescued {ℓ} : {W : Type 0} {A : Type ℓ} → Exec W A → Exec W A
unfolding as_integrity is_ledger_error
rescued m w = let (r, w') = m w in (as_integrity is_ledger_error r, w')

module _ {W : Type 0} (session : Session W) where
  -- One applied outcome executed again
  unfoldable pub replay_outcome : Ledger → OutcomeRow → OperationRow → Exec (World W) Ledger
  unfolding decode_command script_of execute as_integrity is_decoding_error rescued
  replay_outcome ledger o op = do
    command ← lift (as_integrity is_decoding_error (decode_command op.command session.registry))
    let live = live_effects (record session { ledger = ledger })
    effects ← lift (script_of o.entry_id o.posted_at live)
    again ← rescued (execute session.platform effects ledger command)
    lift (raise_if (not (again.ledger.head == o.head_after)) integrity_error)
    pure again.ledger

  unfoldable pub rebuild_step : Ledger → OutcomeRow → OperationRow → Exec (World W) Ledger
  unfolding replay_outcome
  rebuild_step ledger o op = elim o.outcome [
    | applied ↦ replay_outcome ledger o op
    | _ ↦ pure ledger
  ]

  -- One row of the outcomes joined with their operations: an outcome that has none is not in the join.
  unfoldable pub rebuild_row :
      Option OperationRow → Ledger → ℕ → OutcomeRow → Exec (World W) (Ledger × ℕ)
  rebuild_row none ledger cursor o = pure (ledger, cursor)
  rebuild_row (some op) ledger cursor o = do
    after ← rebuild_step ledger o op
    pure (after, o.number)

  -- The loop of `_rebuild`
  unfoldable pub rebuild_from :
      List OperationRow → Ledger → ℕ → List OutcomeRow → Exec (World W) (Ledger × ℕ)
  rebuild_from ops ledger cursor [] = pure (ledger, cursor)
  rebuild_from ops ledger cursor (o ∷ rows) = do
    state ← rebuild_row (operation_numbered o.operation ops) ledger cursor o
    rebuild_from ops state.0 state.1 rows

  -- `_rebuild`
  unfoldable pub rebuild : Exec (World W) (Ledger × ℕ)
  rebuild = do
    t ← query (λ t. t)
    lift (check_chains t.outcomes)
    rebuild_from t.operations (empty_ledger session.chart) 0 t.outcomes
