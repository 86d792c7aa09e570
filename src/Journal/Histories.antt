-- ===== src/Journal/Histories.antt =====
-- src/ledgergate/journal/store.py: the histories of outcomes that writes record, and their rebuild.
use ledgergate.Base.{ℕ, ◌≡◌, ◌≢◌, refl, sym, ap, ◌∙◌, some, List, [], ◌∷◌, ◌++◌, nat_eq, list_eq}
use ledgergate.Errors.{ok}
use ledgergate.Exec.{Exec, pure, >>=-eq-ok, pure-eq-ok, pure-state}
use ledgergate.Ledger.Commands.{Command, Ledger, Applied, empty_ledger}
use ledgergate.Ledger.State.{Effects, execute}
use ledgergate.Codec.Command.{encode_command}
use ledgergate.Codec.CommandTrip.{IsCodable}
use ledgergate.Journal.Tables.{
  Outcome, applied, rejected, denied, awaiting_approval, OutcomeRow, OperationRow, World,
  operation_numbered,
}
use ledgergate.Journal.Session.{Session}
use ledgergate.Journal.Chains.{check_chains}
use ledgergate.Journal.Rebuild.{rebuild, replay_outcome, rebuild_step, rebuild_row, rebuild_from}
use ledgergate.Journal.ReplayLaws.{Records, rebuild_step-applied}

module _ {W : Type 0} (session : Session W) (ops : List OperationRow) where
  -- The outcomes that writes have recorded so far, with the projection after the last: the ledger and
  -- the cursor. An applied outcome records a call that returned, under any clock and ids; any other
  -- outcome leaves the ledger.
  pub data Recorded : List OutcomeRow → Ledger → ℕ → Type 1 where
    nothing : Recorded [] (empty_ledger session.chart) 0
    then_applied :
        {rows : List OutcomeRow} {ledger : Ledger} {cursor : ℕ} {U : Type 0} (effects : Effects U)
        (u u' : U) (c : Command) (a : Applied) (o : OutcomeRow) (op : OperationRow)
        → Recorded rows ledger cursor
        → operation_numbered o.operation ops ≡ some op
        → op.command ≡ encode_command c
        → IsCodable session.registry c
        → execute session.platform effects ledger c u ≡ (ok a, u')
        → Records o a
        → Recorded (rows ++ o ∷ []) a.ledger o.number
    then_other :
        {rows : List OutcomeRow} {ledger : Ledger} {cursor : ℕ} (o : OutcomeRow) (op : OperationRow)
        → Recorded rows ledger cursor
        → operation_numbered o.operation ops ≡ some op
        → o.outcome ≢ applied
        → Recorded (rows ++ o ∷ []) ledger o.number

  -- One turn that returned.
  rebuild_from-turn :
      (start after : Ledger) (from reached : ℕ) (o : OutcomeRow) (rows : List OutcomeRow)
      (w v : World W)
      → rebuild_row session (operation_numbered o.operation ops) start from o w
        ≡ (ok (after, reached), v)
      → rebuild_from session ops start from (o ∷ rows) w
        ≡ rebuild_from session ops after reached rows v
  unfolding rebuild_from
  rebuild_from-turn start after from reached o rows w v h = rw h

  rebuild_from-append :
      (start ledger : Ledger) (from cursor : ℕ) (rows : List OutcomeRow) (o : OutcomeRow)
      (w v : World W)
      → rebuild_from session ops start from rows w ≡ (ok (ledger, cursor), v)
      → rebuild_from session ops start from (rows ++ o ∷ []) w
        ≡ rebuild_from session ops ledger cursor (o ∷ []) v
  unfolding rebuild_from
  rebuild_from-append start ledger from cursor [] o w v h =
      let same = pure-eq-ok (start, from) w v h in
      let world = pure-state (start, from) w v h in
      ap (λ (p : Ledger × ℕ). rebuild_from session ops p.0 p.1 (o ∷ []) w) (sym same)
      ∙ ap (rebuild_from session ops ledger cursor (o ∷ [])) (sym world)
  rebuild_from-append start ledger from cursor (first ∷ rows) o w v h =
      let ((after, reached), u, turned, rest) =
        >>=-eq-ok (rebuild_row session (operation_numbered first.operation ops) start from first)
          (λ state. rebuild_from session ops state.0 state.1 rows) w v h in
      rebuild_from-turn start after from reached first (rows ++ o ∷ []) w u turned
      ∙ rebuild_from-append after ledger reached cursor rows o u v rest

  rebuild_from-one :
      (ledger after : Ledger) (cursor : ℕ) (o : OutcomeRow) (op : OperationRow) (v : World W)
      → operation_numbered o.operation ops ≡ some op
      → rebuild_step session ledger o op v ≡ (ok after, v)
      → rebuild_from session ops ledger cursor (o ∷ []) v ≡ (ok (after, o.number), v)
  unfolding rebuild_from rebuild_row
  rebuild_from-one ledger after cursor o op v e h = rw (e, h)

  rebuild_step-other :
      (ledger : Ledger) (o : OutcomeRow) (op : OperationRow) (v : World W)
      → o.outcome ≢ applied
      → rebuild_step session ledger o op v ≡ (ok ledger, v)
  unfolding rebuild_step
  rebuild_step-other ledger o op v h = by_kind o.outcome h
    where
      by_kind :
          (k : Outcome)
          → k ≢ applied
          → (elim k as (λ _. Exec (World W) Ledger) [
            | applied ↦ replay_outcome session ledger o op
            | _ ↦ pure ledger
          ])
              v
            ≡ (ok ledger, v)
      by_kind applied h = absurd (h refl)
      by_kind rejected h = refl
      by_kind denied h = refl
      by_kind awaiting_approval h = refl

  rebuild_from-start :
      (v : World W)
      → rebuild_from session ops (empty_ledger session.chart) 0 [] v
        ≡ (ok (empty_ledger session.chart, 0), v)
  unfolding rebuild_from
  rebuild_from-start v = refl

  rebuild_from-Recorded :
      (rows : List OutcomeRow) (ledger : Ledger) (cursor : ℕ) (v : World W)
      → Recorded rows ledger cursor
      → rebuild_from session ops (empty_ledger session.chart) 0 rows v ≡ (ok (ledger, cursor), v)
  rebuild_from-Recorded rows ledger cursor v nothing = rebuild_from-start v
  rebuild_from-Recorded rows ledger cursor v
        (then_applied {rows = past} {ledger = before} {cursor = last} effects u u' c a o op r e
          stored codable returned records) =
      rebuild_from-append (empty_ledger session.chart) before 0 last past o v v
        (rebuild_from-Recorded past before last v r)
      ∙ rebuild_from-one before a.ledger last o op v e (
          rebuild_step-applied session effects before c a u u' o op v codable returned records
            stored)
  rebuild_from-Recorded rows ledger cursor v
        (then_other {rows = past} {ledger = before} {cursor = last} o op r e other) =
      rebuild_from-append (empty_ledger session.chart) before 0 last past o v v
        (rebuild_from-Recorded past before last v r)
      ∙ rebuild_from-one before before last o op v e (rebuild_step-other before o op v other)

module _ {W : Type 0} (session : Session W) where
  rebuild-reads :
      (w : World W) (ledger : Ledger) (cursor : ℕ)
      → check_chains w.tables.outcomes ≡ ok tt
      → rebuild_from session w.tables.operations (empty_ledger session.chart) 0 w.tables.outcomes w
        ≡ (ok (ledger, cursor), w)
      → rebuild session w ≡ (ok (ledger, cursor), w)
  unfolding rebuild
  rebuild-reads w ledger cursor h k = rw (h, k)

  -- Where the tables hold the outcomes that writes recorded, in chains that the check accepts, the
  -- rebuild gives the projection back, the ledger and the cursor, and asks the process's clock and ids
  -- for nothing.
  pub rebuild-Recorded :
      (w : World W) (ledger : Ledger) (cursor : ℕ)
      → check_chains w.tables.outcomes ≡ ok tt
      → Recorded session w.tables.operations w.tables.outcomes ledger cursor
      → rebuild session w ≡ (ok (ledger, cursor), w)
  rebuild-Recorded w ledger cursor h r =
      rebuild-reads w ledger cursor h
        (rebuild_from-Recorded session w.tables.operations w.tables.outcomes ledger cursor w r)
