-- ===== src/Journal/WriteLaws.antt =====
-- src/ledgergate/journal/store.py: what step 9 of `_write` records.
use ledgergate.Base.{ℕ, ◌≡◌, refl, sym, ap, ◌∙◌, Option, none, some, [], ◌∷◌, ◌++◌}
use ledgergate.Errors.{Result, ok}
use ledgergate.Exec.{pure, ◌>>=◌, ◌>>◌, >>=-eq-ok, lift-eq-ok}
use ledgergate.Ledger.Commands.{Applied, sequence}
use ledgergate.Journal.Tables.{
  Disposition, applied, ResponseKind, of_outcome, OutcomeRow, World, alloc, current_outcome,
}
use ledgergate.Journal.Session.{Session}
use ledgergate.Journal.Rows.{
  Answer, served, Response, check_answer, add_event, respond, add_outcome, hold_projection,
}
use ledgergate.Journal.Invocations.{applied_result}
use ledgergate.Journal.Commit.{advance_to, write_applied}
use ledgergate.Journal.ReplayLaws.{entry_id_of, posted_at_of, Records}

module _ {W : Type 0} (session : Session W) where
  -- The row says where in the ledger and in the chain of its operation the call stands.
  pub record Places (o : OutcomeRow) (a : Applied) (op : ℕ) (w : World W) : Type 0 where
    pub recorded_before : o.head_before ≡ session.ledger.head
    pub recorded_sequence : o.ledger_sequence ≡ sequence a.ledger
    pub recorded_previous : o.previous ≡ current_outcome op w.tables

  respond-outcomes :
      (inv : ℕ) (disposition : Disposition) (recorded : Option ℕ) (kind : ResponseKind)
      (answer : Answer) (outcome : Option ℕ) (w w' : World W) (r : Response)
      → respond session inv disposition recorded kind answer outcome w ≡ (ok r, w')
      → w'.tables.outcomes ≡ w.tables.outcomes
  unfolding respond add_event alloc
  respond-outcomes inv disposition recorded kind answer outcome w w' r h =
      let (_, _, h1) = lift-eq-ok (check_answer answer) _ w w' h in
      sym (ap (λ (p : Result Response × World W). p.1.tables.outcomes) h1)

  add_outcome-Records :
      (op dec : ℕ) (a : Applied) (n : ℕ) (w w' : World W)
      → add_outcome session op applied dec session.ledger.head a.ledger.head
          (entry_id_of a.entry)
          (posted_at_of a.entry)
          (sequence a.ledger)
          none
          w
        ≡ (ok n, w')
      → (o : OutcomeRow) × (w'.tables.outcomes ≡ w.tables.outcomes ++ o ∷ [])
        × (o.number ≡ n)
        × (o.operation ≡ op)
        × Records o a
        × Places o a op w
  unfolding add_outcome alloc hold_projection
  add_outcome-Records op dec a n w w' h = (
    _,
    sym (ap (λ (p : Result ℕ × World W). p.1.tables.outcomes) h),
    cc,
    refl,
    record { is_applied = refl; recorded_id = refl; recorded_time = refl; recorded_head = refl },
    record { recorded_before = refl; recorded_sequence = refl; recorded_previous = refl },
  )

  -- Step 9 appends one outcome, which records what the core returned, the head before it, the sequence
  -- number of the core's ledger and the outcome of the operation before it, and holds the core's ledger
  -- and the number of that outcome for the projection.
  pub write_applied-Records :
      (op inv : ℕ) (disposition : Disposition) (dec : ℕ) (a : Applied) (w w' : World W)
      (r : Response)
      → write_applied session op inv disposition dec a w ≡ (ok r, w')
      → (o : OutcomeRow) × (w'.tables.outcomes ≡ w.tables.outcomes ++ o ∷ [])
        × (o.operation ≡ op)
        × Records o a
        × Places o a op w
        × (w'.pending ≡ some (a.ledger, o.number))
  unfolding write_applied advance_to
  write_applied-Records op inv disposition dec a w w' r h =
      let (n, u, added, h1) =
        >>=-eq-ok
          (add_outcome session op applied dec session.ledger.head a.ledger.head
            (entry_id_of a.entry) (posted_at_of a.entry) (sequence a.ledger) none)
          (λ n.
            respond session inv disposition (some n) (of_outcome applied)
              (served (applied_result session.platform.isoformat a)) (some n)
            >>= λ response. advance_to session a.ledger n >> pure response)
          w w' h in
      let (response, v, answered, h2) =
        >>=-eq-ok
          (respond session inv disposition (some n) (of_outcome applied)
            (served (applied_result session.platform.isoformat a)) (some n))
          (λ response. advance_to session a.ledger n >> pure response) u w' h1 in
      let (o, outcomes, number, operation, records, places) =
        add_outcome-Records op dec a n w u added in
      let last = ap (λ (p : Result Response × World W). p.1.tables.outcomes) h2 in
      let held = ap (λ (p : Result Response × World W). p.1.pending) h2 in
      (
        o,
        sym last
            ∙ respond-outcomes inv disposition (some n) (of_outcome applied)
                (served (applied_result session.platform.isoformat a)) (some n) u v response
                answered
            ∙ outcomes,
        operation,
        records,
        places,
        sym held ∙ ap (λ k. some (a.ledger, k)) (sym number),
      )
