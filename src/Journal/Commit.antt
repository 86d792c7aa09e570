-- ===== src/Journal/Commit.antt =====
-- src/ledgergate/journal/store.py: steps 7 to 9 of `_write`, the whole of `_write`, and the transaction
-- around it.
use ledgergate.Base.{
  ℕ, ◌+◌, ◌*◌, Bool, true, false, Option, none, some, list_eq, nat_eq, ltb, length, filter_by,
}
use ledgergate.Text.{Text, text}
use ledgergate.Errors.{Error, Result, ok, err, raise_if, or_raise, integrity_error, capacity_error}
use ledgergate.Exec.{Exec, pure, lift, ◌>>=◌, ◌>>◌}
use ledgergate.Ledger.Encoding.{Datetime}
use ledgergate.Ledger.Commands.{Command, Ledger, Applied, sequence, command_fingerprint}
use ledgergate.Ledger.State.{execute}
use ledgergate.Codec.Json.{Json}
use ledgergate.Codec.Command.{encode_command, bounded_text}
use ledgergate.Journal.Policy.{Decision, allow, approval_not_applicable}
use ledgergate.Journal.PolicySet.{decision_message}
use ledgergate.Journal.Approvals.{Approval, Attribution}
use ledgergate.Journal.Tables.{
  Disposition, replay, conflict, approval, applied, rejected, awaiting_approval, of_outcome, World,
  Tables, EventRow, query, current_outcome,
}
use ledgergate.Journal.Session.{Session, aware_now, live_effects}
use ledgergate.Journal.Rows.{
  Request, served, failed, Response, add_inbound, respond, add_decision, add_outcome,
}
use ledgergate.Journal.Invocations.{add_invocation, spend_signed_call, applied_result}
use ledgergate.Journal.Write.{is_failed, attempt, validate_approval, present_unexpected}
use ledgergate.Journal.Attempt.{
  clock_cause, is_some, Presented, nothing_presented, of_validation, refused_as, refused_type,
  add_invalid, resolve, write_replay, write_conflict,
}
use ledgergate.Journal.Context.{context_subject, context_aggregates, context_of, decision_for}

-- `EVENTS_PER_INVOCATION`
abbrev pub events_per_invocation : ℕ
events_per_invocation = 9

-- `_check_capacity(cost)`, for the trace's bound
unfoldable pub check_capacity : ℕ → ℕ → Tables → Result (Unit {0})
check_capacity bound cost t =
    let messages =
      filter_by (λ (e : EventRow). elim e.invocation [ none ↦ true | some _ ↦ false ]) t.events in
    let total =
      events_per_invocation * length t.invocations
      + length messages
      + (length t.principal_events + length t.approver_events) in
    raise_if (ltb bound (total + cost)) capacity_error

module _ {W : Type 0} (session : Session W) where
  -- A failed verdict: no outcome is appended.
  unfoldable pub write_failed : ℕ → ℕ → Disposition → Decision → Exec (World W) Response
  unfolding current_outcome respond
  write_failed op inv disposition d = do
    current ← query (current_outcome op)
    outcome ← lift (or_raise current integrity_error)
    respond session inv disposition (some outcome) (of_outcome awaiting_approval)
        (failed (text "ApprovalRejected") (decision_message d)) (some outcome)

  -- A denial, or a request for an approval
  unfoldable pub write_refused : ℕ → ℕ → Disposition → Decision → ℕ → Exec (World W) Response
  unfolding add_outcome respond refused_as refused_type
  write_refused op inv disposition d dec = do
    let kind = refused_as d.decision
    outcome ←
        add_outcome session op kind dec session.ledger.head session.ledger.head none none
          (sequence session.ledger) none
    respond session inv disposition (some outcome) (of_outcome kind)
        (failed (refused_type d.decision) (decision_message d)) (some outcome)

  -- Step 8: the core's verdict
  unfoldable pub write_rejected : ℕ → ℕ → Disposition → ℕ → Error → Exec (World W) Response
  unfolding add_outcome respond bounded_text
  write_rejected op inv disposition dec e = do
    let type = session.library.class_of e
    let shown = bounded_text (session.library.message_of e)
    outcome ←
        add_outcome session op rejected dec session.ledger.head session.ledger.head none none
          (sequence session.ledger) (some (type, shown))
    respond session inv disposition (some outcome) (of_outcome rejected) (failed type shown)
        (some outcome)

  -- `self._pending_projection = (applied.ledger, outcome_seq)`
  unfoldable pub advance_to : Ledger → ℕ → Exec (World W) (Unit {0})
  advance_to ledger n = λ w. pure tt (record w { pending = some (ledger, n) })

  -- Step 9
  unfoldable pub write_applied : ℕ → ℕ → Disposition → ℕ → Applied → Exec (World W) Response
  unfolding add_outcome respond applied_result advance_to
  write_applied op inv disposition dec a = do
    outcome ←
        add_outcome session op applied dec session.ledger.head a.ledger.head
          (elim a.entry [ none ↦ none | some e ↦ some e.entry_id ])
          (elim a.entry [ none ↦ none | some e ↦ some e.posted_at ]) (sequence a.ledger) none
    response ←
        respond session inv disposition (some outcome) (of_outcome applied)
          (served (applied_result session.platform.isoformat a)) (some outcome)
    advance_to a.ledger outcome
    pure response

  unfoldable pub write_result : ℕ → ℕ → Disposition → ℕ → Result Applied → Exec (World W) Response
  unfolding write_rejected write_applied
  write_result op inv disposition dec (err e) = write_rejected op inv disposition dec e
  write_result op inv disposition dec (ok a) = write_applied op inv disposition dec a

  unfoldable pub write_allowed : ℕ → ℕ → Disposition → ℕ → Command → Exec (World W) Response
  unfolding attempt execute write_result
  write_allowed op inv disposition dec command = do
    result ← attempt (execute session.platform (live_effects session) session.ledger command)
    write_result op inv disposition dec result

  -- What follows from the decision
  unfoldable pub carry_out :
      ℕ → ℕ → Disposition → Bool → Decision → ℕ → Command → Exec (World W) Response
  unfolding write_failed write_refused write_allowed
  carry_out op inv disposition true d dec command = write_failed op inv disposition d
  carry_out op inv disposition false d dec command = elim d.decision [
    | allow ↦ write_allowed op inv disposition dec command
    | _ ↦ write_refused op inv disposition d dec
  ]

  -- Steps 7 to 9
  unfoldable pub decide :
      Attribution
      → Command
      → Text
      → Datetime
      → ℕ
      → ℕ
      → Disposition
      → Presented
      → Exec (World W) Response
  unfolding is_failed context_subject context_aggregates decision_for add_decision carry_out
  decide attribution command print now op inv disposition p = do
    let fails = is_failed p.verdict
    subject ← lift (context_subject session fails command)
    summed ← query (context_aggregates session fails command now)
    aggregates ← lift summed
    let context = context_of session attribution command print now p subject aggregates
    d ← lift (decision_for session context p.verdict)
    dec ← add_decision session inv (some op) context d p.presentation p.verdict p.consumption
    carry_out op inv disposition fails d dec command

  -- An artefact that was not asked for is kept.
  unfoldable pub keep_unexpected : ℕ → Option Approval → Exec (World W) Presented
  unfolding present_unexpected
  keep_unexpected inv none = pure nothing_presented
  keep_unexpected inv (some a) = do
    n ← present_unexpected session inv a
    pure (record {
      presentation = some n;
      verdict = some approval_not_applicable;
      consumption = none;
      approver = none;
    })

  unfoldable pub present_expected :
      ℕ → Option Approval → Datetime → Text → Text → Command → Exec (World W) Presented
  unfolding validate_approval of_validation
  present_expected inv none now print key command = lift (err integrity_error)
  present_expected inv (some a) now print key command = do
    v ← validate_approval session inv a now print key command
    pure (of_validation v)

  -- Steps 6 to 9, by the disposition
  unfoldable pub proceed :
      Attribution
      → Request
      → Text
      → Command
      → Text
      → Datetime
      → ℕ
      → ℕ
      → Disposition
      → Exec (World W) Response
  unfolding keep_unexpected write_replay write_conflict present_expected decide
  proceed attribution r key command print now op inv replay = do
    p ← keep_unexpected inv r.approval
    write_replay session op inv
  proceed attribution r key command print now op inv conflict = do
    p ← keep_unexpected inv r.approval
    write_conflict session inv key
  proceed attribution r key command print now op inv approval = do
    p ← present_expected inv r.approval now print key command
    decide attribution command print now op inv approval p
  proceed attribution r key command print now op inv other = do
    p ← keep_unexpected inv r.approval
    decide attribution command print now op inv other p

  -- Steps 4 to 9, once the clock admits the request
  unfoldable pub write_at :
      Request → Text → Command → Attribution → Datetime → Exec (World W) Response
  unfolding command_fingerprint encode_command resolve add_invocation spend_signed_call add_inbound
      proceed
  write_at r key command attribution now = do
    let print = command_fingerprint session.platform command
    let encoded = encode_command command
    found ← resolve session (is_some r.approval) key print encoded
    inv ←
        add_invocation session (some found.operation) now attribution found.disposition (some print)
          (some encoded) (some r.digest) (some r.call_id)
    spend_signed_call session attribution (some r.call_id) inv none
    add_inbound session inv r
    proceed attribution r key command print now found.operation inv found.disposition

  -- `_write(request, attribution, value)`; `call_id` and `tool` are what `value` says of them.
  unfoldable pub write_from :
      Request
      → Text
      → Command
      → Attribution
      → Json
      → Option Text
      → Option Text
      → Datetime
      → Option Text
      → Exec (World W) Response
  unfolding add_invalid write_at
  write_from r key command attribution value call_id tool now (some cause) =
      add_invalid session value call_id tool cause (text "auth") attribution now
  write_from r key command attribution value call_id tool now none =
      write_at r key command attribution now

  unfoldable pub write :
      Request
      → Text
      → Command
      → Attribution
      → Json
      → Option Text
      → Option Text
      → Exec (World W) Response
  unfolding aware_now clock_cause write_from
  write r key command attribution value call_id tool = do
    now ← aware_now session
    write_from r key command attribution value call_id tool now (clock_cause attribution now)

-- `_txn`: what a transaction leaves. On a raise the tables are as before, and only the clock and the
-- ids keep what they gave; on a return the projection advances.
pub record Store (W : Type 0) : Type 0 where
  pub session : Session W
  pub tables : Tables
  pub sources : W

-- `_advance_projection`
unfoldable pub advance_projection : {W : Type 0} → Session W → Option (Ledger × ℕ) → Session W
advance_projection session none = session
advance_projection session (some (ledger, cursor)) = record session {
  ledger = ledger;
  cursor = cursor;
}

unfoldable pub committed :
    {W : Type 0} → Store W → Result Response × World W → Result Response × Store W
unfolding advance_projection
committed store (ok response, w) = (
  ok response,
  record {
    session = advance_projection store.session w.pending;
    tables = w.tables;
    sources = w.sources;
  },
)
committed store (err e, w) = (err e, record store { sources = w.sources })

unfoldable pub transaction :
    {W : Type 0} → (Session W → Exec (World W) Response) → Store W → Result Response × Store W
unfolding committed
transaction body store =
    committed store (
      body store.session
        (record { tables = store.tables; pending = none; sources = store.sources }))
