-- ===== src/Journal/Rows.antt =====
-- src/ledgergate/journal/store.py: what a transaction appends, row by row.
use ledgergate.Base.{ℕ, true, false, Option, some, [], ◌∷◌, ◌++◌, list_eq, nat_eq, ltb, length}
use ledgergate.Text.{Text, text}
use ledgergate.Errors.{Result, raise_if, integrity_error}
use ledgergate.Exec.{Exec, pure, lift, ◌>>=◌, ◌>>◌}
use ledgergate.Ledger.Encoding.{Datetime}
use ledgergate.Codec.Json.{Json, boolean, string, object, no_members, member}
use ledgergate.Codec.Draft.{max_text}
use ledgergate.Journal.Policy.{
  PolicyContext, Decision, Verdict, approval_valid, approval_already_used, approval_not_applicable,
  approval_invalid, approval_wrong_approver, approval_expired, approval_scope_mismatch,
}
use ledgergate.Journal.Approvals.{Approval}
use ledgergate.Journal.Tables.{
  Disposition, Outcome, applied, ResponseKind, Direction, inbound, outbound, World, alloc, query,
  change, current_outcome,
}
use ledgergate.Journal.Session.{Session}

-- `Request`: what admission produces, the artefact as `Approval.from_json` reads it.
pub record Request : Type 0 where
  pub tool : Text
  pub arguments : Json
  pub call_id : Text
  -- `request.request_digest()`
  pub digest : Text
  pub approval : Option Approval

pub data Answer : Type 0 where
  served : Json → Answer
  failed : Text → Text → Answer

pub record Response : Type 0 where
  pub invocation : ℕ
  pub disposition : Disposition
  pub response : ResponseKind
  pub answer : Answer
  pub outcome : Option ℕ

-- The test of `Response.__post_init__`
unfoldable pub check_answer : Answer → Result (Unit {0})
check_answer (served _) = raise_if false integrity_error
check_answer (failed _ message) = raise_if (ltb max_text (length message)) integrity_error

-- `response.as_tool_result()`
unfoldable pub as_tool_result : Answer → Json
as_tool_result (served result) =
    object (member (text "ok") (boolean true) (member (text "result") result no_members))
as_tool_result (failed type shown) = object (
    member (text "ok") (boolean false) (
      member (text "error")
        (object
          (member (text "type") (string type) (member (text "message") (string shown) no_members)))
        no_members))

unfoldable pub verdict_value : Verdict → Text
verdict_value approval_valid = text "approval_valid"
verdict_value approval_already_used = text "approval_already_used"
verdict_value approval_not_applicable = text "approval_not_applicable"
verdict_value approval_invalid = text "approval_invalid"
verdict_value approval_wrong_approver = text "approval_wrong_approver"
verdict_value approval_expired = text "approval_expired"
verdict_value approval_scope_mismatch = text "approval_scope_mismatch"

module _ {W : Type 0} (session : Session W) where
  -- `_event(inv_seq, direction, body)`
  unfoldable pub add_event : Option ℕ → Direction → Json → Exec (World W) (Unit {0})
  unfolding alloc
  add_event inv direction body = do
    n ← alloc
    change (λ t. record t {
      events =
          t.events
          ++ record { number = n; invocation = inv; direction = direction; body = body } ∷ [];
    })

  -- `_inbound(inv_seq, request)`
  unfoldable pub add_inbound : ℕ → Request → Exec (World W) (Unit {0})
  unfolding add_event
  add_inbound inv r = add_event (some inv) inbound (
      object (
        member (text "tool") (string r.tool) (
          member (text "arguments") r.arguments
            (member (text "call_id") (string r.call_id) no_members))))

  -- `_respond(inv_seq, disposition, outcome_seq, response_kind, response)`, where the response is
  -- constructed.
  unfoldable pub respond :
      ℕ → Disposition → Option ℕ → ResponseKind → Answer → Option ℕ → Exec (World W) Response
  unfolding alloc add_event check_answer as_tool_result
  respond inv disposition recorded kind answer outcome = do
    lift (check_answer answer)
    n ← alloc
    change (λ t. record t {
      responses =
          t.responses
          ++ record {
            number = n;
            invocation = inv;
            disposition = disposition;
            outcome = recorded;
            response = kind;
          }
            ∷ [];
    })
    add_event (some inv) outbound (as_tool_result answer)
    pure (record {
      invocation = inv;
      disposition = disposition;
      response = kind;
      answer = answer;
      outcome = outcome;
    })

  -- `_decision(inv_seq, op_seq, context, decision, presentation, verdict, consumption)`
  unfoldable pub add_decision :
      ℕ
      → Option ℕ
      → PolicyContext
      → Decision
      → Option ℕ
      → Option Verdict
      → Option ℕ
      → Exec (World W) ℕ
  unfolding alloc
  add_decision inv op context decision presentation verdict consumption = do
    n ← alloc
    change (λ t. record t {
      decisions =
          t.decisions
          ++ record {
            number = n;
            invocation = inv;
            operation = op;
            context = context;
            policy_set_version = session.policy.version;
            decision = decision;
            presentation = presentation;
            verdict = verdict;
            consumption = consumption;
          }
            ∷ [];
    })
    pure n

  -- `self._pending_projection = (self._ledger, seq)`, unless the outcome applied
  unfoldable pub hold_projection : Outcome → ℕ → Exec (World W) (Unit {0})
  hold_projection applied n = pure tt
  hold_projection _ n = λ w. pure tt (record w { pending = some (session.ledger, n) })

  -- `_outcome(op_seq, outcome, dec_seq, head_before, head_after, ...)`
  unfoldable pub add_outcome :
      ℕ
      → Outcome
      → ℕ
      → Text
      → Text
      → Option Text
      → Option Datetime
      → ℕ
      → Option (Text × Text)
      → Exec (World W) ℕ
  unfolding alloc current_outcome hold_projection
  add_outcome op outcome dec before after entry_id posted_at ledger_sequence error = do
    n ← alloc
    previous ← query (current_outcome op)
    change (λ t. record t {
      outcomes =
          t.outcomes
          ++ record {
            number = n;
            operation = op;
            previous = previous;
            outcome = outcome;
            error = error;
            entry_id = entry_id;
            posted_at = posted_at;
            head_before = before;
            head_after = after;
            ledger_sequence = ledger_sequence;
            decision = dec;
          }
            ∷ [];
    })
    hold_projection outcome n
    pure n
