-- ===== src/Journal/Attempt.antt =====
-- src/ledgergate/journal/store.py: `_invalid`, and `_write` from the clock's reading to the response.
use ledgergate.Base.{
  ℕ, Bool, true, false, ◌&&◌, Option, none, some, [], ◌∷◌, ◌++◌, ◌==◌, list_eq, nat_eq,
  if◌then◌else◌,
}
use ledgergate.Text.{Text, text}
use ledgergate.Errors.{Result, ok, err, or_raise, integrity_error, key_error}
use ledgergate.Exec.{Exec, pure, lift, ◌>>=◌, ◌>>◌}
use ledgergate.Ledger.Encoding.{Datetime}
use ledgergate.Codec.Json.{
  Json, null, boolean, string, object, no_members, member, find, set_member,
}
use ledgergate.Codec.Command.{bounded_text}
use ledgergate.Journal.Policy.{
  ApprovalContext, Decision, deny, approval_required, DecisionKind, Verdict, is_valid,
}
use ledgergate.Journal.Approvals.{Attribution, signed, expiry_cause}
use ledgergate.Journal.Tables.{
  Disposition, new, replay, conflict, approval, invalid, Outcome, denied, awaiting_approval,
  replayed, conflicting, invalid_request, inbound, World, OperationRow, alloc, query, change,
  find_operation, current_outcome, current_outcome_kind,
}
use ledgergate.Journal.Session.{Session}
use ledgergate.Journal.Rows.{Answer, served, failed, Response, verdict_value, add_event, respond}
use ledgergate.Journal.Invocations.{add_invocation, spend_signed_call}
use ledgergate.Journal.Write.{Validation, Resolved, producer, told}

-- `body["ok"]` and what is read after it, as `_render_replay` answers
unfoldable pub as_error_answer : Option Json → Option Json → Result Answer
as_error_answer (some (string type)) (some (string shown)) = ok (failed type shown)
as_error_answer _ _ = err (key_error (text "error"))

unfoldable pub replay_answer : Json → Result Answer
unfolding find set_member as_error_answer
replay_answer (object body) = elim (find (text "ok") body) [
  | some (boolean true) ↦ elim (find (text "result") body) [
    | some (object result) ↦
        ok (served (object (set_member (text "replayed") (boolean true) result)))
    | _ ↦ err (key_error (text "result"))
  ]
  | some (boolean false) ↦ elim (find (text "error") body) [
    | some (object error) ↦ as_error_answer (find (text "type") error) (find (text "message") error)
    | _ ↦ err (key_error (text "error"))
  ]
  | _ ↦ err (key_error (text "ok"))
]
replay_answer _ = err (key_error (text "ok"))

-- `_clock_checks`: the cause of a refusal at the reading
unfoldable pub clock_cause : Attribution → Datetime → Option Text
unfolding expiry_cause
clock_cause attribution now = elim attribution.authentication [
  | signed ↦ elim attribution.auth_expires_at [ none ↦ none | some at ↦ expiry_cause at now ]
  | _ ↦ none
]

-- `current == "awaiting_approval"`
unfoldable pub is_awaiting : Option Outcome → Bool
is_awaiting (some awaiting_approval) = true
is_awaiting _ = false

unfoldable pub is_some {ℓ} : {A : Type ℓ} → Option A → Bool
is_some none = false
is_some (some _) = true

-- `decision.decision == "approval_required" and verdict == "approval_valid"`
unfoldable pub asks_again : DecisionKind → Option Verdict → Bool
unfolding is_valid
asks_again approval_required (some verdict) = is_valid verdict
asks_again _ _ = false

-- What step 7 is told of the artefact that came with the request.
pub record Presented : Type 0 where
  pub presentation : Option ℕ
  pub verdict : Option Verdict
  pub consumption : Option ℕ
  pub approver : Option Text

abbrev pub nothing_presented : Presented
nothing_presented = record {
  presentation = none;
  verdict = none;
  consumption = none;
  approver = none;
}

unfoldable pub of_validation : Validation → Presented
of_validation v = record {
  presentation = some v.presentation;
  verdict = some v.verdict;
  consumption = v.consumption;
  approver = v.approver;
}

unfoldable pub approval_context : Presented → Option ApprovalContext
approval_context p = elim p.verdict [
  | none ↦ none
  | some verdict ↦
      some (record { presentation = p.presentation; verdict = verdict; approver = p.approver })
]

-- `"denied" if decision.decision == "deny" else "awaiting_approval"`, and the error's type
unfoldable pub refused_as : DecisionKind → Outcome
refused_as deny = denied
refused_as _ = awaiting_approval

unfoldable pub refused_type : DecisionKind → Text
refused_type deny = text "PolicyDenied"
refused_type _ = text "ApprovalRequired"

-- The decision that the runtime writes on a failed verdict
abbrev pub runtime_decision : Verdict → Decision
runtime_decision verdict = record {
  decision = deny;
  matched_rule = text "runtime.approval_rejected";
  reason = verdict_value verdict;
}

module _ {W : Type 0} (session : Session W) where
  -- `_invalid(value, exc, attribution, now)`; what `value` says of its tool and its call id is given.
  unfoldable pub add_invalid :
      Json
      → Option Text
      → Option Text
      → Text
      → Text
      → Attribution
      → Datetime
      → Exec (World W) Response
  unfolding add_invocation spend_signed_call add_event respond
  add_invalid value call_id tool code path attribution now = do
    let safe : Option Text = elim call_id [
      | none ↦ none
      | some id ↦ some (session.admitter.tokenize_identifier id)
    ]
    inv ← add_invocation session none now attribution invalid none none none safe
    spend_signed_call session attribution safe inv (some code)
    add_event session (some inv) inbound (
        object (
          member (text "call_id") (elim safe [ none ↦ null | some id ↦ string id ])
            (member (text "tool") (elim tool [ none ↦ null | some t ↦ string t ])
              (member (text "input_digest") (string (session.admitter.digest_input value)) (
                member (text "error")
                  (object (
                    member (text "code") (string code)
                      (member (text "path") (string path) no_members)))
                  (member (text "payload")
                    (string (
                      session.library.bounded_utf8 4096
                        (session.admitter.redact_text (session.library.dumps value))))
                    no_members))))))
    respond session inv invalid none invalid_request (failed code path) none

  -- Step 4: the operation of the key, and what this invocation is to it.
  unfoldable pub disposition_of : Bool → Option OperationRow → Text → Option Outcome → Disposition
  unfolding is_awaiting
  disposition_of presented none print current = new
  disposition_of presented (some row) print current =
      if row.fingerprint == print
      then if is_awaiting current && presented then approval else replay
      else conflict

  unfoldable pub add_operation : Text → Text → Json → Exec (World W) Resolved
  unfolding alloc
  add_operation key print encoded = do
    n ← alloc
    change (λ t. record t {
      operations =
          t.operations
          ++ record { number = n; key = key; fingerprint = print; command = encoded } ∷ [];
    })
    pure (record { operation = n; disposition = new })

  unfoldable pub resolve_found :
      Bool → Text → Text → Json → Option OperationRow → Exec (World W) Resolved
  unfolding add_operation current_outcome_kind disposition_of
  resolve_found presented key print encoded none = add_operation key print encoded
  resolve_found presented key print encoded (some row) = do
    current ← query (current_outcome_kind row.number)
    pure (record {
      operation = row.number;
      disposition = disposition_of presented (some row) print current;
    })

  unfoldable pub resolve : Bool → Text → Text → Json → Exec (World W) Resolved
  unfolding find_operation resolve_found
  resolve presented key print encoded = do
    row ← query (λ t. find_operation key t.operations)
    resolve_found presented key print encoded row

  -- Step 6: a replay
  unfoldable pub write_replay : ℕ → ℕ → Exec (World W) Response
  unfolding current_outcome producer told replay_answer respond
  write_replay op inv = do
    current ← query (current_outcome op)
    outcome ← lift (or_raise current integrity_error)
    made ← query (λ t. producer session outcome t.responses)
    from ← lift (or_raise made integrity_error)
    body ← query (λ t. told session from t.events)
    shown ← lift (or_raise body integrity_error)
    answer ← lift (replay_answer shown)
    respond session inv replay (some outcome) replayed answer (some outcome)

  -- Step 6: a key used for another request
  unfoldable pub write_conflict : ℕ → Text → Exec (World W) Response
  unfolding bounded_text respond
  write_conflict inv key =
      respond session inv conflict none conflicting
        (failed (text "IdempotencyConflictError") (
          bounded_text (
            text "key " ++ (session.library.repr key ++ text " was used for a different request"))))
        none
