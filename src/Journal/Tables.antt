-- ===== src/Journal/Tables.antt =====
-- src/ledgergate/journal/store.py and schema.py: the tables of a journal, the rows in the order of
-- their numbers, and what a transaction works on. A column of JSON text holds the document, and a
-- column of a rendered time holds the time. SQLite commits or rolls back, and is not modelled further.
use ledgergate.Base.{
  ℕ, ◌+◌, Bool, true, false, ◌&&◌, Option, none, some, List, [], ◌∷◌, ◌==◌, list_eq, nat_eq,
  if◌then◌else◌, any,
}
use ledgergate.Text.{Text}
use ledgergate.Errors.{ok}
use ledgergate.Exec.{Exec}
use ledgergate.Ledger.Encoding.{Datetime}
use ledgergate.Ledger.Commands.{Ledger}
use ledgergate.Codec.Json.{Json}
use ledgergate.Journal.Policy.{PolicyContext, Decision, Verdict}
use ledgergate.Journal.Approvals.{Attribution, CheckResult}

pub data Disposition : Type 0 where
  new replay conflict approval read invalid : Disposition

pub data Outcome : Type 0 where
  applied rejected denied awaiting_approval : Outcome

pub data ResponseKind : Type 0 where
  of_outcome : Outcome → ResponseKind
  replayed conflicting read_served invalid_request : ResponseKind

pub data Direction : Type 0 where
  inbound outbound message : Direction

pub record OperationRow : Type 0 where
  pub number : ℕ
  pub key : Text
  pub fingerprint : Text
  pub command : Json

pub record InvocationRow : Type 0 where
  pub number : ℕ
  pub operation : Option ℕ
  pub requested_at : Datetime
  pub attribution : Attribution
  pub disposition : Disposition
  pub attempted_fingerprint : Option Text
  pub attempted_command : Option Json
  pub request_digest : Option Text
  pub call_id : Option Text

pub record SignedCallRow : Type 0 where
  pub number : ℕ
  pub principal : Text
  pub call_id : Text
  pub invocation : ℕ

pub record PresentationRow : Type 0 where
  pub number : ℕ
  pub invocation : ℕ
  pub journal_id : Text
  pub approval_id : Option Text
  pub approver : Option Text
  pub fingerprint : Text
  pub key : Option Text
  pub subject : Option Text
  pub amount : Option Text
  pub currency : Option Text
  pub issued_at : Datetime
  pub expires_at : Datetime
  pub signature : Text
  pub verified : Bool
  pub check_result : CheckResult

pub record ConsumptionRow : Type 0 where
  pub number : ℕ
  pub approval_id : Text
  pub presentation : ℕ
  pub invocation : ℕ

pub record DecisionRow : Type 0 where
  pub number : ℕ
  pub invocation : ℕ
  pub operation : Option ℕ
  pub context : PolicyContext
  pub policy_set_version : Text
  pub decision : Decision
  pub presentation : Option ℕ
  pub verdict : Option Verdict
  pub consumption : Option ℕ

pub record OutcomeRow : Type 0 where
  pub number : ℕ
  pub operation : ℕ
  pub previous : Option ℕ
  pub outcome : Outcome
  pub error : Option (Text × Text)
  pub entry_id : Option Text
  pub posted_at : Option Datetime
  pub head_before : Text
  pub head_after : Text
  pub ledger_sequence : ℕ
  pub decision : ℕ

pub record ResponseRow : Type 0 where
  pub number : ℕ
  pub invocation : ℕ
  pub disposition : Disposition
  pub outcome : Option ℕ
  pub response : ResponseKind

pub record EventRow : Type 0 where
  pub number : ℕ
  pub invocation : Option ℕ
  pub direction : Direction
  pub body : Json

pub record ReadRow : Type 0 where
  pub number : ℕ
  pub invocation : ℕ
  pub cursor : ℕ
  pub head : Text
  pub result_digest : Text

pub record RegistryRow : Type 0 where
  pub number : ℕ
  pub name : Text
  -- "add" or "revoke"
  pub is_add : Bool
  pub kind : Option Text
  pub verification_key : Option Text
  pub by : Text
  pub at : Datetime

pub record Tables : Type 0 where
  -- The highest `journal_sequence` so far.
  pub last : ℕ
  pub operations : List OperationRow
  pub invocations : List InvocationRow
  pub signed_calls : List SignedCallRow
  pub presentations : List PresentationRow
  pub consumptions : List ConsumptionRow
  pub decisions : List DecisionRow
  pub outcomes : List OutcomeRow
  pub responses : List ResponseRow
  pub events : List EventRow
  pub reads : List ReadRow
  pub principal_events : List RegistryRow
  pub approver_events : List RegistryRow

-- What a transaction changes: the tables, `_pending_projection`, and the state of the clock and the
-- ids.
pub record World (W : Type 0) : Type 0 where
  pub tables : Tables
  pub pending : Option (Ledger × ℕ)
  pub sources : W

module _ {W : Type 0} where
  -- `_alloc`
  unfoldable pub alloc : Exec (World W) ℕ
  alloc w =
      (ok (w.tables.last + 1), record w { tables = record w.tables { last = w.tables.last + 1 } })

  -- What the tables answer.
  abbrev pub query {ℓ} : {A : Type ℓ} → (Tables → A) → Exec (World W) A
  query q w = (ok (q w.tables), w)

  -- One row more.
  abbrev pub change : (Tables → Tables) → Exec (World W) (Unit {0})
  change f w = (ok tt, record w { tables = f w.tables })

-- `SELECT ... FROM operations WHERE key = ?`
unfoldable pub find_operation : Text → List OperationRow → Option OperationRow
find_operation key [] = none
find_operation key (row ∷ rows) =
    let rest = find_operation key rows in if row.key == key then some row else rest

unfoldable pub operation_numbered : ℕ → List OperationRow → Option OperationRow
operation_numbered n [] = none
operation_numbered n (row ∷ rows) =
    let rest = operation_numbered n rows in if row.number == n then some row else rest

-- The last outcome of an operation.
unfoldable pub tip_from : Option OutcomeRow → ℕ → List OutcomeRow → Option OutcomeRow
tip_from found op [] = found
tip_from found op (row ∷ rows) = tip_from (if row.operation == op then some row else found) op rows

abbrev pub tip : ℕ → List OutcomeRow → Option OutcomeRow
tip op rows = tip_from none op rows

-- `_current_outcome(op_seq)`
unfoldable pub current_outcome : ℕ → Tables → Option ℕ
current_outcome op t = elim (tip op t.outcomes) [ none ↦ none | some row ↦ some row.number ]

-- `_current_outcome_kind(op_seq)`
unfoldable pub current_outcome_kind : ℕ → Tables → Option Outcome
current_outcome_kind op t = elim (tip op t.outcomes) [ none ↦ none | some row ↦ some row.outcome ]

-- `SELECT 1 FROM approval_consumptions WHERE approval_id = ?`
abbrev pub is_consumed : Text → Tables → Bool
is_consumed id t = any (λ (c : ConsumptionRow). c.approval_id == id) t.consumptions

-- `_signed_call_spent(principal, call_id)`
abbrev pub signed_call_spent : Text → Text → Tables → Bool
signed_call_spent principal call_id t =
    any (λ (s : SignedCallRow). s.principal == principal && s.call_id == call_id) t.signed_calls

-- `_live(table, name)`: the row that added the name, unless the name was revoked.
unfoldable pub find_added : Text → List RegistryRow → Option RegistryRow
find_added name [] = none
find_added name (row ∷ rows) =
    let rest = find_added name rows in if row.is_add && row.name == name then some row else rest

unfoldable pub is_revoked : Text → List RegistryRow → Bool
is_revoked name [] = false
is_revoked name (row ∷ rows) =
    let rest = is_revoked name rows in
    if row.is_add then rest else if row.name == name then true else rest

unfoldable pub live : Text → List RegistryRow → Option RegistryRow
live name rows = if is_revoked name rows then none else find_added name rows
