-- ===== src/Journal/Reads.antt =====
-- src/ledgergate/journal/store.py: `_read` and `_serve`. `codec.digest` is an argument.
use ledgergate.Base.{
  ℕ, Bool, true, false, Option, none, some, List, [], ◌∷◌, ◌++◌, ◌==◌, list_eq, nat_eq,
  if◌then◌else◌,
}
use ledgergate.Text.{Text, text}
use ledgergate.Text.Integer.{show_int}
use ledgergate.Int.{pos}
use ledgergate.Errors.{Result, ok, err, configuration_error, key_error}
use ledgergate.Exec.{Exec, pure, lift, ◌>>=◌, ◌>>◌}
use ledgergate.Ledger.Money.{Money}
use ledgergate.Ledger.Encoding.{Datetime}
use ledgergate.Ledger.Commands.{balance, trial_balance, is_balanced, TrialBalanceRow}
use ledgergate.Codec.Json.{
  Json, boolean, integer, string, array, object, Items, no_items, item, no_members, member, find,
}
use ledgergate.Journal.Policy.{PolicyContext, Decision, allow, approval_required, request_digest}
use ledgergate.Journal.PolicySet.{guarded_decision, decision_message, refuse_runtime_namespace}
use ledgergate.Journal.Approvals.{Attribution}
use ledgergate.Journal.Tables.{read, denied, of_outcome, read_served, World, alloc, change}
use ledgergate.Journal.Session.{Session, aware_now}
use ledgergate.Journal.Rows.{Request, served, failed, Response, add_inbound, respond, add_decision}
use ledgergate.Journal.Invocations.{add_invocation, spend_signed_call}
use ledgergate.Journal.Attempt.{clock_cause, Presented, approval_context, add_invalid}
use ledgergate.Journal.Commit.{keep_unexpected}

-- `_money_str(m)`
unfoldable pub money_document : Money → Json
unfolding show_int
money_document m = object (
    member (text "amount") (string (show_int m.amount))
      (member (text "currency") (string m.currency.code) no_members))

unfoldable pub row_documents : List TrialBalanceRow → Items
unfolding money_document
row_documents [] = no_items
row_documents (r ∷ rows) =
    item
      (object (
        member (text "account") (string r.account.account_id) (
          member (text "debit") (money_document r.debit_side)
            (member (text "credit") (money_document r.credit_side) no_members))))
      (row_documents rows)

-- `request.arguments["account"]`
unfoldable pub account_of : Json → Result Text
unfolding find
account_of (object arguments) = elim (find (text "account") arguments) [
  | some (string account) ↦ ok account
  | _ ↦ err (key_error (text "account"))
]
account_of _ = err (key_error (text "account"))

-- The test on a gated read's decision
unfoldable pub read_decision : Result Decision → Result Decision
unfolding guarded_decision refuse_runtime_namespace
read_decision call = elim (guarded_decision call) [
  | err e ↦ err e
  | ok d ↦ elim (refuse_runtime_namespace d) [
    | err e ↦ err e
    | ok _ ↦ elim d.decision [ approval_required ↦ err configuration_error | _ ↦ ok d ]
  ]
]

module _ {W : Type 0} (session : Session W) (digest : Json → Text) where
  unfoldable pub serve_balance : Text → Exec (World W) Json
  unfolding balance money_document
  serve_balance account = do
    held ← lift (balance session.ledger account)
    pure (
        object (
          member (text "account") (string account) (
            member (text "balance") (money_document held)
              (member (text "cursor") (integer (pos session.cursor)) no_members))))

  unfoldable pub serve_trial_balance : Exec (World W) Json
  unfolding trial_balance is_balanced row_documents
  serve_trial_balance = do
    let rows = trial_balance session.ledger
    balanced ← lift (is_balanced rows)
    pure (
        object (
          member (text "rows") (array (row_documents rows)) (
            member (text "balanced") (boolean balanced)
              (member (text "cursor") (integer (pos session.cursor)) no_members))))

  -- `_serve(request)`
  unfoldable pub serve : Request → Exec (World W) Json
  unfolding serve_balance serve_trial_balance account_of
  serve r =
      if r.tool == text "balance"
      then (do account ← lift (account_of r.arguments); serve_balance account)
      else serve_trial_balance

  -- The read that is served
  unfoldable pub read_allowed : Request → ℕ → Exec (World W) Response
  unfolding serve alloc respond
  read_allowed r inv = do
    result ← serve r
    n ← alloc
    change (λ t. record t {
      reads =
          t.reads
          ++ record {
            number = n;
            invocation = inv;
            cursor = session.cursor;
            head = session.ledger.head;
            result_digest = digest result;
          }
            ∷ [];
    })
    respond session inv read none read_served (served result) none

  abbrev pub read_context : Attribution → Request → Datetime → Presented → PolicyContext
  read_context attribution r now p = record {
    principal = attribution.principal;
    subject = none;
    command_digest = r.digest;
    digest_kind = request_digest;
    evaluated_at = now;
    policy_set_version = session.policy.version;
    command_kind = none;
    amount = none;
    currency = none;
    aggregates = [];
    approval = approval_context p;
  }

  unfoldable pub read_decided : Request → ℕ → Decision → Exec (World W) Response
  unfolding read_allowed respond
  read_decided r inv d = elim d.decision [
    | allow ↦ read_allowed r inv
    | _ ↦
        respond session inv read none (of_outcome denied)
          (failed (text "PolicyDenied") (decision_message d)) none
  ]

  -- `if self.policy.gates_read(request.tool)`
  unfoldable pub read_gated :
      Bool → Attribution → Request → Datetime → ℕ → Presented → Exec (World W) Response
  unfolding read_decision read_decided add_decision read_allowed
  read_gated false attribution r now inv p = read_allowed r inv
  read_gated true attribution r now inv p = do
    let context = read_context attribution r now p
    d ← lift (read_decision (session.policy.evaluate context))
    dec ← add_decision session inv none context d p.presentation p.verdict none
    read_decided r inv d

  unfoldable pub read_at : Request → Attribution → Datetime → Exec (World W) Response
  unfolding add_invocation spend_signed_call add_inbound keep_unexpected read_gated
  read_at r attribution now = do
    inv ←
        add_invocation session none now attribution read none none (some r.digest) (some r.call_id)
    spend_signed_call session attribution (some r.call_id) inv none
    add_inbound session inv r
    p ← keep_unexpected session inv r.approval
    read_gated (session.policy.gates_read r.tool) attribution r now inv p

  unfoldable pub read_from :
      Request
      → Attribution
      → Json
      → Option Text
      → Option Text
      → Datetime
      → Option Text
      → Exec (World W) Response
  unfolding add_invalid read_at
  read_from r attribution value call_id tool now (some cause) =
      add_invalid session value call_id tool cause (text "auth") attribution now
  read_from r attribution value call_id tool now none = read_at r attribution now

  -- `_read(request, attribution, value)`
  unfoldable pub read_request :
      Request → Attribution → Json → Option Text → Option Text → Exec (World W) Response
  unfolding aware_now clock_cause read_from
  read_request r attribution value call_id tool = do
    now ← aware_now session
    read_from r attribution value call_id tool now (clock_cause attribution now)
