-- ===== src/Journal/Policy.antt =====
-- src/ledgergate/journal/policy.py: what a policy may look at, thresholds and window caps.
use ledgergate.Base.{
  ℕ, Bool, true, false, not, ◌&&◌, ◌||◌, Option, none, some, List, [], ◌∷◌, ◌++◌, ◌==◌, list_eq,
  nat_eq, any, length,
}
use ledgergate.Text.{Text, text}
use ledgergate.Text.Integer.{show_int}
use ledgergate.Int.{ℤ, pos, ◌-ℤ◌, ltb_ℤ, leb_ℤ, int_eq}
use ledgergate.Dict.{Dict, insert}
use ledgergate.Errors.{Result, ok, ◌>>=◌, ◌>>◌, raise_if, value_error}
use ledgergate.Ledger.Identifiers.{require_identifier}
use ledgergate.Ledger.Fraction.{floor_div, floor_mod}
use ledgergate.Ledger.Money.{Money}
use ledgergate.Ledger.Commands.{Command, post, reverse, open_transaction, advance, refund}
use ledgergate.Ledger.Encoding.{Datetime}

pub data DecisionKind : Type 0 where
  allow deny approval_required : DecisionKind

pub data DigestKind : Type 0 where
  fingerprint_digest request_digest : DigestKind

-- `Verdict`
pub data Verdict : Type 0 where
  approval_valid approval_already_used approval_not_applicable : Verdict
  approval_invalid approval_wrong_approver approval_expired approval_scope_mismatch : Verdict

-- `verdict == "approval_valid"`
unfoldable pub is_valid : Verdict → Bool
is_valid approval_valid = true
is_valid _ = false

-- The `approval` of a context.
pub record ApprovalContext : Type 0 where
  pub presentation : Option ℕ
  pub verdict : Verdict
  pub approver : Option Text

pub record PolicyContext : Type 0 where
  pub principal : Text
  pub subject : Option Text
  pub command_digest : Text
  pub digest_kind : DigestKind
  pub evaluated_at : Datetime
  pub policy_set_version : Text
  pub command_kind : Option Text
  pub amount : Option Text
  pub currency : Option Text
  pub aggregates : Dict Text Text
  pub approval : Option ApprovalContext

pub record Decision : Type 0 where
  pub decision : DecisionKind
  pub matched_rule : Text
  pub reason : Text

-- `History.applied_total(subject, kind, currency, since)`, the last in microseconds; it may raise.
abbrev pub History : Type 0
History = Text → Text → Text → ℤ → Result ℤ

-- `command_amount(command)`
unfoldable pub command_amount : Command → Option Money
command_amount (open_transaction _ _ amount) = some amount
command_amount (refund _ _ money _) = some money
command_amount _ = none

-- `command_kind(command)`
unfoldable pub command_kind : Command → Text
command_kind (post _ _) = text "post"
command_kind (reverse _ _ _) = text "reverse"
command_kind (open_transaction _ _ _) = text "open_transaction"
command_kind (advance _ _ _ _) = text "advance"
command_kind (refund _ _ _ _) = text "refund"

pub record Threshold : Type 0 where
  pub kind : Text
  pub currency : Text
  pub amount : ℤ
  pub approvers : Option (List Text)

-- `Threshold(...)`: an approvers list is not empty.
unfoldable pub make_threshold : Text → Text → ℤ → Option (List Text) → Result Threshold
make_threshold kind currency amount approvers = do
  raise_if (elim approvers [ none ↦ false | some names ↦ length names == 0 ]) value_error
  ok (record { kind = kind; currency = currency; amount = amount; approvers = approvers })

-- The window is in microseconds.
pub record WindowCap : Type 0 where
  pub kind : Text
  pub currency : Text
  pub amount : ℤ
  pub window : ℤ

pub record ThresholdPolicySet : Type 0 where
  pub version : Text
  pub deny_above : List Threshold
  pub approve_above : List Threshold
  pub window_caps : List WindowCap
  pub gated_reads : List Text

-- `line.kind in AMOUNT_KINDS`
unfoldable pub is_amount_kind : Text → Bool
is_amount_kind kind = kind == text "open_transaction" || kind == text "refund"

-- The tests of a line, of either type.
unfoldable pub is_bad_line : Text → Text → ℤ → Bool
unfolding is_amount_kind
is_bad_line kind currency amount =
    ltb_ℤ amount (pos 0) || not (is_amount_kind kind) || not (length currency == 3)

abbrev pub second : ℕ
second = 1000000

-- `int(window.total_seconds())`
unfoldable pub window_seconds : WindowCap → ℤ
unfolding floor_div
window_seconds line = floor_div line.window second

-- The test of a cap's window: a positive whole number of seconds.
unfoldable pub is_bad_window : WindowCap → Bool
unfolding floor_mod
is_bad_window line = leb_ℤ line.window (pos 0) || not (floor_mod line.window second == 0)

-- `ThresholdPolicySet(...)`
unfoldable pub make_policy_set :
    Text → List Threshold → List Threshold → List WindowCap → List Text → Result ThresholdPolicySet
make_policy_set version deny_above approve_above window_caps gated_reads = do
  checked ← require_identifier version (text "policy set version")
  raise_if (checked == text "none") value_error
  raise_if (any (λ (x : Threshold). is_bad_line x.kind x.currency x.amount) deny_above) value_error
  raise_if (any (λ (x : Threshold). is_bad_line x.kind x.currency x.amount) approve_above)
      value_error
  raise_if (any (λ (c : WindowCap). is_bad_line c.kind c.currency c.amount) window_caps) value_error
  raise_if (any (λ (x : Threshold). elim x.approvers [ none ↦ false | some _ ↦ true ]) deny_above)
      value_error
  raise_if (any is_bad_window window_caps) value_error
  ok (record {
    version = checked;
    deny_above = deny_above;
    approve_above = approve_above;
    window_caps = window_caps;
    gated_reads = gated_reads;
  })

-- `gates_read(tool)`
unfoldable pub gates_read : ThresholdPolicySet → Text → Bool
gates_read set tool = any (λ t. t == tool) set.gated_reads

-- `subject_of(command)`
unfoldable pub subject_of : Command → Option Text
subject_of (open_transaction _ transaction_id _) = some transaction_id
subject_of (advance _ transaction_id _ _) = some transaction_id
subject_of (refund _ transaction_id _ _) = some transaction_id
subject_of _ = none

-- `f"applied.{kind}.{ccy}.{seconds}s"`
unfoldable pub aggregate_name : Text → Text → ℤ → Text
unfolding show_int
aggregate_name kind currency seconds =
    text "applied." ++ (kind ++ (b'.' ∷ (currency ++ (b'.' ∷ (show_int seconds ++ text "s")))))

-- `cap.kind == kind and cap.currency == ccy`
abbrev pub caps : WindowCap → Text → Text → Bool
caps line kind currency = line.kind == kind && line.currency == currency

-- The loop of `aggregates_for`
unfoldable pub read_aggregates :
    History → Text → Text → Text → ℤ → List WindowCap → Dict Text Text → Result (Dict Text Text)
read_aggregates history subject kind currency now [] out = ok out
read_aggregates history subject kind currency now (line ∷ rest) out =
    elim (caps line kind currency) [
      | true ↦ do
        total ← history subject kind line.currency (now -ℤ line.window)
        read_aggregates history subject kind currency now rest
            (insert (aggregate_name kind line.currency (window_seconds line)) (show_int total) out)
      | false ↦ read_aggregates history subject kind currency now rest out
    ]

-- `aggregates_for(command, now, history)`; `now` is the reading in UTC.
unfoldable pub aggregates_of :
    ThresholdPolicySet → Option Text → Option Money → Text → ℤ → History → Result (Dict Text Text)
aggregates_of set none money kind now history = ok []
aggregates_of set (some subject) none kind now history = ok []
aggregates_of set (some subject) (some money) kind now history =
    read_aggregates history subject kind money.currency.code now set.window_caps []

unfoldable pub aggregates_for : ThresholdPolicySet → Command → ℤ → History → Result (Dict Text Text)
unfolding subject_of command_amount aggregates_of
aggregates_for set command now history =
    aggregates_of set (subject_of command) (command_amount command) (command_kind command) now
      history
