-- ===== src/Journal/Tests.antt =====
-- The policy rules at small inputs.
use ledgergate.Base.{
  ◌≡◌, refl, true, some, none, [], ◌∷◌, nat_eq, list_eq, list_dec, ℕ_discrete, arith, first,
}
use ledgergate.Text.{Text, text}
use ledgergate.Text.Decimal.{decimal}
use ledgergate.Text.Integer.{show_int, read_int}
use ledgergate.Int.{ℤ, pos, ◌≤ℤ◌, ◌+ℤ◌}
use ledgergate.Dict.{lookup}
use ledgergate.Errors.{ok}
use ledgergate.Ledger.Samples.{noon}
use ledgergate.Journal.Policy.{
  approval_required, fingerprint_digest, approval_valid, ApprovalContext, PolicyContext, Decision,
  Threshold, WindowCap, ThresholdPolicySet, aggregate_name, window_seconds, is_valid,
}
use ledgergate.Journal.Decide.{
  evaluate, approvers_for, is_approved, check_caps, first_exceeded, approved_above, evaluate_amount,
  after_limits, approval_rule, approvers_from,
}
use ledgergate.Journal.PolicyLaws.{
  Asks, allow_within_limit, allow_within_cap, allow_needs_approval, named_approvers_gate,
}

-- What a decision computes with.
unfoldable deciding : Unit {0}
unfolding evaluate check_caps first_exceeded read_int lookup show_int decimal list_dec ℕ_discrete
    is_approved evaluate_amount after_limits aggregate_name window_seconds ◌+ℤ◌ approval_rule
    is_valid approvers_for approvers_from
deciding = tt

abbrev hard : Threshold
hard = record { kind = text "refund"; currency = text "USD"; amount = pos 500; approvers = none }

abbrev soft : Threshold
soft = record {
  kind = text "refund";
  currency = text "USD";
  amount = pos 50;
  approvers = some (text "ann" ∷ []);
}

-- 300 within one hour.
abbrev hourly : WindowCap
hourly = record {
  kind = text "refund";
  currency = text "USD";
  amount = pos 300;
  window = pos 3600000000;
}

abbrev set : ThresholdPolicySet
set = record {
  version = text "v1";
  deny_above = hard ∷ [];
  approve_above = soft ∷ [];
  window_caps = hourly ∷ [];
  gated_reads = [];
}

abbrev show_window : ℤ → Text
show_window = λ n. text "1:00:00"

abbrev recorded : Text
recorded = aggregate_name (text "refund") (text "USD") (window_seconds hourly)

abbrev approval : ApprovalContext
approval = record { presentation = some 0; verdict = approval_valid; approver = some (text "ann") }

abbrev context : PolicyContext
context = record {
  principal = text "bot";
  subject = some (text "t");
  command_digest = text "d";
  digest_kind = fingerprint_digest;
  evaluated_at = noon;
  policy_set_version = text "v1";
  command_kind = some (text "refund");
  amount = some (show_int (pos 80));
  currency = some (text "USD");
  aggregates = (recorded, show_int (pos 120)) ∷ [];
  approval = some approval;
}

context-Asks : Asks context (text "refund") (text "USD") (pos 80)
context-Asks = record { by_command = refl; of_kind = refl; in_currency = refl; of_amount = refl }

abbrev allowed : Decision
allowed = approved_above show_window set (text "refund") (text "USD") (pos 80) soft

context-allowed : evaluate show_window set context ≡ ok allowed
unfolding deciding
context-allowed = refl

-- Without the approval the same request needs one.
context-gated :
    (d : Decision) × (evaluate show_window set (record context { approval = none }) ≡ ok d)
    × (d.decision ≡ approval_required)
unfolding deciding
context-gated = (_, refl, refl)

allow_within_limit_example : pos 80 ≤ℤ pos 500
allow_within_limit_example =
    allow_within_limit show_window set context hard (text "refund") (text "USD") (pos 80) allowed
      context-Asks context-allowed refl first refl refl

recorded_total : lookup recorded context.aggregates ≡ some (show_int (pos 120))
unfolding deciding
recorded_total = refl

allow_within_cap_example : pos 120 +ℤ pos 80 ≤ℤ pos 300
allow_within_cap_example =
    allow_within_cap show_window set context hourly (text "refund") (text "USD") (pos 80) (pos 120)
      allowed context-Asks context-allowed refl first refl refl recorded_total

allow_needs_approval_example : is_approved context.approval ≡ true
allow_needs_approval_example =
    allow_needs_approval show_window set context soft (text "refund") (text "USD") (pos 80) allowed
      context-Asks context-allowed refl first refl refl (omega arith)

ann_approves :
    approvers_for set (some (text "refund")) (some (text "USD")) (some (show_int (pos 80)))
    ≡ ok (some (text "ann" ∷ []))
unfolding deciding
ann_approves = refl

named_approvers_gate_example : is_approved context.approval ≡ true
named_approvers_gate_example =
    named_approvers_gate show_window set context (text "refund") (text "USD") (pos 80)
      (text "ann" ∷ []) allowed context-Asks ann_approves context-allowed refl
