-- ===== src/Journal/Decide.antt =====
-- src/ledgergate/journal/policy.py: `ThresholdPolicySet.evaluate` and `approvers_for`. `str(timedelta)`
-- belongs to Python's library and is an argument.
use ledgergate.Base.{
  Bool, false, ◌&&◌, Option, none, some, List, [], ◌∷◌, ◌++◌, ◌==◌, list_eq, nat_eq, if◌then◌else◌,
}
use ledgergate.Text.{Text, text}
use ledgergate.Text.Integer.{show_int, read_int}
use ledgergate.Int.{ℤ, ◌+ℤ◌, ltb_ℤ, int_eq}
use ledgergate.Dict.{Dict, lookup}
use ledgergate.Errors.{Result, ok, ◌>>=◌, or_raise, value_error}
use ledgergate.Journal.Policy.{
  ApprovalContext, Decision, DecisionKind, PolicyContext, Threshold, ThresholdPolicySet, WindowCap,
  aggregate_name, allow, approval_required, caps, deny, fingerprint_digest, is_valid,
  request_digest, window_seconds,
}

-- `line.kind == kind and line.currency == ccy and amount > line.amount`
abbrev pub exceeds : Threshold → Text → Text → ℤ → Bool
exceeds line kind currency amount =
    line.kind == kind && line.currency == currency && ltb_ℤ line.amount amount

-- The first line that the amount exceeds.
unfoldable pub first_exceeded : List Threshold → Text → Text → ℤ → Option Threshold
first_exceeded [] kind currency amount = none
first_exceeded (line ∷ rest) kind currency amount =
    let later = first_exceeded rest kind currency amount in
    if exceeds line kind currency amount then some line else later

-- `approvers_for(kind, currency, amount)`, with the amount read
unfoldable pub approvers_from : List Threshold → Text → Text → ℤ → Option (List Text)
approvers_from [] kind currency value = none
approvers_from (line ∷ rest) kind currency value =
    let later = approvers_from rest kind currency value in
    if exceeds line kind currency value then line.approvers else later

unfoldable pub approvers_for :
    ThresholdPolicySet → Option Text → Option Text → Option Text → Result (Option (List Text))
unfolding read_int
approvers_for set (some kind) (some currency) (some amount) = do
  value ← or_raise (read_int amount) value_error
  ok (approvers_from set.approve_above kind currency value)
approvers_for set _ _ _ = ok none

-- `context.approval is not None and context.approval.get("verdict") == "approval_valid"`
unfoldable pub is_approved : Option ApprovalContext → Bool
is_approved none = false
is_approved (some a) = is_valid a.verdict

module _ (show_window : ℤ → Text) (set : ThresholdPolicySet) where
  -- `Decision(kind, f"{self.version}.{rule}", reason)`
  abbrev pub decided : DecisionKind → Text → Text → Decision
  decided kind rule reason = record {
    decision = kind;
    matched_rule = set.version ++ b'.' ∷ rule;
    reason = reason;
  }

  -- The first rule: an amount above a hard limit.
  abbrev pub hard_limit : Text → Text → ℤ → Threshold → Decision
  hard_limit kind currency amount line = decided deny (text "deny_above") (
      kind
      ++ (text " of "
          ++ (show_int amount
              ++ (b' ' ∷ (currency ++ (text " exceeds the hard limit " ++ show_int line.amount))))))

  -- The second rule, for one cap.
  abbrev pub over_cap : Text → Text → ℤ → WindowCap → Decision
  over_cap kind currency sum line = decided deny (text "window_cap") (
      kind
      ++ (text " total "
          ++ (show_int sum
              ++ (b' '
                  ∷ (currency
                      ++ (text " for the subject would exceed the cap "
                          ++ (show_int line.amount
                              ++ (text " within " ++ show_window line.window))))))))

  -- The third rule.
  abbrev pub needs_approval : Text → Text → ℤ → Threshold → Decision
  needs_approval kind currency amount line = decided approval_required (text "approve_above") (
      kind
      ++ (text " of "
          ++ (show_int amount
              ++ (b' '
                  ∷ (currency
                      ++ (text " exceeds "
                          ++ (show_int line.amount ++ text " and needs an approval")))))))

  abbrev pub approved_above : Text → Text → ℤ → Threshold → Decision
  approved_above kind currency amount line = decided allow (text "approved") (
      kind
      ++ (text " of "
          ++ (show_int amount
              ++ (b' '
                  ∷ (currency
                      ++ (text " above "
                          ++ (show_int line.amount ++ text " carries a valid approval")))))))

  -- The loop over the caps: what the first exceeded one decides, or nothing.
  unfoldable pub check_caps :
      Dict Text Text → Text → Text → ℤ → List WindowCap → Result (Option Decision)
  unfolding lookup
  check_caps aggregates kind currency amount [] = ok none
  check_caps aggregates kind currency amount (line ∷ rest) =
      let later = check_caps aggregates kind currency amount rest in
      let name = aggregate_name kind currency (window_seconds line) in
      if caps line kind currency
      then (do
        recorded ← or_raise (lookup name aggregates) value_error
        prior ← or_raise (read_int recorded) value_error
        if ltb_ℤ line.amount (prior +ℤ amount)
            then ok (some (over_cap kind currency (prior +ℤ amount) line))
            else later)
      else later

  -- What the lines for approval decide.
  unfoldable pub approval_rule :
      Option ApprovalContext → Text → Text → ℤ → Option Threshold → Decision
  approval_rule approval kind currency amount none =
      decided allow (text "within_limits") (text "within every configured line")
  approval_rule approval kind currency amount (some line) =
      if is_approved approval
      then approved_above kind currency amount line
      else needs_approval kind currency amount line

  -- The rules past the hard limits.
  unfoldable pub after_limits : PolicyContext → Text → Text → ℤ → Option Threshold → Result Decision
  after_limits context kind currency amount (some line) = ok (hard_limit kind currency amount line)
  after_limits context kind currency amount none = do
    capped ← check_caps context.aggregates kind currency amount set.window_caps
    ok (elim capped [
      | some decision ↦ decision
      | none ↦
          approval_rule context.approval kind currency amount
            (first_exceeded set.approve_above kind currency amount)
    ])

  unfoldable pub evaluate_amount :
      PolicyContext → Option Text → Option Text → Option Text → Result Decision
  unfolding read_int
  evaluate_amount context (some raw) (some currency) (some kind) = do
    amount ← or_raise (read_int raw) value_error
    after_limits context kind currency amount (first_exceeded set.deny_above kind currency amount)
  evaluate_amount context _ _ _ =
      ok (decided allow (text "no_amount") (text "command carries no amount"))

  -- `evaluate(context)`
  unfoldable pub evaluate : PolicyContext → Result Decision
  evaluate context = elim context.digest_kind [
    | request_digest ↦
        ok (decided allow (text "read_recorded") (text "this set gates reads for evidence only"))
    | fingerprint_digest ↦
        evaluate_amount context context.amount context.currency context.command_kind
  ]
