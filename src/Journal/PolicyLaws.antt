-- ===== src/Journal/PolicyLaws.antt =====
-- src/ledgergate/journal/policy.py: what an allowed command satisfies under a threshold policy set.
use ledgergate.Base.{
  ◌≡◌, ◌≢◌, refl, sym, ◌∙◌, true, ◌⊎◌, inl, inr, Option, none, some, List, [], ◌∷◌, arith, list_eq,
  nat_eq, Bool-cases, Option-cases, test_self, In, first, later,
}
use ledgergate.Text.{Text}
use ledgergate.Text.Integer.{show_int, read_int-show_int}
use ledgergate.Int.{ℤ, ◌+ℤ◌, ◌≤ℤ◌, ◌<ℤ◌}
use ledgergate.Dict.{Dict, lookup}
use ledgergate.Errors.{ok, >>=-eq-ok, ok-injective}
use ledgergate.Journal.Policy.{
  allow, deny, fingerprint_digest, PolicyContext, Decision, Threshold, WindowCap,
  ThresholdPolicySet, aggregate_name, window_seconds,
}
use ledgergate.Journal.Decide.{
  first_exceeded, approvers_from, approvers_for, is_approved, check_caps, approval_rule,
  after_limits, evaluate_amount, evaluate,
}

-- The context asks about an amount of a command kind in a currency.
pub record Asks (context : PolicyContext) (kind currency : Text) (amount : ℤ) : Type 0 where
  pub by_command : context.digest_kind ≡ fingerprint_digest
  pub of_kind : context.command_kind ≡ some kind
  pub in_currency : context.currency ≡ some currency
  pub of_amount : context.amount ≡ some (show_int amount)

within_line :
    (line : Threshold) (kind currency : Text) (amount : ℤ) (lines : List Threshold)
    → first_exceeded lines kind currency amount ≡ none
    → In line lines
    → line.kind ≡ kind
    → line.currency ≡ currency
    → amount ≤ℤ line.amount
unfolding first_exceeded
within_line line kind currency amount _ h first k c =
    ground (arith, test_self kind, test_self currency, k, c)
within_line line kind currency amount (other ∷ lines) h (later i) k c =
    within_line line kind currency amount lines (ground arith) i k c

approvers_from-first_exceeded :
    (lines : List Threshold) (kind currency : Text) (amount : ℤ) {names : List Text}
    → approvers_from lines kind currency amount ≡ some names
    → first_exceeded lines kind currency amount ≢ none
unfolding approvers_from first_exceeded
approvers_from-first_exceeded [] kind currency amount h e = cc
approvers_from-first_exceeded (line ∷ lines) kind currency amount {names} h e =
    ground (arith, approvers_from-first_exceeded lines kind currency amount {names = names})

module _ (show_window : ℤ → Text) (set : ThresholdPolicySet) where
  check_caps-deny :
      (aggregates : Dict Text Text) (kind currency : Text) (amount : ℤ) (lines : List WindowCap)
      (d : Decision)
      → check_caps show_window set aggregates kind currency amount lines ≡ ok (some d)
      → d.decision ≡ deny
  unfolding check_caps
  check_caps-deny aggregates kind currency amount [] d h = cc
  check_caps-deny aggregates kind currency amount (line ∷ lines) d h =
      ground (arith, check_caps-deny aggregates kind currency amount lines d)

  within_cap :
      (aggregates : Dict Text Text) (line : WindowCap) (kind currency : Text) (amount prior : ℤ)
      (lines : List WindowCap)
      → check_caps show_window set aggregates kind currency amount lines ≡ ok none
      → In line lines
      → line.kind ≡ kind
      → line.currency ≡ currency
      → lookup (aggregate_name kind currency (window_seconds line)) aggregates
        ≡ some (show_int prior)
      → prior +ℤ amount ≤ℤ line.amount
  unfolding check_caps
  within_cap aggregates line kind currency amount prior _ h first k c e =
      ground (arith, test_self kind, test_self currency, k, c, e, read_int-show_int prior)
  within_cap aggregates line kind currency amount prior (other ∷ lines) h (later i) k c e =
      within_cap aggregates line kind currency amount prior lines (ground arith) i k c e

  -- What an allowed amount went through.
  after_limits-allow :
      (context : PolicyContext) (kind currency : Text) (amount : ℤ) (o : Option Threshold)
      (d : Decision)
      → after_limits show_window set context kind currency amount o ≡ ok d
      → d.decision ≡ allow
      → (o ≡ none)
        × (check_caps show_window set context.aggregates kind currency amount set.window_caps
            ≡ ok none)
        × ((is_approved context.approval ≡ true)
            ⊎ (first_exceeded set.approve_above kind currency amount ≡ none))
  unfolding after_limits approval_rule
  after_limits-allow context kind currency amount (some line) d h a = cc
  after_limits-allow context kind currency amount none d h a =
      let (capped, checked, made) =
        >>=-eq-ok
          (check_caps show_window set context.aggregates kind currency amount set.window_caps) _
          h in
      let (clear, approved) = past capped checked (ok-injective made) in (refl, clear, approved)
    where
      past :
          (capped : Option Decision)
          → check_caps show_window set context.aggregates kind currency amount set.window_caps
            ≡ ok capped
          → (elim capped [
            | some decision ↦ decision
            | none ↦
                approval_rule show_window set context.approval kind currency amount
                  (first_exceeded set.approve_above kind currency amount)
          ])
            ≡ d
          → (check_caps show_window set context.aggregates kind currency amount set.window_caps
              ≡ ok none)
            × ((is_approved context.approval ≡ true)
                ⊎ (first_exceeded set.approve_above kind currency amount ≡ none))
      past (some decision) checked made =
          let denied =
            check_caps-deny context.aggregates kind currency amount set.window_caps decision
              checked in
          cc
      past none checked made =
          elim (Option-cases (first_exceeded set.approve_above kind currency amount)) [
            | inl e ↦ (checked, inr e)
            | inr (line, e) ↦ elim (Bool-cases (is_approved context.approval)) [
              | inl p ↦ (checked, inl p)
              | inr p ↦ ground arith
            ]
          ]

  evaluate-Asks :
      (context : PolicyContext) (kind currency : Text) (amount : ℤ)
      → Asks context kind currency amount
      → evaluate show_window set context
        ≡ after_limits show_window set context kind currency amount
            (first_exceeded set.deny_above kind currency amount)
  unfolding evaluate evaluate_amount
  evaluate-Asks context kind currency amount h =
      rw (h.by_command, h.of_amount, h.in_currency, h.of_kind, read_int-show_int amount)

  -- A command that is allowed stays within every hard limit for its kind and currency.
  pub allow_within_limit :
      (context : PolicyContext) (line : Threshold) (kind currency : Text) (amount : ℤ)
      (d : Decision)
      → Asks context kind currency amount
      → evaluate show_window set context ≡ ok d
      → d.decision ≡ allow
      → In line set.deny_above
      → line.kind ≡ kind
      → line.currency ≡ currency
      → amount ≤ℤ line.amount
  allow_within_limit context line kind currency amount d asks h a i k c =
      let (clear, _, _) =
        after_limits-allow context kind currency amount
          (first_exceeded set.deny_above kind currency amount) d
          (sym (evaluate-Asks context kind currency amount asks) ∙ h) a in
      within_line line kind currency amount set.deny_above clear i k c

  -- A command that is allowed keeps every window cap for its kind and currency: the total that the
  -- context records for the cap and the amount together are within it.
  pub allow_within_cap :
      (context : PolicyContext) (line : WindowCap) (kind currency : Text) (amount prior : ℤ)
      (d : Decision)
      → Asks context kind currency amount
      → evaluate show_window set context ≡ ok d
      → d.decision ≡ allow
      → In line set.window_caps
      → line.kind ≡ kind
      → line.currency ≡ currency
      → lookup (aggregate_name kind currency (window_seconds line)) context.aggregates
        ≡ some (show_int prior)
      → prior +ℤ amount ≤ℤ line.amount
  allow_within_cap context line kind currency amount prior d asks h a i k c e =
      let (_, clear, _) =
        after_limits-allow context kind currency amount
          (first_exceeded set.deny_above kind currency amount) d
          (sym (evaluate-Asks context kind currency amount asks) ∙ h) a in
      within_cap context.aggregates line kind currency amount prior set.window_caps clear i k c e

  -- A command whose amount exceeds an approval line for its kind and currency is allowed only with a
  -- valid approval in the context.
  pub allow_needs_approval :
      (context : PolicyContext) (line : Threshold) (kind currency : Text) (amount : ℤ)
      (d : Decision)
      → Asks context kind currency amount
      → evaluate show_window set context ≡ ok d
      → d.decision ≡ allow
      → In line set.approve_above
      → line.kind ≡ kind
      → line.currency ≡ currency
      → line.amount <ℤ amount
      → is_approved context.approval ≡ true
  allow_needs_approval context line kind currency amount d asks h a i k c over =
      let (_, _, either) =
        after_limits-allow context kind currency amount
          (first_exceeded set.deny_above kind currency amount) d
          (sym (evaluate-Asks context kind currency amount asks) ∙ h) a in
      elim either [
        | inl approved ↦ approved
        | inr clear ↦ absurd (
            not_over amount line.amount over
              (within_line line kind currency amount set.approve_above clear i k c))
      ]
    where
      not_over : (m n : ℤ) → n <ℤ m → m ≤ℤ n → ⊥
      not_over m n h k = omega (arith, h, k)

  -- Where `approvers_for` names approvers for an amount, the same set does not allow that amount
  -- without a valid approval.
  pub named_approvers_gate :
      (context : PolicyContext) (kind currency : Text) (amount : ℤ) (names : List Text)
      (d : Decision)
      → Asks context kind currency amount
      → approvers_for set (some kind) (some currency) (some (show_int amount)) ≡ ok (some names)
      → evaluate show_window set context ≡ ok d
      → d.decision ≡ allow
      → is_approved context.approval ≡ true
  unfolding approvers_for
  named_approvers_gate context kind currency amount names d asks named h a =
      let (_, _, either) =
        after_limits-allow context kind currency amount
          (first_exceeded set.deny_above kind currency amount) d
          (sym (evaluate-Asks context kind currency amount asks) ∙ h) a in
      let exceeded =
        approvers_from-first_exceeded set.approve_above kind currency amount {names = names}
          (ok-injective (rw (read_int-show_int amount) at named)) in
      elim either [ inl approved ↦ approved | inr clear ↦ absurd (exceeded clear) ]
