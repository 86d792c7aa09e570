-- ===== src/Journal/PolicySet.antt =====
-- src/ledgergate/journal/policy.py and store.py: the protocol that a policy set satisfies, the two sets
-- of the library, and how the journal guards what a set returns.
use ledgergate.Base.{
  ℕ, suc, Bool, true, false, not, ◌&&◌, ◌||◌, Option, none, some, List, [], ◌∷◌, ◌++◌, ◌==◌,
  list_eq, nat_eq, if◌then◌else◌, ltb, leb, length, any,
}
use ledgergate.Text.{Text, text}
use ledgergate.Text.Integer.{all_digits}
use ledgergate.Int.{ℤ}
use ledgergate.Dict.{Dict}
use ledgergate.Errors.{Result, ok, err, ◌>>=◌, ◌>>◌, raise_if, configuration_error}
use ledgergate.Ledger.Identifiers.{require_identifier}
use ledgergate.Ledger.Commands.{Command}
use ledgergate.Codec.Draft.{max_text}
use ledgergate.Journal.Policy.{
  History, PolicyContext, Decision, allow, ThresholdPolicySet, gates_read, subject_of,
  aggregates_for,
}
use ledgergate.Journal.Decide.{evaluate, approvers_for}

-- `PolicySet`, with the `approvers_for` that a set may have. Any operation may raise.
pub record PolicySet : Type 0 where
  pub version : Text
  pub gates_read : Text → Bool
  pub subject_of : Command → Result (Option Text)
  -- At a reading of the clock in UTC.
  pub aggregates_for : Command → ℤ → History → Result (Dict Text Text)
  pub evaluate : PolicyContext → Result Decision
  -- `None` where the set has no such operation.
  pub approvers_for : Option Text → Option Text → Option Text → Result (Option (List Text))

-- `NullPolicySet`
unfoldable pub null_policy : PolicySet
null_policy = record {
  version = text "none";
  gates_read = λ tool. false;
  subject_of = λ command. ok none;
  aggregates_for = λ command now history. ok [];
  evaluate = λ context. ok (record {
    decision = allow;
    matched_rule = text "none.allow_all";
    reason = text "null policy set: no rules configured";
  });
  approvers_for = λ kind currency amount. ok none;
}

-- A `ThresholdPolicySet` as a policy set.
unfoldable pub threshold_policy : (ℤ → Text) → ThresholdPolicySet → PolicySet
threshold_policy show_window set = record {
  version = set.version;
  gates_read = gates_read set;
  subject_of = λ command. ok (subject_of command);
  aggregates_for = aggregates_for set;
  evaluate = evaluate show_window set;
  approvers_for = approvers_for set;
}

-- `_guarded(call)`
unfoldable pub guarded {ℓ} : {A : Type ℓ} → Result A → Result A
guarded (ok a) = ok a
guarded (err e) = err configuration_error

-- `f"{decision.matched_rule}: {decision.reason}"`
abbrev pub decision_message : Decision → Text
decision_message d = d.matched_rule ++ (text ": " ++ d.reason)

-- `_guarded(call)` where the call returns a decision
unfoldable pub guarded_decision : Result Decision → Result Decision
unfolding guarded
guarded_decision call = do
  d ← guarded call
  raise_if (ltb max_text (length (decision_message d))) configuration_error
  ok d

-- `text.startswith(prefix)`
unfoldable pub starts_with : Text → Text → Bool
starts_with [] t = true
starts_with (c ∷ cs) [] = false
starts_with (c ∷ cs) (d ∷ t) = c == d && starts_with cs t

-- `_refuse_runtime_namespace(decision)`
unfoldable pub refuse_runtime_namespace : Decision → Result (Unit {0})
unfolding starts_with
refuse_runtime_namespace d =
    raise_if (starts_with (text "runtime.") d.matched_rule) configuration_error

-- `_bounded_subject(subject)`
unfoldable pub bounded_subject : Option Text → Result (Option Text)
unfolding require_identifier guarded
bounded_subject none = ok none
bounded_subject (some subject) = do
  checked ← guarded (require_identifier subject (text "policy subject"))
  ok (some checked)

-- `DECIMAL_TEXT.fullmatch(v)`
unfoldable pub is_digits_text : Text → Bool
unfolding all_digits
is_digits_text v = leb 1 (length v) && leb (length v) 40 && all_digits v

unfoldable pub is_decimal_text : Text → Bool
unfolding is_digits_text
is_decimal_text [] = false
is_decimal_text (c ∷ cs) = if c == b'-' then is_digits_text cs else is_digits_text (c ∷ cs)

-- The tail of an aggregate's name, `[1-9][0-9]{0,9}s`, after some digits
unfoldable pub is_seconds_tail : ℕ → Text → Bool
is_seconds_tail n [] = false
is_seconds_tail n (c ∷ cs) =
    let rest = is_seconds_tail (suc n) cs in
    if leb 48 c && leb c 57 then ltb n 9 && rest else c == b's' && length cs == 0

unfoldable pub is_seconds : Text → Bool
unfolding is_seconds_tail
is_seconds [] = false
is_seconds (c ∷ cs) = leb 49 c && leb c 57 && is_seconds_tail 0 cs

unfoldable pub is_upper : ℕ → Bool
is_upper c = leb 65 c && leb c 90

-- `[A-Z]{3}\.` and the window
unfoldable pub is_currency_part : Text → Bool
unfolding is_upper is_seconds
is_currency_part (a ∷ b ∷ c ∷ d ∷ rest) =
    is_upper a && is_upper b && is_upper c && d == b'.' && is_seconds rest
is_currency_part _ = false

-- `[a-z_]+\.` and the rest, with a flag whether a letter was there
unfoldable pub is_kind_part : Bool → Text → Bool
unfolding is_currency_part
is_kind_part begun [] = false
is_kind_part begun (c ∷ cs) =
    let rest = is_kind_part true cs in
    if leb 97 c && leb c 122 || c == b'_' then rest else begun && c == b'.' && is_currency_part cs

unfoldable pub after_prefix : Text → Text → Option Text
after_prefix [] t = some t
after_prefix (c ∷ cs) [] = none
after_prefix (c ∷ cs) (d ∷ t) = let rest = after_prefix cs t in if c == d then rest else none

-- `AGGREGATE_NAME.fullmatch(k)`
unfoldable pub is_aggregate_name : Text → Bool
unfolding after_prefix is_kind_part
is_aggregate_name k = elim (after_prefix (text "applied.") k) [
  | none ↦ false
  | some rest ↦ is_kind_part false rest
]

-- `_bounded_aggregates(aggregates)`
unfoldable pub bounded_aggregates : Dict Text Text → Result (Dict Text Text)
unfolding is_aggregate_name is_decimal_text
bounded_aggregates aggregates = do
  raise_if
      (any (λ (e : Text × Text). not (is_aggregate_name e.0) || not (is_decimal_text e.1))
        aggregates)
      configuration_error
  ok aggregates
