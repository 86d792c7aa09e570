-- ===== src/Journal/Context.antt =====
-- src/ledgergate/journal/store.py: step 7 of `_write`, the context that a policy set sees and the decision.
use ledgergate.Base.{Bool, true, false, Option, none, some, [], list_eq, nat_eq, if◌then◌else◌}
use ledgergate.Text.{Text}
use ledgergate.Text.Integer.{show_int}
use ledgergate.Dict.{Dict}
use ledgergate.Errors.{Result, ok, err, configuration_error}
use ledgergate.Ledger.Encoding.{Datetime}
use ledgergate.Ledger.Commands.{Command}
use ledgergate.Journal.Policy.{
  PolicyContext, Decision, fingerprint_digest, command_amount, command_kind, Verdict,
}
use ledgergate.Journal.PolicySet.{
  guarded, guarded_decision, refuse_runtime_namespace, bounded_subject, bounded_aggregates,
}
use ledgergate.Journal.Approvals.{Attribution}
use ledgergate.Journal.Tables.{Tables}
use ledgergate.Journal.Session.{Session, applied_total}
use ledgergate.Journal.Write.{is_failed}
use ledgergate.Journal.Attempt.{Presented, approval_context, asks_again, runtime_decision}

module _ {W : Type 0} (session : Session W) where
  -- The subject and the aggregates of the context
  unfoldable pub context_subject : Bool → Command → Result (Option Text)
  unfolding guarded bounded_subject
  context_subject true command = ok none
  context_subject false command = elim (guarded (session.policy.subject_of command)) [
    | err e ↦ err e
    | ok subject ↦ bounded_subject subject
  ]

  unfoldable pub context_aggregates : Bool → Command → Datetime → Tables → Result (Dict Text Text)
  unfolding guarded bounded_aggregates applied_total
  context_aggregates true command now t = ok []
  context_aggregates false command now t =
      elim (guarded (session.policy.aggregates_for command now.reading (applied_total session t))) [
        | err e ↦ err e
        | ok aggregates ↦ bounded_aggregates aggregates
      ]

  abbrev pub context_of :
      Attribution
      → Command
      → Text
      → Datetime
      → Presented
      → Option Text
      → Dict Text Text
      → PolicyContext
  context_of attribution command print now p subject aggregates =
      let money = command_amount command in
      record {
        principal = attribution.principal;
        subject = subject;
        command_digest = print;
        digest_kind = fingerprint_digest;
        evaluated_at = now;
        policy_set_version = session.policy.version;
        command_kind = some (command_kind command);
        amount = elim money [ none ↦ none | some m ↦ some (show_int m.amount) ];
        currency = elim money [ none ↦ none | some m ↦ some m.currency.code ];
        aggregates = aggregates;
        approval = approval_context p;
      }

  -- The decision of step 7
  unfoldable pub policy_decision : PolicyContext → Option Verdict → Result Decision
  unfolding guarded_decision refuse_runtime_namespace asks_again
  policy_decision context verdict = elim (guarded_decision (session.policy.evaluate context)) [
    | err e ↦ err e
    | ok d ↦ elim (refuse_runtime_namespace d) [
      | err e ↦ err e
      | ok _ ↦ if asks_again d.decision verdict then err configuration_error else ok d
    ]
  ]

  unfoldable pub decision_for : PolicyContext → Option Verdict → Result Decision
  unfolding policy_decision is_failed guarded_decision
  decision_for context none = policy_decision context none
  decision_for context (some verdict) =
      if is_failed (some verdict)
      then guarded_decision (ok (runtime_decision verdict))
      else policy_decision context (some verdict)
