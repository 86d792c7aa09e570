-- ===== src/Journal/Invocations.antt =====
-- src/ledgergate/journal/store.py: the rows of an invocation: itself, its signed call, its presentation,
-- and the result of an applied command.
use ledgergate.Base.{
  ℕ, Bool, false, Option, none, some, [], ◌∷◌, ◌++◌, ◌==◌, list_eq, nat_eq, if◌then◌else◌,
}
use ledgergate.Text.{Text, text}
use ledgergate.Int.{pos}
use ledgergate.Exec.{Exec, pure, ◌>>=◌, ◌>>◌}
use ledgergate.Ledger.Encoding.{Datetime}
use ledgergate.Ledger.Lifecycle.{status_value}
use ledgergate.Ledger.Commands.{Applied, sequence}
use ledgergate.Codec.Json.{
  Json, boolean, integer, string, object, no_members, member, append_members,
}
use ledgergate.Journal.Approvals.{Approval, Attribution, signed, transport, rejected, CheckResult}
use ledgergate.Journal.Tables.{Disposition, World, alloc, change}
use ledgergate.Journal.Session.{Session}

abbrev verified_only : Bool → Option Text → Option Text
verified_only verified field = if verified then field else none

module _ {W : Type 0} (session : Session W) where
  -- `INSERT INTO invocations`
  unfoldable pub add_invocation :
      Option ℕ
      → Datetime
      → Attribution
      → Disposition
      → Option Text
      → Option Json
      → Option Text
      → Option Text
      → Exec (World W) ℕ
  unfolding alloc
  add_invocation op now attribution disposition print command digest call_id = do
    n ← alloc
    change (λ t. record t {
      invocations =
          t.invocations
          ++ record {
            number = n;
            operation = op;
            requested_at = now;
            attribution = attribution;
            disposition = disposition;
            attempted_fingerprint = print;
            attempted_command = command;
            request_digest = digest;
            call_id = call_id;
          }
            ∷ [];
    })
    pure n

  -- The row of `_spend_signed_call`
  unfoldable pub add_signed_call : Text → Text → ℕ → Exec (World W) (Unit {0})
  unfolding alloc
  add_signed_call principal call_id inv = do
    n ← alloc
    change (λ t. record t {
      signed_calls =
          t.signed_calls
          ++ record { number = n; principal = principal; call_id = call_id; invocation = inv } ∷ [];
    })

  -- `_spend_signed_call(attribution, call_id, inv_seq, cause)`
  unfoldable pub spend_signed_call :
      Attribution → Option Text → ℕ → Option Text → Exec (World W) (Unit {0})
  unfolding add_signed_call
  spend_signed_call attribution none inv cause = pure tt
  spend_signed_call attribution (some call_id) inv cause = elim attribution.authentication [
    | signed ↦
        if (elim cause [ none ↦ false | some c ↦ c == text "replayed_call" ])
        then pure tt
        else add_signed_call attribution.principal call_id inv
    | transport ↦ pure tt
    | rejected ↦ pure tt
  ]

  -- The row of `_present`, once it is known whether the signature verified
  unfoldable pub add_presentation : ℕ → Approval → CheckResult → Bool → Exec (World W) ℕ
  unfolding alloc
  add_presentation inv a result verified = do
    n ← alloc
    change (λ t. record t {
      presentations =
          t.presentations
          ++ record {
            number = n;
            invocation = inv;
            journal_id = a.journal_id;
            approval_id = verified_only verified (some a.approval_id);
            approver = verified_only verified (some a.approver);
            fingerprint = a.fingerprint;
            key = verified_only verified (some a.key);
            subject = verified_only verified a.subject;
            amount = verified_only verified a.amount;
            currency = verified_only verified a.currency;
            issued_at = a.issued_at;
            expires_at = a.expires_at;
            signature = a.signature;
            verified = verified;
            check_result = result;
          }
            ∷ [];
    })
    pure n

-- `_applied_result(applied)`
unfoldable pub applied_result : (Datetime → Text) → Applied → Json
unfolding status_value sequence append_members
applied_result isoformat a = object (
    member (text "replayed") (boolean a.replayed) (
      member (text "head") (string a.ledger.head) (
        member (text "sequence") (integer (pos (sequence a.ledger))) (
          append_members
            (elim a.entry [
              | none ↦ no_members
              | some e ↦
                  member (text "entry_id") (string e.entry_id)
                    (member (text "posted_at") (string (isoformat e.posted_at)) no_members)
            ])
            (elim a.transaction [
              | none ↦ no_members
              | some t ↦
                  member (text "transaction")
                    (object (
                      member (text "id") (string t.transaction_id)
                        (member (text "status") (string (status_value t.status)) no_members)))
                    no_members
            ])))))
