-- ===== src/Journal/Write.antt =====
-- src/ledgergate/journal/store.py: `_write` and `_invalid`, one invocation of a command in one
-- transaction.
use ledgergate.Base.{
  ℕ, Bool, true, false, not, Option, none, some, List, [], ◌∷◌, ◌++◌, ◌==◌, list_eq, nat_eq,
  if◌then◌else◌, any,
}
use ledgergate.Text.{Text}
use ledgergate.Text.Integer.{show_int}
use ledgergate.Int.{int_eq}
use ledgergate.Errors.{Result, ok, err, is_ledger_error}
use ledgergate.Exec.{Exec, pure, lift, ◌>>=◌, ◌>>◌}
use ledgergate.Ledger.Encoding.{Datetime}
use ledgergate.Ledger.Commands.{Command}
use ledgergate.Codec.Json.{Json}
use ledgergate.Journal.Policy.{
  command_amount, command_kind, Verdict, approval_valid, approval_already_used,
  approval_not_applicable, approval_invalid, approval_wrong_approver, approval_expired,
  approval_scope_mismatch,
}
use ledgergate.Journal.PolicySet.{guarded}
use ledgergate.Journal.Approvals.{
  Approval, CheckResult, checks_passed, check_invalid, check_wrong_approver, check_expired,
  check_scope_mismatch, check_not_applicable, check,
}
use ledgergate.Journal.Tables.{
  Disposition, outbound, World, Tables, ResponseRow, EventRow, alloc, query, change, is_consumed,
  live,
}
use ledgergate.Journal.Session.{Session}
use ledgergate.Journal.Invocations.{add_presentation}

-- What the checks say, as a verdict; `checks_passed` is no verdict of its own.
unfoldable pub verdict_of : CheckResult → Verdict
verdict_of checks_passed = approval_valid
verdict_of check_invalid = approval_invalid
verdict_of check_wrong_approver = approval_wrong_approver
verdict_of check_expired = approval_expired
verdict_of check_scope_mismatch = approval_scope_mismatch
verdict_of check_not_applicable = approval_not_applicable

-- `verdict is not None and verdict not in ("approval_valid", "approval_not_applicable")`
unfoldable pub is_failed : Option Verdict → Bool
is_failed none = false
is_failed (some approval_valid) = false
is_failed (some approval_not_applicable) = false
is_failed (some _) = true

-- `except LedgerError`
unfoldable pub caught {ℓ} : {A : Type ℓ} → Result A → Result (Result A)
unfolding is_ledger_error
caught (ok a) = ok (ok a)
caught (err e) = if is_ledger_error e then ok (err e) else err e

unfoldable pub attempt {ℓ} : {W : Type 0} {A : Type ℓ} → Exec W A → Exec W (Result A)
unfolding caught
attempt m w = let (r, w') = m w in (caught r, w')

-- What `_validate_approval` returns.
pub record Validation : Type 0 where
  pub presentation : ℕ
  pub verdict : Verdict
  pub consumption : Option ℕ
  pub approver : Option Text

-- What step 4 resolved: the operation, and what the invocation is to it.
pub record Resolved : Type 0 where
  pub operation : ℕ
  pub disposition : Disposition

-- `admitted is not None and approver not in admitted`
abbrev pub is_excluded : Text → Option (List Text) → Bool
is_excluded name none = false
is_excluded name (some names) = not (any (λ n. n == name) names)

module _ {W : Type 0} (session : Session W) where
  -- `_approver_key(name)`
  unfoldable pub approver_key : Text → Tables → Option Text
  unfolding live
  approver_key name t = elim (live name t.approver_events) [
    | none ↦ none
    | some row ↦ row.verification_key
  ]

  -- `_signature_verifies(artefact)`
  unfoldable pub signature_verified : Approval → Tables → Bool
  unfolding approver_key
  signature_verified a t = elim (approver_key a.approver t) [
    | none ↦ false
    | some public ↦ session.library.verifies public a
  ]

  -- Checks 1, 1b, 2 and 3 of `_validate_approval`.
  unfoldable pub check_approval :
      Approval → Option Text → Datetime → Text → Text → Command → Result CheckResult
  unfolding check guarded command_amount command_kind show_int
  check_approval a none now print key command = ok check_invalid
  check_approval a (some public) now print key command =
      if not (session.library.verifies public a)
      then ok check_invalid
      else (let money = command_amount command in
          let admitted = guarded (
            session.policy.approvers_for (some (command_kind command))
              (elim money [ none ↦ none | some m ↦ some m.currency.code ])
              (elim money [ none ↦ none | some m ↦ some (show_int m.amount) ])) in
          elim admitted [
            | err e ↦ err e
            | ok names ↦ ok (
                if is_excluded a.approver names
                then check_wrong_approver
                else check session.library.verifies a public now session.journal_id print key)
          ])

  -- `None` unless check 1 passed
  unfoldable pub authenticated : Approval → CheckResult → Option Text
  authenticated a check_invalid = none
  authenticated a _ = some a.approver

  -- `result != "approval_invalid"`
  unfoldable pub is_verified : CheckResult → Bool
  is_verified check_invalid = false
  is_verified _ = true

  -- Check 4: the artefact is consumed, unless it was before.
  unfoldable pub consume : ℕ → Approval → ℕ → Exec (World W) (Option ℕ)
  unfolding alloc
  consume inv a presentation w =
      if is_consumed a.approval_id w.tables
      then pure none w
      else (do
        n ← alloc
        change (λ t. record t {
          consumptions =
              t.consumptions
              ++ record {
                number = n;
                approval_id = a.approval_id;
                presentation = presentation;
                invocation = inv;
              }
                ∷ [];
        })
        pure (some n))
          w

  unfoldable pub validation_of : ℕ → Approval → Option ℕ → Validation
  validation_of presentation a none = record {
    presentation = presentation;
    verdict = approval_already_used;
    consumption = none;
    approver = some a.approver;
  }
  validation_of presentation a (some n) = record {
    presentation = presentation;
    verdict = approval_valid;
    consumption = some n;
    approver = some a.approver;
  }

  -- After the presentation row
  unfoldable pub settle_approval : ℕ → Approval → ℕ → CheckResult → Exec (World W) Validation
  unfolding consume validation_of
  settle_approval inv a presentation checks_passed = do
    consumed ← consume inv a presentation
    pure (validation_of presentation a consumed)
  settle_approval inv a presentation result = pure (record {
    presentation = presentation;
    verdict = verdict_of result;
    consumption = none;
    approver = authenticated a result;
  })

  -- `_validate_approval(inv_seq, request, now, fingerprint, command)`
  unfoldable pub validate_approval :
      ℕ → Approval → Datetime → Text → Text → Command → Exec (World W) Validation
  unfolding approver_key check_approval add_presentation is_verified settle_approval
  validate_approval inv a now print key command = do
    public ← query (approver_key a.approver)
    result ← lift (check_approval a public now print key command)
    presentation ← add_presentation session inv a result (is_verified result)
    settle_approval inv a presentation result

  -- `_present(inv_seq, request, "approval_not_applicable")`
  unfoldable pub present_unexpected : ℕ → Approval → Exec (World W) ℕ
  unfolding signature_verified add_presentation
  present_unexpected inv a = do
    verified ← query (signature_verified a)
    add_presentation session inv a check_not_applicable verified

  -- `_render_replay`: the outbound event of the invocation that produced the outcome
  unfoldable pub producer : ℕ → List ResponseRow → Option ℕ
  producer outcome [] = none
  producer outcome (r ∷ rows) =
      let rest = producer outcome rows in
      elim r.outcome [ none ↦ rest | some n ↦ if n == outcome then some r.invocation else rest ]

  unfoldable pub told : ℕ → List EventRow → Option Json
  told inv [] = none
  told inv (e ∷ rows) =
      let rest = told inv rows in
      elim e.direction [
        | outbound ↦ elim e.invocation [
          | none ↦ rest
          | some n ↦ if n == inv then some e.body else rest
        ]
        | _ ↦ rest
      ]
