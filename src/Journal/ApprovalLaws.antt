-- ===== src/Journal/ApprovalLaws.antt =====
-- src/ledgergate/journal/approvals.py and store.py: what a valid approval has passed, and that it is
-- valid once.
use ledgergate.Base.{
  ℕ, ◌≡◌, refl, sym, ap, ◌∙◌, true, false, Bool, Option, none, some, List, [], ◌∷◌, ◌++◌, arith,
  nat_eq, list_eq, ◌==◌, any, eq_of_test, test_self, Bool-cases, inl, inr, ◌⊎◌, ◌≢◌, In, first,
  later, not, if◌then◌else◌,
}
use ledgergate.Text.{Text}
use ledgergate.Int.{◌<ℤ◌}
use ledgergate.Errors.{Result, ok, err, ok-injective}
use ledgergate.Exec.{pure, >>=-eq-ok, lift-eq-ok, pure-eq-ok, pure-state}
use ledgergate.Ledger.Encoding.{Datetime}
use ledgergate.Ledger.Commands.{Command}
use ledgergate.Journal.Policy.{approval_valid, command_kind, command_amount}
use ledgergate.Journal.PolicySet.{guarded}
use ledgergate.Text.Integer.{show_int}
use ledgergate.Journal.Approvals.{
  Approval, instant, CheckResult, checks_passed, check_invalid, check_wrong_approver, check_expired,
  check_scope_mismatch, check_not_applicable, check,
}
use ledgergate.Journal.Tables.{World, ConsumptionRow, is_consumed, alloc}
use ledgergate.Journal.Session.{Session}
use ledgergate.Journal.Invocations.{add_presentation}
use ledgergate.Journal.Write.{
  Validation, approver_key, check_approval, is_excluded, is_verified, verdict_of, consume,
  validation_of, settle_approval, validate_approval,
}

-- What the artefact binds holds at the reading.
pub record IsBound (verifies : Text → Approval → Bool) (a : Approval) (public : Text)
    (now : Datetime) (journal_id print key : Text) : Type 0 where
  pub verified : verifies public a ≡ true
  pub in_time : instant now <ℤ instant a.expires_at
  pub same_journal : a.journal_id ≡ journal_id
  pub same_request : a.fingerprint ≡ print
  pub same_key : a.key ≡ key

-- Where the checks pass, the signature is the key's, the artefact is not expired, and it names this
-- journal, this request and this key.
pub check-passed :
    (verifies : Text → Approval → Bool) (a : Approval) (public : Text) (now : Datetime)
    (journal_id print key : Text)
    → check verifies a public now journal_id print key ≡ checks_passed
    → IsBound verifies a public now journal_id print key
unfolding check
check-passed verifies a public now journal_id print key h = record {
  verified = ground arith;
  in_time = ground arith;
  same_journal = eq_of_test a.journal_id journal_id (ground arith);
  same_request = eq_of_test a.fingerprint print (ground arith);
  same_key = eq_of_test a.key key (ground arith);
}

is_consumed-append :
    (id : Text) (rows : List ConsumptionRow) (row : ConsumptionRow)
    → row.approval_id ≡ id
    → any (λ (c : ConsumptionRow). c.approval_id == id) (rows ++ row ∷ []) ≡ true
is_consumed-append id [] row h = ground (arith, h, test_self id)
is_consumed-append id (earlier ∷ rows) row h = ground (arith, is_consumed-append id rows row h)

any-In : (name : Text) (names : List Text) → any (λ n. n == name) names ≡ true → In name names
any-In name [] h = cc
any-In name (n ∷ names) h = elim (Bool-cases (n == name)) [
  | inl same ↦ rw (eq_of_test n name same) first
  | inr other ↦ later (any-In name names (rw other at h))
]

-- Check 1b: an answer of the policy set names no approvers, or this one among them.
pub Admits : Result (Option (List Text)) → Text → Type 0
Admits answer name =
    (answer ≡ ok none) ⊎ ((names : List Text) × (answer ≡ ok (some names)) × In name names)

-- Where the checks after the signature pass, check 1b does, and so does the rest.
after_signature :
    (answer : Result (Option (List Text))) (name : Text) (rest : CheckResult)
    → (elim (guarded answer) as (λ _. Result CheckResult) [
      | err e ↦ err e
      | ok names ↦ ok (if is_excluded name names then check_wrong_approver else rest)
    ])
      ≡ ok checks_passed
    → Admits answer name × (rest ≡ checks_passed)
unfolding guarded Admits
after_signature (err e) name rest h = cc
after_signature (ok none) name rest h = (inl refl, ok-injective h)
after_signature (ok (some names)) name rest h = elim (Bool-cases (any (λ n. n == name) names)) [
  | inl named ↦ (inr (names, refl, any-In name names named), ok-injective (rw named at h))
  | inr other ↦ absurd (wrong (rw other at h))
]
  where
    wrong : ok check_wrong_approver ≢ ok checks_passed
    wrong h = cc

unsigned :
    (b : Bool) (rest : Result CheckResult)
    → (if not b then ok check_invalid else rest) ≡ ok checks_passed
    → rest ≡ ok checks_passed
unsigned true rest h = h
unsigned false rest h = cc

module _ {W : Type 0} (session : Session W) where
  -- What the policy set answers where it is asked who may approve the command.
  abbrev pub approvers : Command → Result (Option (List Text))
  approvers c =
      session.policy.approvers_for (some (command_kind c))
        (elim (command_amount c) [ none ↦ none | some m ↦ some m.currency.code ])
        (elim (command_amount c) [ none ↦ none | some m ↦ some (show_int m.amount) ])

  -- A presentation row leaves the consumptions as they are.
  add_presentation-consumptions :
      (inv : ℕ) (a : Approval) (result : CheckResult) (verified : Bool) (n : ℕ) (w w' : World W)
      → add_presentation session inv a result verified w ≡ (ok n, w')
      → w'.tables.consumptions ≡ w.tables.consumptions
  unfolding add_presentation alloc
  add_presentation-consumptions inv a result verified n w w' h =
      sym (ap (λ (p : Result ℕ × World W). p.1.tables.consumptions) h)

  check_approval-passed :
      (a : Approval) (key_text : Option Text) (now : Datetime) (print key : Text) (c : Command)
      → check_approval session a key_text now print key c ≡ ok checks_passed
      → (public : Text) × (key_text ≡ some public)
        × IsBound session.library.verifies a public now session.journal_id print key
        × Admits (approvers c) a.approver
  unfolding check_approval
  check_approval-passed a none now print key c h = cc
  check_approval-passed a (some public) now print key c h =
      let (admits, passed) =
        after_signature (approvers c) a.approver _
          (unsigned (session.library.verifies public a) _ h) in
      (
        public,
        refl,
        check-passed session.library.verifies a public now session.journal_id print key passed,
        admits,
      )

  consume-used :
      (inv : ℕ) (a : Approval) (presentation : ℕ) (w : World W)
      → is_consumed a.approval_id w.tables ≡ true
      → consume session inv a presentation w ≡ (ok none, w)
  unfolding consume
  consume-used inv a presentation w used = rw used

  consume-free :
      (inv : ℕ) (a : Approval) (presentation n : ℕ) (w w' : World W)
      → consume session inv a presentation w ≡ (ok (some n), w')
      → (is_consumed a.approval_id w.tables ≡ false) × (is_consumed a.approval_id w'.tables ≡ true)
  unfolding consume alloc
  consume-free inv a presentation n w w' h =
      elim (Bool-cases (is_consumed a.approval_id w.tables)) [
        | inl used ↦ let refused = consume-used inv a presentation w used in cc
        | inr free ↦ (
          free,
          ap (λ (p : Result (Option ℕ) × World W). is_consumed a.approval_id p.1.tables)
                (sym (rw free at h))
              ∙ is_consumed-append a.approval_id w.tables.consumptions _ refl,
        )
      ]

  settle_approval-valid :
      (inv : ℕ) (a : Approval) (presentation : ℕ) (result : CheckResult) (w w' : World W)
      (v : Validation)
      → settle_approval session inv a presentation result w ≡ (ok v, w')
      → v.verdict ≡ approval_valid
      → (result ≡ checks_passed)
        × (is_consumed a.approval_id w.tables ≡ false)
        × (is_consumed a.approval_id w'.tables ≡ true)
  unfolding settle_approval verdict_of validation_of
  settle_approval-valid inv a presentation checks_passed w w' v h k =
      let (consumed, u, e, rest) = >>=-eq-ok (consume session inv a presentation) _ w w' h in
      let (free, after) = settled consumed u e rest in (refl, free, after)
    where
      settled :
          (consumed : Option ℕ) (u : World W)
          → consume session inv a presentation w ≡ (ok consumed, u)
          → pure {W = World W} (validation_of session presentation a consumed) u ≡ (ok v, w')
          → (is_consumed a.approval_id w.tables ≡ false)
            × (is_consumed a.approval_id w'.tables ≡ true)
      settled none u e rest = let same = pure-eq-ok _ u w' rest in cc
      settled (some n) u e rest =
          let same = pure-state _ u w' rest in
          let (free, after) = consume-free inv a presentation n w u e in
          (free, ap (λ (x : World W). is_consumed a.approval_id x.tables) same ∙ after)
  settle_approval-valid inv a presentation check_invalid w w' v h k = cc
  settle_approval-valid inv a presentation check_wrong_approver w w' v h k = cc
  settle_approval-valid inv a presentation check_expired w w' v h k = cc
  settle_approval-valid inv a presentation check_scope_mismatch w w' v h k = cc
  settle_approval-valid inv a presentation check_not_applicable w w' v h k = cc

  -- An approval is valid only where its signature is that of the approver's live key, it has not expired
  -- at the reading, it names this journal, this request and this key, its approver is among those that
  -- the policy set names for the command, if it names any, and its id was not consumed; and then its id
  -- is consumed, so it is not valid again.
  pub validate_approval_lem :
      (inv : ℕ) (a : Approval) (now : Datetime) (print key : Text) (c : Command) (w w' : World W)
      (v : Validation)
      → validate_approval session inv a now print key c w ≡ (ok v, w')
      → v.verdict ≡ approval_valid
      → (public : Text) × (approver_key session a.approver w.tables ≡ some public)
        × IsBound session.library.verifies a public now session.journal_id print key
        × Admits (approvers c) a.approver
        × (is_consumed a.approval_id w.tables ≡ false)
        × (is_consumed a.approval_id w'.tables ≡ true)
  unfolding validate_approval
  validate_approval_lem inv a now print key c w w' v h k =
      let (result, checked, h1) =
        lift-eq-ok
          (check_approval session a (approver_key session a.approver w.tables) now print key c) _ w
          w' h in
      let (presentation, u, added, h2) =
        >>=-eq-ok (add_presentation session inv a result (is_verified session result))
          (λ n. settle_approval session inv a n result) w w' h1 in
      let (passed, free, after) = settle_approval-valid inv a presentation result u w' v h2 k in
      let (public, live, bound, admits) =
        check_approval-passed a (approver_key session a.approver w.tables) now print key c
          (checked ∙ ap ok passed) in
      (
        public,
        live,
        bound,
        admits,
        ap (any (λ (x : ConsumptionRow). x.approval_id == a.approval_id))
              (sym (add_presentation-consumptions inv a result _ presentation w u added))
            ∙ free,
        after,
      )
