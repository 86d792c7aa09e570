-- ===== src/Journal/Session.antt =====
-- src/ledgergate/journal/store.py: an open journal, its clock and ids as the core sees them, and what a
-- policy set may ask about the past.
use ledgergate.Base.{
  ℕ, Bool, true, false, ◌&&◌, Option, none, some, List, [], ◌∷◌, ◌==◌, list_eq, nat_eq,
  if◌then◌else◌,
}
use ledgergate.Text.{Text, text}
use ledgergate.Int.{ℤ, pos, ◌+ℤ◌, ltb_ℤ}
use ledgergate.Dict.{contains}
use ledgergate.Errors.{Error, Result, ok, err, ◌>>=◌, ◌>>◌, raise_if, journal_error}
use ledgergate.Exec.{Exec, lift, bind}
use ledgergate.Ledger.Identifiers.{require_identifier}
use ledgergate.Ledger.Accounts.{Chart}
use ledgergate.Ledger.Encoding.{Platform, Datetime, as_utc}
use ledgergate.Ledger.Commands.{Ledger}
use ledgergate.Ledger.State.{Effects}
use ledgergate.Codec.Json.{Json}
use ledgergate.Codec.Draft.{Registry}
use ledgergate.Codec.Command.{decode_command}
use ledgergate.Journal.Policy.{command_amount, command_kind}
use ledgergate.Journal.PolicySet.{PolicySet}
use ledgergate.Journal.Approvals.{Approval, instant}
use ledgergate.Journal.Tables.{
  applied, new, approval, OutcomeRow, ResponseRow, InvocationRow, Tables, World, operation_numbered,
}

-- The transforms of an `Admitter`.
pub record Admitter : Type 0 where
  pub redact_text : Text → Text
  pub tokenize_identifier : Text → Text
  pub digest_input : Json → Text

-- Code of Python's library that the journal calls.
pub record Library : Type 0 where
  -- `json.dumps(value, sort_keys=True, ensure_ascii=False)`
  pub dumps : Json → Text
  -- `text.encode("utf-8")[:limit].decode("utf-8", errors="ignore")`
  pub bounded_utf8 : ℕ → Text → Text
  -- `signature_verifies`, for the text of a key
  pub verifies : Text → Approval → Bool
  -- `str(exc)` and `type(exc).__name__`
  pub message_of : Error → Text
  pub class_of : Error → Text
  -- `repr(text)`
  pub repr : Text → Text

-- An open `Journal`: its components, its definition, and the projection.
pub record Session (W : Type 0) : Type 0 where
  pub platform : Platform
  pub library : Library
  pub sources : Effects W
  pub policy : PolicySet
  pub admitter : Admitter
  pub principal : Text
  pub journal_id : Text
  pub chart : Chart
  pub registry : Registry
  pub ledger : Ledger
  pub cursor : ℕ

-- The reading of `_Effects.aware_now`, in UTC.
unfoldable pub aware : Datetime → Result Datetime
unfolding as_utc
aware at = elim at.offset [ none ↦ err journal_error | some offset ↦ as_utc at offset ]

-- An exception of the require_identifier in `_Effects.next_id`, as an `EffectError`
unfoldable pub as_effect_error : Result Text → Result Text
as_effect_error (ok id) = ok id
as_effect_error (err e) = err journal_error

-- `SELECT requested_at FROM invocations`, at a number
unfoldable pub requested_at : ℕ → List InvocationRow → Option Datetime
requested_at n [] = none
requested_at n (i ∷ rows) =
    let rest = requested_at n rows in if i.number == n then some i.requested_at else rest

module _ {W : Type 0} (session : Session W) where
  -- An injected source works on its own state.
  unfoldable pub run_source {ℓ} : {A : Type ℓ} → Exec W A → Exec (World W) A
  run_source m w = let (r, sources) = m w.sources in (r, record w { sources = sources })

  -- `_Effects.aware_now(self.clock)`
  unfoldable pub aware_now : Exec (World W) Datetime
  unfolding run_source aware
  aware_now = bind (run_source session.sources.now) (λ at. lift (aware at))

  -- The tests of `_Effects.next_id`
  unfoldable pub check_id : Text → Result Text
  unfolding as_effect_error require_identifier
  check_id entry_id = do
    checked ← as_effect_error (require_identifier entry_id (text "generated entry id"))
    raise_if (contains entry_id session.ledger.by_id) journal_error
    ok entry_id

  -- `_Effects.next_id`, live
  unfoldable pub fresh_id : Exec (World W) Text
  unfolding run_source check_id
  fresh_id = bind (run_source session.sources.next_id) (λ entry_id. lift (check_id entry_id))

  -- `_Effects(self.clock, self.ids, self._ledger)`, live
  abbrev pub live_effects : Effects (World W)
  live_effects = record { now = aware_now; next_id = fresh_id }

  -- What one response of an applied outcome adds to `applied_total`.
  unfoldable pub amount_of : Json → Text → Text → Text → Result ℤ
  unfolding decode_command
  amount_of doc subject kind currency = do
    command ← decode_command doc session.registry
    elim (command_amount command) [
      | none ↦ ok (pos 0)
      | some money ↦
          if command_kind command == kind && money.currency.code == currency
          then (do
            owner ← session.policy.subject_of command
            ok (elim owner [
              | none ↦ pos 0
              | some name ↦ if name == subject then money.amount else pos 0
            ]))
          else ok (pos 0)
    ]

  -- `WHERE o.outcome = 'applied' AND r.disposition IN ('new', 'approval')`, for one outcome
  abbrev pub first_told : ResponseRow → ℕ → Bool
  first_told r outcome = elim r.outcome [
    | none ↦ false
    | some n ↦ n == outcome && (elim r.disposition [ new ↦ true | approval ↦ true | _ ↦ false ])
  ]

  -- The sum over the responses of one outcome, not before `since`.
  unfoldable pub told_total :
      Tables → Json → Text → Text → Text → ℤ → ℕ → List ResponseRow → Result ℤ
  unfolding amount_of
  told_total t doc subject kind currency since outcome [] = ok (pos 0)
  told_total t doc subject kind currency since outcome (r ∷ rows) =
      let rest = told_total t doc subject kind currency since outcome rows in
      if first_told r outcome
      then elim (requested_at r.invocation t.invocations) [
        | none ↦ rest
        | some at ↦ if ltb_ℤ (instant at) since then rest else (do
          amount ← amount_of doc subject kind currency
          others ← rest
          ok (amount +ℤ others))
      ]
      else rest

  unfoldable pub total_over : Tables → Text → Text → Text → ℤ → List OutcomeRow → Result ℤ
  unfolding told_total
  total_over t subject kind currency since [] = ok (pos 0)
  total_over t subject kind currency since (o ∷ rows) =
      let rest = total_over t subject kind currency since rows in
      elim o.outcome [
        | applied ↦ elim (operation_numbered o.operation t.operations) [
          | none ↦ rest
          | some op ↦ (do
            here ← told_total t op.command subject kind currency since o.number t.responses
            others ← rest
            ok (here +ℤ others))
        ]
        | _ ↦ rest
      ]

  -- `_History(self).applied_total`
  unfoldable pub applied_total : Tables → Text → Text → Text → ℤ → Result ℤ
  unfolding total_over
  applied_total t subject kind currency since = total_over t subject kind currency since t.outcomes
