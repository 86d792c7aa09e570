-- ===== src/Journal/StoreTests.antt =====
-- The journal's store at small inputs.
use ledgergate.Base.{
  ℕ, ◌≡◌, refl, true, false, some, none, [], ◌∷◌, nat_eq, list_eq, list_dec, ℕ_discrete, inr,
}
use ledgergate.Base.{◌≤◌, length}
use ledgergate.Codec.Draft.{max_text}
use ledgergate.Codec.Command.{bounded_text}
use ledgergate.Journal.Rows.{failed}
use ledgergate.Journal.Bounds.{check_answer-bounded_text}
use ledgergate.Text.{Text, text}
use ledgergate.Int.{◌-ℤ◌}
use ledgergate.Dict.{lookup, insert}
use ledgergate.Errors.{ok}
use ledgergate.Exec.{Exec}
use ledgergate.Ledger.Commands.{empty_ledger}
use ledgergate.Ledger.State.{execute, Effects}
use ledgergate.Ledger.Samples.{
  platform, effects, chart, noon, first_sale, after_sale, first_sale-execute,
}
use ledgergate.Codec.Samples.{sale-IsEncodable}
use ledgergate.Journal.PolicySet.{null_policy, guarded}
use ledgergate.Journal.Approvals.{check}
use ledgergate.Journal.Policy.{approval_valid, command_kind, command_amount}
use ledgergate.Journal.Tables.{
  applied, awaiting_approval, OutcomeRow, World, approval, of_outcome, operation_numbered, tip,
  tip_from, alloc, find_added, is_revoked, live, is_consumed, current_outcome_kind,
}
use ledgergate.Journal.Rows.{
  Response, served, respond, add_event, check_answer, add_outcome, hold_projection,
}
use ledgergate.Journal.Invocations.{applied_result, add_presentation}
use ledgergate.Journal.Write.{
  Validation, approver_key, validate_approval, check_approval, settle_approval, consume,
  validation_of, is_verified,
}
use ledgergate.Journal.Chains.{links, check_chains}
use ledgergate.Journal.Rebuild.{rebuild_step, rebuild}
use ledgergate.Journal.Histories.{Recorded, nothing, then_applied, then_other, rebuild-Recorded}
use ledgergate.Journal.Commit.{write_applied, advance_to}
use ledgergate.Journal.WriteLaws.{Places, write_applied-Records}
use ledgergate.Journal.Again.{execute-again}
use ledgergate.Journal.ReplayLaws.{
  Records, entry_id_of, posted_at_of, effects_for, effects_for-Gives, rebuild_step-applied,
}
use ledgergate.Journal.ChainLaws.{Continues, check_chains-linked, add_outcome-check_chains}
use ledgergate.Journal.ApprovalLaws.{IsBound, Admits, approvers, validate_approval_lem}
use ledgergate.Journal.StoreSamples.{
  library, session, pending, sold_row, sale_operation, tables, world, artefact,
}

-- The recorded effects of an entry, over the journal's own.
abbrev recorded : Effects ℕ
recorded = effects_for after_sale.entry effects

execute-again_example :
    execute platform recorded (empty_ledger chart) first_sale 5 ≡ (ok after_sale, 5)
execute-again_example =
    execute-again platform effects recorded (empty_ledger chart) first_sale 0 1 5 first_sale-execute
      (effects_for-Gives after_sale.entry effects)

rebuild_step-applied_example :
    rebuild_step session (empty_ledger chart) sold_row sale_operation world
    ≡ (ok after_sale.ledger, world)
rebuild_step-applied_example =
    rebuild_step-applied session effects (empty_ledger chart) first_sale after_sale 0 1 sold_row
      sale_operation world sale-IsEncodable first_sale-execute
      (record { is_applied = refl; recorded_id = refl; recorded_time = refl; recorded_head = refl })
      refl

chains_hold : check_chains (pending ∷ sold_row ∷ []) ≡ ok tt
unfolding check_chains links lookup insert ℕ_discrete
chains_hold = refl

check_chains-linked_example : Continues (tip 3 (pending ∷ [])) sold_row.previous
check_chains-linked_example = check_chains-linked (pending ∷ []) sold_row [] chains_hold

pending_holds : check_chains (pending ∷ []) ≡ ok tt
unfolding check_chains links
pending_holds = refl

still_pending : current_outcome_kind 3 tables ≡ some awaiting_approval
unfolding current_outcome_kind tip_from ℕ_discrete
still_pending = refl

abbrev add_sold : Exec (World ℕ) ℕ
add_sold =
    add_outcome session 3 applied 11 [] after_sale.ledger.head (entry_id_of after_sale.entry)
      (posted_at_of after_sale.entry) 1 none

abbrev after_row : World ℕ
after_row = (add_sold world).1

row_added : add_sold world ≡ (ok 9, after_row)
unfolding add_outcome alloc hold_projection
row_added = refl

add_outcome-check_chains_example : check_chains after_row.tables.outcomes ≡ ok tt
add_outcome-check_chains_example =
    add_outcome-check_chains session 3 applied 11 [] after_sale.ledger.head
      (entry_id_of after_sale.entry) (posted_at_of after_sale.entry) 1 none world after_row 9
      pending_holds (inr still_pending) row_added

abbrev validate_artefact : Exec (World ℕ) Validation
validate_artefact = validate_approval session 9 artefact noon (text "f") (text "k") first_sale

abbrev after_approval : World ℕ
after_approval = (validate_artefact world).1

abbrev validated : Validation
validated = record {
  presentation = 9;
  verdict = approval_valid;
  consumption = some 10;
  approver = some (text "ann");
}

artefact_validated : validate_artefact world ≡ (ok validated, after_approval)
unfolding validate_approval approver_key live find_added is_revoked check_approval check
    add_presentation settle_approval consume validation_of alloc list_dec ℕ_discrete null_policy
    guarded is_verified command_kind command_amount ◌-ℤ◌
artefact_validated = refl

validate_approval_lem_example :
    (public : Text) × (approver_key session (text "ann") tables ≡ some public)
    × IsBound library.verifies artefact public noon (text "j") (text "f") (text "k")
    × Admits (approvers session first_sale) (text "ann")
    × (is_consumed (text "a1") tables ≡ false)
    × (is_consumed (text "a1") after_approval.tables ≡ true)
validate_approval_lem_example =
    validate_approval_lem session 9 artefact noon (text "f") (text "k") first_sale world
      after_approval validated artefact_validated refl

sale_filed : operation_numbered 3 (sale_operation ∷ []) ≡ some sale_operation
unfolding operation_numbered ℕ_discrete
sale_filed = refl

-- The sale was asked for, waited, and then was applied.
sale-Recorded :
    Recorded session (sale_operation ∷ []) (pending ∷ sold_row ∷ []) after_sale.ledger 12
sale-Recorded =
    then_applied effects 0 1 first_sale after_sale sold_row sale_operation
      (then_other pending sale_operation nothing sale_filed waits) sale_filed refl sale-IsEncodable
      first_sale-execute
      (record { is_applied = refl; recorded_id = refl; recorded_time = refl; recorded_head = refl })
  where
    waits : awaiting_approval ≡ applied → ⊥
    waits h = cc

abbrev stored : World ℕ
stored = record world { tables = record tables { outcomes = pending ∷ sold_row ∷ [] } }

rebuild-Recorded_example : rebuild session stored ≡ (ok (after_sale.ledger, 12), stored)
rebuild-Recorded_example =
    rebuild-Recorded session stored after_sale.ledger 12 chains_hold sale-Recorded

abbrev write_sale : Exec (World ℕ) Response
write_sale = write_applied session 3 10 approval 11 after_sale

abbrev after_write : World ℕ
after_write = (write_sale world).1

abbrev sale_response : Response
sale_response = record {
  invocation = 10;
  disposition = approval;
  response = of_outcome applied;
  answer = served (applied_result platform.isoformat after_sale);
  outcome = some 9;
}

sale_written : write_sale world ≡ (ok sale_response, after_write)
unfolding write_applied advance_to add_outcome hold_projection respond add_event check_answer alloc
sale_written = refl

write_applied-Records_example :
    (o : OutcomeRow) × (after_write.tables.outcomes ≡ pending ∷ o ∷ [])
    × (o.operation ≡ 3)
    × Records o after_sale
    × Places session o after_sale 3 world
    × (after_write.pending ≡ some (after_sale.ledger, o.number))
write_applied-Records_example =
    write_applied-Records session 3 10 approval 11 after_sale world after_write sale_response
      sale_written

check_answer-bounded_text_example :
    (length (bounded_text (text "no funds")) ≤ max_text)
    × (check_answer (failed (text "E") (bounded_text (text "no funds"))) ≡ ok tt)
check_answer-bounded_text_example = check_answer-bounded_text (text "E") (text "no funds")
