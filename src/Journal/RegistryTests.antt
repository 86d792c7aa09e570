-- ===== src/Journal/RegistryTests.antt =====
-- The registries at small inputs.
use ledgergate.Base.{ℕ, ◌≡◌, refl, true, some, none, [], ◌∷◌, nat_eq, list_eq, list_dec, ℕ_discrete}
use ledgergate.Base.{◌++◌}
use ledgergate.Text.{text}
use ledgergate.Int.{◌-ℤ◌}
use ledgergate.Errors.{ok}
use ledgergate.Exec.{Exec}
use ledgergate.Ledger.Encoding.{as_utc, in_years}
use ledgergate.Ledger.Samples.{noon}
use ledgergate.Journal.PolicySet.{guarded}
use ledgergate.Journal.Tables.{RegistryRow, World, alloc, find_added, is_revoked, live}
use ledgergate.Ledger.Identifiers.{require_identifier}
use ledgergate.Text.{strip}
use ledgergate.Text.Decimal.{decimal}
use ledgergate.Journal.Commit.{check_capacity}
use ledgergate.Journal.Session.{aware_now, aware, run_source}
use ledgergate.Journal.Registry.{
  revoke_approver, registry_change, respell, registry_row, principal_live, check_change, is_live,
  is_self,
}
use ledgergate.Journal.RegistryLaws.{revoke_approver-final}
use ledgergate.Journal.StoreSamples.{session, ann, tables, world}

abbrev bot : RegistryRow
bot = record {
  number = 2;
  name = text "bot";
  is_add = true;
  kind = some (text "transport");
  verification_key = none;
  by = text "bot";
  at = noon;
}

abbrev staffed : World ℕ
staffed = record world { tables = record tables { principal_events = bot ∷ [] } }

abbrev revoke_ann : Exec (World ℕ) ℕ
revoke_ann = revoke_approver session true 1000 (λ k. ok k) (text "ann")

abbrev without_ann : World ℕ
without_ann = (revoke_ann staffed).1

ann_revoked : revoke_ann staffed ≡ (ok 9, without_ann)
unfolding revoke_approver registry_change respell guarded require_identifier strip check_capacity
    principal_live live find_added is_revoked check_change is_live is_self aware_now aware as_utc
    in_years run_source registry_row alloc list_dec ℕ_discrete decimal ◌-ℤ◌
ann_revoked = refl

revoke_approver-final_example :
    live (text "ann") (without_ann.tables.approver_events ++ ann ∷ []) ≡ none
revoke_approver-final_example =
    revoke_approver-final session true 1000 (λ k. ok k) (text "ann") 9 staffed without_ann
      (ann ∷ []) ann_revoked
