-- ===== src/Journal/RegistryLaws.antt =====
-- src/ledgergate/journal/store.py: a revocation is final.
use ledgergate.Base.{
  ℕ, ◌≡◌, refl, sym, ap, ◌∙◌, Bool, true, false, not, none, List, [], ◌∷◌, ◌++◌, arith, list_eq,
  nat_eq, test_self,
}
use ledgergate.Text.{Text, text}
use ledgergate.Errors.{Result, ok, raise_if, configuration_error}
use ledgergate.Exec.{>>=-eq-ok, lift-eq-ok}
use ledgergate.Ledger.Encoding.{Datetime}
use ledgergate.Ledger.Identifiers.{require_identifier}
use ledgergate.Journal.PolicySet.{guarded}
use ledgergate.Journal.Tables.{RegistryRow, World, alloc, is_revoked, live}
use ledgergate.Journal.Session.{Session, aware_now}
use ledgergate.Journal.Commit.{check_capacity}
use ledgergate.Journal.Registry.{
  approvers, with_row, principal_live, check_change, registry_row, registry_change, revoke_approver,
}

is_revoked-append :
    (name : Text) (rows more : List RegistryRow)
    → is_revoked name rows ≡ true
    → is_revoked name (rows ++ more) ≡ true
unfolding is_revoked
is_revoked-append name [] more h = cc
is_revoked-append name (row ∷ rows) more h = ground (arith, is_revoked-append name rows more)

is_revoked-last :
    (name : Text) (rows : List RegistryRow) (row : RegistryRow)
    → row.name ≡ name
    → row.is_add ≡ false
    → is_revoked name (rows ++ row ∷ []) ≡ true
unfolding is_revoked
is_revoked-last name [] row h k = ground (arith, h, k, test_self name)
is_revoked-last name (first ∷ rows) row h k = ground (arith, is_revoked-last name rows row h k)

live-is_revoked :
    (name : Text) (rows : List RegistryRow) → is_revoked name rows ≡ true → live name rows ≡ none
unfolding live
live-is_revoked name rows h = rw h

module _ {W : Type 0} (session : Session W) (bound : Bool) (capacity : ℕ)
    (spelled : Text → Result Text) where
  registry_row-approvers :
      (name : Text) (n : ℕ) (by : Text) (at : Datetime) (w w' : World W)
      → registry_row session bound capacity spelled approvers name false none none by at w
        ≡ (ok n, w')
      → (row : RegistryRow) × (row.name ≡ name)
        × (row.is_add ≡ false)
        × (w'.tables.approver_events ≡ w.tables.approver_events ++ row ∷ [])
  unfolding registry_row alloc with_row
  registry_row-approvers name n by at w w' h =
      (_, refl, refl, sym (ap (λ (p : Result ℕ × World W). p.1.tables.approver_events) h))

  -- Once an approver was revoked, the name is not live, and stays so whatever rows are added after, an
  -- addition of the same name among them.
  pub revoke_approver-final :
      (name : Text) (n : ℕ) (w w' : World W) (more : List RegistryRow)
      → revoke_approver session bound capacity spelled name w ≡ (ok n, w')
      → live name (w'.tables.approver_events ++ more) ≡ none
  unfolding revoke_approver registry_change
  revoke_approver-final name n w w' more h =
      let (_, _, h1) = lift-eq-ok (guarded (require_identifier name (text "name"))) _ w w' h in
      let (_, _, h2) = lift-eq-ok (raise_if (not bound) configuration_error) _ w w' h1 in
      let (_, _, h3) = lift-eq-ok (check_capacity capacity 1 w.tables) _ w w' h2 in
      let (_, _, h4) =
        lift-eq-ok
          (raise_if (not (principal_live session.principal (text "transport") w.tables))
            configuration_error)
          _ w w' h3 in
      let (_, _, h5) =
        lift-eq-ok (check_change approvers name false session.principal w.tables) _ w w' h4 in
      let (at, u, _, h6) =
        >>=-eq-ok (aware_now session)
          (λ at.
            registry_row session bound capacity spelled approvers name false none none
              session.principal at)
          w w' h5 in
      let (row, named, revokes, added) =
        registry_row-approvers name n session.principal at u w' h6 in
      live-is_revoked name (w'.tables.approver_events ++ more) (
        is_revoked-append name w'.tables.approver_events more (
          ap (is_revoked name) added
          ∙ is_revoked-last name u.tables.approver_events row named revokes))
