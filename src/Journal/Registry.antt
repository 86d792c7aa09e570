-- ===== src/Journal/Registry.antt =====
-- src/ledgergate/journal/store.py: the registries of principals and approvers, and their changes. The
-- comparison of `_check_binding` is an argument, and so is `verification_key_text_of` after
-- `verification_key`, which may raise.
use ledgergate.Base.{
  ℕ, Bool, true, false, not, Option, none, some, List, [], ◌∷◌, ◌++◌, ◌==◌, list_eq, nat_eq,
  if◌then◌else◌,
}
use ledgergate.Text.{Text, text}
use ledgergate.Errors.{Result, ok, err, raise_if, configuration_error}
use ledgergate.Exec.{Exec, pure, lift, ◌>>=◌, ◌>>◌}
use ledgergate.Ledger.Identifiers.{require_identifier}
use ledgergate.Ledger.Encoding.{Datetime}
use ledgergate.Journal.PolicySet.{guarded}
use ledgergate.Journal.Tables.{RegistryRow, Tables, World, alloc, query, change, live, find_added}
use ledgergate.Journal.Session.{Session, aware_now}
use ledgergate.Journal.Commit.{check_capacity}

-- `principal_events` and `approver_events`
pub data Registered : Type 0 where
  principals approvers : Registered

unfoldable pub rows_of : Registered → Tables → List RegistryRow
rows_of principals t = t.principal_events
rows_of approvers t = t.approver_events

unfoldable pub with_row : Registered → RegistryRow → Tables → Tables
with_row principals row t = record t { principal_events = t.principal_events ++ row ∷ [] }
with_row approvers row t = record t { approver_events = t.approver_events ++ row ∷ [] }

-- `_principal_live(name, kind)`
unfoldable pub principal_live : Text → Text → Tables → Bool
principal_live name kind t = elim (live name t.principal_events) [
  | none ↦ false
  | some row ↦ elim row.kind [ none ↦ false | some k ↦ k == kind ]
]

-- `live is not None`: of a principal its kind, of an approver its name
unfoldable pub is_live : Registered → Text → Tables → Bool
is_live approvers name t = elim (live name t.approver_events) [ none ↦ false | some _ ↦ true ]
is_live principals name t = elim (live name t.principal_events) [
  | none ↦ false
  | some row ↦ elim row.kind [ none ↦ false | some _ ↦ true ]
]

-- `added is not None`
unfoldable pub was_added : Registered → Text → Tables → Bool
unfolding rows_of
was_added registered name t = elim (find_added name (rows_of registered t)) [
  | none ↦ false
  | some _ ↦ true
]

-- `table == "principal_events" and name == self.principal`
unfoldable pub is_self : Registered → Text → Text → Bool
is_self principals name principal = name == principal
is_self approvers name principal = false

-- The tests of `_registry_change` on what the registry holds
unfoldable pub check_change : Registered → Text → Bool → Text → Tables → Result (Unit {0})
unfolding was_added is_live is_self
check_change registered name true principal t =
    raise_if (was_added registered name t) configuration_error
check_change registered name false principal t =
    raise_if (if is_live registered name t then is_self registered name principal else true)
      configuration_error

-- `"a signed principal has a key; a transport one has none"`, and the two kinds
unfoldable pub check_kind : Text → Option Text → Result (Unit {0})
check_kind kind key =
    if kind == text "transport"
    then raise_if (elim key [ none ↦ false | some _ ↦ true ]) configuration_error
    else if kind == text "signed"
    then raise_if (elim key [ none ↦ true | some _ ↦ false ]) configuration_error
    else err configuration_error

module _ {W : Type 0} (session : Session W) (bound : Bool) (capacity : ℕ)
    (spelled : Text → Result Text) where
  -- `if key is not None: key = verification_key_text_of(verification_key(key))`
  unfoldable pub respell : Option Text → Result (Option Text)
  respell none = ok none
  respell (some key) = elim (spelled key) [ err e ↦ err e | ok k ↦ ok (some k) ]

  -- `_registry_row(table, name, action, kind, key, by, at)`
  unfoldable pub registry_row :
      Registered → Text → Bool → Option Text → Option Text → Text → Datetime → Exec (World W) ℕ
  unfolding alloc
  registry_row registered name is_add kind key by at = do
    n ← alloc
    change (
        with_row registered (record {
          number = n;
          name = name;
          is_add = is_add;
          kind = kind;
          verification_key = key;
          by = by;
          at = at;
        }))
    pure n

  -- `_registry_change(table, name, action, kind, key)`
  unfoldable pub registry_change :
      Registered → Text → Bool → Option Text → Option Text → Exec (World W) ℕ
  unfolding guarded require_identifier respell check_capacity principal_live check_change
      registry_row aware_now
  registry_change registered name is_add kind key = do
    checked ← lift (guarded (require_identifier name (text "name")))
    respelled ← lift (respell key)
    lift (raise_if (not bound) configuration_error)
    room ← query (check_capacity capacity 1)
    lift room
    alive ← query (principal_live session.principal (text "transport"))
    lift (raise_if (not alive) configuration_error)
    tested ← query (check_change registered name is_add session.principal)
    lift tested
    at ← aware_now session
    registry_row registered name is_add kind respelled session.principal at

  -- `add_principal`, `revoke_principal`, `add_approver`, `revoke_approver`
  unfoldable pub add_principal : Text → Text → Option Text → Exec (World W) ℕ
  unfolding check_kind registry_change
  add_principal name kind key = do
    lift (check_kind kind key)
    registry_change principals name true (some kind) key

  unfoldable pub revoke_principal : Text → Exec (World W) ℕ
  unfolding registry_change
  revoke_principal name = registry_change principals name false none none

  unfoldable pub add_approver : Text → Text → Exec (World W) ℕ
  unfolding registry_change
  add_approver name key = registry_change approvers name true none (some key)

  unfoldable pub revoke_approver : Text → Exec (World W) ℕ
  unfolding registry_change
  revoke_approver name = registry_change approvers name false none none
