-- ===== src/Journal/Approvals.antt =====
-- src/ledgergate/journal/approvals.py and auth.py: an approval artefact and its checks, and who an
-- invocation is. Ed25519 belongs to another library: `verifies` says whether the artefact's signature
-- is the one of a key, by the key's text in the registry.
use ledgergate.Base.{
  ℕ, ◌*◌, Bool, not, ◌&&◌, Option, none, some, ◌==◌, list_eq, nat_eq, if◌then◌else◌,
}
use ledgergate.Text.{Text, text}
use ledgergate.Int.{ℤ, pos, ◌-ℤ◌, ltb_ℤ, leb_ℤ}
use ledgergate.Ledger.Encoding.{Datetime}
use ledgergate.Journal.Policy.{second}

pub record Approval : Type 0 where
  pub journal_id : Text
  pub approval_id : Text
  pub approver : Text
  pub fingerprint : Text
  pub key : Text
  pub subject : Option Text
  pub amount : Option Text
  pub currency : Option Text
  pub issued_at : Datetime
  pub expires_at : Datetime
  pub signature : Text

pub data CheckResult : Type 0 where
  checks_passed check_invalid check_wrong_approver check_expired : CheckResult
  check_scope_mismatch check_not_applicable : CheckResult

-- An instant: the reading less its offset.
abbrev pub instant : Datetime → ℤ
instant d = d.reading -ℤ (elim d.offset [ none ↦ pos 0 | some offset ↦ offset ])

-- `check(approval, public=..., now=..., journal_id=..., fingerprint=..., key=...)`
unfoldable pub check :
    (Text → Approval → Bool) → Approval → Text → Datetime → Text → Text → Text → CheckResult
check verifies approval public now journal_id fingerprint key =
    if not (verifies public approval)
    then check_invalid
    else if leb_ℤ (instant approval.expires_at) (instant now)
    then check_expired
    else if approval.journal_id == journal_id
        && approval.fingerprint == fingerprint
        && approval.key == key
    then checks_passed
    else check_scope_mismatch

pub data Authentication : Type 0 where
  transport signed rejected : Authentication

pub record Attribution : Type 0 where
  pub principal : Text
  pub authentication : Authentication
  pub auth_principal : Option Text
  pub auth_expires_at : Option Datetime
  pub auth_signature : Option Text

-- `Attribution.transport(principal)`
unfoldable pub transport_attribution : Text → Attribution
transport_attribution principal = record {
  principal = principal;
  authentication = transport;
  auth_principal = none;
  auth_expires_at = none;
  auth_signature = none;
}

-- `Attribution.rejected(session_principal)`
unfoldable pub rejected_attribution : Text → Attribution
rejected_attribution principal = record {
  principal = principal;
  authentication = rejected;
  auth_principal = none;
  auth_expires_at = none;
  auth_signature = none;
}

-- `MAX_EXPIRY_SECONDS`
abbrev pub max_expiry_seconds : ℕ
max_expiry_seconds = 86400

-- `expiry_cause(expires_at, now)`
unfoldable pub expiry_cause : Datetime → Datetime → Option Text
expiry_cause expires_at now =
    if leb_ℤ (instant expires_at) (instant now)
    then some (text "request_expired")
    else if ltb_ℤ (pos (max_expiry_seconds * second)) (instant expires_at -ℤ instant now)
    then some (text "request_expiry_unbounded")
    else none
