-- ===== src/Errors.antt =====
-- src/ledgergate/ledger/errors.py: the failures that the ledger raises, with the values that they
-- carry (not their messages), and the computations that may raise them.
use ledgergate.Base.{ℕ, ◌≡◌, refl, ◌⊎◌, inl, inr, Bool, true, false, Option, none, some, List}
use ledgergate.Text.{Text}
use ledgergate.Int.{ℤ}

-- What an `InvalidIdentifierError` objects to.
pub data IdentifierFault : Type 0 where
  empty_value padded multi_line too_long : IdentifierFault

-- What an `InvalidAmountError` objects to.
pub data AmountFault : Type 0 where
  bad_code bad_exponent unknown_currency bad_decimal too_many_decimals : AmountFault
  bad_rate bad_ratios zero_ratios no_parts : AmountFault
  posting_not_positive bad_tag_key repeated_tag_key : AmountFault
  amount_not_positive refunded_out_of_range inconsistent_status : AmountFault
  naive_time bad_step aliased_legs below_minor_unit : AmountFault

pub data Error : Type 0 where
  invalid_identifier : Text → IdentifierFault → Error
  invalid_amount : AmountFault → Error
  currency_mismatch : Text → Text → Error
  missing_rate : Text → Text → Error
  unknown_account : Text → Error
  duplicate_account : Text → Error
  conflicting_currency : Text → ℕ → ℕ → Error
  account_currency_mismatch : Text → Text → Text → Error
  insufficient_funds : Text → ℤ → ℤ → Error
  empty_entry : Error
  unbalanced_entry : List (Text × ℤ) → Error
  unknown_entry : Text → Error
  duplicate_entry_id : Text → Error
  already_reversed : Text → Text → Error
  chain_integrity : ℕ → Text → Text → Error
  idempotency_conflict : Text → Error
  unknown_transaction : Text → Error
  duplicate_transaction : Text → Error
  illegal_transition : Text → Text → Text → Error
  entry_required : Text → Text → Error
  entry_not_allowed : Text → Text → Error
  entry_amount_mismatch : Text → Text → Text → Error
  refund_exceeds_settled : Text → ℤ → ℤ → Error
  -- A Python `KeyError` that nothing catches.
  key_error : Text → Error
  -- What an injected effect raises of its own.
  effect_failed : Error
  -- `CodecError`, at a place in the document.
  codec_error : Text → Error
  -- A Python `ValueError`, a `TypeError` and an `OverflowError`.
  value_error type_error overflow_error : Error
  -- The failures of journal/store.py that are not recorded.
  journal_error configuration_error integrity_error capacity_error : Error

pub data Result {ℓ} (A : Type ℓ) : Type ℓ where
  -- It raised.
  err : Error → Result A
  -- It returned.
  ok : A → Result A

infixl 5 ◌>>=◌ ◌>>◌
-- An exception ends the computation; a value is passed on to the rest.
abbrev pub ◌>>=◌ {ℓ κ} : {A : Type ℓ} {B : Type κ} → Result A → (A → Result B) → Result B
err raised >>= rest = err raised
ok value >>= rest = rest value

abbrev pub ◌>>◌ {ℓ} : {A : Type ℓ} → Result (Unit {0}) → Result A → Result A
test >> rest = test >>= λ _. rest

-- `if b: raise e`
abbrev pub raise_if : Bool → Error → Result (Unit {0})
raise_if true e = err e
raise_if false e = ok tt

-- `d[k]`, where a missing key raises `e`.
abbrev pub or_raise {ℓ} : {A : Type ℓ} → Option A → Error → Result A
or_raise none e = err e
or_raise (some a) e = ok a

-- What a computation that returned went through.
pub >>=-eq-ok {ℓ κ} :
    {A : Type ℓ} {B : Type κ} (first : Result A) (rest : A → Result B) {y : B}
    → (first >>= rest) ≡ ok y
    → (x : A) × (first ≡ ok x) × (rest x ≡ ok y)
>>=-eq-ok (err raised) rest h = cc
>>=-eq-ok (ok x) rest h = (x, refl, h)

pub Result-cases {ℓ} :
    {A : Type ℓ} (r : Result A) → ((a : A) × (r ≡ ok a)) ⊎ ((e : Error) × (r ≡ err e))
Result-cases (ok a) = inl (a, refl)
Result-cases (err e) = inr (e, refl)

pub ok-injective {ℓ} : {A : Type ℓ} {a b : A} → ok a ≡ ok b → a ≡ b
ok-injective h = cc

-- A test that raised nothing was false.
pub raise_if-ok : (b : Bool) (e : Error) {u : Unit {0}} → raise_if b e ≡ ok u → b ≡ false
raise_if-ok true e h = cc
raise_if-ok false e h = refl

-- `isinstance(e, MoneyError)`
unfoldable pub is_money_error : Error → Bool
is_money_error (invalid_amount _) = true
is_money_error (currency_mismatch _ _) = true
is_money_error (missing_rate _ _) = true
is_money_error _ = false

-- `isinstance(e, TransactionError)`
unfoldable pub is_transaction_error : Error → Bool
is_transaction_error (unknown_transaction _) = true
is_transaction_error (duplicate_transaction _) = true
is_transaction_error (illegal_transition _ _ _) = true
is_transaction_error (entry_required _ _) = true
is_transaction_error (entry_not_allowed _ _) = true
is_transaction_error (entry_amount_mismatch _ _ _) = true
is_transaction_error (refund_exceeds_settled _ _ _) = true
is_transaction_error _ = false

-- `isinstance(e, LedgerError)`
unfoldable pub is_ledger_error : Error → Bool
is_ledger_error (key_error _) = false
is_ledger_error effect_failed = false
is_ledger_error (codec_error _) = false
is_ledger_error value_error = false
is_ledger_error type_error = false
is_ledger_error overflow_error = false
is_ledger_error journal_error = false
is_ledger_error configuration_error = false
is_ledger_error integrity_error = false
is_ledger_error capacity_error = false
is_ledger_error _ = true

-- `isinstance(e, (CodecError, LedgerError, ValueError))`
unfoldable pub is_decoding_error : Error → Bool
unfolding is_ledger_error
is_decoding_error (codec_error _) = true
is_decoding_error value_error = true
is_decoding_error e = is_ledger_error e
