-- ===== src/Ledger/Accounts.antt =====
-- src/ledgergate/ledger/accounts.py: sides, account types, accounts and the chart that names them.
use ledgergate.Base.{ℕ, refl, Bool, not, List, [], ◌∷◌, map, ◌==◌, Eq, nat_eq, list_eq, filter_by}
use ledgergate.Text.{Text, text}
use ledgergate.Int.{ℤ, neg}
use ledgergate.Dict.{Dict, lookup, insert, contains, get_or}
use ledgergate.Errors.{
  Result, ok, ◌>>=◌, ◌>>◌, raise_if, or_raise, duplicate_account, conflicting_currency,
  unknown_account,
}
use ledgergate.Ledger.Identifiers.{require_identifier}
use ledgergate.Ledger.Currency.{Currency}

pub data Side : Type 0 where
  debit credit : Side

unfoldable pub side_dec : Discrete Side
side_dec debit debit = yes refl
side_dec debit credit = no (λ p. cc)
side_dec credit debit = no (λ p. cc)
side_dec credit credit = yes refl

instance abbrev pub side_eq : Eq Side
side_eq = record { dec = side_dec }

-- `Side.value`
unfoldable pub side_value : Side → Text
side_value debit = text "debit"
side_value credit = text "credit"

unfoldable pub opposite : Side → Side
opposite debit = credit
opposite credit = debit

-- `side.sign * amount`: debits count 1, credits -1.
unfoldable pub times_sign : Side → ℤ → ℤ
times_sign debit amount = amount
times_sign credit amount = neg amount

pub data AccountType : Type 0 where
  asset liability equity revenue expense : AccountType

unfoldable pub normal_side : AccountType → Side
normal_side asset = debit
normal_side expense = debit
normal_side liability = credit
normal_side equity = credit
normal_side revenue = credit

unfoldable pub kind_dec : Discrete AccountType
kind_dec asset asset = yes refl
kind_dec liability liability = yes refl
kind_dec equity equity = yes refl
kind_dec revenue revenue = yes refl
kind_dec expense expense = yes refl
kind_dec _ _ = no (λ p. cc)

instance abbrev pub kind_eq : Eq AccountType
kind_eq = record { dec = kind_dec }

pub record Account : Type 0 where
  pub account_id : Text
  pub kind : AccountType
  pub currency : Currency
  pub allow_negative : Bool
  pub name : Text

-- `Account(...)`; the type tests of its fields are the types.
unfoldable pub make_account : Text → AccountType → Currency → Bool → Text → Result Account
make_account account_id kind currency allow_negative name = do
  checked ← require_identifier account_id (text "account id")
  ok (record {
    account_id = checked;
    kind = kind;
    currency = currency;
    allow_negative = allow_negative;
    name = name;
  })

-- `ChartOfAccounts`: its frozen index.
abbrev pub Chart : Type 0
Chart = Dict Text Account

-- The loop of `ChartOfAccounts.__init__` over `index` and `exponents`.
unfoldable pub index_accounts : Chart → Dict Text ℕ → List Account → Result Chart
index_accounts index exponents [] = ok index
index_accounts index exponents (account ∷ accounts) =
    let code = account.currency.code in
    let exponent = account.currency.exponent in
    let known = get_or code exponent exponents in
    let rest =
      index_accounts (insert account.account_id account index) (insert code known exponents)
        accounts in
    raise_if (contains account.account_id index) (duplicate_account account.account_id)
    >> (raise_if (not (known == exponent)) (conflicting_currency code known exponent) >> rest)

-- `ChartOfAccounts(accounts)`
unfoldable pub make_chart : List Account → Result Chart
unfolding index_accounts
make_chart accounts = index_accounts [] [] accounts

-- `chart[account_id]`
unfoldable pub get_account : Chart → Text → Result Account
get_account chart account_id = or_raise (lookup account_id chart) (unknown_account account_id)

-- `chart.values()`
unfoldable pub accounts_of : Chart → List Account
accounts_of chart = map (λ e. e.1) chart

unfoldable pub currencies_from : Dict Text Currency → List Account → Dict Text Currency
currencies_from found [] = found
currencies_from found (a ∷ accounts) =
    currencies_from (insert a.currency.code a.currency found) accounts

-- `chart.currencies()`
unfoldable pub chart_currencies : Chart → Dict Text Currency
unfolding currencies_from accounts_of
chart_currencies chart = currencies_from [] (accounts_of chart)

-- `chart.of_type(kind)`
unfoldable pub of_type : Chart → AccountType → List Account
unfolding accounts_of
of_type chart kind = filter_by (λ a. a.kind == kind) (accounts_of chart)
