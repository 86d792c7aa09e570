-- ===== src/Ledger/Money.antt =====
-- src/ledgergate/ledger/money.py: `Money`, an exact amount in minor units, and its arithmetic.
use ledgergate.Base.{
  ◌/◌, ◌%◌, Bool, not, List, [], ◌∷◌, ◌++◌, ◌==◌, Eq, nat_eq, list_eq, if◌then◌else◌,
}
use ledgergate.Text.{Text, text}
use ledgergate.Text.Decimal.{decimal, padded_decimal}
use ledgergate.Int.{ℤ, pos, ◌+ℤ◌, ◌-ℤ◌, neg, abs, ltb_ℤ, leb_ℤ, int_eq, int_dec}
use ledgergate.Errors.{Result, ok, ◌>>=◌, ◌>>◌, raise_if, currency_mismatch}
use ledgergate.Ledger.Currency.{Currency, currency_eq, currency_dec, unit}

pub record Money : Type 0 where
  pub amount : ℤ
  pub currency : Currency

unfoldable pub money_dec : Discrete Money
unfolding int_dec currency_dec
money_dec a b = elim (int_dec a.amount b.amount) [
  | yes p ↦ elim (currency_dec a.currency b.currency) [ yes q ↦ yes (cc) | no q ↦ no (λ r. q (cc)) ]
  | no p ↦ no (λ r. p (cc))
]

instance abbrev pub money_eq : Eq Money
money_eq = record { dec = money_dec }

-- `Money.zero(currency)`
abbrev pub zero_money : Currency → Money
zero_money c = record { amount = pos 0; currency = c }

unfoldable pub is_zero : Money → Bool
is_zero m = m.amount == pos 0

unfoldable pub is_positive : Money → Bool
is_positive m = ltb_ℤ (pos 0) m.amount

unfoldable pub is_negative : Money → Bool
is_negative m = ltb_ℤ m.amount (pos 0)

-- `str(money)`
unfoldable pub show_money : Money → Text
unfolding unit decimal padded_decimal is_negative
show_money m =
    let sign = if is_negative m then text "-" else [] in
    let major = abs m.amount / unit m.currency in
    let minor = abs m.amount % unit m.currency in
    if m.currency.exponent == 0
    then sign ++ (decimal major ++ (text " " ++ m.currency.code))
    else sign
      ++ (decimal major
          ++ (text "."
              ++ (padded_decimal m.currency.exponent minor ++ (text " " ++ m.currency.code))))

-- `_same`
unfoldable pub same_currency : Money → Money → Result (Unit {0})
same_currency a b =
    raise_if (not (a.currency == b.currency)) (currency_mismatch a.currency.code b.currency.code)

unfoldable pub add_money : Money → Money → Result Money
unfolding same_currency
add_money a b = do
  same_currency a b
  ok (record { amount = a.amount +ℤ b.amount; currency = a.currency })

unfoldable pub sub_money : Money → Money → Result Money
unfolding same_currency
sub_money a b = do
  same_currency a b
  ok (record { amount = a.amount -ℤ b.amount; currency = a.currency })

unfoldable pub neg_money : Money → Money
neg_money m = record m { amount = neg m.amount }

unfoldable pub abs_money : Money → Money
abs_money m = record m { amount = pos (abs m.amount) }

unfoldable pub lt_money : Money → Money → Result Bool
unfolding same_currency
lt_money a b = do same_currency a b; ok (ltb_ℤ a.amount b.amount)

unfoldable pub le_money : Money → Money → Result Bool
unfolding same_currency
le_money a b = do same_currency a b; ok (leb_ℤ a.amount b.amount)

unfoldable pub gt_money : Money → Money → Result Bool
unfolding same_currency
gt_money a b = do same_currency a b; ok (ltb_ℤ b.amount a.amount)

unfoldable pub ge_money : Money → Money → Result Bool
unfolding same_currency
ge_money a b = do same_currency a b; ok (leb_ℤ b.amount a.amount)

unfoldable pub total_from : Money → List Money → Result Money
unfolding add_money
total_from result [] = ok result
total_from result (value ∷ values) = do sum ← add_money result value; total_from sum values

-- `total(values, currency)`
unfoldable pub total : List Money → Currency → Result Money
unfolding total_from
total values c = total_from (zero_money c) values
