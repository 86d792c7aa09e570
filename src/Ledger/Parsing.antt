-- ===== src/Ledger/Parsing.antt =====
-- src/ledgergate/ledger/money.py: `Money.parse`. Which characters are decimal digits, and of what
-- value, is Python's Unicode table, and an argument.
use ledgergate.Base.{
  ℕ, zero, suc, ◌+◌, ◌-◌, ◌*◌, Bool, true, false, Option, none, some, List, [], ◌∷◌, ◌++◌, ◌==◌,
  nat_eq, if◌then◌else◌, ltb, length,
}
use ledgergate.Text.{Text, strip}
use ledgergate.Int.{pos, neg}
use ledgergate.Errors.{
  Result, ok, ◌>>=◌, ◌>>◌, raise_if, or_raise, invalid_amount, bad_decimal, too_many_decimals,
}
use ledgergate.Ledger.Currency.{Currency, unit}
use ledgergate.Ledger.Money.{Money}

-- `int(s)` of a run of digits
unfoldable pub digits_value : ℕ → List ℕ → ℕ
digits_value acc [] = acc
digits_value acc (d ∷ ds) = digits_value (acc * 10 + d) ds

-- `frac.ljust(width, "0")`
unfoldable pub padding : ℕ → List ℕ
padding zero = []
padding (suc n) = 0 ∷ padding n

-- The sign of `_DECIMAL`, and what follows it.
unfoldable pub take_sign : Text → Bool × Text
take_sign [] = (false, [])
take_sign (c ∷ cs) =
    if c == b'-' then (true, cs) else if c == b'+' then (false, cs) else (false, c ∷ cs)

module _ (digit : ℕ → Option ℕ) where
  -- `\d*` from the left, and what follows it.
  unfoldable pub take_digits : Text → List ℕ × Text
  take_digits [] = ([], [])
  take_digits (c ∷ cs) =
      let rest = take_digits cs in
      elim (digit c) [ none ↦ ([], c ∷ cs) | some d ↦ (d ∷ rest.0, rest.1) ]

  -- `(?:\.(?P<frac>\d*))?$`
  unfoldable pub match_fraction : Text → Option (List ℕ)
  unfolding take_digits
  match_fraction [] = some []
  match_fraction (c ∷ cs) =
      let (frac, rest) = take_digits cs in
      if c == b'.' then (if length rest == 0 then some frac else none) else none

  -- `Money.parse(text, currency)`
  unfoldable pub parse : Text → Currency → Result Money
  unfolding take_sign take_digits match_fraction digits_value padding strip unit neg
  parse given c = do
    let (negative, unsigned) = take_sign (strip given)
    let (whole, rest) = take_digits unsigned
    raise_if (length whole == 0) (invalid_amount bad_decimal)
    frac ← or_raise (match_fraction rest) (invalid_amount bad_decimal)
    raise_if (ltb c.exponent (length frac)) (invalid_amount too_many_decimals)
    let minor =
        digits_value 0 whole * unit c + digits_value 0 (frac ++ padding (c.exponent - length frac))
    ok (record { amount = if negative then neg (pos minor) else pos minor; currency = c })
