-- ===== src/Ledger/Rounding.antt =====
-- src/ledgergate/ledger/money.py: `RoundingMode`, `round_fraction`, `scale` and `convert`.
use ledgergate.Base.{ℕ, not, ◌*◌, Bool, true, false, ◌==◌, nat_eq, if◌then◌else◌, ltb}
use ledgergate.Int.{ℤ, pos, ◌+ℤ◌, neg, abs, ltb_ℤ}
use ledgergate.Errors.{Result, ok, ◌>>◌, raise_if, invalid_amount, bad_rate}
use ledgergate.Ledger.Currency.{Currency, unit}
use ledgergate.Ledger.Fraction.{Fraction, fraction, floor_div, floor_mod, with_sign}
use ledgergate.Ledger.Money.{Money}

pub data RoundingMode : Type 0 where
  half_even half_up half_down down up floor ceiling : RoundingMode

-- `value >= 0`
abbrev pub at_least_none : Fraction → Bool
at_least_none value = if ltb_ℤ value.numerator (pos 0) then false else true

-- `floor if test else floor + 1`
abbrev pub floor_if : Bool → ℤ → ℤ
floor_if true n = n
floor_if false n = n +ℤ pos 1

-- What a half mode does: up beyond one half, down below it, and `tie` at one half. The remainder is
-- `rest / denominator`.
abbrev pub nearest : ℤ → ℕ → ℕ → ℤ → ℤ
nearest n rest denominator tie =
    if ltb denominator (2 * rest) then n +ℤ pos 1 else if ltb (2 * rest) denominator then n else tie

-- The match on the mode, for a value that is not a whole number.
unfoldable pub round_by : RoundingMode → Bool → ℤ → ℕ → ℕ → ℤ
round_by floor positive n rest d = n
round_by ceiling positive n rest d = n +ℤ pos 1
round_by down positive n rest d = floor_if positive n
round_by up positive n rest d = floor_if (not positive) n
round_by half_up positive n rest d = nearest n rest d (floor_if (not positive) n)
round_by half_down positive n rest d = nearest n rest d (floor_if positive n)
round_by half_even positive n rest d = nearest n rest d (floor_if (floor_mod n 2 == 0) n)

-- `round_fraction(value, mode)`
unfoldable pub round_fraction : Fraction → RoundingMode → ℤ
unfolding round_by floor_div floor_mod
round_fraction value mode =
    if value.denominator == 1
    then value.numerator
    else round_by mode (at_least_none value) (floor_div value.numerator value.denominator)
        (floor_mod value.numerator value.denominator) value.denominator

-- `n * k` for a number `k`.
abbrev pub times : ℤ → ℕ → ℤ
times n k = with_sign n (abs n * k)

-- `a * b` of fractions
unfoldable pub mul_fraction : Fraction → Fraction → Fraction
unfolding fraction neg
mul_fraction a b =
    let size = times a.numerator (abs b.numerator) in
    fraction (if ltb_ℤ b.numerator (pos 0) then neg size else size) (a.denominator * b.denominator)

-- `money.scale(factor, rounding)`
unfoldable pub scale : Money → Fraction → RoundingMode → Money
unfolding round_fraction mul_fraction
scale m factor mode = record m {
  amount =
      round_fraction (mul_fraction (record { numerator = m.amount; denominator = 1 }) factor) mode;
}

-- `money.convert(rate, to, rounding)`
unfoldable pub convert : Money → Fraction → Currency → RoundingMode → Result Money
unfolding round_fraction mul_fraction fraction unit
convert m rate to mode =
    let major = fraction m.amount (unit m.currency) in
    let whole : Fraction = record { numerator = pos (unit to); denominator = 1 } in
    raise_if (if ltb_ℤ (pos 0) rate.numerator then false else true) (invalid_amount bad_rate)
    >> ok (record {
      amount = round_fraction (mul_fraction (mul_fraction major rate) whole) mode;
      currency = to;
    })
