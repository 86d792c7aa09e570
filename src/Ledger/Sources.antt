-- ===== src/Ledger/Sources.antt =====
-- src/ledgergate/ledger/effects.py: the reference clocks, ids and rates, over their own state.
use ledgergate.Base.{
  ℕ, suc, ◌&&◌, Option, none, some, List, [], ◌∷◌, ◌++◌, ◌==◌, if◌then◌else◌, true, false,
}
use ledgergate.Text.{Text, text}
use ledgergate.Text.Decimal.{padded_decimal}
use ledgergate.Int.{ℤ, pos, abs, ◌+ℤ◌, ltb_ℤ}
use ledgergate.Errors.{
  Result, ok, err, ◌>>=◌, ◌>>◌, raise_if, invalid_amount, naive_time, bad_step, bad_rate,
  missing_rate,
}
use ledgergate.Exec.{Exec}
use ledgergate.Ledger.Currency.{Currency, currency_eq}
use ledgergate.Ledger.Fraction.{Fraction}
use ledgergate.Ledger.Encoding.{Datetime, in_years}

-- `at.tzinfo is None`
abbrev pub require_aware : Datetime → Result (Unit {0})
require_aware at = elim at.offset [ none ↦ err (invalid_amount naive_time) | some _ ↦ ok tt ]

-- `FixedClock(at)`; the clock is the reading that it gives.
unfoldable pub fixed_clock : Datetime → Result Datetime
fixed_clock at = require_aware at >> ok at

-- `FixedClock.now`
unfoldable pub fixed_now : Exec Datetime Datetime
fixed_now at = (ok at, at)

pub record SteppingClock : Type 0 where
  pub next_reading : Datetime
  pub step : ℤ

-- `SteppingClock(start, step)`, the step in microseconds
unfoldable pub stepping_clock : Datetime → ℤ → Result SteppingClock
stepping_clock start step = do
  require_aware start
  raise_if (if ltb_ℤ (pos 0) step then false else true) (invalid_amount bad_step)
  ok (record { next_reading = start; step = step })

-- `self._next + self._step`
unfoldable pub stepped : SteppingClock → Result Datetime
unfolding in_years
stepped clock =
    in_years (record clock.next_reading { reading = clock.next_reading.reading +ℤ clock.step })

-- `SteppingClock.now`: a sum that overflows is raised before the clock is changed.
unfoldable pub stepping_now : Exec SteppingClock Datetime
unfolding stepped
stepping_now clock = elim (stepped clock) [
  | err e ↦ (err e, clock)
  | ok later ↦ (ok clock.next_reading, record clock { next_reading = later })
]

-- `SteppingClock.peek`
unfoldable pub peek : SteppingClock → Datetime
peek clock = clock.next_reading

-- The counter is a number: a start below zero is not modelled.
pub record SequentialIds : Type 0 where
  pub prefix : Text
  pub counter : ℕ
  pub width : ℕ

-- `SequentialIds.next_id`
unfoldable pub sequential_id : Exec SequentialIds Text
unfolding padded_decimal
sequential_id ids = (
  ok (ids.prefix ++ (text "-" ++ padded_decimal ids.width ids.counter)),
  record ids { counter = suc ids.counter },
)

abbrev pub Rates : Type 0
Rates = List ((Currency × Currency) × Fraction)

-- `StaticRates(table)`
unfoldable pub static_rates : Rates → Result Rates
static_rates [] = ok []
static_rates ((pair, value) ∷ table) = do
  raise_if (if ltb_ℤ (pos 0) value.numerator then false else true) (invalid_amount bad_rate)
  rest ← static_rates table
  ok ((pair, value) ∷ rest)

-- `table.get((base, quote))`
unfoldable pub find_rate : Currency → Currency → Rates → Option Fraction
find_rate base quote [] = none
find_rate base quote ((pair, value) ∷ table) =
    let rest = find_rate base quote table in
    if pair.0 == base && pair.1 == quote then some value else rest

-- `1 / value` of a positive fraction
abbrev pub inverse : Fraction → Fraction
inverse value = record { numerator = pos value.denominator; denominator = abs value.numerator }

abbrev pub one_rate : Fraction
one_rate = record { numerator = pos 1; denominator = 1 }

abbrev pub inverse_rate : Option Fraction → Currency → Currency → Result Fraction
inverse_rate none base quote = err (missing_rate base.code quote.code)
inverse_rate (some value) base quote = ok (inverse value)

abbrev pub rate_or : Option Fraction → Result Fraction → Result Fraction
rate_or none other = other
rate_or (some value) other = ok value

-- `StaticRates.rate(base, quote)`
unfoldable pub static_rate : Rates → Currency → Currency → Result Fraction
unfolding find_rate
static_rate table base quote =
    if base == quote
    then ok one_rate
    else rate_or (find_rate base quote table) (inverse_rate (find_rate quote base table) base quote)
