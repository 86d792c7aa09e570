-- ===== src/Ledger/Fraction.antt =====
-- Python's `fractions.Fraction`: a quotient in lowest terms, with a positive denominator.
use ledgergate.Base.{ℕ, zero, suc, ◌-◌, ◌/◌, ◌%◌, true, false, ◌==◌, nat_eq}
use ledgergate.Int.{ℤ, pos, negsuc, neg, abs}

pub record Fraction : Type 0 where
  pub numerator : ℤ
  pub denominator : ℕ

-- Euclid's algorithm; the second argument falls, so one more than it is fuel enough.
unfoldable pub gcd_fuel : ℕ → ℕ → ℕ → ℕ
gcd_fuel zero a b = a
gcd_fuel (suc f) a b = elim (b == 0) [ true ↦ a | false ↦ gcd_fuel f b (a % b) ]

-- `math.gcd`
unfoldable pub gcd : ℕ → ℕ → ℕ
unfolding gcd_fuel
gcd a b = gcd_fuel (suc b) a b

-- `n` with the sign of `a`.
abbrev pub with_sign : ℤ → ℕ → ℤ
with_sign (pos _) n = pos n
with_sign (negsuc _) n = neg (pos n)

-- `Fraction(a, d)` for a positive `d`.
unfoldable pub fraction : ℤ → ℕ → Fraction
unfolding gcd neg
fraction a d =
    let g = gcd (abs a) d in record { numerator = with_sign a (abs a / g); denominator = d / g }

-- `a // d` for a positive `d`.
unfoldable pub floor_div : ℤ → ℕ → ℤ
floor_div (pos n) d = pos (n / d)
floor_div (negsuc n) d = negsuc (n / d)

-- `a % d` for a positive `d`.
unfoldable pub floor_mod : ℤ → ℕ → ℕ
floor_mod (pos n) d = n % d
floor_mod (negsuc n) d = d - 1 - n % d
