-- ===== src/Text/Decimal.antt =====
-- `str(n)` and the padded `f"{n:0{width}d}"` of a number that is not negative, and reading back.
use ledgergate.Base.{
  ℕ, zero, suc, ◌+◌, ◌-◌, ◌*◌, ◌/◌, ◌%◌, ◌≤◌, ◌<◌, ◌≡◌, refl, sym, ap, ◌∙◌, inl, inr, [], ◌∷◌, ◌++◌,
  arith, ltb, length, if◌then◌else◌, All, All-append, Bool-cases,
}
use ledgergate.Text.{Text}

-- The fuel is one more than the number, which each round divides by ten.
unfoldable pub decimal_fuel : ℕ → ℕ → Text
decimal_fuel zero n = []
decimal_fuel (suc f) n =
    let front = decimal_fuel f (n / 10) in
    if ltb n 10 then (48 + n) ∷ [] else front ++ (48 + n % 10) ∷ []

-- `str(n)`
unfoldable pub decimal : ℕ → Text
unfolding decimal_fuel
decimal n = decimal_fuel (suc n) n

unfoldable pub zeros : ℕ → Text
zeros zero = []
zeros (suc n) = 48 ∷ zeros n

-- `f"{n:0{width}d}"`
unfoldable pub padded_decimal : ℕ → ℕ → Text
unfolding decimal zeros
padded_decimal width n = zeros (width - length (decimal n)) ++ decimal n

-- `int(s)` of ASCII digits, from the left.
unfoldable pub read_from : ℕ → Text → ℕ
read_from acc [] = acc
read_from acc (c ∷ cs) = read_from (acc * 10 + (c - 48)) cs

abbrev pub IsDigit : ℕ → Type 0
IsDigit c = (48 ≤ c) × (c ≤ 57)

pub read_from-append :
    (acc : ℕ) (s t : Text) → read_from acc (s ++ t) ≡ read_from (read_from acc s) t
unfolding read_from
read_from-append acc [] t = refl
read_from-append acc (c ∷ s) t = read_from-append (acc * 10 + (c - 48)) s t

read_from-decimal_fuel : (f n : ℕ) → n < f → read_from 0 (decimal_fuel f n) ≡ n
unfolding decimal_fuel read_from
read_from-decimal_fuel zero n h = elim h [ ]
read_from-decimal_fuel (suc f) n h = elim (Bool-cases (ltb n 10)) [
  | inl small ↦ rw small (omega arith)
  | inr big ↦
      let ih = read_from-decimal_fuel f (n / 10) (ground arith) in
      rw (big, read_from-append 0 (decimal_fuel f (n / 10)) ((48 + n % 10) ∷ []), ih) (omega arith)
]

-- Reading what was printed gives the number back.
pub read_from-decimal : (n : ℕ) → read_from 0 (decimal n) ≡ n
unfolding decimal
read_from-decimal n = read_from-decimal_fuel (suc n) n (omega arith)

pub decimal-injective : (m n : ℕ) → decimal m ≡ decimal n → m ≡ n
decimal-injective m n h = sym (read_from-decimal m) ∙ ap (read_from 0) h ∙ read_from-decimal n

decimal_fuel-All : (f n : ℕ) → All IsDigit (decimal_fuel f n)
unfolding decimal_fuel
decimal_fuel-All zero n = tt
decimal_fuel-All (suc f) n = elim (Bool-cases (ltb n 10)) [
  | inl small ↦ rw small (ground arith)
  | inr big ↦ rw big (
      All-append IsDigit (decimal_fuel f (n / 10)) ((48 + n % 10) ∷ [])
        (decimal_fuel-All f (n / 10)) (omega arith))
]

-- Only digits are printed.
pub decimal-All : (n : ℕ) → All IsDigit (decimal n)
unfolding decimal
decimal-All n = decimal_fuel-All (suc n) n
