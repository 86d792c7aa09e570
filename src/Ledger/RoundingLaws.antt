-- ===== src/Ledger/RoundingLaws.antt =====
-- src/ledgergate/ledger/money.py: how far `round_fraction` moves a value.
use ledgergate.Base.{
  ℕ, ◌+◌, ◌*◌, ◌/◌, ◌≤◌, ◌<◌, ◌≡◌, refl, sym, ap, ◌∙◌, Bool, true, false, not, arith, ◌==◌, nat_eq,
  Bool-cases, inl, inr, eq_of_test,
}
use native.Mathlib.Nat.{div-add-mod, mod-lt}
use ledgergate.Int.{ℤ, pos, negsuc, pos_part, neg_part, ◌+ℤ◌, ◌≤ℤ◌, ◌<ℤ◌, neg, int_laws, +ℤ_parts}
use ledgergate.Ledger.Fraction.{Fraction, floor_div, floor_mod}
use ledgergate.Ledger.Rounding.{
  RoundingMode, half_even, half_up, half_down, down, up, floor, ceiling, round_by, round_fraction,
  times, nearest, floor_if, at_least_none,
}

-- The parts of a product with a number.
times_parts :
    (n : ℤ) (d : ℕ)
    → (pos_part (times n d) ≡ pos_part n * d) × (neg_part (times n d) ≡ neg_part n * d)
unfolding neg
times_parts (pos n) d = ground arith
times_parts (negsuc n) d = ground arith

-- What `//` and `%` are for: the numerator is the floor times the denominator, and the rest.
floor_rest :
    (n : ℤ) (d : ℕ)
    → 0 < d
    → (n ≡ times (floor_div n d) d +ℤ pos (floor_mod n d)) × (floor_mod n d < d)
unfolding floor_div floor_mod
floor_rest (pos n) d h =
    (omega (int_laws, times_parts (pos (n / d)) d, div-add-mod n d), mod-lt n h)
floor_rest (negsuc n) d h = (
  omega (int_laws, times_parts (negsuc (n / d)) d, div-add-mod n d, mod-lt n h),
  omega (arith, mod-lt n h),
)

times-next : (n : ℤ) (d : ℕ) → times (n +ℤ pos 1) d ≡ times n d +ℤ pos d
times-next n d =
    omega
      (int_laws, times_parts n d, times_parts (n +ℤ pos 1) d, ap (λ x. x * d) (+ℤ_parts n (pos 1)))

-- Twice the distance from `r` to the value is at most one, over the denominator.
abbrev pub IsNearest : ℤ → Fraction → Type 0
IsNearest r value =
    (times (times r value.denominator) 2 ≤ℤ times value.numerator 2 +ℤ pos value.denominator)
    × (times value.numerator 2 ≤ℤ times (times r value.denominator) 2 +ℤ pos value.denominator)

-- The same, read through the parts.
IsNearest-parts :
    (r : ℤ) (value : Fraction)
    → 2 * pos_part (times r value.denominator) + 2 * neg_part value.numerator
      ≤ 2 * neg_part (times r value.denominator) + 2 * pos_part value.numerator + value.denominator
    → 2 * neg_part (times r value.denominator) + 2 * pos_part value.numerator
      ≤ 2 * pos_part (times r value.denominator) + 2 * neg_part value.numerator + value.denominator
    → IsNearest r value
IsNearest-parts r value h k =
    omega (int_laws, h, k, times_parts (times r value.denominator) 2, times_parts value.numerator 2)

abbrev pub is_half : RoundingMode → Bool
is_half half_even = true
is_half half_up = true
is_half half_down = true
is_half _ = false

half_step :
    (n : ℤ) (d : ℕ) (b : Bool)
    → 0 < d
    → (r : ℤ) → r ≡ nearest (floor_div n d) (floor_mod n d) d (floor_if b (floor_div n d))
    → (2 * pos_part (times r d) + 2 * neg_part n ≤ 2 * neg_part (times r d) + 2 * pos_part n + d)
      × (2 * neg_part (times r d) + 2 * pos_part n ≤ 2 * pos_part (times r d) + 2 * neg_part n + d)
half_step n d b h r e =
    let (whole, small) = floor_rest n d h in
    rw e (
      ground (
        arith,
        ap pos_part whole,
        ap neg_part whole,
        +ℤ_parts (times (floor_div n d) d) (pos (floor_mod n d)),
        times-next (floor_div n d) d,
        +ℤ_parts (times (floor_div n d) d) (pos d),
        small,
      ))

nearest-IsNearest :
    (value : Fraction) (b : Bool)
    → 0 < value.denominator
    → IsNearest
        (nearest
          (floor_div value.numerator value.denominator)
          (floor_mod value.numerator value.denominator)
          value.denominator
          (floor_if b (floor_div value.numerator value.denominator)))
        value
nearest-IsNearest value b h =
    let (low, high) = half_step value.numerator value.denominator b h _ refl in
    IsNearest-parts _ value low high

whole-IsNearest : (value : Fraction) → value.denominator ≡ 1 → IsNearest value.numerator value
whole-IsNearest value h =
    IsNearest-parts value.numerator value
      (omega (
        arith,
        h,
        times_parts value.numerator value.denominator,
        ap (λ d. pos_part value.numerator * d) h,
        ap (λ d. neg_part value.numerator * d) h,
      ))
      (omega (
        arith,
        h,
        times_parts value.numerator value.denominator,
        ap (λ d. pos_part value.numerator * d) h,
        ap (λ d. neg_part value.numerator * d) h,
      ))

round_by-IsNearest :
    (value : Fraction) (mode : RoundingMode) (b : Bool)
    → 0 < value.denominator
    → is_half mode ≡ true
    → IsNearest
        (round_by mode b
          (floor_div value.numerator value.denominator)
          (floor_mod value.numerator value.denominator)
          value.denominator)
        value
unfolding round_by
round_by-IsNearest value half_even b h m =
    nearest-IsNearest value (floor_mod (floor_div value.numerator value.denominator) 2 == 0) h
round_by-IsNearest value half_up b h m = nearest-IsNearest value (not b) h
round_by-IsNearest value half_down b h m = nearest-IsNearest value b h
round_by-IsNearest value down b h m = cc
round_by-IsNearest value up b h m = cc
round_by-IsNearest value floor b h m = cc
round_by-IsNearest value ceiling b h m = cc

-- Under HALF_EVEN, HALF_UP and HALF_DOWN the result is a nearest integer to the value: with a
-- positive denominator it is at most one half away.
pub round_fraction-IsNearest :
    (value : Fraction) (mode : RoundingMode)
    → 0 < value.denominator
    → is_half mode ≡ true
    → IsNearest (round_fraction value mode) value
unfolding round_fraction
round_fraction-IsNearest value mode h m = elim (Bool-cases (value.denominator == 1)) [
  | inl one ↦ rw one (whole-IsNearest value (eq_of_test value.denominator 1 one))
  | inr more ↦ rw more (round_by-IsNearest value mode (at_least_none value) h m)
]

-- Not above the value, and one more is.
abbrev pub IsFloor : ℤ → Fraction → Type 0
IsFloor r value =
    (times r value.denominator ≤ℤ value.numerator)
    × (value.numerator <ℤ times (r +ℤ pos 1) value.denominator)

IsFloor-rest :
    (r : ℤ) (value : Fraction) (rest : ℕ)
    → value.numerator ≡ times r value.denominator +ℤ pos rest
    → rest < value.denominator
    → IsFloor r value
IsFloor-rest r value rest e h =
    let d = value.denominator in
    omega (
      int_laws,
      h,
      ap pos_part e,
      ap neg_part e,
      +ℤ_parts (times r d) (pos rest),
      ap pos_part (times-next r d),
      ap neg_part (times-next r d),
      +ℤ_parts (times r d) (pos d),
    )

times-one : (n : ℤ) → times n 1 ≡ n
times-one n = omega (int_laws, times_parts n 1)

whole-IsFloor : (value : Fraction) → value.denominator ≡ 1 → IsFloor value.numerator value
whole-IsFloor value h =
    IsFloor-rest value.numerator value 0
      (sym (times-one value.numerator)
        ∙ ap (times value.numerator) (sym h)
        ∙ omega (int_laws, +ℤ_parts (times value.numerator value.denominator) (pos 0)))
      (omega (arith, h))

-- FLOOR gives the greatest integer that the value reaches: with a positive denominator the result is
-- not above the value, and one more is.
pub round_fraction-IsFloor :
    (value : Fraction) → 0 < value.denominator → IsFloor (round_fraction value floor) value
unfolding round_fraction round_by
round_fraction-IsFloor value h = elim (Bool-cases (value.denominator == 1)) [
  | inl one ↦ rw one (whole-IsFloor value (eq_of_test value.denominator 1 one))
  | inr more ↦
      let (whole, small) = floor_rest value.numerator value.denominator h in
      rw more (
        IsFloor-rest (floor_div value.numerator value.denominator) value
          (floor_mod value.numerator value.denominator) whole small)
]
