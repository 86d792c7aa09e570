-- ===== src/Ledger/Allocation.antt =====
-- src/ledgergate/ledger/money.py: `allocate` and `split`, by the largest-remainder method.
use ledgergate.Base.{
  ℕ, zero, suc, ◌+◌, ◌-◌, ◌*◌, ◌/◌, ◌%◌, Bool, ◌&&◌, ◌||◌, List, [], ◌∷◌, map, ◌==◌, nat_eq,
  if◌then◌else◌, ltb, take, any, length,
}
use ledgergate.Int.{ℤ, pos, pos_part, abs, ltb_ℤ}
use ledgergate.Errors.{
  Result, ok, ◌>>◌, raise_if, invalid_amount, bad_ratios, zero_ratios, no_parts,
}
use ledgergate.Ledger.Fraction.{with_sign}
use ledgergate.Ledger.Money.{Money}

-- `sum(xs)` of numbers that are not negative
abbrev pub sum_ℕ : List ℕ → ℕ
sum_ℕ [] = 0
sum_ℕ (x ∷ xs) = x + sum_ℕ xs

-- `[magnitude * r // total for r in ratios]`
unfoldable pub floor_shares : ℕ → ℕ → List ℕ → List ℕ
floor_shares magnitude total [] = []
floor_shares magnitude total (r ∷ rs) = magnitude * r / total ∷ floor_shares magnitude total rs

-- Each index with its remainder, as a numerator over `total`.
unfoldable pub remainders_from : ℕ → ℕ → ℕ → List ℕ → List (ℕ × ℕ)
remainders_from magnitude total i [] = []
remainders_from magnitude total i (r ∷ rs) =
    (i, magnitude * r % total) ∷ remainders_from magnitude total (suc i) rs

-- The sort key `(-remainders[i], i)`: larger remainders first, then smaller indices.
abbrev pub goes_before : ℕ × ℕ → ℕ × ℕ → Bool
goes_before x y = ltb y.1 x.1 || (x.1 == y.1 && ltb x.0 y.0)

unfoldable pub insert_ranked : ℕ × ℕ → List (ℕ × ℕ) → List (ℕ × ℕ)
insert_ranked x [] = x ∷ []
insert_ranked x (y ∷ ys) =
    let rest = insert_ranked x ys in if goes_before x y then x ∷ y ∷ ys else y ∷ rest

-- `sorted(range(len(ratios)), key=...)`
unfoldable pub ranked : List (ℕ × ℕ) → List (ℕ × ℕ)
unfolding insert_ranked
ranked [] = []
ranked (x ∷ xs) = insert_ranked x (ranked xs)

-- `shares[index] += 1`
unfoldable pub bump : ℕ → List ℕ → List ℕ
bump i [] = []
bump zero (s ∷ shares) = suc s ∷ shares
bump (suc i) (s ∷ shares) = s ∷ bump i shares

unfoldable pub bump_all : List (ℕ × ℕ) → List ℕ → List ℕ
unfolding bump
bump_all [] shares = shares
bump_all (x ∷ xs) shares = bump_all xs (bump x.0 shares)

-- The parts of a magnitude, in the order of the ratios.
unfoldable pub parts_of : ℕ → List ℕ → List ℕ
unfolding floor_shares remainders_from ranked bump_all
parts_of magnitude ratios =
    let total = sum_ℕ ratios in
    let shares = floor_shares magnitude total ratios in
    let leftover = magnitude - sum_ℕ shares in
    bump_all (take leftover (ranked (remainders_from magnitude total 0 ratios))) shares

-- `money.allocate(ratios)`; past the first test every ratio is a number.
unfoldable pub allocate : Money → List ℤ → Result (List Money)
unfolding parts_of
allocate m ratios = do
  raise_if (length ratios == 0 || any (λ r. ltb_ℤ r (pos 0)) ratios) (invalid_amount bad_ratios)
  let weights = map pos_part ratios
  raise_if (sum_ℕ weights == 0) (invalid_amount zero_ratios)
  ok (
      map (λ s. record { amount = with_sign m.amount s; currency = m.currency })
        (parts_of (abs m.amount) weights))

-- `[1] * parts`
unfoldable pub ones : ℕ → List ℤ
ones zero = []
ones (suc n) = pos 1 ∷ ones n

-- `money.split(parts)`
unfoldable pub split : Money → ℤ → Result (List Money)
unfolding allocate ones
split m parts = do
  raise_if (ltb_ℤ parts (pos 1)) (invalid_amount no_parts)
  allocate m (ones (pos_part parts))
