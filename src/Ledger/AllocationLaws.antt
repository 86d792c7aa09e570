-- ===== src/Ledger/AllocationLaws.antt =====
-- src/ledgergate/ledger/money.py: the parts of an allocation come to the whole.
use ledgergate.Base.{
  ℕ, zero, suc, ◌+◌, ◌-◌, ◌*◌, ◌%◌, ◌≤◌, ◌<◌, ◌≡◌, refl, sym, ap, ◌∙◌, List, [], ◌∷◌, map, arith,
  take, length, All, test_self, any, ◌==◌, nat_eq, false,
}
use native.Mathlib.Nat.{div-add-mod, mod-lt, le_of_mul-le-mul_left, mul_comm, mul-add}
use ledgergate.Int.{ℤ, pos, negsuc, ◌+ℤ◌, neg, abs, pos_part, ltb_ℤ}
use ledgergate.Errors.{ok}
use ledgergate.Ledger.Fraction.{with_sign}
use ledgergate.Ledger.Currency.{currency_eq}
use ledgergate.Ledger.Money.{Money, total, total_from, add_money, same_currency, zero_money}
use ledgergate.Ledger.Allocation.{
  sum_ℕ, floor_shares, remainders_from, insert_ranked, ranked, bump, bump_all, parts_of, allocate,
  ones, split,
}

-- The sum of the remainders' numerators.
abbrev rest_of : ℕ → ℕ → List ℕ → ℕ
rest_of m t [] = 0
rest_of m t (r ∷ rs) = m * r % t + rest_of m t rs

sum_floor_shares :
    (m t : ℕ) (rs : List ℕ) → t * sum_ℕ (floor_shares m t rs) + rest_of m t rs ≡ m * sum_ℕ rs
unfolding floor_shares
sum_floor_shares m t [] = omega arith
sum_floor_shares m t (r ∷ rs) = omega (arith, sum_floor_shares m t rs, div-add-mod (m * r) t)

rest_of-le : (m t : ℕ) (rs : List ℕ) → 0 < t → rest_of m t rs + length rs ≤ length rs * t
rest_of-le m t [] h = omega arith
rest_of-le m t (r ∷ rs) h = omega (arith, rest_of-le m t rs h, mod-lt (m * r) h)

length-remainders_from : (m t i : ℕ) (rs : List ℕ) → length (remainders_from m t i rs) ≡ length rs
unfolding remainders_from
length-remainders_from m t i [] = refl
length-remainders_from m t i (r ∷ rs) = ap suc (length-remainders_from m t (suc i) rs)

abbrev Below : ℕ → ℕ × ℕ → Type 0
Below n x = x.0 < n

remainders_from-Below :
    (m t i n : ℕ) (rs : List ℕ) → i + length rs ≤ n → All (Below n) (remainders_from m t i rs)
unfolding remainders_from
remainders_from-Below m t i n [] h = tt
remainders_from-Below m t i n (r ∷ rs) h =
    (omega arith, remainders_from-Below m t (suc i) n rs (omega arith))

length-insert_ranked :
    (x : ℕ × ℕ) (xs : List (ℕ × ℕ)) → length (insert_ranked x xs) ≡ suc (length xs)
unfolding insert_ranked
length-insert_ranked x [] = refl
length-insert_ranked x (y ∷ ys) = ground (arith, length-insert_ranked x ys)

length-ranked : (xs : List (ℕ × ℕ)) → length (ranked xs) ≡ length xs
unfolding ranked
length-ranked [] = refl
length-ranked (x ∷ xs) = length-insert_ranked x (ranked xs) ∙ ap suc (length-ranked xs)

insert_ranked-Below :
    (n : ℕ) (x : ℕ × ℕ) (xs : List (ℕ × ℕ))
    → Below n x
    → All (Below n) xs
    → All (Below n) (insert_ranked x xs)
unfolding insert_ranked
insert_ranked-Below n x [] h hs = (h, tt)
insert_ranked-Below n x (y ∷ ys) h hs = ground (arith, insert_ranked-Below n x ys h hs.1)

ranked-Below : (n : ℕ) (xs : List (ℕ × ℕ)) → All (Below n) xs → All (Below n) (ranked xs)
unfolding ranked
ranked-Below n [] h = tt
ranked-Below n (x ∷ xs) h = insert_ranked-Below n x (ranked xs) h.0 (ranked-Below n xs h.1)

take-Below : (n k : ℕ) (xs : List (ℕ × ℕ)) → All (Below n) xs → All (Below n) (take k xs)
take-Below n zero xs h = tt
take-Below n (suc k) [] h = tt
take-Below n (suc k) (x ∷ xs) h = (h.0, take-Below n k xs h.1)

length-take : (k : ℕ) (xs : List (ℕ × ℕ)) → k ≤ length xs → length (take k xs) ≡ k
length-take zero xs h = refl
length-take (suc k) [] h = omega arith
length-take (suc k) (x ∷ xs) h = ap suc (length-take k xs (omega arith))

length-bump : (i : ℕ) (shares : List ℕ) → length (bump i shares) ≡ length shares
unfolding bump
length-bump i [] = refl
length-bump zero (s ∷ shares) = refl
length-bump (suc i) (s ∷ shares) = ap suc (length-bump i shares)

sum-bump :
    (i : ℕ) (shares : List ℕ) → i < length shares → sum_ℕ (bump i shares) ≡ suc (sum_ℕ shares)
unfolding bump
sum-bump i [] h = omega arith
sum-bump zero (s ∷ shares) h = omega arith
sum-bump (suc i) (s ∷ shares) h = omega (arith, sum-bump i shares (omega arith))

sum-bump_all :
    (n : ℕ) (xs : List (ℕ × ℕ)) (shares : List ℕ)
    → length shares ≡ n
    → All (Below n) xs
    → sum_ℕ (bump_all xs shares) ≡ sum_ℕ shares + length xs
unfolding bump_all
sum-bump_all n [] shares e h = omega arith
sum-bump_all n (x ∷ xs) shares e h = omega (
  arith,
  sum-bump_all n xs (bump x.0 shares) (length-bump x.0 shares ∙ e) h.1,
  sum-bump x.0 shares (omega (arith, e, h.0)),
)

length-floor_shares : (m t : ℕ) (rs : List ℕ) → length (floor_shares m t rs) ≡ length rs
unfolding floor_shares
length-floor_shares m t [] = refl
length-floor_shares m t (r ∷ rs) = ap suc (length-floor_shares m t rs)

-- With a positive total, the units left over are at most as many as the ratios.
leftover_fits : (m t f r n : ℕ) → 0 < t → t * f + r ≡ m * t → r + n ≤ n * t → (f ≤ m) × (m - f ≤ n)
leftover_fits m t f r n h whole small =
    let below : f ≤ m = le_of_mul-le-mul_left {k = t} (omega (arith, mul_comm m t)) h in
    let split : t * f + t * (m - f) ≡ t * m =
      sym (mul-add t f (m - f)) ∙ ap (λ x. t * x) (omega arith) in
    (below, le_of_mul-le-mul_left {k = t} (omega (arith, split, mul_comm m t, mul_comm n t)) h)

-- The parts come to the magnitude that was divided.
pub sum-parts_of : (m : ℕ) (rs : List ℕ) → 0 < sum_ℕ rs → sum_ℕ (parts_of m rs) ≡ m
unfolding parts_of
sum-parts_of m rs h =
    let t = sum_ℕ rs in
    let f = sum_ℕ (floor_shares m t rs) in
    let order = ranked (remainders_from m t 0 rs) in
    let long : length order ≡ length rs =
      length-ranked (remainders_from m t 0 rs) ∙ length-remainders_from m t 0 rs in
    let (below, fits) =
      leftover_fits m t f (rest_of m t rs) (length rs) h (sum_floor_shares m t rs)
        (rest_of-le m t rs h) in
    let ok_indices =
      take-Below (length rs) (m - f) order
        (ranked-Below (length rs) _ (remainders_from-Below m t 0 (length rs) rs (omega arith))) in
    omega (
      arith,
      sum-bump_all (length rs) (take (m - f) order) (floor_shares m t rs)
          (length-floor_shares m t rs) ok_indices,
      length-take (m - f) order (omega (arith, long, fits)),
      below,
    )

length-bump_all :
    (xs : List (ℕ × ℕ)) (shares : List ℕ) → length (bump_all xs shares) ≡ length shares
unfolding bump_all
length-bump_all [] shares = refl
length-bump_all (x ∷ xs) shares = length-bump_all xs (bump x.0 shares) ∙ length-bump x.0 shares

length-parts_of : (m : ℕ) (rs : List ℕ) → length (parts_of m rs) ≡ length rs
unfolding parts_of
length-parts_of m rs =
    length-bump_all
      (take (m - sum_ℕ (floor_shares m (sum_ℕ rs) rs)) (ranked (remainders_from m (sum_ℕ rs) 0 rs)))
      (floor_shares m (sum_ℕ rs) rs)
    ∙ length-floor_shares m (sum_ℕ rs) rs

length-map : {A B : Type 0} (f : A → B) (xs : List A) → length (map f xs) ≡ length xs
length-map f [] = refl
length-map f (x ∷ xs) = ap suc (length-map f xs)

-- A total of parts that carry one sign and one currency.
abbrev signed_part : Money → ℕ → Money
signed_part m s = record { amount = with_sign m.amount s; currency = m.currency }

with_sign-+ : (a : ℤ) (m n : ℕ) → with_sign a m +ℤ with_sign a n ≡ with_sign a (m + n)
unfolding neg ◌+ℤ◌
with_sign-+ (pos _) m n = ground arith
with_sign-+ (negsuc _) m n = ground arith

with_sign-abs : (a : ℤ) → with_sign a (abs a) ≡ a
unfolding neg
with_sign-abs (pos n) = ap pos (omega arith)
with_sign-abs (negsuc n) = ground arith

total_from-signed_part :
    (m : Money) (n : ℕ) (ss : List ℕ)
    → total_from (signed_part m n) (map (signed_part m) ss) ≡ ok (signed_part m (n + sum_ℕ ss))
unfolding total_from add_money same_currency
total_from-signed_part m n [] = ap (λ k. ok (signed_part m k)) (omega arith)
total_from-signed_part m n (s ∷ ss) =
    rw (test_self m.currency, with_sign-+ m.amount n s, total_from-signed_part m (n + s) ss)
      (ap (λ k. ok (signed_part m k)) (omega arith))

total-signed_part :
    (m : Money) (ss : List ℕ)
    → sum_ℕ ss ≡ abs m.amount
    → total (map (signed_part m) ss) m.currency ≡ ok m
unfolding total neg
total-signed_part m ss h =
    let zero_part : zero_money m.currency ≡ signed_part m 0 = ground arith in
    let whole : 0 + sum_ℕ ss ≡ abs m.amount = omega (arith, h) in
    ap (λ z. total_from z (map (signed_part m) ss)) zero_part
    ∙ total_from-signed_part m 0 ss
    ∙ ap (λ n. ok (signed_part m n)) whole
    ∙ ap (λ (a : ℤ). ok (record m { amount = a })) (with_sign-abs m.amount)

-- The ratios that `allocate` accepts: none negative, and not all zero.
abbrev pub AreRatios : List ℤ → Type 0
AreRatios ratios = (any (λ r. ltb_ℤ r (pos 0)) ratios ≡ false) × (0 < sum_ℕ (map pos_part ratios))

not_empty : (rs : List ℤ) → 0 < sum_ℕ (map pos_part rs) → (length rs == 0) ≡ false
not_empty [] h = ground arith
not_empty (r ∷ rs) h = ground arith

positive_total : (n : ℕ) → 0 < n → (n == 0) ≡ false
positive_total n h = ground arith

-- For ratios none of which is negative and not all of which are zero, `allocate` returns parts, one
-- to each ratio, and their total is exactly the money that was divided.
pub allocate_conserves :
    (m : Money) (ratios : List ℤ)
    → AreRatios ratios
    → (parts : List Money) × (allocate m ratios ≡ ok parts)
      × (length parts ≡ length ratios)
      × (total parts m.currency ≡ ok m)
unfolding allocate
allocate_conserves m ratios h =
    let shares = parts_of (abs m.amount) (map pos_part ratios) in
    (
      map (signed_part m) shares,
      rw (not_empty ratios h.1, h.0, positive_total _ h.1),
      length-map (signed_part m) shares
          ∙ length-parts_of (abs m.amount) (map pos_part ratios)
          ∙ length-map pos_part ratios,
      total-signed_part m shares (sum-parts_of (abs m.amount) (map pos_part ratios) h.1),
    )

ones-AreRatios : (n : ℕ) → AreRatios (ones (suc n))
unfolding ones
ones-AreRatios zero = (refl, omega arith)
ones-AreRatios (suc n) = ((ones-AreRatios n).0, omega arith)

length-ones : (n : ℕ) → length (ones n) ≡ n
unfolding ones
length-ones zero = refl
length-ones (suc n) = ap suc (length-ones n)

-- Money split into one or more parts gives that many, and their total is exactly the money.
pub split_conserves :
    (m : Money) (n : ℕ)
    → 0 < n
    → (parts : List Money) × (split m (pos n) ≡ ok parts)
      × (length parts ≡ n)
      × (total parts m.currency ≡ ok m)
unfolding split
split_conserves m zero h = ground arith
split_conserves m (suc n) h =
    let (parts, made, long, whole) = allocate_conserves m (ones (suc n)) (ones-AreRatios n) in
    let enough : ltb_ℤ (pos (suc n)) (pos 1) ≡ false = ground arith in
    (parts, rw enough made, long ∙ length-ones (suc n), whole)
