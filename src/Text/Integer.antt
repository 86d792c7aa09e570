-- ===== src/Text/Integer.antt =====
-- `str(n)` of any `int`, and `int(s)` of what it writes. `int` reads other spellings too (blanks, `+`,
-- underscores, other scripts' digits): none of them is ever written where it is read here.
use ledgergate.Base.{
  subst, ◌≤◌, ◌%◌, ◌/◌, ℕ, suc, ◌+◌, ◌≡◌, refl, sym, ap, ◌∙◌, Bool, true, false, ◌&&◌, Option, none,
  some, [], ◌∷◌, ◌++◌, arith, ◌==◌, nat_eq, leb, ltb, if◌then◌else◌, All, Bool-cases, inl, inr,
  eq_of_some, ℕ_discrete,
}
use ledgergate.Text.{Text}
use ledgergate.Text.Decimal.{
  decimal, decimal_fuel, read_from, read_from-decimal, decimal-All, IsDigit,
}
use ledgergate.Int.{ℤ, pos, negsuc, neg}

-- `str(n)`
unfoldable pub show_int : ℤ → Text
unfolding decimal
show_int (pos n) = decimal n
show_int (negsuc n) = b'-' ∷ decimal (suc n)

unfoldable pub all_digits : Text → Bool
all_digits [] = true
all_digits (c ∷ cs) = let rest = all_digits cs in leb 48 c && leb c 57 && rest

-- One digit or more.
unfoldable pub read_digits : Text → Option ℕ
unfolding all_digits read_from
read_digits [] = none
read_digits (c ∷ cs) = if all_digits (c ∷ cs) then some (read_from 0 (c ∷ cs)) else none

-- `int(s)`
unfoldable pub read_int : Text → Option ℤ
unfolding read_digits neg
read_int [] = none
read_int (c ∷ cs) =
    if c == b'-'
    then elim (read_digits cs) [ none ↦ none | some n ↦ some (neg (pos n)) ]
    else elim (read_digits (c ∷ cs)) [ none ↦ none | some n ↦ some (pos n) ]

all_digits-All : (s : Text) → All IsDigit s → all_digits s ≡ true
unfolding all_digits
all_digits-All [] h = refl
all_digits-All (c ∷ cs) h = ground (arith, all_digits-All cs h.1)

pub decimal-cons : (n : ℕ) → (c : ℕ) × (cs : Text) × (decimal n ≡ c ∷ cs)
unfolding decimal decimal_fuel
decimal-cons n = elim (Bool-cases (ltb n 10)) [
  | inl small ↦ (48 + n, [], rw small)
  | inr big ↦ snoc (decimal_fuel n (n / 10)) (48 + n % 10) (rw big)
]
  where
    snoc : {t : Text} (s : Text) (d : ℕ) → t ≡ s ++ d ∷ [] → (c : ℕ) × (cs : Text) × (t ≡ c ∷ cs)
    snoc [] d h = (d, [], h)
    snoc (c ∷ s) d h = (c, s ++ d ∷ [], h)

read_digits-decimal : (n : ℕ) → read_digits (decimal n) ≡ some n
unfolding read_digits
read_digits-decimal n =
    let (c, cs, e) = decimal-cons n in
    let digits : all_digits (c ∷ cs) ≡ true =
      ap all_digits (sym e) ∙ all_digits-All (decimal n) (decimal-All n) in
    ap read_digits e
    ∙ rw digits (ap (λ s. some (read_from 0 s)) (sym e) ∙ ap some (read_from-decimal n))

read_int-natural :
    (s : Text) (n c : ℕ) (cs : Text)
    → s ≡ c ∷ cs
    → All IsDigit s
    → read_digits s ≡ some n
    → read_int s ≡ some (pos n)
unfolding read_int
read_int-natural s n c cs e d h =
    let digit : (48 ≤ c) × (c ≤ 57) = (subst (All IsDigit) e d).0 in
    let other : (c == b'-') ≡ false = ground (arith, digit) in
    ap read_int e ∙ rw (other, sym (ap read_digits e) ∙ h)

read_int-negative : (n : ℕ) → read_int (b'-' ∷ decimal (suc n)) ≡ some (negsuc n)
unfolding read_int neg ℕ_discrete
read_int-negative n = rw (read_digits-decimal (suc n)) (ground arith)

-- Reading what was printed gives the integer back.
pub read_int-show_int : (n : ℤ) → read_int (show_int n) ≡ some n
unfolding show_int
read_int-show_int (pos n) =
    let (c, cs, e) = decimal-cons n in
    read_int-natural (decimal n) n c cs e (decimal-All n) (read_digits-decimal n)
read_int-show_int (negsuc n) = read_int-negative n

pub show_int-injective : (m n : ℤ) → show_int m ≡ show_int n → m ≡ n
show_int-injective m n h =
    eq_of_some (sym (read_int-show_int m) ∙ ap read_int h ∙ read_int-show_int n)
