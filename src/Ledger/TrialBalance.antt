-- ===== src/Ledger/TrialBalance.antt =====
-- src/ledgergate/ledger/state.py: the trial balance of every ledger that is reached is balanced.
use ledgergate.Base.{
  ◌≡◌, refl, sym, ap, ◌∙◌, true, Option, none, some, List, [], ◌∷◌, arith, ◌==◌, if◌then◌else◌,
  list_eq, nat_eq, test_self, Bool-cases, inl, inr, eq_of_test, not_test_sym, All, map,
}
use ledgergate.Int.{ℤ, pos, ◌+ℤ◌, ◌-ℤ◌, neg, pos_part, neg_part, int_eq, int_laws}
use ledgergate.Dict.{Dict, lookup, insert, get_or, lookup-insert}
use ledgergate.Dict.Distinct.{Distinct, insert-Distinct}
use ledgergate.Errors.{ok}
use ledgergate.Ledger.Currency.{Currency, currency_eq}
use ledgergate.Ledger.Money.{Money, money_eq, zero_money, add_money, same_currency}
use ledgergate.Ledger.Accounts.{Account, Chart, accounts_of, make_chart}
use ledgergate.Ledger.Chart.{IsFiled, make_chart-IsChart}
use ledgergate.Ledger.Encoding.{Platform}
use ledgergate.Ledger.Commands.{
  Ledger, empty_ledger, TrialBalanceRow, at_least_zero, trial_row, trial_balance, totals_from,
  totals, all_equal, is_balanced,
}
use ledgergate.Ledger.State.{Effects}
use ledgergate.Ledger.Reach.{Reach}
use ledgergate.Ledger.Books.{chart_sum, read, Reach-SumsToZero}

abbrev Totals : Type 0
Totals = Dict Currency (Money × Money)

abbrev difference : Money × Money → ℤ
difference (d, c) = d.amount -ℤ c.amount

-- Debits less credits that are totalled in a currency.
abbrev gap_of : Option (Money × Money) → ℤ
gap_of none = pos 0
gap_of (some t) = difference t

gap : Currency → Totals → ℤ
gap c out = gap_of (lookup c out)

abbrev InCurrency : Totals → Type 0
InCurrency [] = Unit
InCurrency ((c, (d, k)) ∷ out) = (d.currency ≡ c) × (k.currency ≡ c) × InCurrency out

abbrev IsRow : TrialBalanceRow → Type 0
IsRow row =
    (row.debit_side.currency ≡ row.account.currency)
    × (row.credit_side.currency ≡ row.account.currency)

abbrev rows_gap : Currency → List TrialBalanceRow → ℤ
rows_gap c [] = pos 0
rows_gap c (row ∷ rows) =
    (if row.account.currency == c then row.debit_side.amount -ℤ row.credit_side.amount else pos 0)
    +ℤ rows_gap c rows

add_money-ok :
    (a b : Money) (c : Currency)
    → a.currency ≡ c
    → b.currency ≡ c
    → add_money a b ≡ ok (record { amount = a.amount +ℤ b.amount; currency = c })
unfolding add_money same_currency
add_money-ok a b c p q =
    rw (p, q, test_self c)
      (ap (λ k. ok (record { amount = a.amount +ℤ b.amount; currency = k })) refl)

insert-InCurrency :
    (c : Currency) (d k : Money) (out : Totals)
    → d.currency ≡ c
    → k.currency ≡ c
    → InCurrency out
    → InCurrency (insert c (d, k) out)
unfolding insert
insert-InCurrency c d k [] p q h = (p, q, tt)
insert-InCurrency c d k ((b, t) ∷ out) p q h =
    ground (arith, insert-InCurrency c d k out p q h.2, eq_of_test c b)

get_or-InCurrency :
    (c : Currency) (out : Totals)
    → InCurrency out
    → let t = get_or c (zero_money c, zero_money c) out in
      (t.0.currency ≡ c) × (t.1.currency ≡ c) × (gap c out ≡ difference t)
unfolding get_or lookup gap
get_or-InCurrency c [] h = (refl, refl, omega int_laws)
get_or-InCurrency c ((b, t) ∷ out) h = ground (arith, get_or-InCurrency c out h.2, eq_of_test c b)

eq_of_difference :
    (x y : Money) (c : Currency)
    → x.currency ≡ c
    → y.currency ≡ c
    → x.amount -ℤ y.amount ≡ pos 0
    → x ≡ y
eq_of_difference x y c p q h =
    let same : x.amount ≡ y.amount = omega (int_laws, ap pos_part h, ap neg_part h) in
    λ i. record { amount = same i; currency = (p ∙ sym q) i }

-- A dictionary's tail has the differences of the whole at every key.
gap-tail :
    (c : Currency) (t : Money × Money) (out : Totals)
    → lookup c out ≡ none
    → ((k : Currency) → gap k ((c, t) ∷ out) ≡ pos 0)
    → (k : Currency) → gap k out ≡ pos 0
unfolding gap lookup
gap-tail c t out d h k = elim (Bool-cases (k == c)) [
  | inl same ↦ ap (λ j. gap_of (lookup j out)) (eq_of_test k c same) ∙ ap gap_of d
  | inr other ↦ rw other at (h k)
]

gap-head : (c : Currency) (t : Money × Money) (out : Totals) → difference t ≡ gap c ((c, t) ∷ out)
unfolding gap lookup
gap-head c t out = rw (test_self c)

all_equal_of_gaps :
    (out : Totals)
    → InCurrency out
    → Distinct out
    → ((c : Currency) → gap c out ≡ pos 0)
    → all_equal out ≡ true
unfolding all_equal
all_equal_of_gaps [] i d h = refl
all_equal_of_gaps ((c, (x, y)) ∷ out) i d h =
    let first = eq_of_difference x y c i.0 i.1 (gap-head c (x, y) out ∙ h c) in
    rw (first, test_self y) (all_equal_of_gaps out i.2 d.1 (gap-tail c (x, y) out d.0 h))

-- One row adds its debits less its credits to its currency.
gap-insert :
    (c b : Currency) (t : Money × Money) (out : Totals)
    → gap c (insert b t out) ≡ (if c == b then difference t else gap c out)
unfolding gap
gap-insert c b t out = ground (arith, lookup-insert b c t out)

regroup : (a b c d n : ℤ) → a +ℤ b -ℤ (c +ℤ d) +ℤ n ≡ a -ℤ c +ℤ (b -ℤ d +ℤ n)
regroup a b c d n = omega int_laws

module _ (row : TrialBalanceRow) (out : Totals) (w : IsRow row) (h : InCurrency out) where
  abbrev cur : Currency
  cur = row.account.currency

  abbrev old : Money × Money
  old = get_or cur (zero_money cur, zero_money cur) out

  abbrev raised_totals : Money × Money
  raised_totals = (
    record { amount = old.0.amount +ℤ row.debit_side.amount; currency = cur },
    record { amount = old.1.amount +ℤ row.credit_side.amount; currency = cur },
  )

  totals_from-cons :
      (rows : List TrialBalanceRow)
      → totals_from out (row ∷ rows) ≡ totals_from (insert cur raised_totals out) rows
  unfolding totals_from
  totals_from-cons rows =
      let (p, q, _) = get_or-InCurrency cur out h in
      rw (add_money-ok old.0 row.debit_side cur p w.0, add_money-ok old.1 row.credit_side cur q w.1)

  gap-old : gap cur out ≡ difference old
  gap-old = (get_or-InCurrency cur out h).2

  gap-raised :
      (c : Currency) (n : ℤ)
      → gap c (insert cur raised_totals out) +ℤ n
        ≡ gap c out
          +ℤ ((if cur == c then row.debit_side.amount -ℤ row.credit_side.amount else pos 0) +ℤ n)
  gap-raised c n = elim (Bool-cases (cur == c)) [
    | inl same ↦
        let e = eq_of_test cur c same in
        rw (gap-insert c cur raised_totals out, same, ← e, test_self cur, gap-old)
          (regroup old.0.amount row.debit_side.amount old.1.amount row.credit_side.amount n)
    | inr other ↦
        rw (gap-insert c cur raised_totals out, other, not_test_sym cur c other) (omega int_laws)
  ]

-- Totalling rows raises no error, and adds the differences of the rows.
totals_from-gaps :
    (out : Totals) (rows : List TrialBalanceRow)
    → All IsRow rows
    → InCurrency out
    → Distinct out
    → (after : Totals) × (totals_from out rows ≡ ok after)
      × InCurrency after
      × Distinct after
      × ((c : Currency) → gap c after ≡ gap c out +ℤ rows_gap c rows)
unfolding totals_from
totals_from-gaps out [] w i d = (out, refl, i, d, λ c. omega int_laws)
totals_from-gaps out (row ∷ rows) w i d =
    let next = insert (cur row out w.0 i) (raised_totals row out w.0 i) out in
    let (after, done, i', d', gaps) =
      totals_from-gaps next rows w.1 (insert-InCurrency _ _ _ out refl refl i)
        (insert-Distinct _ _ out d) in
    (
      after,
      totals_from-cons row out w.0 i rows ∙ done,
      i',
      d',
      λ c. gaps c ∙ gap-raised row out w.0 i c (rows_gap c rows),
    )

at_least_zero-difference : (n : ℤ) → at_least_zero n -ℤ at_least_zero (neg n) ≡ n
unfolding at_least_zero neg ◌-ℤ◌
at_least_zero-difference n = ground arith

gap-empty : (c : Currency) (n : ℤ) → gap c [] +ℤ n ≡ n
unfolding gap lookup
gap-empty c n = omega int_laws

trial_row-difference :
    (l : Ledger) (a : Account)
    → (trial_row l a).debit_side.amount -ℤ (trial_row l a).credit_side.amount
      ≡ read l.balances a.account_id
unfolding trial_row
trial_row-difference l a = at_least_zero-difference (read l.balances a.account_id)

trial_row-account : (l : Ledger) (a : Account) → (trial_row l a).account ≡ a
unfolding trial_row
trial_row-account l a = refl

rows-IsRow : (l : Ledger) (chart : Chart) → All IsRow (map (trial_row l) (accounts_of chart))
unfolding trial_row accounts_of
rows-IsRow l [] = tt
rows-IsRow l (e ∷ chart) = ((refl, refl), rows-IsRow l chart)

rows_gap-chart_sum :
    (l : Ledger) (c : Currency) (chart : Chart)
    → IsFiled chart
    → rows_gap c (map (trial_row l) (accounts_of chart)) ≡ chart_sum c (read l.balances) chart
unfolding accounts_of
rows_gap-chart_sum l c [] h = refl
rows_gap-chart_sum l c ((k, a) ∷ chart) h =
    rw (rows_gap-chart_sum l c chart h.1, trial_row-difference l a, trial_row-account l a, h.0)

-- The trial balance of a ledger whose balances come to nothing is balanced.
trial_balance-is_balanced :
    (l : Ledger)
    → IsFiled l.chart
    → ((c : Currency) → chart_sum c (read l.balances) l.chart ≡ pos 0)
    → is_balanced (trial_balance l) ≡ ok true
unfolding is_balanced trial_balance totals
trial_balance-is_balanced l h zero_sum =
    let rows = map (trial_row l) (accounts_of l.chart) in
    let (after, done, i, d, gaps) = totals_from-gaps [] rows (rows-IsRow l l.chart) tt tt in
    rw done (
      ap ok (
        all_equal_of_gaps after i d (λ c.
          gaps c
          ∙ ap (λ n. gap c [] +ℤ n) (rows_gap-chart_sum l c l.chart h)
          ∙ gap-empty c (chart_sum c (read l.balances) l.chart)
          ∙ zero_sum c)))

module _ (platform : Platform) {W : Type 0} (effects : Effects W) where
  -- Over a chart that was constructed, the trial balance of every ledger that calls of `execute` lead
  -- to can be totalled, and is balanced: in every currency debits equal credits.
  pub trial_balance-Reach :
      (accounts : List Account) {chart : Chart} {l : Ledger}
      → make_chart accounts ≡ ok chart
      → Reach platform effects (empty_ledger chart) l
      → is_balanced (trial_balance l) ≡ ok true
  trial_balance-Reach accounts {chart} {l} made r =
      let (charted, zero_sum) =
        Reach-SumsToZero platform effects (make_chart-IsChart accounts chart made).0 r in
      trial_balance-is_balanced l charted.filed zero_sum
