-- ===== src/Ledger/Chart.antt =====
-- src/ledgergate/ledger/accounts.py: a chart that was constructed files every account under its id,
-- once, and gives one exponent to each currency code.
use ledgergate.Base.{
  ℕ, ◌≡◌, refl, sym, ap, ◌∙◌, not, some, List, [], ◌∷◌, arith, ◌==◌, list_eq, nat_eq, eq_of_test,
  Bool-cases, eq_of_some, eq_of_not_test, inl, inr, subst,
}
use ledgergate.Text.{Text}
use ledgergate.Dict.{Dict, lookup, insert, lookup-insert, lookup-insert_self, contains, get_or}
use ledgergate.Dict.Distinct.{Distinct, insert-Distinct}
use ledgergate.Errors.{ok, raise_if, raise_if-ok, >>=-eq-ok, ok-injective}
use ledgergate.Ledger.Accounts.{Account, Chart, get_account, index_accounts, make_chart}

-- Every account is filed under its own id.
abbrev pub IsFiled : Chart → Type 0
IsFiled [] = Unit
IsFiled ((k, a) ∷ chart) = (a.account_id ≡ k) × IsFiled chart

pub record IsChart (chart : Chart) : Type 0 where
  pub filed : IsFiled chart
  pub distinct : Distinct chart

insert-IsFiled :
    (a : Account) (chart : Chart) → IsFiled chart → IsFiled (insert a.account_id a chart)
unfolding insert
insert-IsFiled a [] h = (refl, tt)
insert-IsFiled a ((k, b) ∷ chart) h =
    ground (arith, insert-IsFiled a chart h.1, eq_of_test a.account_id k)

lookup-IsFiled :
    (k : Text) (a : Account) (chart : Chart)
    → IsFiled chart
    → lookup k chart ≡ some a
    → a.account_id ≡ k
unfolding lookup
lookup-IsFiled k a [] h e = cc
lookup-IsFiled k a ((j, b) ∷ chart) h e = elim (Bool-cases (k == j)) [
  | inl here ↦
      let found : b ≡ a = eq_of_some (rw here at e) in
      rw (← found) (h.0 ∙ sym (eq_of_test k j here))
  | inr there ↦ lookup-IsFiled k a chart h.1 (rw there at e)
]

-- An account that a chart returns has the id that was asked for.
pub get_account-id :
    (chart : Chart) (k : Text) {a : Account}
    → IsChart chart
    → get_account chart k ≡ ok a
    → (a.account_id ≡ k) × (lookup k chart ≡ some a)
unfolding get_account
get_account-id chart k {a} h e =
    let found : lookup k chart ≡ some a = ground arith in
    (lookup-IsFiled k a chart h.filed found, found)

-- The exponents seen so far are those of the accounts filed so far.
abbrev Agrees : Dict Text ℕ → Chart → Type 0
Agrees exponents [] = Unit
Agrees exponents ((_, a) ∷ chart) =
    (lookup a.currency.code exponents ≡ some a.currency.exponent) × Agrees exponents chart

-- No currency code stands for two exponents.
abbrev pub IsCoherent : Chart → Type 0
IsCoherent chart =
    (j k : Text) (a b : Account)
    → lookup j chart ≡ some a
    → lookup k chart ≡ some b
    → a.currency.code ≡ b.currency.code
    → a.currency.exponent ≡ b.currency.exponent

lookup-Agrees :
    (exponents : Dict Text ℕ) (chart : Chart) (k : Text) (a : Account)
    → Agrees exponents chart
    → lookup k chart ≡ some a
    → lookup a.currency.code exponents ≡ some a.currency.exponent
unfolding lookup
lookup-Agrees exponents [] k a h e = cc
lookup-Agrees exponents ((j, b) ∷ chart) k a h e = elim (Bool-cases (k == j)) [
  | inl here ↦
      let found : b ≡ a = eq_of_some (rw here at e) in
      subst (λ (x : Account). lookup x.currency.code exponents ≡ some x.currency.exponent) found h.0
  | inr there ↦ lookup-Agrees exponents chart k a h.1 (rw there at e)
]

Agrees-IsCoherent :
    (exponents : Dict Text ℕ) (chart : Chart) → Agrees exponents chart → IsCoherent chart
Agrees-IsCoherent exponents chart h j k a b ea eb same = eq_of_some (
    sym (lookup-Agrees exponents chart j a h ea)
    ∙ ap (λ c. lookup c exponents) same
    ∙ lookup-Agrees exponents chart k b h eb)

-- What a test on the exponent that is known leaves true of the exponents after it.
abbrev known : Dict Text ℕ → Account → ℕ
known exponents a = get_or a.currency.code a.currency.exponent exponents

insert-Agrees :
    (exponents : Dict Text ℕ) (a : Account) (chart : Chart)
    → Agrees exponents chart
    → Agrees (insert a.currency.code (known exponents a) exponents) chart
unfolding get_or
insert-Agrees exponents a [] h = tt
insert-Agrees exponents a ((k, b) ∷ chart) h = ground (
  arith,
  lookup-insert a.currency.code b.currency.code (known exponents a) exponents,
  insert-Agrees exponents a chart h.1,
)

file-Agrees :
    (exponents : Dict Text ℕ) (a : Account) (chart : Chart)
    → lookup a.currency.code exponents ≡ some a.currency.exponent
    → Agrees exponents chart
    → Agrees exponents (insert a.account_id a chart)
unfolding insert
file-Agrees exponents a [] e h = (e, tt)
file-Agrees exponents a ((k, b) ∷ chart) e h = ground (arith, file-Agrees exponents a chart e h.1)

index_accounts-IsChart :
    (index : Chart) (exponents : Dict Text ℕ) (accounts : List Account) {chart : Chart}
    → IsChart index
    → Agrees exponents index
    → index_accounts index exponents accounts ≡ ok chart
    → IsChart chart × IsCoherent chart
unfolding index_accounts
index_accounts-IsChart index exponents [] {chart} h g e =
    let same : index ≡ chart = ok-injective e in
    rw (← same) (h, Agrees-IsCoherent exponents index g)
index_accounts-IsChart index exponents (a ∷ accounts) h g e =
    let (_, first, e1) = >>=-eq-ok (raise_if (contains a.account_id index) _) _ e in
    let (_, agrees, e2) =
      >>=-eq-ok (raise_if (not (known exponents a == a.currency.exponent)) _) _ e1 in
    index_accounts-IsChart (insert a.account_id a index)
      (insert a.currency.code (known exponents a) exponents) accounts
      (record {
        filed = insert-IsFiled a index h.filed;
        distinct = insert-Distinct a.account_id a index h.distinct;
      })
      (file-Agrees (insert a.currency.code (known exponents a) exponents) a index
        (lookup-insert_self a.currency.code (known exponents a) exponents
          ∙ ap some (eq_of_not_test _ _ (raise_if-ok _ _ agrees)))
        (insert-Agrees exponents a index g))
      e2

-- A chart that the constructor returns files each account once and under its own id, and gives one
-- exponent to every currency code.
pub make_chart-IsChart :
    (accounts : List Account) (chart : Chart)
    → make_chart accounts ≡ ok chart
    → IsChart chart × IsCoherent chart
unfolding make_chart
make_chart-IsChart accounts chart e =
    index_accounts-IsChart [] [] accounts (record { filed = tt; distinct = tt }) tt e

-- In a chart that the constructor returns, accounts whose currencies share a code share the exponent.
pub one_exponent :
    (accounts : List Account) (chart : Chart) (j k : Text) (a b : Account)
    → make_chart accounts ≡ ok chart
    → lookup j chart ≡ some a
    → lookup k chart ≡ some b
    → a.currency.code ≡ b.currency.code
    → a.currency.exponent ≡ b.currency.exponent
one_exponent accounts chart j k a b e = (make_chart-IsChart accounts chart e).1 j k a b
