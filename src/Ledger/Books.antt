-- ===== src/Ledger/Books.antt =====
-- src/ledgergate/ledger/state.py: what the balances mean. Each is the sum of the postings to its
-- account, and in every currency all of them together come to nothing.
use ledgergate.Base.{
  ℕ, suc, ◌≡◌, refl, sym, ap, ◌∙◌, subst, Bool, true, false, not, none, some, List, [], ◌∷◌, arith,
  ◌==◌, if◌then◌else◌, list_eq, nat_eq, test_self, Bool-cases, inl, inr, eq_of_test, eq_of_not_test,
  eq_of_some, not_test_sym,
}
use mathlib.Core.Path.{fun_ext}
use ledgergate.Text.{Text}
use ledgergate.Int.{ℤ, pos, ◌+ℤ◌, int_eq, int_laws, +ℤ_assoc, zero-+ℤ}
use ledgergate.Dict.{Dict, lookup, insert, get_or, get_or-insert}
use ledgergate.Dict.Distinct.{Distinct}
use ledgergate.Errors.{ok, raise_if, raise_if-ok, >>=-eq-ok, ok-injective}
use ledgergate.Ledger.Currency.{Currency, currency_eq}
use ledgergate.Ledger.Accounts.{Account, Chart, get_account, make_chart}
use ledgergate.Ledger.Chart.{IsChart, get_account-id, make_chart-IsChart}
use ledgergate.Ledger.Postings.{Posting, signed_amount}
use ledgergate.Ledger.Balance.{net_of, raise_one}
use ledgergate.Ledger.Encoding.{Platform, Entry}
use ledgergate.Ledger.Commands.{Command, Ledger, empty_ledger, Applied}
use ledgergate.Ledger.Checks.{post_balances}
use ledgergate.Ledger.State.{Effects, with_entry, store_transaction}
use ledgergate.Ledger.Steps.{Step, recalled, posted, stored, replay_of-some}
use ledgergate.Ledger.Verify.{Derived, start, add_postings, derive_entry, check_link, derive}
use ledgergate.Ledger.Integrity.{validate-post_balances}
use ledgergate.Ledger.Reach.{Reach, Reach_induction, Reach-IsSound}

-- Debits less credits of one account.
abbrev pub moved_of : Text → List Posting → ℤ
moved_of k [] = pos 0
moved_of k (p ∷ ps) = (if p.account_id == k then signed_amount p else pos 0) +ℤ moved_of k ps

-- The same over all entries.
abbrev pub posted_to : Text → List Entry → ℤ
posted_to k [] = pos 0
posted_to k (e ∷ es) = moved_of k e.draft.postings +ℤ posted_to k es

pub get_or-add_postings :
    (k : Text) (balances : Dict Text ℤ) (ps : List Posting)
    → get_or k (pos 0) (add_postings balances ps) ≡ get_or k (pos 0) balances +ℤ moved_of k ps
unfolding add_postings
get_or-add_postings k balances [] = omega int_laws
get_or-add_postings k balances (p ∷ ps) =
    let j = p.account_id in
    let step = get_or j (pos 0) balances +ℤ signed_amount p in
    rw (get_or-add_postings k (insert j step balances) ps, get_or-insert j k step (pos 0) balances)
      (raise_one k j (λ i. get_or i (pos 0) balances) (signed_amount p) (moved_of k ps))

get_or-derive :
    (platform : Platform) (k : Text) (n : ℕ) (d : Derived) (es : List Entry) {d' : Derived}
    → derive platform n d es ≡ ok d'
    → get_or k (pos 0) d'.balances ≡ get_or k (pos 0) d.balances +ℤ posted_to k es
unfolding derive derive_entry
get_or-derive platform k n d [] h =
    sym (ap (λ (x : Derived). get_or k (pos 0) x.balances) (ok-injective h)) ∙ omega int_laws
get_or-derive platform k n d (e ∷ es) h =
    let (_, _, rest) = >>=-eq-ok (check_link platform n d e) _ h in
    get_or-derive platform k (suc n) (derive_entry d e) es rest
    ∙ ap (λ x. x +ℤ posted_to k es) (get_or-add_postings k d.balances e.draft.postings)
    ∙ +ℤ_assoc (get_or k (pos 0) d.balances) (moved_of k e.draft.postings) (posted_to k es)

-- Over a chart, the sum of a reading of the accounts in one currency.
abbrev pub chart_sum : Currency → (Text → ℤ) → Chart → ℤ
chart_sum c f [] = pos 0
chart_sum c f ((k, a) ∷ chart) = (if a.currency == c then f k else pos 0) +ℤ chart_sum c f chart

abbrev raised : (Text → ℤ) → Text → ℤ → Text → ℤ
raised f k x j = if j == k then f k +ℤ x else f j

chart_sum-absent :
    (c : Currency) (f : Text → ℤ) (k : Text) (x : ℤ) (chart : Chart)
    → lookup k chart ≡ none
    → chart_sum c (raised f k x) chart ≡ chart_sum c f chart
unfolding lookup
chart_sum-absent c f k x [] h = refl
chart_sum-absent c f k x ((j, a) ∷ chart) h =
    ground (arith, chart_sum-absent c f k x chart, test_self k)

shift :
    (t : Bool) (u x s : ℤ)
    → (if t then u +ℤ x else pos 0) +ℤ s
      ≡ (if t then x else pos 0) +ℤ ((if t then u else pos 0) +ℤ s)
shift true u x s = omega int_laws
shift false u x s = omega int_laws

swap_head : (u y s : ℤ) → u +ℤ (y +ℤ s) ≡ y +ℤ (u +ℤ s)
swap_head u y s = omega int_laws

chart_sum-raised :
    (c : Currency) (f : Text → ℤ) (k : Text) (x : ℤ) (chart : Chart) (a : Account)
    → Distinct chart
    → lookup k chart ≡ some a
    → chart_sum c (raised f k x) chart
      ≡ (if a.currency == c then x else pos 0) +ℤ chart_sum c f chart
unfolding lookup
chart_sum-raised c f k x [] a d h = cc
chart_sum-raised c f k x ((j, b) ∷ chart) a d h = elim (Bool-cases (k == j)) [
  | inl same ↦
      let here : b ≡ a = eq_of_some (rw same at h) in
      let key = eq_of_test k j same in
      rw
        (
          chart_sum-absent c f k x chart (ap (λ i. lookup i chart) key ∙ d.0),
          here,
          ← key,
          test_self k,
        )
        (shift (a.currency == c) (f k) x (chart_sum c f chart))
  | inr other ↦
      rw (chart_sum-raised c f k x chart a d.1 (rw other at h), not_test_sym k j other)
        (swap_head (if b.currency == c then f j else pos 0) (if a.currency == c then x else pos 0)
          (chart_sum c f chart))
]

abbrev pub read : Dict Text ℤ → Text → ℤ
read balances k = get_or k (pos 0) balances

chart_sum-insert :
    (c : Currency) (balances : Dict Text ℤ) (k : Text) (x : ℤ) (chart : Chart) (a : Account)
    → Distinct chart
    → lookup k chart ≡ some a
    → chart_sum c (read (insert k (read balances k +ℤ x) balances)) chart
      ≡ (if a.currency == c then x else pos 0) +ℤ chart_sum c (read balances) chart
chart_sum-insert c balances k x chart a d h =
    ap (λ f. chart_sum c f chart)
      (fun_ext λ j. get_or-insert k j (read balances k +ℤ x) (pos 0) balances)
    ∙ chart_sum-raised c (read balances) k x chart a d h

-- Posting raises the sum in a currency by the net of the postings in it.
chart_sum-post_balances :
    (c : Currency) (chart : Chart) (balances : Dict Text ℤ) (ps : List Posting)
    {after : Dict Text ℤ}
    → IsChart chart
    → post_balances chart balances ps ≡ ok after
    → chart_sum c (read after) chart ≡ net_of c ps +ℤ chart_sum c (read balances) chart
unfolding post_balances
chart_sum-post_balances c chart balances [] h e =
    sym (ap (λ b. chart_sum c (read b) chart) (ok-injective e)) ∙ omega int_laws
chart_sum-post_balances c chart balances (p ∷ ps) h e =
    let (a, found, e1) = >>=-eq-ok (get_account chart p.account_id) _ e in
    let (_, matches, e2) = >>=-eq-ok (raise_if (not (a.currency == p.money.currency)) _) _ e1 in
    let (named, here) = get_account-id chart p.account_id h found in
    let same = eq_of_not_test a.currency p.money.currency (raise_if-ok _ _ matches) in
    let step = insert a.account_id (read balances a.account_id +ℤ signed_amount p) balances in
    chart_sum-post_balances c chart step ps h e2
    ∙ ap (λ x. net_of c ps +ℤ x)
        (chart_sum-insert c balances a.account_id (signed_amount p) chart a h.distinct
          (ap (λ k. lookup k chart) named ∙ here))
    ∙ rw same (
        regroup (net_of c ps) (if p.money.currency == c then signed_amount p else pos 0)
          (chart_sum c (read balances) chart))
  where
    regroup : (n x s : ℤ) → n +ℤ (x +ℤ s) ≡ x +ℤ n +ℤ s
    regroup n x s = omega int_laws

-- In every currency the balances of the chart's accounts come to nothing together.
abbrev pub SumsToZero : Ledger → Type 0
SumsToZero l = IsChart l.chart × ((c : Currency) → chart_sum c (read l.balances) l.chart ≡ pos 0)

chart_sum-empty : (c : Currency) (chart : Chart) → chart_sum c (read []) chart ≡ pos 0
unfolding get_or lookup
chart_sum-empty c [] = refl
chart_sum-empty c ((k, a) ∷ chart) = rw (chart_sum-empty c chart) (split (a.currency == c))
  where
    split : (t : Bool) → (if t then pos 0 else pos 0) +ℤ pos 0 ≡ pos 0
    split true = omega int_laws
    split false = omega int_laws

empty_ledger-SumsToZero : (chart : Chart) → IsChart chart → SumsToZero (empty_ledger chart)
unfolding empty_ledger
empty_ledger-SumsToZero chart h = (h, λ c. chart_sum-empty c chart)

Step-SumsToZero :
    (platform : Platform) (l : Ledger) (c : Command) (a : Applied)
    → Step platform l c a
    → SumsToZero l
    → SumsToZero a.ledger
unfolding with_entry store_transaction
Step-SumsToZero platform l c a (recalled e) h =
    subst SumsToZero (sym (replay_of-some l _ _ a e).0) h
Step-SumsToZero platform l c a (posted r _ f p) h =
    let posts = (validate-post_balances l r.draft p.valid).0 in
    subst (λ (x : Applied). SumsToZero x.ledger) (sym p.result)
      (
        h.0,
        λ k.
            chart_sum-post_balances k l.chart l.balances r.draft.postings h.0 posts
            ∙ rw (f.drafted.balanced k, h.1 k) (omega int_laws),
      )
Step-SumsToZero platform l c a (stored t _ _ _ e) h =
    subst (λ (x : Applied). SumsToZero x.ledger) (sym e) h

module _ (platform : Platform) {W : Type 0} (effects : Effects W) where
  pub Reach-SumsToZero :
      {chart : Chart} {l : Ledger}
      → IsChart chart
      → Reach platform effects (empty_ledger chart) l
      → SumsToZero l
  Reach-SumsToZero {chart} h r =
      Reach_induction platform effects SumsToZero (Step-SumsToZero platform)
        (empty_ledger-SumsToZero chart h) r

  -- At every ledger that calls of `execute` lead to, the stored balance of any account is the sum of
  -- the signed amounts that the entries post to it.
  pub balance-posted_to :
      (accounts : List Account) {chart : Chart} {l : Ledger} (k : Text)
      → make_chart accounts ≡ ok chart
      → Reach platform effects (empty_ledger chart) l
      → get_or k (pos 0) l.balances ≡ posted_to k l.entries
  unfolding get_or lookup
  balance-posted_to accounts {chart} {l} k made r =
      let sound = Reach-IsSound platform effects (make_chart-IsChart accounts chart made).0 r in
      get_or-derive platform k 1 start l.entries sound.chained ∙ zero-+ℤ (posted_to k l.entries)
