-- ===== src/Ledger/Funds.antt =====
-- src/ledgergate/ledger/state.py: an account that may not go below zero never does.
use ledgergate.Base.{
  ◌≡◌, refl, sym, ap, ◌∙◌, subst, Bool, true, false, ◌||◌, some, List, [], ◌∷◌, arith, ◌==◌,
  if◌then◌else◌, list_eq, nat_eq, Bool-cases, inl, inr, eq_of_test, eq_of_some, not_test_sym, map,
  any,
}
use ledgergate.Text.{Text}
use ledgergate.Int.{ℤ, pos, neg, ◌+ℤ◌, ◌≤ℤ◌, ltb_ℤ, int_eq, int_laws}
use ledgergate.Dict.{Dict, lookup, insert, get_or, contains, contains-insert}
use ledgergate.Errors.{ok, raise_if, raise_if-ok, >>=-eq-ok}
use ledgergate.Ledger.Accounts.{
  Side, debit, credit, Account, Chart, get_account, normal_side, times_sign, make_chart,
}
use ledgergate.Ledger.Chart.{IsChart, make_chart-IsChart}
use ledgergate.Ledger.Postings.{Posting, EntryDraft, distinct_from, account_order}
use ledgergate.Ledger.Encoding.{Platform}
use ledgergate.Ledger.Commands.{Command, Ledger, empty_ledger, Applied}
use ledgergate.Ledger.Checks.{validate, check_funds}
use ledgergate.Ledger.State.{Effects, with_entry, store_transaction}
use ledgergate.Ledger.Steps.{Step, recalled, posted, stored, replay_of-some}
use ledgergate.Ledger.Integrity.{validate-post_balances, post_balances-eq}
use ledgergate.Ledger.Reach.{Reach, Reach_induction}
use ledgergate.Ledger.Books.{moved_of, read, get_or-add_postings}

-- The balance on the account's normal side.
abbrev pub normal : Account → ℤ → ℤ
normal a n = times_sign (normal_side a.kind) n

abbrev pub IsSolvent : Dict Text ℤ → Chart → Type 0
IsSolvent balances chart =
    (k : Text) (a : Account)
    → lookup k chart ≡ some a
    → a.allow_negative ≡ false
    → pos 0 ≤ℤ normal a (read balances k)

abbrev empty_seen : Dict Text (Unit {0})
empty_seen = []

contains-distinct_from :
    (k : Text) (seen : Dict Text (Unit {0})) (ks : List Text)
    → contains k (distinct_from seen ks) ≡ (contains k seen || any (λ j. k == j) ks)
unfolding distinct_from
contains-distinct_from k seen [] = ground arith
contains-distinct_from k seen (j ∷ ks) =
    ground (arith, contains-distinct_from k (insert j tt seen) ks, contains-insert j k tt seen)

any-keys :
    (k : Text) (d : Dict Text (Unit {0})) → any (λ j. k == j) (map (λ e. e.0) d) ≡ contains k d
unfolding contains lookup
any-keys k [] = refl
any-keys k ((j, v) ∷ d) = ground (arith, any-keys k d)

contains-empty : (k : Text) (b : Bool) → (contains k (empty_seen) || b) ≡ b
unfolding contains lookup
contains-empty k b = refl

any-account_order :
    (k : Text) (d : EntryDraft)
    → any (λ j. k == j) (account_order d)
      ≡ any (λ j. k == j) (map (λ (p : Posting). p.account_id) d.postings)
unfolding account_order
any-account_order k d =
    any-keys k (distinct_from [] (map (λ (p : Posting). p.account_id) d.postings))
    ∙ contains-distinct_from k [] (map (λ (p : Posting). p.account_id) d.postings)
    ∙ contains-empty k _

neither : (a b : Bool) → (a || b) ≡ false → (a ≡ false) × (b ≡ false)
neither a b h = ground arith

moved_of-absent :
    (k : Text) (ps : List Posting)
    → any (λ j. k == j) (map (λ (p : Posting). p.account_id) ps) ≡ false
    → moved_of k ps ≡ pos 0
moved_of-absent k [] h = refl
moved_of-absent k (p ∷ ps) h =
    let (first, rest) = neither (k == p.account_id) _ h in
    rw (not_test_sym k p.account_id first, moved_of-absent k ps rest) (omega int_laws)

get_account-lookup :
    (chart : Chart) (k : Text) {a : Account} → get_account chart k ≡ ok a → lookup k chart ≡ some a
unfolding get_account
get_account-lookup chart k h = ground arith

solvent_here :
    (a : Account) (n : ℤ)
    → (if a.allow_negative then false else ltb_ℤ (normal a n) (pos 0)) ≡ false
    → a.allow_negative ≡ false
    → pos 0 ≤ℤ normal a n
solvent_here a n h e = not_below (normal a n) (rw e at h)
  where
    not_below : (x : ℤ) → ltb_ℤ x (pos 0) ≡ false → pos 0 ≤ℤ x
    not_below x h = ground arith

check_funds-sound :
    (chart : Chart) (before after : Dict Text ℤ) (ids : List Text) (k : Text) (a : Account)
    → check_funds chart before after ids ≡ ok tt
    → any (λ j. k == j) ids ≡ true
    → lookup k chart ≡ some a
    → a.allow_negative ≡ false
    → pos 0 ≤ℤ normal a (read after k)
unfolding check_funds get_account
check_funds-sound chart before after [] k a h m e n = cc
check_funds-sound chart before after (j ∷ ids) k a h m e n =
    let (b, found, h1) = >>=-eq-ok (get_account chart j) _ h in
    let (_, funded, h2) =
      >>=-eq-ok
        (raise_if (if b.allow_negative then false else ltb_ℤ (normal b (read after j)) (pos 0)) _) _
        h1 in
    elim (Bool-cases (k == j)) [
      | inl same ↦
          let key = eq_of_test k j same in
          let owner : b ≡ a =
            eq_of_some
              (sym (get_account-lookup chart j found) ∙ ap (λ i. lookup i chart) (sym key) ∙ e) in
          solvent_here a (read after k)
            (ap
                (λ (x : Account × Text).
                  if x.0.allow_negative then false else ltb_ℤ (normal x.0 (read after x.1)) (pos 0))
                (λ i. (sym owner i, key i))
              ∙ raise_if-ok _ _ funded)
            n
      | inr other ↦ check_funds-sound chart before after ids k a h2 (rw other at m) e n
    ]

-- A valid draft leaves every account that may not go below zero at zero or above.
validate-IsSolvent :
    (l : Ledger) (d : EntryDraft) {after : Dict Text ℤ}
    → IsChart l.chart
    → validate l d ≡ ok after
    → IsSolvent l.balances l.chart
    → IsSolvent after l.chart
validate-IsSolvent l d {after} h v before k a e n =
    let (posts, funds) = validate-post_balances l d v in
    let ids = map (λ (p : Posting). p.account_id) d.postings in
    elim (Bool-cases (any (λ j. k == j) ids)) [
      | inl touched ↦
          check_funds-sound l.chart l.balances after (account_order d) k a funds
            (any-account_order k d ∙ touched) e n
      | inr untouched ↦
          let same : read after k ≡ read l.balances k =
            ap (λ b. read b k) (post_balances-eq l.chart l.balances d.postings h posts)
            ∙ get_or-add_postings k l.balances d.postings
            ∙ ap (λ x. read l.balances k +ℤ x) (moved_of-absent k d.postings untouched)
            ∙ omega int_laws in
          subst (λ x. pos 0 ≤ℤ normal a x) (sym same) (before k a e n)
    ]

abbrev HasFunds : Ledger → Type 0
HasFunds l = IsChart l.chart × IsSolvent l.balances l.chart

Step-HasFunds :
    (platform : Platform) (l : Ledger) (c : Command) (a : Applied)
    → Step platform l c a
    → HasFunds l
    → HasFunds a.ledger
unfolding with_entry store_transaction
Step-HasFunds platform l c a (recalled e) h = subst HasFunds (sym (replay_of-some l _ _ a e).0) h
Step-HasFunds platform l c a (posted r _ f p) h =
    subst (λ (x : Applied). HasFunds x.ledger) (sym p.result)
      (h.0, validate-IsSolvent l r.draft h.0 p.valid h.1)
Step-HasFunds platform l c a (stored t _ _ _ e) h =
    subst (λ (x : Applied). HasFunds x.ledger) (sym e) h

nothing_owed : (s : Side) → pos 0 ≤ℤ times_sign s (pos 0)
unfolding times_sign neg
nothing_owed debit = omega arith
nothing_owed credit = omega arith

empty_ledger-HasFunds : (chart : Chart) → IsChart chart → HasFunds (empty_ledger chart)
unfolding empty_ledger get_or lookup
empty_ledger-HasFunds chart h = (h, λ k a e n. nothing_owed (normal_side a.kind))

module _ (platform : Platform) {W : Type 0} (effects : Effects W) where
  -- At every ledger that calls of `execute` lead to, an account of the chart that does not allow a
  -- negative balance has a balance of zero or more on its normal side.
  pub no_overdraft :
      (accounts : List Account) {chart : Chart} {l : Ledger} (k : Text) (a : Account)
      → make_chart accounts ≡ ok chart
      → Reach platform effects (empty_ledger chart) l
      → lookup k l.chart ≡ some a
      → a.allow_negative ≡ false
      → pos 0 ≤ℤ times_sign (normal_side a.kind) (get_or k (pos 0) l.balances)
  no_overdraft accounts {chart} k a made r =
      (Reach_induction platform effects HasFunds (Step-HasFunds platform)
          (empty_ledger-HasFunds chart (make_chart-IsChart accounts chart made).0) r).1
        k a
