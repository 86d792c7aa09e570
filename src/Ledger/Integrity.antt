-- ===== src/Ledger/Integrity.antt =====
-- src/ledgergate/ledger/state.py: the ledgers that `execute` builds pass `verify_chain`.
use ledgergate.Base.{
  ℕ, suc, ◌+◌, ◌≡◌, refl, sym, ap, ◌∙◌, subst, true, false, not, Option, none, some, List, [], ◌∷◌,
  ◌++◌, arith, ◌==◌, list_eq, nat_eq, length, test_self,
}
use native.Mathlib.Nat.{add-zero}
use ledgergate.Text.{Text}
use ledgergate.Int.{ℤ, pos, ◌+ℤ◌, int_eq}
use ledgergate.Dict.{Dict, lookup, insert, contains, get_or}
use ledgergate.Dict.Distinct.{Distinct, insert-Distinct, dict_equal_self}
use ledgergate.Errors.{ok, raise_if, ◌>>◌, >>=-eq-ok, ok-injective}
use ledgergate.Ledger.Accounts.{Chart, get_account}
use ledgergate.Ledger.Chart.{IsChart, get_account-id}
use ledgergate.Ledger.Postings.{Posting, EntryDraft, signed_amount, account_order}
use ledgergate.Ledger.Currency.{currency_eq}
use ledgergate.Ledger.Encoding.{
  Platform, Entry, Datetime, recomputed_digest, entry_canonical, compute_digest,
}
use ledgergate.Ledger.EntryEq.{entry_eq}
use ledgergate.Ledger.Commands.{Command, Ledger, empty_ledger, Applied}
use ledgergate.Ledger.Checks.{validate, post_balances, check_funds}
use ledgergate.Ledger.State.{Request, add_reversal, with_entry, new_entry, store_transaction}
use ledgergate.Ledger.Steps.{Step, recalled, posted, stored, replay_of-some}
use ledgergate.Ledger.Verify.{
  Derived, start, add_postings, nonzero, derive_entry, check_link, derive, compare_indexes,
  verify_chain,
}

-- What the indexes of a ledger say.
abbrev pub indexes : Ledger → Derived
indexes l = record {
  previous = l.head;
  balances = l.balances;
  by_id = l.by_id;
  reversals = l.reversals;
}

-- The indexes are what the entries derive, and each holds a key once.
pub record IsSound (platform : Platform) (l : Ledger) : Type 0 where
  pub charted : IsChart l.chart
  pub chained : derive platform 1 start l.entries ≡ ok (indexes l)
  pub balances : Distinct l.balances
  pub by_id : Distinct l.by_id
  pub reversals : Distinct l.reversals

nonzero-absent : (k : Text) (d : Dict Text ℤ) → lookup k d ≡ none → lookup k (nonzero d) ≡ none
unfolding lookup nonzero
nonzero-absent k [] h = refl
nonzero-absent k ((j, v) ∷ d) h = ground (arith, nonzero-absent k d)

nonzero-Distinct : (d : Dict Text ℤ) → Distinct d → Distinct (nonzero d)
unfolding nonzero
nonzero-Distinct [] h = tt
nonzero-Distinct ((k, v) ∷ d) h = ground (arith, nonzero-Distinct d h.1, nonzero-absent k d h.0)

-- A sound ledger passes its own audit.
pub verify_chain-IsSound :
    (platform : Platform) (l : Ledger) → IsSound platform l → verify_chain platform l ≡ ok true
unfolding verify_chain compare_indexes
verify_chain-IsSound platform l h = rw h.chained (
    ground (
      arith,
      test_self l.head,
      dict_equal_self (nonzero l.balances) (nonzero-Distinct l.balances h.balances),
      dict_equal_self l.by_id h.by_id,
      dict_equal_self l.reversals h.reversals,
    ))

-- Validation computes the balances that the audit derives.
pub post_balances-eq :
    (chart : Chart) (balances : Dict Text ℤ) (ps : List Posting) {after : Dict Text ℤ}
    → IsChart chart
    → post_balances chart balances ps ≡ ok after
    → after ≡ add_postings balances ps
unfolding post_balances add_postings
post_balances-eq chart balances [] h e = sym (ok-injective e)
post_balances-eq chart balances (p ∷ ps) {after} h e =
    let (a, found, e1) = >>=-eq-ok (get_account chart p.account_id) _ e in
    let (_, _, e2) = >>=-eq-ok (raise_if (not (a.currency == p.money.currency)) _) _ e1 in
    let next = λ (k : Text). insert k (get_or k (pos 0) balances +ℤ signed_amount p) balances in
    subst (λ k. after ≡ add_postings (next k) ps) (get_account-id chart p.account_id h found).0
      (post_balances-eq chart (next a.account_id) ps h e2)

-- A draft that is valid was posted, and the funds were checked.
pub validate-post_balances :
    (l : Ledger) (draft : EntryDraft) {balances : Dict Text ℤ}
    → validate l draft ≡ ok balances
    → (post_balances l.chart l.balances draft.postings ≡ ok balances)
      × (check_funds l.chart l.balances balances (account_order draft) ≡ ok tt)
unfolding validate
validate-post_balances l draft h =
    let (after, posts, h1) = >>=-eq-ok (post_balances l.chart l.balances draft.postings) _ h in
    let (_, funds, h2) =
      >>=-eq-ok (check_funds l.chart l.balances after (account_order draft)) _ h1 in
    let same : after ≡ _ = ok-injective h2 in
    (
      posts ∙ h2,
      subst (λ b. check_funds l.chart l.balances b (account_order draft) ≡ ok tt) same funds,
    )

module _ (platform : Platform) where
  derive-append :
      (n : ℕ) (d : Derived) (es : List Entry) (e : Entry) {d' : Derived}
      → derive platform n d es ≡ ok d'
      → derive platform n d (es ++ e ∷ [])
        ≡ (check_link platform (n + length es) d' e >> ok (derive_entry d' e))
  unfolding derive
  derive-append n d [] e h =
      let same : d ≡ _ = ok-injective h in
      rw (add-zero n) (ap (λ x. check_link platform n x e >> ok (derive_entry x e)) same)
  derive-append n d (x ∷ es) e {d'} h =
      let (_, first, rest) = >>=-eq-ok (check_link platform n d x) _ h in
      let moved : n + suc (length es) ≡ suc n + length es = omega arith in
      rw (first, moved) (derive-append (suc n) (derive_entry d x) es e rest)

  recomputed_digest-new_entry :
      (l : Ledger) (r : Request) (entry_id : Text) (at : Datetime)
      → let e = new_entry platform l r entry_id at in recomputed_digest platform e ≡ e.digest
  unfolding new_entry recomputed_digest entry_canonical compute_digest
  recomputed_digest-new_entry l r entry_id at = refl

  check_link-passes :
      (n : ℕ) (d : Derived) (e : Entry)
      → e.sequence ≡ n
      → e.previous_hash ≡ d.previous
      → recomputed_digest platform e ≡ e.digest
      → contains e.entry_id d.by_id ≡ false
      → check_link platform n d e ≡ ok tt
  unfolding check_link
  check_link-passes n d e seq link digest new = ground arith

  -- The entry that `_append` makes passes the tests of the audit.
  check_link-new_entry :
      (l : Ledger) (r : Request) (entry_id : Text) (at : Datetime)
      → contains entry_id l.by_id ≡ false
      → check_link platform (1 + length l.entries) (indexes l) (new_entry platform l r entry_id at)
        ≡ ok tt
  unfolding new_entry
  check_link-new_entry l r entry_id at h =
      check_link-passes (1 + length l.entries) (indexes l) (new_entry platform l r entry_id at)
        (omega arith) refl (recomputed_digest-new_entry l r entry_id at) h

  with_entry-chained :
      (l : Ledger) (r : Request) (balances : Dict Text ℤ) (entry_id : Text) (at : Datetime)
      → IsSound platform l
      → contains entry_id l.by_id ≡ false
      → validate l r.draft ≡ ok balances
      → let m = (with_entry platform l r balances (new_entry platform l r entry_id at)).ledger in
        derive platform 1 start m.entries ≡ ok (indexes m)
  unfolding with_entry derive_entry new_entry
  with_entry-chained l r balances entry_id at h new valid =
      let e = new_entry platform l r entry_id at in
      let posts = (validate-post_balances l r.draft valid).0 in
      let same = post_balances-eq l.chart l.balances r.draft.postings h.charted posts in
      derive-append 1 start l.entries e h.chained
      ∙ ap (λ m. m >> ok (derive_entry (indexes l) e)) (check_link-new_entry l r entry_id at new)
      ∙ ap
          (λ (b : Dict Text ℤ).
            ok (record (indexes (with_entry platform l r balances e).ledger) { balances = b }))
          (sym same)

  add_reversal-Distinct :
      (o : Option Text) (entry_id : Text) (d : Dict Text Text)
      → Distinct d
      → Distinct (add_reversal o entry_id d)
  unfolding add_reversal
  add_reversal-Distinct none entry_id d h = h
  add_reversal-Distinct (some id) entry_id d h = insert-Distinct id entry_id d h

  add_postings-Distinct :
      (balances : Dict Text ℤ) (ps : List Posting)
      → Distinct balances
      → Distinct (add_postings balances ps)
  unfolding add_postings
  add_postings-Distinct balances [] h = h
  add_postings-Distinct balances (p ∷ ps) h =
      let step = get_or p.account_id (pos 0) balances +ℤ signed_amount p in
      add_postings-Distinct (insert p.account_id step balances) ps
        (insert-Distinct p.account_id step balances h)

  with_entry-IsSound :
      (l : Ledger) (r : Request) (balances : Dict Text ℤ) (entry_id : Text) (at : Datetime)
      → IsSound platform l
      → contains entry_id l.by_id ≡ false
      → validate l r.draft ≡ ok balances
      → IsSound platform
          (with_entry platform l r balances (new_entry platform l r entry_id at)).ledger
  unfolding with_entry new_entry
  with_entry-IsSound l r balances entry_id at h new valid =
      let posts = (validate-post_balances l r.draft valid).0 in
      let same = post_balances-eq l.chart l.balances r.draft.postings h.charted posts in
      record {
        charted = h.charted;
        chained = with_entry-chained l r balances entry_id at h new valid;
        balances = rw same (add_postings-Distinct l.balances r.draft.postings h.balances);
        by_id = insert-Distinct entry_id (new_entry platform l r entry_id at) l.by_id h.by_id;
        reversals = add_reversal-Distinct r.reverses entry_id l.reversals h.reversals;
      }

  pub Step-IsSound :
      (l : Ledger) (c : Command) (a : Applied)
      → Step platform l c a
      → IsSound platform l
      → IsSound platform a.ledger
  unfolding store_transaction
  Step-IsSound l c a (recalled e) h = subst (IsSound platform) (sym (replay_of-some l _ _ a e).0) h
  Step-IsSound l c a (posted r _ _ p) h =
      subst (λ (x : Applied). IsSound platform x.ledger) (sym p.result)
        (with_entry-IsSound l r p.balances p.entry_id p.posted_at h p.new_id p.valid)
  Step-IsSound l c a (stored t _ _ _ e) h =
      subst (λ (x : Applied). IsSound platform x.ledger) (sym e)
        (record {
          charted = h.charted;
          chained = h.chained;
          balances = h.balances;
          by_id = h.by_id;
          reversals = h.reversals;
        })

pub empty_ledger-IsSound :
    (platform : Platform) (chart : Chart) → IsChart chart → IsSound platform (empty_ledger chart)
unfolding empty_ledger derive
empty_ledger-IsSound platform chart h = record {
  charted = h;
  chained = refl;
  balances = tt;
  by_id = tt;
  reversals = tt;
}
